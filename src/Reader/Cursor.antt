-- ===== src/Reader/Cursor.antt =====
-- The cursors that `parse_xread` advances.
use keylens.Base.{
  ℕ, ◌<◌, ◌≡◌, refl, ◌∙◌, List, [], Option, some, length, length-set, get_elem?, get_elem?-set_self,
}
use keylens.Base.Text.{or_empty, Text}
use keylens.Conn.Value.{Value, array, map_value, Values, nil, cons, entry, no_entry}
use keylens.Reader.{
  Progress, read_entry, read_entries, read_streams, parse_xread, as_text, key_position,
}

abbrev append_values : Values → Values → Values
append_values nil ys = ys
append_values (cons x xs) ys = cons x (append_values xs ys)

module _ (as_string : Value → Option Text) where
  read_entries-append :
      (idx : ℕ) (queue : Text) (xs ys : Values) (p : Progress)
      → read_entries as_string idx queue (append_values xs ys) p
        ≡ read_entries as_string idx queue ys (read_entries as_string idx queue xs p)
  unfolding read_entries
  read_entries-append idx queue nil ys p = refl
  read_entries-append idx queue (cons x xs) ys p =
      read_entries-append idx queue xs ys (read_entry as_string idx queue x p)

  length-read_entry :
      (idx : ℕ) (queue : Text) (v : Value) (p : Progress)
      → length (read_entry as_string idx queue v p).ids ≡ length p.ids
  unfolding read_entry
  length-read_entry idx queue (array (cons id (cons fields nil))) p =
      length-set p.ids idx (as_text as_string id)
  length-read_entry idx queue (array nil) p = refl
  length-read_entry idx queue (array (cons id nil)) p = refl
  length-read_entry idx queue (array (cons id (cons fields (cons x r)))) p = refl
  length-read_entry idx queue (map_value es) p = refl
  length-read_entry idx queue v p = refl

  length-read_entries :
      (idx : ℕ) (queue : Text) (xs : Values) (p : Progress)
      → length (read_entries as_string idx queue xs p).ids ≡ length p.ids
  unfolding read_entries
  length-read_entries idx queue nil p = refl
  length-read_entries idx queue (cons x xs) p =
      length-read_entries idx queue xs (read_entry as_string idx queue x p)
      ∙ length-read_entry idx queue x p

  -- The two shapes of a reply that carries the entries of one stream.
  abbrev pub resp2 : Value → Values → Value
  resp2 key entries = array (cons (array (cons key (cons (array entries) nil))) nil)

  abbrev pub resp3 : Value → Values → Value
  resp3 key entries = map_value (entry (some (as_text as_string key)) (array entries) no_entry)

  read_entries-cursor :
      (queue : Text) (idx : ℕ) (before : Values) (id fields : Value) (p : Progress)
      → idx < length p.ids
      → let entries = append_values before (cons (array (cons id (cons fields nil))) nil) in
        get_elem? (read_entries as_string idx queue entries p).ids idx ≡ some (as_text as_string id)
  read_entries-cursor queue idx before id fields p l =
      let last : Value = array (cons id (cons fields nil)) in
      let grown = read_entries as_string idx queue before p in
      let long : idx < length grown.ids = rw (length-read_entries idx queue before p) l in
      rw (read_entries-append idx queue before (cons last nil) p) (
        unfold read_entries read_entry in
        get_elem?-set_self grown.ids idx (as_text as_string id) long)

  -- A reply on one watched stream whose last entry is an id with its fields, in the array shape of
  -- RESP2 and in the map shape of RESP3, leaves the stream's cursor at that id, even when neither
  -- that entry nor an earlier one can be classified.
  pub cursor_advances :
      (keys queues ids : List Text) (key : Value) (idx : ℕ) (before : Values) (id fields : Value)
      → key_position (as_text as_string key) keys ≡ some idx
      → idx < length ids
      → let entries = append_values before (cons (array (cons id (cons fields nil))) nil) in
        (get_elem? (parse_xread as_string (resp2 key entries) keys queues ids).ids idx
          ≡ some (as_text as_string id))
        × (get_elem? (parse_xread as_string (resp3 key entries) keys queues ids).ids idx
            ≡ some (as_text as_string id))
  unfolding parse_xread read_streams
  cursor_advances keys queues ids key idx before id fields e l =
      let start : Progress = record { ids = ids; gathered = [] } in
      let cursor =
        read_entries-cursor (or_empty (get_elem? queues idx)) idx before id fields start l in
      (rw e cursor, rw e cursor)
