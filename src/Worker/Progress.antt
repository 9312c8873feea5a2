-- ===== src/Worker/Progress.antt =====
-- What repeated batches of a scan deliver, and what a failed page costs.
use keylens.Base.{
  none, some, ℕ, zero, suc, ◌≤◌, ◌<◌, ◌≡◌, refl, ap, ◌∙◌, Bool, true, false, List, [], ◌∷◌, ◌++◌,
  some, arith, length, length-append, ltb, append_assoc, append-nil, Bool-cases, inl, inr, ◌⊎◌,
}
use keylens.Base.Text.{Text, codes}
use keylens.Conn.Error.{ClientError, ConnError, command_error}
use keylens.Conn.Value.{Client}
use keylens.Conn.Program.{done}
use keylens.Conn.Command.{Conn}
use keylens.BullMq.Fields.{Json}
use keylens.App.{error_update}
use keylens.Worker.Requests.{scan_batch}
use keylens.Conn.Scan.{Scanned, page_of_keys, scan_failed, texts}
use keylens.Worker.{Worker, Gathered, gathered, broken, gather, batch_target, max_pages_per_batch}

-- The keys that a scanner has yet to yield, when no page of it fails.
abbrev pub page_texts : List Scanned → List Text
page_texts [] = []
page_texts (page_of_keys keys ∷ scan) = texts keys ++ page_texts scan
page_texts (scan_failed e ∷ scan) = []

abbrev pub NeverFails : List Scanned → Type 0
NeverFails [] = Unit
NeverFails (page_of_keys keys ∷ scan) = NeverFails scan
NeverFails (scan_failed e ∷ scan) = ⊥

-- A worker with this left to scan.
abbrev pub at : List Scanned → Bool → Worker → Worker
at scan is_complete w = record w { scanner = some scan; is_complete = is_complete }

-- Where a batch cuts a scan: its keys, its pages, what is left, and whether that is known to be the
-- end.
record Cut (left : ℕ) (w : Worker) (scan : List Scanned) (keys : List Text) (pages : ℕ)
    : Type 0 where
  taken : List Text
  page_count : ℕ
  rest : List Scanned
  ended : Bool
  outcome : gather left (at scan false w) keys pages ≡ (gathered taken page_count, at rest ended w)
  whole : taken ++ page_texts rest ≡ keys ++ page_texts scan
  never_fails : NeverFails rest
  shorter : length rest ≤ length scan
  end_is_end : (ended ≡ false) ⊎ (rest ≡ [])

module _ (w : Worker) where
  stopped :
      (left : ℕ) (scan : List Scanned) (keys : List Text) (pages : ℕ)
      → NeverFails scan
      → gather left (at scan false w) keys pages ≡ (gathered keys pages, at scan false w)
      → Cut left w scan keys pages
  stopped left scan keys pages n e = record {
    taken = keys;
    page_count = pages;
    rest = scan;
    ended = false;
    outcome = e;
    whole = refl;
    never_fails = n;
    shorter = omega arith;
    end_is_end = inl refl;
  }

  cut :
      (left : ℕ) (scan : List Scanned) (keys : List Text) (pages : ℕ)
      → NeverFails scan
      → Cut left w scan keys pages
  unfolding gather
  cut zero scan keys pages n = stopped zero scan keys pages n refl
  cut (suc left) [] keys pages n = elim (Bool-cases (ltb (length keys) batch_target)) [
    | inl e ↦ record {
      taken = keys;
      page_count = pages;
      rest = [];
      ended = true;
      outcome = rw e;
      whole = refl;
      never_fails = tt;
      shorter = omega arith;
      end_is_end = inr refl;
    }
    | inr e ↦ stopped (suc left) [] keys pages n (rw e)
  ]
  cut (suc left) (page_of_keys page ∷ scan) keys pages n =
      let c : Cut left w scan (keys ++ texts page) (suc pages) =
        cut left scan (keys ++ texts page) (suc pages) n in
      elim (Bool-cases (ltb (length keys) batch_target)) [
        | inl e ↦ record {
          taken = c.taken;
          page_count = c.page_count;
          rest = c.rest;
          ended = c.ended;
          outcome = rw e c.outcome;
          whole = c.whole ∙ append_assoc keys (texts page) (page_texts scan);
          never_fails = c.never_fails;
          shorter = omega (arith, c.shorter);
          end_is_end = c.end_is_end;
        }
        | inr e ↦ stopped (suc left) (page_of_keys page ∷ scan) keys pages n (rw e)
      ]
  cut (suc left) (scan_failed e ∷ scan) keys pages n = elim n [ ]

abbrev pub keys_of : Gathered → List Text
keys_of (gathered keys pages) = keys
keys_of (broken e) = []

-- The keys of `n` batches in a row, and the worker behind them.
unfoldable pub batches : ℕ → Worker → List Text × Worker
batches zero w = ([], w)
batches (suc n) w =
    let (g, w') = gather max_pages_per_batch w [] 0 in
    let (keys, w'') = batches n w' in (keys_of g ++ keys, w'')

module _ (w : Worker) where
  batches_complete : (n : ℕ) → batches n (at [] true w) ≡ ([], at [] true w)
  unfolding batches gather
  batches_complete zero = refl
  batches_complete (suc n) = rw (batches_complete n)

  -- One batch, and then the others.
  batches-suc :
      (n : ℕ) (v v' : Worker) (keys rest : List Text) (pages : ℕ) (u : Worker)
      → gather max_pages_per_batch v [] 0 ≡ (gathered keys pages, v')
      → batches n v' ≡ (rest, u)
      → batches (suc n) v ≡ (keys ++ rest, u)
  unfolding batches
  batches-suc n v v' keys rest pages u g b = rw g (rw b)

  deliver :
      (n : ℕ) (scan : List Scanned) (ended : Bool)
      → NeverFails scan
      → length scan < n
      → (ended ≡ false) ⊎ (scan ≡ [])
      → batches n (at scan ended w) ≡ (page_texts scan, at [] true w)
  deliver zero scan ended nf lt e = elim lt [ ]
  deliver (suc n) scan true nf lt (inl e) = ground arith
  deliver (suc n) scan true nf lt (inr e) = rw e (batches_complete (suc n))
  deliver (suc n) [] false nf lt e =
      batches-suc n (at [] false w) (at [] true w) [] [] 0 (at [] true w) (unfold gather in refl)
        (batches_complete n)
  deliver (suc n) (page_of_keys page ∷ scan) false nf lt e =
      let c : Cut 39 w scan (texts page) 1 = cut w 39 scan (texts page) 1 nf in
      batches-suc n (at (page_of_keys page ∷ scan) false w) (at c.rest c.ended w) c.taken
        (page_texts c.rest) c.page_count (at [] true w) (unfold gather in c.outcome)
        (deliver n c.rest c.ended c.never_fails (omega (arith, c.shorter)) c.end_is_end)
      ∙ ap (λ keys. (keys, at [] true w)) c.whole
  deliver (suc n) (scan_failed x ∷ scan) false nf lt e = elim nf [ ]

  -- When no page of a scan fails, batches deliver every key of it, each once and in order, and end
  -- in a worker that knows the scan to be complete, once there is a batch more than pages.
  pub batches_deliver :
      (n : ℕ) (scan : List Scanned)
      → NeverFails scan
      → length scan < n
      → batches n (at scan false w) ≡ (page_texts scan, at [] true w)
  batches_deliver n scan nf lt = deliver n scan false nf lt (inl refl)

  fails :
      (left : ℕ) (before : List Scanned) (e : ClientError) (scan : List Scanned) (keys : List Text)
      (pages : ℕ)
      → NeverFails before
      → length before < left
      → length (keys ++ page_texts before) < batch_target
      → gather left (at (before ++ scan_failed e ∷ scan) false w) keys pages
        ≡ (broken (command_error (codes "SCAN") e), at scan false w)
  unfolding gather
  fails zero before e scan keys pages nf l k = elim l [ ]
  fails (suc left) [] e scan keys pages nf l k =
      let lt : ltb (length keys) batch_target ≡ true =
        ground (arith, ap length (append-nil keys)) in
      rw lt
  fails (suc left) (page_of_keys page ∷ before) e scan keys pages nf l k =
      let lt : ltb (length keys) batch_target ≡ true =
        ground (arith, length-append keys (texts page ++ page_texts before)) in
      let assoc : length ((keys ++ texts page) ++ page_texts before)
          ≡ length (keys ++ (texts page ++ page_texts before)) =
        ap length (append_assoc keys (texts page) (page_texts before)) in
      rw lt (
        fails left before e scan (keys ++ texts page) (suc pages) nf (omega arith)
          (omega (arith, assoc)))
  fails (suc left) (scan_failed x ∷ before) e scan keys pages nf l k = elim nf [ ]

  -- A page that fails in the middle of a batch: the update for the batch is the error of that page,
  -- the worker stands behind the failed page, and the batches that follow deliver the keys of the
  -- pages behind it alone, so that none delivers the keys of the pages before it.
  pub failed_page_drops :
      (client : Client) (json : Json) (show_error : ConnError → Text) (conn : Conn) (reset : Bool)
      (before : List Scanned) (e : ClientError) (scan : List Scanned) (n : ℕ)
      → NeverFails before
      → NeverFails scan
      → length before < max_pages_per_batch
      → length (page_texts before) < batch_target
      → length scan < n
      → (scan_batch client json show_error conn (at (before ++ scan_failed e ∷ scan) false w) reset
          ≡ done (record {
            worker = at scan false w;
            update = some (error_update (show_error (command_error (codes "SCAN") e)));
            spawned = none;
            aborted = none;
          }))
        × (batches n (at scan false w) ≡ (page_texts scan, at [] true w))
  unfolding scan_batch
  failed_page_drops client json show_error conn reset before e scan n nb ns l k lt =
      (rw (fails max_pages_per_batch before e scan [] 0 nb l k), batches_deliver n scan ns lt)
