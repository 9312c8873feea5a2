-- ===== src/Worker/Examples.antt =====
-- The worker with the client and the server of Conn/Sample, and with scans of a few pages.
use keylens.Base.{
  replicate, if◌then◌else◌, Option, ◌≡◌, refl, true, false, List, [], ◌∷◌, ◌++◌, none, some,
  is_some, arith,
}
use keylens.Base.Text.{Text, codes, text_eq}
use keylens.Conn.Kind.{Kind, list}
use keylens.Conn.Value.{text}
use keylens.App.{more, error_update}
use keylens.BullMq.Fields.{Json}
use keylens.Conn.Capability.{has}
use keylens.Conn.Error.{ok}
use keylens.Conn.Program.{Ends, run, done, Command, Reply, answered, refused}
use keylens.Conn.Command.{read_only_command}
use keylens.Conn.Scan.{Scanned, page_of_keys, scan_failed}
use keylens.Conn.Sample.{sample_client, sample_conn, wrong_type}
use keylens.Worker.{Worker, new_worker, type_keys}
use keylens.Worker.Progress.{at, batches, page_texts, batches_deliver, failed_page_drops}
use keylens.Worker.Requests.{handle, scan_batch}
use keylens.Worker.Tasks.{answers_itself, handle_answers}
use keylens.Worker.Typing.{Picked, run-type_keys}

abbrev no_json : Json
no_json = record { texts_of = λ t. none; attempts_in = λ t. none }

abbrev fresh_worker : Worker
fresh_worker = new_worker none

abbrev one_page : List Scanned
one_page = page_of_keys (some (some (codes "a") ∷ none ∷ some (codes "b") ∷ [])) ∷ []

abbrev last_page : List Scanned
last_page = page_of_keys none ∷ page_of_keys (some (some (codes "c") ∷ [])) ∷ []

batches_deliver_example :
    batches 4 (at (one_page ++ last_page) false fresh_worker)
    ≡ (page_texts (one_page ++ last_page), at [] true fresh_worker)
batches_deliver_example = batches_deliver fresh_worker 4 (one_page ++ last_page) tt (omega arith)

failed_page_drops_example :
    (scan_batch sample_client no_json
        (λ e. codes "SCAN failed")
        sample_conn
        (at (one_page ++ scan_failed wrong_type ∷ last_page) false fresh_worker)
        true
      ≡ done (record {
        worker = at last_page false fresh_worker;
        update = some (error_update (codes "SCAN failed"));
        spawned = none;
        aborted = none;
      }))
    × (batches 3 (at last_page false fresh_worker)
        ≡ (page_texts last_page, at [] true fresh_worker))
failed_page_drops_example =
    failed_page_drops fresh_worker sample_client no_json (λ e. codes "SCAN failed") sample_conn true
      one_page wrong_type last_page 3 tt tt (omega arith) (omega arith) (omega arith)

-- A server with a list `a`; every other key is a string.
abbrev one_list : Command → Reply
one_list (name, text key ∷ []) =
    answered (text (if text_eq key (codes "a") then codes "list" else codes "string"))
one_list _ = refused wrong_type

-- A scan for lists, and more keys than a chunk has.
abbrev for_lists : Worker
for_lists = record fresh_worker { kind = some list }

abbrev many_keys : List Text
many_keys = codes "b" ∷ replicate 1200 (codes "a")

run-type_keys_example :
    (typed : List (Text × Option Kind)) × (run one_list
        (type_keys sample_client sample_conn for_lists many_keys)
      ≡ ok typed)
    × Picked sample_client one_list sample_conn (some list) many_keys typed
unfolding has
run-type_keys_example = run-type_keys sample_client one_list sample_conn for_lists many_keys refl

-- The string is left out.
lists_only :
    run one_list
      (type_keys sample_client sample_conn for_lists (codes "a" ∷ codes "b" ∷ codes "a" ∷ []))
    ≡ ok ((codes "a", some list) ∷ (codes "a", some list) ∷ [])
unfolding type_keys read_only_command
lists_only = refl

handle_answers_example :
    Ends
      (λ h. is_some h.update ≡ answers_itself more)
      (handle sample_client no_json (λ e. []) sample_conn (λ t. true) 0 [] more fresh_worker)
handle_answers_example =
    handle_answers sample_client sample_conn no_json (λ e. []) (λ t. true) 0 [] more fresh_worker
