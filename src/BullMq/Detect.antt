-- ===== src/BullMq/Detect.antt =====
-- crates/lenses/keylens-bullmq/src/lens.rs: the detection of BullMQ.
use keylens.Base.{ℕ, List, [], ◌∷◌, ◌++◌, Option, none, some, if◌then◌else◌, length, take, is_some}
use keylens.Base.Text.{Text, codes}
use keylens.Base.Decimal.{to_string}
use keylens.Base.Find.{strip_prefix}
use keylens.Lens.{Detection, Confidence, weak, likely, certain}
use keylens.Conn.Value.{Client}
use keylens.Conn.Program.{Program, done, of_result, ◌>>=◌}
use keylens.Conn.Scan.{Scanned}
use keylens.BullMq.Keys.{parse_meta_version}
use keylens.BullMq.Lens.{scan_meta_keys, read_meta}

-- The library and the version that a queue advertises.
abbrev pub Advertised : Type 0
Advertised = Option (Text × Text)

abbrev parsed_version : Option Text → Advertised
unfolding parse_meta_version
parsed_version none = none
parsed_version (some raw) = parse_meta_version raw

abbrev stop_or : Advertised → Program Advertised → Program Advertised
stop_or (some found) later = done (some found)
stop_or none later = later

-- The `match` on the library.
abbrev confidence_in : Advertised → Confidence
unfolding strip_prefix
confidence_in none = weak
confidence_in (some (lib, version)) =
    if is_some (strip_prefix (codes "bullmq") lib) then certain else likely

abbrev summary_of : Advertised → ℕ → Text
summary_of (some (lib, version)) queues =
    lib ++ (codes " " ++ (version ++ (codes " - " ++ (to_string queues ++ codes " queues"))))
summary_of none queues = to_string queues ++ codes " queues (version not advertised)"

abbrev version_in : Advertised → Option Text
version_in none = none
version_in (some (lib, version)) = some version

abbrev detection_of : Text → List Text → Advertised → Detection
unfolding strip_prefix to_string
detection_of prefix names found = record {
  lens_id = codes "bullmq";
  confidence = confidence_in found;
  version = version_in found;
  prefix = prefix;
  summary = summary_of found (length names);
  targets = names;
}

module _ (client : Client) where
  -- The loop of `detect` over the sampled queues.
  unfoldable pub sample : Text → List Text → Program Advertised
  unfolding read_meta parse_meta_version
  sample prefix [] = done none
  sample prefix (name ∷ names) =
      let later = sample prefix names in
      read_meta client prefix name >>= λ (version, paused). stop_or (parsed_version version) later

  abbrev detect_in : Text → List Text → Program (Option Detection)
  unfolding sample strip_prefix to_string
  detect_in prefix [] = done none
  detect_in prefix (name ∷ names) = sample prefix (take 5 (name ∷ names)) >>= λ found.
      done (some (detection_of prefix (name ∷ names) found))

  -- `BullMqLens::detect`, on what the scanner yields.
  unfoldable pub detect : Text → List Scanned → Program (Option Detection)
  unfolding scan_meta_keys sample strip_prefix to_string
  detect prefix scan = of_result (scan_meta_keys prefix scan) >>= detect_in prefix
