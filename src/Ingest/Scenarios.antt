-- ===== src/Ingest/Scenarios.antt =====
-- One file through the gates, quarantine and the policy of packages/dist-ingest/src/dist_ingest.
use dev_tools_distribution_p.Base.{
  ℕ, ◌*◌, ◌≤◌, ◌≡◌, refl, ◌⊎◌, true, false, none, some, List, [], ◌∷◌, ◌++◌, all, any, find, filter,
  length, In, All, contains, list_eq, list_beq, nat_eq, Error, ok, err, gate_error,
  gate_not_configured, ◌==◌, if◌then◌else◌,
}
use dev_tools_distribution_p.Base.Text.{
  Str, Bytes, text, is_lower_alnum, starts_with, contains_char, split, slash, chomp,
}
use dev_tools_distribution_p.Base.Json.{get, items}
use dev_tools_distribution_p.Core.Roles.{app_role_policy}
use dev_tools_distribution_p.Ingest.Provenance.{Provenance, verify_provenance}
use dev_tools_distribution_p.Ingest.Gates.{
  Archives, ArchiveReport, default_limits, quotient, check_entry_name, archive_entries,
  inspect_archive, ContentGates, run_content_gates, backslash, has_drive,
}
use dev_tools_distribution_p.Ingest.Gates.Names.{
  walk, check_entry_name_lem, sum_sizes, inspect_archive_lem,
}
use dev_tools_distribution_p.Ingest.Gates.Content.{IsPassed, SbomGate, run_content_gates_lem}
use dev_tools_distribution_p.Ingest.Quarantine.{
  Disk, Quarantine, Admitted, Reads, read, admit, promote_file, path_of,
}
use dev_tools_distribution_p.Ingest.Quarantine.Content.{IsKept, admit_lem, promote_file-admit}
use dev_tools_distribution_p.Ingest.Policy.{
  gates_passed, Services, AppIngestPolicy, Outcome, reject, promote, ingest, promote_outcome,
  verify,
}
use dev_tools_distribution_p.Ingest.Policy.Decision.{IsCleared, ingest_lem, promote_outcome-ingest}
use dev_tools_distribution_p.Ingest.Examples.{statement, tools, sigstore, fixed_key, loads}

abbrev archives : Archives
archives = record {
  is_zipfile = λ file. true;
  zip_entries = λ file. ok ((text "bin/demo", 4) ∷ (text "README", 2) ∷ []);
  is_tarfile = λ file. false;
  tar_entries = λ file. ok [];
}

-- Stands for SHA-256: the file `zip` has the digest `d1`, any other `d2`.
abbrev digest_of : Bytes → Str
digest_of bytes = if bytes == text "zip" then text "d1" else text "d2"

abbrev services : Services Bytes
services = record { sha256_of = digest_of; tools = tools; sigstore = sigstore; archives = archives }

abbrev gates : ContentGates
gates = record {
  malware = none;
  publisher = some (λ file app_id. ok true);
  require_sbom = false;
  skip = text "malware" ∷ [];
}

abbrev policy : AppIngestPolicy
policy = record {
  app_id = text "demo";
  critical = false;
  provenance = fixed_key;
  archive_limits = default_limits;
  content_gates = gates;
}

abbrev report : ArchiveReport
report = record { entries = 2; total_uncompressed = 6; expansion_ratio = quotient 6 3 }

traversal_refused : check_entry_name (text "a/../../b") ≡ err gate_error
unfolding check_entry_name starts_with contains_char list_beq any split
traversal_refused = refl

name_accepted : check_entry_name (text "bin/demo") ≡ ok tt
unfolding check_entry_name starts_with contains_char list_beq any split
name_accepted = refl

check_entry_name_lem_example :
    (starts_with (text "bin/demo") (slash ∷ []) ≡ false)
    × (contains_char backslash (text "bin/demo") ≡ false)
    × (contains_char 0 (text "bin/demo") ≡ false)
    × (has_drive (text "bin/demo") ≡ false)
    × ((inner : List Str) × (walk (text "root" ∷ []) (split slash (text "bin/demo"))
          ≡ inner ++ (text "root" ∷ [])))
check_entry_name_lem_example =
    check_entry_name_lem (text "bin/demo") (text "root" ∷ []) name_accepted

archive_accepted : inspect_archive archives (text "zip") default_limits ≡ ok (some report)
unfolding inspect_archive check_entry_name starts_with contains_char list_beq any split
archive_accepted = refl

inspect_archive_lem_example :
    (entries : List (Str × ℕ)) × (archive_entries archives (text "zip") ≡ ok (some entries))
    × All (λ (name, size). check_entry_name name ≡ ok tt) entries
    × (2 ≡ length entries)
    × (6 ≡ sum_sizes entries)
    × (length entries ≤ 100000)
    × (sum_sizes entries ≤ 8589934592)
    × (sum_sizes entries ≤ 200 * 3)
inspect_archive_lem_example =
    inspect_archive_lem archives (text "zip") default_limits report archive_accepted

abbrev strict : ContentGates
strict = record gates { require_sbom = true }

strict_accepted :
    run_content_gates (text "zip") (text "demo") strict (some (text "bom"))
    ≡ ok (text "malware" ∷ [])
unfolding run_content_gates contains list_beq
strict_accepted = refl

-- Without an SBOM that is required, the release is refused.
no_sbom : run_content_gates (text "zip") (text "demo") strict none ≡ err gate_error
unfolding run_content_gates contains list_beq
no_sbom = refl

gates_accepted : run_content_gates (text "zip") (text "demo") gates none ≡ ok (text "malware" ∷ [])
unfolding run_content_gates contains list_beq
gates_accepted = refl

no_scanner :
    run_content_gates (text "zip") (text "demo") (record gates { skip = [] }) none
    ≡ err gate_not_configured
unfolding run_content_gates contains list_beq
no_scanner = refl

run_content_gates_lem_example :
    IsPassed (text "malware") strict.skip (text "malware" ∷ []) none
    × IsPassed (text "publisher") strict.skip (text "malware" ∷ []) (some (ok true))
    × SbomGate strict (text "malware" ∷ []) (some (text "bom"))
    × ((name : Str) → In name (text "malware" ∷ []) → contains name strict.skip ≡ true)
run_content_gates_lem_example =
    run_content_gates_lem (text "zip") (text "demo") strict (some (text "bom"))
      (text "malware" ∷ []) strict_accepted

abbrev quarantine : Quarantine
quarantine = record { root = text "/q"; max_bytes = 10 }

abbrev download : Reads
download = ok (text "zi") ∷ ok (text "p") ∷ []

abbrev admitted : Admitted
admitted = record { sha256 = text "d1"; length = 3; path = text "/q/d1.bin" }

abbrev after : Disk
after = (admit digest_of quarantine (text "/q/t.part") download []).1

admit_run :
    admit digest_of quarantine (text "/q/t.part") download []
    ≡ (ok admitted, (text "/q/d1.bin", text "zip") ∷ [])
unfolding admit list_beq filter
admit_run = refl

admit_lem_example :
    ((a : Admitted) × ((admit digest_of quarantine (text "/q/t.part") download []).0 ≡ ok a)
      × (a.sha256 ≡ digest_of (text "zip"))
      × (a.length ≡ 3)
      × (a.length ≤ 10)
      × (a.path ≡ path_of quarantine a.sha256)
      × (read after a.path ≡ some (text "zip"))
      × IsKept [] after a.path (text "/q/t.part"))
    ⊎ ((e : Error) × ((admit digest_of quarantine (text "/q/t.part") download []).0 ≡ err e)
        × IsKept [] after (text "/q/t.part") (text "/q/t.part"))
admit_lem_example = admit_lem digest_of quarantine (text "/q/t.part") download []

abbrev stored : Disk
stored = (text "/q/d1.bin", text "zip") ∷ []

-- Nobody touches the disk.
abbrev untouched : Disk → Disk
untouched disk = disk

-- Another process puts a file in the place of the one that was hashed.
abbrev swaps : Disk → Disk
swaps disk = (text "/q/d1.bin", text "evil") ∷ []

-- The file that was put there is what leaves quarantine.
swapped_leaves :
    read
      (promote_file digest_of swaps quarantine
        (text "/out/t.part")
        (text "d1")
        (text "/out/demo.zip")
        stored).1
      (text "/out/demo.zip")
    ≡ some (text "evil")
unfolding promote_file list_beq filter
swapped_leaves = refl

leaves :
    (promote_file digest_of untouched quarantine
      (text "/out/t.part")
      (text "d1")
      (text "/out/demo.zip")
      stored).0
    ≡ ok (text "/out/demo.zip")
unfolding promote_file list_beq filter
leaves = refl

admits : (admit digest_of quarantine (text "/q/t.part") download []).0 ≡ ok admitted
unfolding admit list_beq filter
admits = refl

promote_file-admit_example :
    ((promote_file digest_of untouched quarantine
        (text "/out/t.part")
        (text "d1")
        (text "/out/demo.zip")
        after).0
      ≡ ok (text "/out/demo.zip"))
    × (read
          (promote_file digest_of untouched quarantine
            (text "/out/t.part")
            (text "d1")
            (text "/out/demo.zip")
            after).1
          (text "/out/demo.zip")
        ≡ some (text "zip"))
promote_file-admit_example =
    promote_file-admit digest_of quarantine untouched (text "/q/t.part") (text "/out/t.part")
      (text "/out/demo.zip") download [] admitted admits refl

abbrev outcome_built : Provenance
outcome_built = record {
  builder_id = text "b@r";
  source_uri = text "git+u@refs/tags/v1";
  source_ref = text "refs/tags/v1";
  subject_name = text "demo.zip";
  subject_sha256 = text "d1";
  statement = statement;
}

abbrev outcome : Outcome
outcome = record {
  decision = promote;
  reason = gates_passed (text "malware" ∷ []) (text "b@r") (text "refs/tags/v1");
  admitted = some admitted;
  provenance = some outcome_built;
  archive = some report;
  skipped_gates = text "malware" ∷ [];
}

ingested :
    (ingest services (text "/q/t.part") download policy quarantine (some (text "e")) none []).0
    ≡ ok outcome
unfolding ingest read verify verify_provenance loads find get starts_with items inspect_archive
    check_entry_name contains_char list_beq any split run_content_gates contains filter
    app_role_policy all is_lower_alnum chomp admit
ingested = refl

ingest_lem_example :
    (promote ≡ reject) ⊎ IsCleared services policy (some (text "e")) none (text "zip") outcome
ingest_lem_example =
    ingest_lem services policy (text "/q/t.part") download quarantine (some (text "e")) none []
      outcome ingested

promoted :
    (promote_outcome services untouched
      (text "/out/t.part")
      outcome
      quarantine
      (text "/out/demo.zip")
      stored).0
    ≡ ok (text "/out/demo.zip")
unfolding promote_outcome read list_beq promote_file filter
promoted = refl

promote_outcome-ingest_example :
    (false ≡ false)
    × IsCleared services policy (some (text "e")) none (text "zip") outcome
    × ((bytes : Bytes) × (read
            (promote_outcome services untouched
              (text "/out/t.part")
              outcome
              quarantine
              (text "/out/demo.zip")
              stored).1
            (text "/out/demo.zip")
          ≡ some bytes)
        × (digest_of bytes ≡ text "d1"))
unfolding list_beq
promote_outcome-ingest_example =
    promote_outcome-ingest services policy untouched (text "/q/t.part") (text "/out/t.part")
      (text "/out/demo.zip") (text "/out/demo.zip") download quarantine (some (text "e")) none []
      stored outcome ingested refl promoted
