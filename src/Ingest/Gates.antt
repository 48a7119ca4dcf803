-- ===== src/Ingest/Gates.antt =====
-- packages/dist-ingest/src/dist_ingest/gates.py. A file is its bytes. `zipfile` and `tarfile` are the
-- record `Archives`; the bound on the expansion is a whole number, and the comparison is exact.
pub mod Names
pub mod Content
use dev_tools_distribution_p.Base.{
  ℕ, suc, ◌+◌, ◌*◌, ◌≡◌, Bool, true, false, not, ◌&&◌, ◌||◌, Option, none, some, List, [], ◌∷◌,
  ◌++◌, if◌then◌else◌, ◌==◌, nat_eq, list_eq, Eq, any, contains, length, ltb, leb, Error, Result,
  ok, err, ◌>>=◌, ◌>>◌, require, from_option, gate_error, gate_not_configured,
}
use dev_tools_distribution_p.Base.Text.{Str, Bytes, text, slash, starts_with, contains_char, split}

pub record ArchiveLimits : Type 0 where
  pub max_entries : ℕ
  pub max_total_uncompressed : ℕ
  pub max_expansion_ratio : ℕ

abbrev pub default_limits : ArchiveLimits
default_limits = record {
  max_entries = 100000;
  max_total_uncompressed = 8589934592;
  max_expansion_ratio = 200;
}

-- `total / compressed`, or `float("inf")`
pub data Ratio : Type 0 where
  quotient : ℕ → ℕ → Ratio
  infinite : Ratio

pub record ArchiveReport : Type 0 where
  pub entries : ℕ
  pub total_uncompressed : ℕ
  pub expansion_ratio : Ratio

abbrev pub backslash : ℕ
backslash = 92

abbrev pub dots : Str
dots = text ".."

-- `len(name) > 1 and name[1] == ":"`
unfoldable pub has_drive : Str → Bool
has_drive [] = false
has_drive (_ ∷ []) = false
has_drive (_ ∷ c ∷ _) = c == b':'

-- `check_entry_name`
unfoldable pub check_entry_name : Str → Result (Unit {0})
unfolding has_drive
check_entry_name name = do
  require (not (name == [] || name == text "." || name == dots)) gate_error
  require (not (starts_with name (slash ∷ []) || starts_with name (backslash ∷ []))) gate_error
  require (not (contains_char backslash name)) gate_error
  require (not (has_drive name)) gate_error
  require (not (any (λ part. part == dots) (split slash name))) gate_error
  require (not (contains_char 0 name)) gate_error

pub record Archives : Type 0 where
  pub is_zipfile : Bytes → Bool
  pub zip_entries : Bytes → Result (List (Str × ℕ))
  pub is_tarfile : Bytes → Bool
  pub tar_entries : Bytes → Result (List (Str × ℕ))

-- `names_and_sizes`, or `none` for a file that is no archive
unfoldable pub archive_entries : Archives → Bytes → Result (Option (List (Str × ℕ)))
archive_entries archives file =
    if archives.is_zipfile file
    then (do entries ← archives.zip_entries file; ok (some entries))
    else if archives.is_tarfile file
    then (do entries ← archives.tar_entries file; ok (some entries))
    else ok none

-- The loop over the entries
unfoldable pub total_size : ArchiveLimits → ℕ → List (Str × ℕ) → Result ℕ
unfolding check_entry_name
total_size limits total [] = ok total
total_size limits total ((name, size) ∷ entries) =
    let rest = total_size limits (total + size) entries in
    do
      check_entry_name name
      require (leb (total + size) limits.max_total_uncompressed) gate_error
      rest

unfoldable pub ratio_of : ℕ → ℕ → Ratio
ratio_of total compressed = if compressed == 0 then infinite else quotient total compressed

-- `ratio > limits.max_expansion_ratio`
unfoldable pub exceeds : Ratio → ℕ → Bool
exceeds (quotient total compressed) limit = ltb (limit * compressed) total
exceeds infinite limit = true

-- `inspect_archive`
unfoldable pub inspect_archive : Archives → Bytes → ArchiveLimits → Result (Option ArchiveReport)
unfolding archive_entries total_size ratio_of exceeds
inspect_archive archives file limits = do
  found ← archive_entries archives file
  elim found [
    | none ↦ ok none
    | some entries ↦ do
      require (leb (length entries) limits.max_entries) gate_error
      total ← total_size limits 0 entries
      let ratio = ratio_of total (length file)
      require (not (exceeds ratio limits.max_expansion_ratio)) gate_error
      ok (
          some (record {
            entries = length entries;
            total_uncompressed = total;
            expansion_ratio = ratio;
          }))
  ]

-- `MalwareScanner` and `PublisherCheck` are what an operator supplies.
pub record ContentGates : Type 0 where
  pub malware : Option (Bytes → Result Bool)
  pub publisher : Option (Bytes → Str → Result Bool)
  pub require_sbom : Bool
  pub skip : List Str

-- One gate: skipped by name, not configured, or run
unfoldable pub run_gate : Str → List Str → Option (Result Bool) → Result (List Str)
run_gate name skip gate = if contains name skip then ok (name ∷ []) else elim gate [
  | none ↦ err gate_not_configured
  | some run ↦ do passed ← run; require passed gate_error; ok []
]

abbrev pub has_bytes : Option Bytes → Bool
has_bytes none = false
has_bytes (some []) = false
has_bytes (some (_ ∷ _)) = true

abbrev pub on_file : {A : Type 0} → Option (A → Result Bool) → A → Option (Result Bool)
on_file none file = none
on_file (some check) file = some (check file)

abbrev pub on_file_of : Option (Bytes → Str → Result Bool) → Bytes → Str → Option (Result Bool)
on_file_of none file app_id = none
on_file_of (some check) file app_id = some (check file app_id)

-- The last branch: an SBOM is asked for only where the policy requires one.
unfoldable pub run_sbom : ContentGates → Option Bytes → Result (List Str)
run_sbom gates sbom =
    if contains (text "sbom") gates.skip
    then ok (text "sbom" ∷ [])
    else if gates.require_sbom && not (has_bytes sbom)
    then err gate_error
    else ok []

-- `run_content_gates`
unfoldable pub run_content_gates : Bytes → Str → ContentGates → Option Bytes → Result (List Str)
unfolding run_gate run_sbom
run_content_gates file app_id gates sbom = do
  a ← run_gate (text "malware") gates.skip (on_file gates.malware file)
  b ← run_gate (text "publisher") gates.skip (on_file_of gates.publisher file app_id)
  c ← run_sbom gates sbom
  ok (a ++ b ++ c)
