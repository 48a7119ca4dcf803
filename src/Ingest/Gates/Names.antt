-- ===== src/Ingest/Gates/Names.antt =====
-- Where an archive's members would be extracted
-- (`check_entry_name` and `inspect_archive` of packages/dist-ingest/src/dist_ingest/gates.py).
use dev_tools_distribution_p.Base.{
  ℕ, ◌+◌, ◌*◌, ◌≤◌, ◌≡◌, refl, false, not, ◌||◌, some, List, [], ◌∷◌, ◌++◌, arith, if◌then◌else◌,
  ◌==◌, nat_eq, list_eq, any, All, length, leb, ok, gate_error, >>=-eq-ok, require-eq-ok,
  Option-cases, Bool-cases, inl, inr,
}
use dev_tools_distribution_p.Base.Text.{Str, Bytes, text, slash, starts_with, contains_char, split}
use dev_tools_distribution_p.Ingest.Gates.{
  Archives, ArchiveLimits, ArchiveReport, archive_entries, check_entry_name, total_size, ratio_of,
  exceeds, inspect_archive, has_drive, dots, backslash,
}

-- One component of a path, from a directory that is given by its components, the innermost first.
abbrev up : List Str → List Str
up [] = []
up (d ∷ ds) = ds

enter : List Str → Str → List Str
enter dir part =
    if part == dots then up dir else if part == [] || part == text "." then dir else part ∷ dir

-- The place that a path of components leads to.
unfoldable pub walk : List Str → List Str → List Str
unfolding enter
walk dir [] = dir
walk dir (part ∷ parts) = walk (enter dir part) parts

walk-inside :
    (parts dir inner : List Str)
    → any (λ part. part == dots) parts ≡ false
    → (more : List Str) × (walk (inner ++ dir) parts ≡ more ++ dir)
unfolding walk any
walk-inside [] dir inner h = (inner, refl)
walk-inside (part ∷ parts) dir inner h =
    let no : (part == dots) ≡ false = ground arith in
    let rest : any (λ part. part == dots) parts ≡ false = ground arith in
    elim (Bool-cases (part == [] || part == text ".")) [
      | inl stay ↦ let (more, e) = walk-inside parts dir inner rest in (more, rw (no, stay) e)
      | inr down ↦
          let (more, e) = walk-inside parts dir (part ∷ inner) rest in (more, rw (no, down) e)
    ]

-- A member whose name passes is not absolute and has no drive letter, backslash or NUL, and from
-- whatever directory it is extracted, it lands inside that directory.
pub check_entry_name_lem :
    (name : Str) (dir : List Str)
    → check_entry_name name ≡ ok tt
    → (starts_with name (slash ∷ []) ≡ false)
      × (contains_char backslash name ≡ false)
      × (contains_char 0 name ≡ false)
      × (has_drive name ≡ false)
      × ((inner : List Str) × (walk dir (split slash name) ≡ inner ++ dir))
unfolding check_entry_name
check_entry_name_lem name dir h =
    let (a, h1) =
      require-eq-ok (not (name == [] || name == text "." || name == dots)) gate_error _ h in
    let (b, h2) =
      require-eq-ok (not (starts_with name (slash ∷ []) || starts_with name (backslash ∷ [])))
        gate_error _ h1 in
    let (c, h3) = require-eq-ok (not (contains_char backslash name)) gate_error _ h2 in
    let (d, h4) = require-eq-ok (not (has_drive name)) gate_error _ h3 in
    let (e, h5) =
      require-eq-ok (not (any (λ part. part == dots) (split slash name))) gate_error _ h4 in
    (
      ground arith,
      ground arith,
      ground arith,
      ground arith,
      walk-inside (split slash name) dir [] (ground arith),
    )

-- The sum of the sizes.
abbrev pub sum_sizes : List (Str × ℕ) → ℕ
sum_sizes [] = 0
sum_sizes ((name, size) ∷ entries) = size + sum_sizes entries

total_size-eq-ok :
    (limits : ArchiveLimits) (n : ℕ) (entries : List (Str × ℕ)) (total : ℕ)
    → n ≤ limits.max_total_uncompressed
    → total_size limits n entries ≡ ok total
    → (total ≡ n + sum_sizes entries)
      × (total ≤ limits.max_total_uncompressed)
      × All (λ (name, size). check_entry_name name ≡ ok tt) entries
unfolding total_size
total_size-eq-ok limits n [] total b h = (ground arith, ground arith, tt)
total_size-eq-ok limits n ((name, size) ∷ entries) total b h =
    let (u, c, h1) = >>=-eq-ok (check_entry_name name) _ h in
    let (d, h2) = require-eq-ok (leb (n + size) limits.max_total_uncompressed) gate_error _ h1 in
    let (e, f, g) = total_size-eq-ok limits (n + size) entries total (ground arith) h2 in
    (omega (arith, e), f, (c, g))

-- An archive that passes has no more entries than the limit, and all their names pass; its report
-- counts them and adds up their sizes, to no more than the limit and no more than the ratio allows
-- for the bytes of the file.
pub inspect_archive_lem :
    (archives : Archives) (file : Bytes) (limits : ArchiveLimits) (report : ArchiveReport)
    → inspect_archive archives file limits ≡ ok (some report)
    → (entries : List (Str × ℕ)) × (archive_entries archives file ≡ ok (some entries))
      × All (λ (name, size). check_entry_name name ≡ ok tt) entries
      × (report.entries ≡ length entries)
      × (report.total_uncompressed ≡ sum_sizes entries)
      × (length entries ≤ limits.max_entries)
      × (sum_sizes entries ≤ limits.max_total_uncompressed)
      × (sum_sizes entries ≤ limits.max_expansion_ratio * length file)
unfolding inspect_archive ratio_of exceeds
inspect_archive_lem archives file limits report h =
    let (found, a, h1) = >>=-eq-ok (archive_entries archives file) _ h in
    elim (Option-cases found) [
      | inl n ↦ ground arith
      | inr (entries, e) ↦
          let h2 = rw e at h1 in
          let (b, h3) = require-eq-ok (leb (length entries) limits.max_entries) gate_error _ h2 in
          let (total, c, h4) = >>=-eq-ok (total_size limits 0 entries) _ h3 in
          let (d, h5) =
            require-eq-ok (not (exceeds (ratio_of total (length file)) limits.max_expansion_ratio))
              gate_error _ h4 in
          let (s, m, names) = total_size-eq-ok limits 0 entries total (omega arith) c in
          (
            entries,
            rw e at a,
            names,
            ground arith,
            ground (arith, s),
            ground arith,
            ground (arith, s),
            ground (arith, s),
          )
    ]
