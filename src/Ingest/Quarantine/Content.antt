-- ===== src/Ingest/Quarantine/Content.antt =====
-- What is in quarantine is what was received, under its digest, and what leaves it had that digest
-- when it was last hashed (packages/dist-ingest/src/dist_ingest/quarantine.py).
use dev_tools_distribution_p.Base.{
  ℕ, ◌+◌, ◌≤◌, ◌≡◌, ◌≢◌, refl, sym, ap, ◌∙◌, ◌⊎◌, true, false, some, [], ◌∷◌, ◌++◌, arith, ◌==◌,
  nat_eq, list_eq, ==_iff, ==_refl, filter, length, length-append, append_nil, append_assoc, leb,
  Error, Result, ok, err, quarantine_error, require-eq-ok, Option-cases, Bool-cases, inl, inr,
}
use dev_tools_distribution_p.Base.Text.{Str, Bytes}
use dev_tools_distribution_p.Ingest.Quarantine.{
  Disk, read, unlink, write, replace, Quarantine, Admitted, path_of, Reads, receive, admit,
  copy_file, promote_file,
}

pub read-unlink :
    (path other : Str) (disk : Disk)
    → other ≢ path
    → read (unlink path disk) other ≡ read disk other
unfolding read unlink filter
read-unlink path other [] ne = refl
read-unlink path other ((p, bytes) ∷ disk) ne = elim (Bool-cases (p == path)) [
  | inl e ↦
      let miss : (p == other) ≡ false = elim (Bool-cases (p == other)) [
        | inl f ↦ absurd (ne (sym ((==_iff p other).0 f) ∙ (==_iff p path).0 e))
        | inr f ↦ f
      ] in
      rw (e, miss) (read-unlink path other disk ne)
  | inr e ↦ elim (Bool-cases (p == other)) [
    | inl f ↦ rw (e, f)
    | inr f ↦ rw (e, f) (read-unlink path other disk ne)
  ]
]

read-write :
    (path : Str) (bytes : Bytes) (disk : Disk) → read (write path bytes disk) path ≡ some bytes
unfolding read write
read-write path bytes disk = rw (==_refl path)

read-write-other :
    (path other : Str) (bytes : Bytes) (disk : Disk)
    → other ≢ path
    → read (write path bytes disk) other ≡ read disk other
unfolding read write
read-write-other path other bytes disk ne = elim (Bool-cases (path == other)) [
  | inl e ↦ absurd (ne (sym ((==_iff path other).0 e)))
  | inr e ↦ rw e (read-unlink path other disk ne)
]

-- The bytes that a source gives, up to its end or its first empty read.
abbrev pub received : Reads → Bytes
received [] = []
received (err e ∷ reads) = []
received (ok [] ∷ reads) = []
received (ok (b ∷ chunk) ∷ reads) = (b ∷ chunk) ++ received reads

receive-eq-ok :
    (max n m : ℕ) (sofar bytes : Bytes) (reads : Reads)
    → n ≤ max
    → n ≡ length sofar
    → receive max n sofar reads ≡ ok (m, bytes)
    → (bytes ≡ sofar ++ received reads) × (m ≡ length bytes) × (m ≤ max)
unfolding receive
receive-eq-ok max n m sofar bytes [] b l h =
    (ground (arith, append_nil sofar), ground arith, ground arith)
receive-eq-ok max n m sofar bytes (err e ∷ reads) b l h = cc
receive-eq-ok max n m sofar bytes (ok [] ∷ reads) b l h =
    (ground (arith, append_nil sofar), ground arith, ground arith)
receive-eq-ok max n m sofar bytes (ok (c ∷ chunk) ∷ reads) b l h =
    let (a, h1) = require-eq-ok (leb (n + length (c ∷ chunk)) max) quarantine_error _ h in
    let (e, f, g) =
      receive-eq-ok max (n + length (c ∷ chunk)) m (sofar ++ (c ∷ chunk)) bytes reads (ground arith)
        (ground (arith, length-append sofar (c ∷ chunk))) h1 in
    (e ∙ append_assoc sofar (c ∷ chunk) (received reads), f, g)

-- The outcome of the loop as one of its two cases.
receive-cases :
    (r : Result (ℕ × Bytes))
    → ((n : ℕ) × (bytes : Bytes) × (r ≡ ok (n, bytes))) ⊎ ((e : Error) × (r ≡ err e))
receive-cases (ok (n, bytes)) = inl (n, bytes, refl)
receive-cases (err e) = inr (e, refl)

-- All paths but two read as before.
abbrev pub IsKept : Disk → Disk → Str → Str → Type 0
IsKept disk disk' a b = (other : Str) → other ≢ a → other ≢ b → read disk' other ≡ read disk other

replace-IsKept :
    (temp destination : Str) (bytes : Bytes) (disk : Disk)
    → IsKept disk (replace temp destination bytes disk) destination temp
unfolding replace
replace-IsKept temp destination bytes disk other n m =
    read-write-other destination other bytes (unlink temp disk) n ∙ read-unlink temp other disk m

read-replace :
    (temp destination : Str) (bytes : Bytes) (disk : Disk)
    → read (replace temp destination bytes disk) destination ≡ some bytes
unfolding replace
read-replace temp destination bytes disk = read-write destination bytes (unlink temp disk)

module _ (sha256_of : Bytes → Str) (q : Quarantine) where
  -- An admission either stores what was received under its own digest, within the size limit, and
  -- reports that digest and its length, or it raises; neither touches another path than that and
  -- the temporary file's, and one that raises only the temporary file's.
  pub admit_lem :
      (temp : Str) (reads : Reads) (disk : Disk)
      → ((a : Admitted) × ((admit sha256_of q temp reads disk).0 ≡ ok a)
          × (a.sha256 ≡ sha256_of (received reads))
          × (a.length ≡ length (received reads))
          × (a.length ≤ q.max_bytes)
          × (a.path ≡ path_of q a.sha256)
          × (read (admit sha256_of q temp reads disk).1 a.path ≡ some (received reads))
          × IsKept disk (admit sha256_of q temp reads disk).1 a.path temp)
        ⊎ ((e : Error) × ((admit sha256_of q temp reads disk).0 ≡ err e)
            × IsKept disk (admit sha256_of q temp reads disk).1 temp temp)
  unfolding admit
  admit_lem temp reads disk = elim (receive-cases (receive q.max_bytes 0 [] reads)) [
    | inl (n, bytes, e) ↦
        let (is, len, le) = receive-eq-ok q.max_bytes 0 n [] bytes reads (omega arith) refl e in
        let place = path_of q (sha256_of bytes) in
        inl (
          record { sha256 = sha256_of bytes; length = n; path = place },
          rw (admit, e),
          ap sha256_of is,
          len ∙ ap length is,
          le,
          refl,
          rw (admit, e) (read-replace temp place bytes disk ∙ ap some is),
          rw (admit, e) (replace-IsKept temp place bytes disk),
        )
    | inr (x, e) ↦
        inr (x, rw (admit, e), rw (admit, e) (λ other n m. read-unlink temp other disk n))
  ]

  copy_file-copied :
      (temp place destination : Str) (bytes : Bytes) (disk : Disk)
      → read disk place ≡ some bytes
      → copy_file sha256_of temp place destination disk
        ≡ (ok destination, replace temp destination bytes disk)
  unfolding copy_file replace
  copy_file-copied temp place destination bytes disk there = rw (copy_file, there)

  -- A file that leaves quarantine had the digest asked for when it was hashed, and its destination has the
  -- bytes that it had when it was copied; no path changes then but the destination and the temporary
  -- file's.
  pub promote_file_lem :
      (between : Disk → Disk) (temp sha256 destination out : Str) (disk : Disk)
      → (promote_file sha256_of between q temp sha256 destination disk).0 ≡ ok out
      → (out ≡ destination)
        × ((hashed copied : Bytes) × (sha256_of hashed ≡ sha256)
            × (read disk (path_of q sha256) ≡ some hashed)
            × (read (between disk) (path_of q sha256) ≡ some copied)
            × (read (promote_file sha256_of between q temp sha256 destination disk).1 destination
                ≡ some copied))
        × IsKept
            (between disk)
            (promote_file sha256_of between q temp sha256 destination disk).1
            destination
            temp
  unfolding promote_file copy_file
  promote_file_lem between temp sha256 destination out disk h =
      let place = path_of q sha256 in
      elim (Option-cases (read disk place)) [
        | inl e ↦ absurd (ground arith)
        | inr (hashed, e) ↦ elim (Bool-cases (sha256_of hashed == sha256)) [
          | inr other ↦ absurd (ground arith)
          | inl same ↦ elim (Option-cases (read (between disk) place)) [
            | inl gone ↦ absurd (ground arith)
            | inr (copied, there) ↦
                let run : promote_file sha256_of between q temp sha256 destination disk
                    ≡ (ok destination, replace temp destination copied (between disk)) =
                  rw (promote_file, e, same)
                    (copy_file-copied temp place destination copied (between disk) there) in
                (
                  ground arith,
                  (
                    hashed,
                    copied,
                    (==_iff (sha256_of hashed) sha256).0 same,
                    e,
                    there,
                    ap (λ (m : Result Str × Disk). read m.1 destination) run
                        ∙ read-replace temp destination copied (between disk),
                  ),
                  λ a n m.
                      ap (λ (m : Result Str × Disk). read m.1 a) run
                      ∙ replace-IsKept temp destination copied (between disk) a n m,
                )
          ]
        ]
      ]

  -- What was admitted can be promoted, and arrives as it was received, where nobody changes it between
  -- the two readings that the promotion makes of it.
  pub promote_file-admit :
      (between : Disk → Disk) (temp temp' destination : Str) (reads : Reads) (disk : Disk)
      (a : Admitted)
      → (admit sha256_of q temp reads disk).0 ≡ ok a
      → read (between (admit sha256_of q temp reads disk).1) a.path
        ≡ read (admit sha256_of q temp reads disk).1 a.path
      → ((promote_file sha256_of between q temp' a.sha256 destination
            (admit sha256_of q temp reads disk).1).0
          ≡ ok destination)
        × (read
              (promote_file sha256_of between q temp' a.sha256 destination
                (admit sha256_of q temp reads disk).1).1
              destination
            ≡ some (received reads))
  unfolding promote_file
  promote_file-admit between temp temp' destination reads disk a h steady =
      elim (admit_lem temp reads disk) [
        | inr (e, f, k) ↦ absurd (ground arith)
        | inl (b, f, digest, l, m, place, stored, k) ↦
            let full = (admit sha256_of q temp reads disk).1 in
            let same : b ≡ a = cc (sym f ∙ h) in
            let at : a.path ≡ path_of q a.sha256 =
              ap (λ (x : Admitted). x.path) (sym same)
              ∙ place
              ∙ ap (λ (x : Admitted). path_of q x.sha256) same in
            let first : read full a.path ≡ some (received reads) =
              ap (λ (x : Admitted). read full x.path) (sym same) ∙ stored in
            let here : read full (path_of q a.sha256) ≡ some (received reads) =
              ap (read full) (sym at) ∙ first in
            let again : read (between full) (path_of q a.sha256) ≡ some (received reads) =
              ap (read (between full)) (sym at) ∙ steady ∙ first in
            let hit : (sha256_of (received reads) == a.sha256) ≡ true =
              (==_iff (sha256_of (received reads)) a.sha256).1
                (sym digest ∙ ap (λ (x : Admitted). x.sha256) same) in
            let run : promote_file sha256_of between q temp' a.sha256 destination full
                ≡ (ok destination, replace temp' destination (received reads) (between full)) =
              rw (promote_file, here, hit)
                (copy_file-copied temp' (path_of q a.sha256) destination (received reads)
                  (between full) again) in
            (
              ap (λ (m : Result Str × Disk). m.0) run,
              ap (λ (m : Result Str × Disk). read m.1 destination) run
                  ∙ read-replace temp' destination (received reads) (between full),
            )
      ]
