-- ===== src/Ingest/Quarantine.antt =====
-- packages/dist-ingest/src/dist_ingest/quarantine.py. The disk is a list of paths with their bytes;
-- SHA-256 in hexadecimal is a parameter. The name that `NamedTemporaryFile` chooses is an argument.
pub mod Content
use dev_tools_distribution_p.Base.{
  ℕ, suc, ◌+◌, ◌≡◌, Bool, true, false, not, Option, none, some, List, [], ◌∷◌, ◌++◌, if◌then◌else◌,
  ◌==◌, nat_eq, list_eq, Eq, filter, length, leb, Error, Result, ok, err, ◌>>=◌, ◌>>◌, require,
  from_option, quarantine_error, os_error,
}
use dev_tools_distribution_p.Base.Exec.{Exec}
use dev_tools_distribution_p.Base.Text.{Str, Bytes, text}

abbrev pub Disk : Type 0
Disk = List (Str × Bytes)

-- The bytes at a path, where it is a file
unfoldable pub read : Disk → Str → Option Bytes
read [] path = none
read ((p, bytes) ∷ disk) path = if p == path then some bytes else read disk path

-- `path.unlink(missing_ok=True)`
unfoldable pub unlink : Str → Disk → Disk
unlink path disk = filter (λ (p, bytes). not (p == path)) disk

unfoldable pub write : Str → Bytes → Disk → Disk
unfolding unlink
write path bytes disk = (path, bytes) ∷ unlink path disk

-- `temp.replace(destination)`, of a file with these bytes
unfoldable pub replace : Str → Str → Bytes → Disk → Disk
unfolding unlink write
replace temp destination bytes disk = write destination bytes (unlink temp disk)

pub record Quarantine : Type 0 where
  pub root : Str
  pub max_bytes : ℕ

pub record Admitted : Type 0 where
  pub sha256 : Str
  pub length : ℕ
  pub path : Str

-- `Quarantine.path`
unfoldable pub path_of : Quarantine → Str → Str
path_of quarantine sha256 = quarantine.root ++ text "/" ++ sha256 ++ text ".bin"

-- The answers of the reads of a source; after the last, it is at its end.
abbrev pub Reads : Type 0
Reads = List (Result Bytes)

-- The loop of `admit`, on the length and the bytes so far
unfoldable pub receive : ℕ → ℕ → Bytes → Reads → Result (ℕ × Bytes)
receive max_bytes n bytes [] = ok (n, bytes)
receive max_bytes n bytes (err e ∷ reads) = err e
receive max_bytes n bytes (ok [] ∷ reads) = ok (n, bytes)
receive max_bytes n bytes (ok (b ∷ chunk) ∷ reads) =
    let rest = receive max_bytes (n + length (b ∷ chunk)) (bytes ++ b ∷ chunk) reads in
    do require (leb (n + length (b ∷ chunk)) max_bytes) quarantine_error; rest

module _ (sha256_of : Bytes → Str) where
  -- `Quarantine.admit`. The temporary file is gone when it returns, and when it raises.
  unfoldable pub admit : Quarantine → Str → Reads → Exec Disk Admitted
  unfolding receive path_of replace unlink
  admit quarantine temp reads disk = elim (receive quarantine.max_bytes 0 [] reads) [
    | err e ↦ (err e, unlink temp disk)
    | ok (n, bytes) ↦
        let sha256 = sha256_of bytes in
        let destination = path_of quarantine sha256 in
        (
          ok (record { sha256 = sha256; length = n; path = destination }),
          replace temp destination bytes disk,
        )
  ]

  -- `Quarantine.contains`
  unfoldable pub contains_file : Quarantine → Str → Disk → Bool
  unfolding read path_of
  contains_file quarantine sha256 disk = elim (read disk (path_of quarantine sha256)) [
    | none ↦ false
    | some _ ↦ true
  ]

  -- The copy that `promote` makes, of what it finds when it opens the file again. A file that is gone
  -- by then leaves the temporary one behind, with nothing in it.
  unfoldable pub copy_file : Str → Str → Str → Exec Disk Str
  unfolding read write replace
  copy_file temp place destination disk = elim (read disk place) [
    | none ↦ (err os_error, write temp [] disk)
    | some bytes ↦ (ok destination, replace temp destination bytes disk)
  ]

  -- `Quarantine.promote`, which opens the file twice: to hash it, and then to copy it. The first argument
  -- is what others make of the disk in between.
  unfoldable pub promote_file : (Disk → Disk) → Quarantine → Str → Str → Str → Exec Disk Str
  unfolding read path_of copy_file
  promote_file between quarantine temp sha256 destination disk =
      elim (read disk (path_of quarantine sha256)) [
        | none ↦ (err quarantine_error, disk)
        | some bytes ↦
            if sha256_of bytes == sha256
            then copy_file temp (path_of quarantine sha256) destination (between disk)
            else (err quarantine_error, disk)
      ]

-- `Quarantine.discard`
unfoldable pub discard : Quarantine → Str → Disk → Disk
unfolding unlink path_of
discard quarantine sha256 disk = unlink (path_of quarantine sha256) disk
