-- ===== src/Core/Repository/Order/Log.antt =====
-- packages/dist-core/src/dist_core/repository.py: the metadata directory as a log. What a file names was
-- there when it was written, and stays.
use dev_tools_distribution_p.Base.{
  ℕ, suc, true, false, some, List, [], ◌∷◌, ◌++◌, ◌==◌, nat_eq, list_eq, length, length-append, ◌≡◌,
  refl, sym, ◌∙◌, ap, ◌≢◌, inl, inr, arith, Bool-cases, ==_iff, ==_refl,
}
use dev_tools_distribution_p.Base.Maps.{get_item}
use dev_tools_distribution_p.Base.Text.{Str, text, decimal, contains_char}
use dev_tools_distribution_p.Base.Text.Decimal.{first_cut, digits-no_char}
use dev_tools_distribution_p.Core.Roles.{snapshot, timestamp, app_role_prefix}
use dev_tools_distribution_p.Core.Repository.{
  Metadata, Signed, snapshot_body, timestamp_body, versioned, filename, json_name,
}
use dev_tools_distribution_p.Core.Repository.Order.{
  Log, timestamp_file, snapshot_file, Present, Complete, Served,
}

pub Present-cons :
    (file : Str) (md : Metadata) (log : Log) (f : Str)
    → Present log f
    → Present ((file, md) ∷ log) f
unfolding get_item
Present-cons file md log f (found, e) = elim (Bool-cases (file == f)) [
  | inl same ↦ (md, rw same)
  | inr differ ↦ (found, rw differ e)
]

-- What is written as `file` fits what is there.
abbrev pub Fits : Log → Str → Signed → Type 0
Fits log file signed =
    ((v : ℕ)
      → file ≡ versioned v snapshot_file
      → (meta : List (Str × ℕ)) × (signed ≡ snapshot_body meta) × Complete log meta)
    × (file ≡ timestamp_file
        → (v : ℕ) × (signed ≡ timestamp_body v) × Present log (versioned v snapshot_file))

abbrev pub Ordered : Log → Type 0
Ordered [] = Unit {0}
Ordered ((file, md) ∷ log) = Fits log file md.signed × Ordered log

Fits-cons :
    (file : Str) (md : Metadata) (log : Log) (f : Str) (s : Signed)
    → Fits log f s
    → Fits ((file, md) ∷ log) f s
Fits-cons file md log f s (snap, time) = (
  λ v e.
      let (meta, is, complete) = snap v e in
      (meta, is, λ name w here. Present-cons file md log _ (complete name w here)),
  λ e. let (v, is, present) = time e in (v, is, Present-cons file md log _ present),
)

first_read :
    (file f : Str) (first md : Metadata) (log : Log)
    → (file == f) ≡ true
    → get_item ((file, first) ∷ log) f ≡ some md
    → md ≡ first
unfolding get_item
first_read file f first md log same e = ground arith

-- What is read fits what is there.
pub read-Ordered :
    (log : Log) (f : Str) (md : Metadata)
    → Ordered log
    → get_item log f ≡ some md
    → Fits log f md.signed
unfolding get_item
read-Ordered [] f md o e = cc
read-Ordered ((file, first) ∷ log) f md (fits, o) e = elim (Bool-cases (file == f)) [
  | inl same ↦
      rw (sym ((==_iff file f).0 same), first_read file f first md log same e)
        (Fits-cons file first log file first.signed fits)
  | inr differ ↦ Fits-cons file first log f md.signed (read-Ordered log f md o (ground arith))
]

pub Ordered-Served : (log : Log) → Ordered log → Served log
Ordered-Served log o md e =
    let (v, is, (s, found)) = (read-Ordered log timestamp_file md o e).1 refl in
    let (meta, is', complete) = (read-Ordered log (versioned v snapshot_file) s o found).0 v refl in
    (v, s, meta, is, found, is', complete)

-- So it is at each earlier time.
pub Ordered-suffix : (later earlier : Log) → Ordered (later ++ earlier) → Ordered earlier
Ordered-suffix [] earlier o = o
Ordered-suffix ((file, md) ∷ later) earlier (fits, o) = Ordered-suffix later earlier o

pub append_cancel_right : (p q s : Str) → p ++ s ≡ q ++ s → p ≡ q
append_cancel_right [] [] s e = refl
append_cancel_right [] (d ∷ q) s e = absurd (omega (arith, ap length e, length-append q s))
append_cancel_right (c ∷ p) [] s e = absurd (omega (arith, ap length e, length-append p s))
append_cancel_right (c ∷ p) (d ∷ q) s e = ground (arith, append_cancel_right p q s)

decimal-no_dot : (n : ℕ) → contains_char b'.' (decimal n) ≡ false
unfolding decimal
decimal-no_dot n = digits-no_char b'.' (inl (omega arith)) (suc n) n

pub versioned-name : (n m : ℕ) (s t : Str) → versioned n s ≡ versioned m t → s ≡ t
unfolding versioned
versioned-name n m s t e =
    (first_cut b'.' (decimal n) (decimal m) s t (decimal-no_dot n) (decimal-no_dot m) e).1

-- A name that begins with its only part before a dot is that of no version.
versioned-plain :
    (n : ℕ) (s p t : Str) → contains_char b'.' p ≡ false → versioned n s ≡ p ++ b'.' ∷ t → s ≡ t
unfolding versioned
versioned-plain n s p t h e = (first_cut b'.' (decimal n) p s t (decimal-no_dot n) h e).1

pub versioned-timestamp : (n : ℕ) (role : Str) → versioned n (json_name role) ≢ timestamp_file
unfolding contains_char
versioned-timestamp n role e = omega (
  arith,
  ap length (versioned-plain n (json_name role) (text "timestamp") (text "json") refl e),
  length-append role (text ".json"),
)

timestamp-versioned : (n : ℕ) → versioned n snapshot_file ≢ timestamp_file
timestamp-versioned n = versioned-timestamp n snapshot

pub filename-role :
    (role : Str) (n : ℕ) → role ≢ timestamp → filename role n ≡ versioned n (json_name role)
unfolding filename
filename-role role n differs = ground (arith, ==_iff role timestamp)

pub filename-timestamp : (n : ℕ) → filename timestamp n ≡ timestamp_file
unfolding filename
filename-timestamp n = rw (==_refl timestamp) refl

-- Two roles have different files.
pub filename-ne :
    (role other : Str) (n m : ℕ)
    → other ≢ role
    → other ≢ timestamp
    → filename role n ≢ filename other m
filename-ne role other n m differ plain e =
    let e' = e ∙ filename-role other m plain in
    elim (Bool-cases (role == timestamp)) [
      | inl is ↦
          versioned-timestamp m other
            (sym e' ∙ ap (λ r. filename r n) ((==_iff role timestamp).0 is) ∙ filename-timestamp n)
      | inr is ↦
          let not_timestamp : role ≢ timestamp = λ h. ground (arith, ==_iff role timestamp) in
          differ (
            sym (
              append_cancel_right role other (text ".json")
                (versioned-name n m _ _ (sym (filename-role role n not_timestamp) ∙ e'))))
    ]

pub app-ne-timestamp : (name : Str) → app_role_prefix ++ name ≢ timestamp
app-ne-timestamp name e = ground arith

pub app-ne-snapshot : (name : Str) → app_role_prefix ++ name ≢ snapshot
app-ne-snapshot name e = ground arith

-- What a role may sign.
abbrev pub Suits : Log → Str → Signed → Type 0
Suits log role signed =
    (role ≡ snapshot → (meta : List (Str × ℕ)) × (signed ≡ snapshot_body meta) × Complete log meta)
    × (role ≡ timestamp
        → (v : ℕ) × (signed ≡ timestamp_body v) × Present log (versioned v snapshot_file))

pub filename-Fits :
    (log : Log) (role : Str) (n : ℕ) (signed : Signed)
    → Suits log role signed
    → Fits log (filename role n) signed
unfolding filename
filename-Fits log role n signed (snap, time) = elim (Bool-cases (role == timestamp)) [
  | inl same ↦
      rw same
        (λ v e. absurd (timestamp-versioned v (sym e)), λ e. time ((==_iff role timestamp).0 same))
  | inr differ ↦ rw differ (
    λ v e. snap (append_cancel_right role snapshot (text ".json") (versioned-name n v _ _ e)),
    λ e. absurd (versioned-timestamp n role e),
  )
]

pub root-Fits : (log : Log) (signed : Signed) → Fits log (text "root.json") signed
unfolding contains_char
root-Fits log signed =
    (λ v e. cc (versioned-plain v snapshot_file (text "root") (text "json") refl (sym e)), λ e. cc)
