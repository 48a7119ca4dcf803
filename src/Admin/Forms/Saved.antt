-- ===== src/Admin/Forms/Saved.antt =====
-- packages/dist-admin/src/dist_admin/forms.py, `source_edit_from_form`, over `update_source` of
-- packages/dist-registry/src/dist_registry/store.py: what saving an edit does to the table.
use dev_tools_distribution_p.Base.{
  ℕ, Bool, true, false, Option, some, List, [], ◌∷◌, map, if◌then◌else◌, ◌==◌, nat_eq, list_eq, all,
  all-In, any, any-In, find, find-eq-some, In, contains, Result, ok, err, ◌>>=◌, from_option,
  store_error, check_violation, ◌≡◌, refl, sym, ap, ◌∙◌, arith, Bool-cases, inl, inr,
}
use dev_tools_distribution_p.Base.Exec.{settle}
use dev_tools_distribution_p.Base.Json.{Fields}
use dev_tools_distribution_p.Core.Naming.{channels}
use dev_tools_distribution_p.Registry.Models.{Source}
use dev_tools_distribution_p.Registry.Schema.{Db, row_ok, update_where, update_sources}
use dev_tools_distribution_p.Registry.Sources.{
  get_source, has_id, assign_all, is_empty, update_source,
}
use dev_tools_distribution_p.Registry.Sources.Columns.{Identity, identity_of-assign_all}
use dev_tools_distribution_p.Admin.Forms.Sources.{differences}
use dev_tools_distribution_p.Admin.Forms.Edits.{
  Storable, written, differences-Storable, assign_all-differences, row_ok-with_edits,
}

find-update_where :
    {A : Type 0} (p : A → Bool) (f : A → A) (rows : List A) (r : A)
    → ((s : A) → p (f s) ≡ p s)
    → find p rows ≡ some r
    → find p (update_where p f rows) ≡ some (f r)
unfolding find update_where
find-update_where p f [] r same h = cc
find-update_where p f (x ∷ rows) r same h =
    ground (arith, same x, find-update_where p f rows r same)

module _ (p : Source → Bool) (f : Source → Source) where
  all-update_where :
      (rows : List Source)
      → all row_ok rows ≡ true
      → ((s : Source) → In s rows → p s ≡ true → row_ok (f s) ≡ true)
      → all row_ok (update_where p f rows) ≡ true
  unfolding all update_where
  all-update_where [] h each = refl
  all-update_where (x ∷ rows) h each =
      let rest : all row_ok rows ≡ true → all row_ok (update_where p f rows) ≡ true =
        λ g. all-update_where rows g (λ s m. each s (inr m)) in
      elim (Bool-cases (p x)) [
        | inl yes_p ↦ ground (arith, each x (inl refl) yes_p, rest)
        | inr no_p ↦ ground (arith, rest)
      ]

  not_all-update_where :
      (rows : List Source) (r : Source)
      → In r rows
      → p r ≡ true
      → row_ok (f r) ≡ false
      → all row_ok (update_where p f rows) ≡ false
  unfolding all update_where
  not_all-update_where [] r m h k = elim m [ ]
  not_all-update_where (x ∷ rows) r (inl e) h k = ground (arith, ap p e, ap (λ s. row_ok (f s)) e)
  not_all-update_where (x ∷ rows) r (inr m) h k = ground (arith, not_all-update_where rows r m h k)

-- The rows after one of them is replaced.
update_where-replaces :
    (p : Source → Bool) (f : Source → Source) (new : Source) (rows : List Source)
    → ((s : Source) → In s rows → p s ≡ true → f s ≡ new)
    → update_where p f rows ≡ map (λ r. if p r then new else r) rows
unfolding update_where
update_where-replaces p f new [] h = refl
update_where-replaces p f new (x ∷ rows) h =
    let rest = update_where-replaces p f new rows (λ s m. h s (inr m)) in
    elim (Bool-cases (p x)) [
      | inl e ↦ let same = h x (inl refl) e in rw e (cc (same, rest))
      | inr e ↦ rw e (cc rest)
    ]

map-replaces :
    (p : Source → Bool) (old : Source) (rows : List Source)
    → ((s : Source) → In s rows → p s ≡ true → s ≡ old)
    → rows ≡ map (λ r. if p r then old else r) rows
map-replaces p old [] h = refl
map-replaces p old (x ∷ rows) h =
    let rest = map-replaces p old rows (λ s m. h s (inr m)) in
    elim (Bool-cases (p x)) [
      | inl e ↦ let same = h x (inl refl) e in rw e (cc (same, rest))
      | inr e ↦ rw e (cc rest)
    ]

-- The update of one row, with the row it gives back
abbrev pub edit_row : ℕ → Fields → Source → Source
edit_row now fields s = record (assign_all fields s) { updated_at = some now }

pub edit_row-differences :
    (now : ℕ) (old new : Source) → edit_row now (differences old new) old ≡ written now old new
edit_row-differences now old new =
    ap (λ (s : Source). record s { updated_at = some now }) (assign_all-differences old new)

-- `update_source` with fields that the registry can take, by its steps.
update_source-some :
    (id : ℕ) (fields : Fields) (db : Db)
    → Storable fields
    → is_empty fields ≡ false
    → any (has_id id) db.sources ≡ true
    → update_source id fields db
      ≡ settle db (do
        db' ← update_sources (has_id id) (edit_row db.now fields) db
        s ← from_option (get_source id db') store_error
        ok (s, db'))
unfolding update_source
update_source-some id fields db s h k = rw (s.known, h, s.typed, k) refl

pub update_source-none :
    (id : ℕ) (fields : Fields) (db : Db) (r : Source)
    → Storable fields
    → is_empty fields ≡ true
    → get_source id db ≡ some r
    → update_source id fields db ≡ (ok r, db)
unfolding update_source
update_source-none id fields db r s h k = rw (s.known, h, k) refl

module _ (id : ℕ) (db : Db) (old new : Source) (there : get_source id db ≡ some old)
    (valid : all row_ok db.sources ≡ true)
    (key : (s : Source) → In s db.sources → has_id id s ≡ true → s ≡ old) where
  abbrev pub row : Source → Source
  row = edit_row db.now (differences old new)

  old-In : In old db.sources × (has_id id old ≡ true)
  unfolding get_source
  old-In = find-eq-some (has_id id) db.sources old there

  pub old-row_ok : row_ok old ≡ true
  old-row_ok = all-In row_ok db.sources valid old old-In.0

  row-row_ok : row_ok (row old) ≡ contains new.channel channels
  row-row_ok =
      ap row_ok (edit_row-differences db.now old new) ∙ row_ok-with_edits db.now old new old-row_ok

  -- The table takes a row whose channel it knows.
  update_sources-known :
      contains new.channel channels ≡ true
      → update_sources (has_id id) row db
        ≡ ok (record db { sources = update_where (has_id id) row db.sources })
  unfolding update_sources
  update_sources-known c =
      let fits : all row_ok (update_where (has_id id) row db.sources) ≡ true =
        all-update_where (has_id id) row db.sources valid
          (λ s m h. ap (λ t. row_ok (row t)) (key s m h) ∙ row-row_ok ∙ c) in
      ap
        (λ b.
          if b
          then ok (record db { sources = update_where (has_id id) row db.sources })
          else err check_violation)
        fits

  update_sources-unknown :
      contains new.channel channels ≡ false
      → update_sources (has_id id) row db ≡ err check_violation
  unfolding update_sources
  update_sources-unknown c =
      let breaks : all row_ok (update_where (has_id id) row db.sources) ≡ false =
        not_all-update_where (has_id id) row db.sources old old-In.0 old-In.1 (row-row_ok ∙ c) in
      ap
        (λ b.
          if b
          then ok (record db { sources = update_where (has_id id) row db.sources })
          else err check_violation)
        breaks

  row-has_id : (s : Source) → has_id id (row s) ≡ has_id id s
  row-has_id s =
      ap (λ (x : Identity). x.id == id)
        (identity_of-assign_all (differences old new) s (differences-Storable old new).known)

  found : find (has_id id) (update_where (has_id id) row db.sources) ≡ some (row old)
  unfolding get_source
  found = find-update_where (has_id id) row db.sources old row-has_id there

  present : any (has_id id) db.sources ≡ true
  present = any-In (has_id id) db.sources old old-In.0 old-In.1

  pub saved :
      contains new.channel channels ≡ true
      → is_empty (differences old new) ≡ false
      → update_source id (differences old new) db ≡ (
        ok (row old),
        record db { sources = map (λ r. if has_id id r then row old else r) db.sources },
      )
  unfolding get_source
  saved c some_change =
      update_source-some id (differences old new) db (differences-Storable old new) some_change
        present
      ∙ ap
          (λ (r : Result Db). settle db (
            r >>= λ db'.
            from_option (find (has_id id) db'.sources) store_error >>= λ s. ok (s, db')))
          (update_sources-known c)
      ∙ ap
          (λ (o : Option Source). settle db (
            from_option o store_error >>= λ s.
            ok (s, record db { sources = update_where (has_id id) row db.sources })))
          found
      ∙ ap (λ (rows : List Source). (ok (row old), record db { sources = rows }))
          (update_where-replaces (has_id id) row (row old) db.sources (λ s m h. ap row (key s m h)))

  pub unsaved_rows :
      record db { sources = map (λ r. if has_id id r then old else r) db.sources } ≡ db
  unsaved_rows =
      ap (λ (rows : List Source). record db { sources = rows })
        (sym (map-replaces (has_id id) old db.sources key))

  pub not_saved :
      contains new.channel channels ≡ false
      → is_empty (differences old new) ≡ false
      → update_source id (differences old new) db ≡ (err check_violation, db)
  not_saved c some_change =
      update_source-some id (differences old new) db (differences-Storable old new) some_change
        present
      ∙ ap
          (λ (r : Result Db).
            settle db
              (r >>= λ db'. from_option (get_source id db') store_error >>= λ s. ok (s, db')))
          (update_sources-unknown c)
