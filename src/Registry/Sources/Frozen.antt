-- ===== src/Registry/Sources/Frozen.antt =====
-- What an edit of a source may not touch, and when a source is due
-- (packages/dist-registry/src/dist_registry/store.py).
use dev_tools_distribution_p.Base.{
  ℕ, ◌+◌, ◌≤◌, ◌≡◌, refl, ◌↔◌, inl, inr, true, false, none, some, List, [], ◌∷◌, arith,
  if◌then◌else◌, ◌==◌, nat_eq, list_eq, ==_iff, ==_refl, all, map, any, any-eq-false, any-false,
  all-false, find, In, In-filter, contains, err, store_error, Option-cases, Bool-cases,
}
use dev_tools_distribution_p.Base.Json.{Fields}
use dev_tools_distribution_p.Base.Text.{Str}
use dev_tools_distribution_p.Registry.Models.{
  Source, Job, active, draft, paused, status_eq, kind_eq, poll,
}
use dev_tools_distribution_p.Registry.Schema.{Db, row_ok, has_pins, open_for, is_open, update_where}
use dev_tools_distribution_p.Registry.Sources.Columns.{IsKnown, identity_of, identity_of-assign_all}
use dev_tools_distribution_p.Registry.Sources.{
  get_source, has_id, updatable_columns, names, assign_all, update_source, set_status,
  mark_delegated, sources_due_for_poll, is_due, activated, awaits_delegation, recent_poll,
}

edited : ℕ → Fields → Source → Source
edited now fields s = record (assign_all fields s) { updated_at = some now }

identity_of-edited :
    (now : ℕ) (fields : Fields) (s : Source)
    → IsKnown fields
    → identity_of (edited now fields s) ≡ identity_of s
unfolding edited
identity_of-edited now fields s known = identity_of-assign_all fields s known

identities-update_where :
    (i now : ℕ) (fields : Fields) (rows : List Source)
    → IsKnown fields
    → map identity_of (update_where (has_id i) (edited now fields) rows) ≡ map identity_of rows
unfolding update_where
identities-update_where i now fields [] known = refl
identities-update_where i now fields (s ∷ rows) known =
    cc (identities-update_where i now fields rows known, same)
  where
    same : identity_of (if has_id i s then edited now fields s else s) ≡ identity_of s
    same = elim (Bool-cases (has_id i s)) [
      | inl h ↦ rw h (identity_of-edited now fields s known)
      | inr h ↦ rw h refl
    ]

-- An edit, whatever its fields and where an assignment may set any column, the pins too, leaves the
-- identity and the provenance pins of every source as they were; and one that names a column outside the list is refused with nothing changed.
pub update_source_lem :
    (i : ℕ) (fields : Fields) (db : Db)
    → (map identity_of (update_source i fields db).1.sources ≡ map identity_of db.sources)
      × ((name : Str)
          → In name (names fields)
          → contains name updatable_columns ≡ false
          → update_source i fields db ≡ (err store_error, db))
unfolding update_source edited
update_source_lem i fields db = (
  elim (Bool-cases (all (λ n. contains n updatable_columns) (names fields))) [
    | inl known ↦ ground (arith, identities-update_where i db.now fields db.sources known)
    | inr refused ↦ ground arith
  ],
  λ name m h.
      let refused : all (λ n. contains n updatable_columns) (names fields) ≡ false =
        all-false (λ n. contains n updatable_columns) (names fields) name m h in
      ground arith,
)

-- The two tests on one job of the source.
quiet_job :
    (n : ℕ) (db : Db) (s : Source) (j : Job)
    → j.source_id ≡ s.id
    → open_for s.id j ≡ false
    → recent_poll s.id n db.now j ≡ false
    → (is_open j ≡ false) × ((t : ℕ) → j.kind ≡ poll → j.finished_at ≡ some t → t + n ≤ db.now)
unfolding recent_poll open_for
quiet_job n db s j e o r = (ground arith, λ t k f. ground arith)

quiet_job_tests :
    (n : ℕ) (db : Db) (s : Source) (j : Job)
    → (j.source_id ≡ s.id
        → (is_open j ≡ false) × ((t : ℕ) → j.kind ≡ poll → j.finished_at ≡ some t → t + n ≤ db.now))
    → (open_for s.id j ≡ false) × (recent_poll s.id n db.now j ≡ false)
unfolding recent_poll open_for
quiet_job_tests n db s j h = elim (Bool-cases (j.source_id == s.id)) [
  | inl e ↦
      let (o, f) = h ((==_iff j.source_id s.id).0 e) in
      elim (Option-cases j.finished_at) [ inl u ↦ ground arith | inr (t, u) ↦ ground (arith, f t) ]
  | inr e ↦ ground arith
]

due_tests :
    (n : ℕ) (db : Db) (s : Source)
    → is_due n db s ≡ true
    → (s.status ≡ active)
      × (any (open_for s.id) db.jobs ≡ false)
      × (any (recent_poll s.id n db.now) db.jobs ≡ false)
unfolding is_due
due_tests n db s h = ground arith

tests_due :
    (n : ℕ) (db : Db) (s : Source)
    → s.status ≡ active
    → any (open_for s.id) db.jobs ≡ false
    → any (recent_poll s.id n db.now) db.jobs ≡ false
    → is_due n db s ≡ true
unfolding is_due
tests_due n db s a o r = ground arith

-- A source is due exactly when it is active, it has no unfinished job, and each of its polls that
-- finished did so at least the interval ago.
pub sources_due_for_poll_lem :
    (interval : ℕ) (db : Db) (s : Source)
    → In s (sources_due_for_poll interval db) ↔ (
        In s db.sources
        × (s.status ≡ active)
        × ((j : Job)
            → In j db.jobs
            → j.source_id ≡ s.id
            → (is_open j ≡ false)
              × ((t : ℕ) → j.kind ≡ poll → j.finished_at ≡ some t → t + interval ≤ db.now)))
unfolding sources_due_for_poll
sources_due_for_poll_lem n db s = (
  λ h.
      let (m, d) = (In-filter (is_due n db) db.sources s).0 h in
      let (a, o, r) = due_tests n db s d in
      (
        m,
        a,
        λ j k e.
            quiet_job n db s j e (any-eq-false (open_for s.id) db.jobs o j k)
              (any-eq-false (recent_poll s.id n db.now) db.jobs r j k),
      ),
  λ (m, a, q). (In-filter (is_due n db) db.sources s).1 (
    m,
    tests_due n db s a
        (any-false (open_for s.id) db.jobs (λ j k. (quiet_job_tests n db s j (q j k)).0))
        (any-false (recent_poll s.id n db.now) db.jobs
          (λ j k. (quiet_job_tests n db s j (q j k)).1)),
  ),
)

-- A draft, of a forge whose pins were typed in the form, that is paused and then delegated becomes
-- active: nothing asks that it was ever validated. (The source here is the only one.)
pub paused_draft_activates :
    (db : Db) (s : Source)
    → db.sources ≡ s ∷ []
    → row_ok s ≡ true
    → s.status ≡ draft
    → has_pins s ≡ true
    → (get_source s.id (mark_delegated s.app_id (set_status s.id paused none db).1).1)
      ≡ some (record s { status = active; last_error = none; updated_at = some db.now })
unfolding mark_delegated set_status get_source update_where all any find row_ok has_pins activated
    awaits_delegation
paused_draft_activates db s one r d p = ground (arith, one, ==_refl s.id, ==_refl s.app_id)
