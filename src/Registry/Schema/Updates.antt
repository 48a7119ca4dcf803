-- ===== src/Registry/Schema/Updates.antt =====
-- Laws of the statements on rows, and of the unique indices of the jobs.
use dev_tools_distribution_p.Base.{
  ◌≡◌, refl, ◌∙◌, sym, ap, inl, inr, Bool, true, false, ◌&&◌, ◌||◌, List, [], ◌∷◌, ◌++◌, arith,
  if◌then◌else◌, ◌==◌, nat_eq, ==_iff, all, any, filter, In, any-In,
}
use dev_tools_distribution_p.Registry.Models.{Job, state_eq}
use dev_tools_distribution_p.Registry.Schema.{is_open, open_for, one_open, unique_ids, update_where}

module _ {A : Type 0} where
  -- A row after an update is a row from before it, updated if it passed.
  pub In-update_where :
      (p : A → Bool) (f : A → A) (xs : List A) (y : A)
      → In y (update_where p f xs)
      → (x : A) × In x xs × (y ≡ (if p x then f x else x))
  unfolding update_where
  In-update_where p f [] y m = elim m [ ]
  In-update_where p f (x ∷ xs) y (inl e) = (x, inl refl, sym e)
  In-update_where p f (x ∷ xs) y (inr m) =
      let (z, k, e) = In-update_where p f xs y m in (z, inr k, e)

  -- A row that does not pass stays.
  pub update_where-In :
      (p : A → Bool) (f : A → A) (xs : List A) (x : A)
      → In x xs
      → p x ≡ false
      → In x (update_where p f xs)
  unfolding update_where
  update_where-In p f [] x m h = elim m [ ]
  update_where-In p f (y ∷ xs) x (inl e) h = inl (ground arith)
  update_where-In p f (y ∷ xs) x (inr m) h = inr (update_where-In p f xs x m h)

  pub any-append : (p : A → Bool) (xs ys : List A) → any p (xs ++ ys) ≡ (any p xs || any p ys)
  unfolding any
  any-append p [] ys = refl
  any-append p (x ∷ xs) ys = ground (arith, any-append p xs ys)

  pub all-append : (p : A → Bool) (xs ys : List A) → all p (xs ++ ys) ≡ (all p xs && all p ys)
  unfolding all
  all-append p [] ys = refl
  all-append p (x ∷ xs) ys = ground (arith, all-append p xs ys)

  pub all-filter : (p q : A → Bool) (xs : List A) → all p xs ≡ true → all p (filter q xs) ≡ true
  unfolding all filter
  all-filter p q [] h = refl
  all-filter p q (x ∷ xs) h = ground (arith, all-filter p q xs)

  pub any-filter : (p q : A → Bool) (xs : List A) → any p xs ≡ false → any p (filter q xs) ≡ false
  unfolding any filter
  any-filter p q [] h = refl
  any-filter p q (x ∷ xs) h = ground (arith, any-filter p q xs)

  -- An update that keeps what `q` reads keeps the answer of `any q`.
  pub any-update_where :
      (q p : A → Bool) (f : A → A) (xs : List A)
      → ((x : A) → In x xs → p x ≡ true → q (f x) ≡ q x)
      → any q (update_where p f xs) ≡ any q xs
  unfolding any update_where
  any-update_where q p f [] keep = refl
  any-update_where q p f (x ∷ xs) keep =
      ground (arith, keep x (inl refl), any-update_where q p f xs (λ y m. keep y (inr m)))

-- An update keeps `one_open` if it keeps each row's source and whether the row is open.
pub one_open-update_where :
    (p : Job → Bool) (f : Job → Job) (js : List Job)
    → ((j : Job)
        → In j js
        → p j ≡ true
        → ((f j).source_id ≡ j.source_id) × (is_open (f j) ≡ is_open j))
    → one_open (update_where p f js) ≡ one_open js
unfolding one_open update_where
one_open-update_where p f [] keep = refl
one_open-update_where p f (j ∷ js) keep = ground (
  arith,
  keep j (inl refl),
  any-update_where (open_for j.source_id) p f js
      (λ k m h. let (a, b) = keep k (inr m) h in ground arith),
  any-update_where (open_for (f j).source_id) p f js
      (λ k m h. let (a, b) = keep k (inr m) h in ground arith),
  one_open-update_where p f js (λ k m. keep k (inr m)),
)

pub one_open-filter :
    (q : Job → Bool) (js : List Job) → one_open js ≡ true → one_open (filter q js) ≡ true
unfolding one_open filter
one_open-filter q [] h = refl
one_open-filter q (j ∷ js) h =
    ground (arith, any-filter (open_for j.source_id) q js, one_open-filter q js)

-- A new job keeps `one_open` if its source has no open job.
pub one_open-append :
    (js : List Job) (j : Job)
    → one_open js ≡ true
    → any (open_for j.source_id) js ≡ false
    → one_open (js ++ (j ∷ [])) ≡ true
unfolding one_open any
one_open-append [] j h n = ground arith
one_open-append (k ∷ js) j h n = ground (
  arith,
  one_open-append js j,
  any-append (open_for k.source_id) js (j ∷ []),
  ==_iff j.source_id k.source_id,
  ==_iff k.source_id j.source_id,
)

pub unique_ids-update_where :
    (p : Job → Bool) (f : Job → Job) (js : List Job)
    → ((j : Job) → (f j).id ≡ j.id)
    → unique_ids (update_where p f js) ≡ unique_ids js
unfolding unique_ids update_where
unique_ids-update_where p f [] keep = refl
unique_ids-update_where p f (j ∷ js) keep = ground (
  arith,
  keep j,
  any-update_where (λ k. k.id == j.id) p f js (λ k m h. rw (keep k)),
  any-update_where (λ k. k.id == (f j).id) p f js (λ k m h. rw (keep k)),
  unique_ids-update_where p f js keep,
)

pub unique_ids-filter :
    (q : Job → Bool) (js : List Job) → unique_ids js ≡ true → unique_ids (filter q js) ≡ true
unfolding unique_ids filter
unique_ids-filter q [] h = refl
unique_ids-filter q (j ∷ js) h =
    ground (arith, any-filter (λ k. k.id == j.id) q js, unique_ids-filter q js)

pub unique_ids-append :
    (js : List Job) (j : Job)
    → unique_ids js ≡ true
    → any (λ k. k.id == j.id) js ≡ false
    → unique_ids (js ++ (j ∷ [])) ≡ true
unfolding unique_ids any
unique_ids-append [] j h n = refl
unique_ids-append (k ∷ js) j h n = ground (
  arith,
  unique_ids-append js j,
  any-append (λ i. i.id == k.id) js (j ∷ []),
  ==_iff j.id k.id,
  ==_iff k.id j.id,
)

-- With unique ids, a row is known by its id.
pub same_id :
    (js : List Job) (j k : Job) → unique_ids js ≡ true → In j js → In k js → j.id ≡ k.id → j ≡ k
unfolding unique_ids
same_id [] j k u mj mk e = elim mj [ ]
same_id (x ∷ js) j k u (inl ej) (inl ek) e = sym ej ∙ ek
same_id (x ∷ js) j k u (inl ej) (inr mk) e =
    let hit : any (λ i. i.id == x.id) js ≡ true =
      any-In (λ i. i.id == x.id) js k mk
        ((==_iff k.id x.id).1 (sym e ∙ ap (λ (i : Job). i.id) (sym ej))) in
    ground arith
same_id (x ∷ js) j k u (inr mj) (inl ek) e =
    let hit : any (λ i. i.id == x.id) js ≡ true =
      any-In (λ i. i.id == x.id) js j mj
        ((==_iff j.id x.id).1 (e ∙ ap (λ (i : Job). i.id) (sym ek))) in
    ground arith
same_id (x ∷ js) j k u (inr mj) (inr mk) e = same_id js j k (ground arith) mj mk e

-- A row that passes is there as it was changed.
pub update_where-hit :
    {A : Type 0} (p : A → Bool) (f : A → A) (xs : List A) (x : A)
    → In x xs
    → p x ≡ true
    → In (f x) (update_where p f xs)
unfolding update_where
update_where-hit p f (y ∷ xs) x (inl e) h = inl (hit (rw e h) ∙ ap f e)
  where
    hit : p y ≡ true → (if p y then f y else y) ≡ f y
    hit g = rw g refl
update_where-hit p f (y ∷ xs) x (inr m) h = inr (update_where-hit p f xs x m h)
update_where-hit p f [] x m h = elim m [ ]
