-- ===== src/Base/Lists.antt =====
-- Lists measured by native numbers, and Python's `any`, `all`, `in` and `next`.
use Prim.Native.Nat.{ℕ, zero, suc, ◌+◌}
use mathlib.Core.Path.{◌≡◌, refl, ap}
use mathlib.Core.Logic.{◌↔◌, ◌⊎◌, inl, inr}
use mathlib.Core.Bool.{Bool, true, false, ◌&&◌, ◌||◌}
use mathlib.Core.Option.{Option, none, some}
use mathlib.Core.List.{List, [], ◌∷◌, ◌++◌}
use native.Mathlib.Omega.{arith}
use dev_tools_distribution_p.Base.Tests.{if◌then◌else◌, Eq, ◌==◌}

module _ {ℓ} {A : Type ℓ} where
  abbrev pub length : List A → ℕ
  length [] = 0
  length (x ∷ xs) = suc (length xs)

  abbrev pub drop : ℕ → List A → List A
  drop zero xs = xs
  drop (suc n) [] = []
  drop (suc n) (x ∷ xs) = drop n xs

  -- `all(p(x) for x in xs)`
  unfoldable pub all : (A → Bool) → List A → Bool
  all p [] = true
  all p (x ∷ xs) = p x && all p xs

  -- `any(p(x) for x in xs)`
  unfoldable pub any : (A → Bool) → List A → Bool
  any p [] = false
  any p (x ∷ xs) = p x || any p xs

  -- `[x for x in xs if p(x)]`
  unfoldable pub filter : (A → Bool) → List A → List A
  filter p [] = []
  filter p (x ∷ xs) = let rest = filter p xs in if p x then x ∷ rest else rest

  -- The first element that passes, as a `for` loop with a `return` finds it.
  unfoldable pub find : (A → Bool) → List A → Option A
  find p [] = none
  find p (x ∷ xs) = if p x then some x else find p xs

  pub append_nil : (xs : List A) → xs ++ [] ≡ xs
  append_nil [] = refl
  append_nil (x ∷ xs) = ap (λ ys. x ∷ ys) (append_nil xs)

  pub append_assoc : (xs ys zs : List A) → (xs ++ ys) ++ zs ≡ xs ++ (ys ++ zs)
  append_assoc [] ys zs = refl
  append_assoc (x ∷ xs) ys zs = ap (λ ts. x ∷ ts) (append_assoc xs ys zs)

  pub length-append : (xs ys : List A) → length (xs ++ ys) ≡ length xs + length ys
  length-append [] ys = omega arith
  length-append (x ∷ xs) ys = omega (arith, length-append xs ys)

module _ {A : Type 0} where
  -- Membership and "for every element", as types that compute.
  abbrev pub In : A → List A → Type 0
  In a [] = ⊥
  In a (x ∷ xs) = (x ≡ a) ⊎ In a xs

  abbrev pub All : (A → Type 0) → List A → Type 0
  All P [] = Unit
  All P (x ∷ xs) = P x × All P xs

  pub find-eq-some :
      (p : A → Bool) (xs : List A) (a : A) → find p xs ≡ some a → In a xs × (p a ≡ true)
  unfolding find
  find-eq-some p [] a h = cc
  find-eq-some p (x ∷ xs) a h = ground (arith, find-eq-some p xs a)

  pub find-eq-none :
      (p : A → Bool) (xs : List A) → find p xs ≡ none → (a : A) → In a xs → p a ≡ false
  unfolding find
  find-eq-none p [] h a m = elim m [ ]
  find-eq-none p (x ∷ xs) h a (inl e) = ground arith
  find-eq-none p (x ∷ xs) h a (inr m) = find-eq-none p xs (ground arith) a m

  pub all-In : (p : A → Bool) (xs : List A) → all p xs ≡ true → (a : A) → In a xs → p a ≡ true
  unfolding all
  all-In p [] h a m = elim m [ ]
  all-In p (x ∷ xs) h a (inl e) = ground arith
  all-In p (x ∷ xs) h a (inr m) = all-In p xs (ground arith) a m

  pub In-filter :
      (p : A → Bool) (xs : List A) (a : A) → In a (filter p xs) ↔ (In a xs × (p a ≡ true))
  unfolding filter
  In-filter p [] a = ground arith
  In-filter p (x ∷ xs) a = ground (arith, In-filter p xs a)

  pub In-append : (xs ys : List A) (a : A) → In a (xs ++ ys) → In a xs ⊎ In a ys
  In-append [] ys a m = inr m
  In-append (x ∷ xs) ys a (inl e) = inl (inl e)
  In-append (x ∷ xs) ys a (inr m) = ground (arith, In-append xs ys a m)

  pub append-In : (xs ys : List A) (a : A) → In a xs ⊎ In a ys → In a (xs ++ ys)
  append-In [] ys a (inl m) = elim m [ ]
  append-In [] ys a (inr m) = m
  append-In (x ∷ xs) ys a (inl (inl e)) = inl e
  append-In (x ∷ xs) ys a (inl (inr m)) = inr (append-In xs ys a (inl m))
  append-In (x ∷ xs) ys a (inr m) = inr (append-In xs ys a (inr m))

  pub any-In : (p : A → Bool) (xs : List A) (a : A) → In a xs → p a ≡ true → any p xs ≡ true
  unfolding any
  any-In p [] a m h = elim m [ ]
  any-In p (x ∷ xs) a m h = ground (arith, any-In p xs a)

  pub any-eq-false :
      (p : A → Bool) (xs : List A) → any p xs ≡ false → (a : A) → In a xs → p a ≡ false
  unfolding any
  any-eq-false p [] h a m = elim m [ ]
  any-eq-false p (x ∷ xs) h a (inl e) = ground arith
  any-eq-false p (x ∷ xs) h a (inr m) = any-eq-false p xs (ground arith) a m

  pub any-false :
      (p : A → Bool) (xs : List A) → ((a : A) → In a xs → p a ≡ false) → any p xs ≡ false
  unfolding any
  any-false p [] h = refl
  any-false p (x ∷ xs) h = ground (arith, h x (inl refl), any-false p xs (λ a m. h a (inr m)))

  -- One element that fails is enough for `all` to fail.
  pub all-false : (p : A → Bool) (xs : List A) (a : A) → In a xs → p a ≡ false → all p xs ≡ false
  unfolding all
  all-false p [] a m h = elim m [ ]
  all-false p (x ∷ xs) a m h = ground (arith, all-false p xs a)

module _ {A : Type 0} ⦃e : Eq A⦄ where
  -- `x in xs`
  unfoldable pub contains : A → List A → Bool
  contains a [] = false
  contains a (x ∷ xs) = x == a || contains a xs

  pub contains_iff : (a : A) (xs : List A) → (contains a xs ≡ true) ↔ In a xs
  unfolding contains
  contains_iff a [] = ground arith
  contains_iff a (x ∷ xs) = ground (arith, e.beq_iff x a, contains_iff a xs)
