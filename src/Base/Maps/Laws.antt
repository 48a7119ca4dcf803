-- ===== src/Base/Maps/Laws.antt =====
-- Reading an item after a write.
use dev_tools_distribution_p.Base.Tests.{
  if◌then◌else◌, ◌==◌, nat_eq, list_eq, ==_iff, ==_refl, Bool-cases,
}
use dev_tools_distribution_p.Base.Text.{Str}
use dev_tools_distribution_p.Base.Lists.{In}
use dev_tools_distribution_p.Base.Maps.{get_item, set_item, precedes, add_sorted}
use mathlib.Core.Path.{◌≡◌, refl, sym}
use mathlib.Core.Logic.{◌⊎◌, inl, inr}
use mathlib.Core.Option.{some}
use mathlib.Core.List.{List, [], ◌∷◌}
use native.Mathlib.Omega.{arith}

pub get_item-set_item :
    {V : Type 0} (key : Str) (value : V) (items : List (Str × V)) (other : Str)
    → get_item (set_item key value items) other
      ≡ (if key == other then some value else get_item items other)
unfolding get_item set_item
get_item-set_item key value [] other = refl
get_item-set_item key value ((k, v) ∷ items) other = elim (Bool-cases (k == key)) [
  | inl same ↦ ground (arith, ==_iff k key)
  | inr differ ↦
      ground (
        arith,
        get_item-set_item key value items other,
        ==_iff k other,
        ==_iff key other,
        ==_refl k,
      )
]

pub get_item-cons_self :
    {V : Type 0} (key : Str) (value : V) (items : List (Str × V))
    → get_item ((key, value) ∷ items) key ≡ some value
unfolding get_item
get_item-cons_self key value items = rw (==_refl key)

pub In-add_sorted :
    (value : Str) (xs : List Str) (x : Str) → In x (add_sorted value xs) → (x ≡ value) ⊎ In x xs
unfolding add_sorted
In-add_sorted value [] x h = inl (ground arith)
In-add_sorted value (y ∷ xs) x h =
    let head_or : In x (value ∷ y ∷ xs) → (x ≡ value) ⊎ In x (y ∷ xs) =
      λ m. elim m [ inl e ↦ inl (sym e) | inr r ↦ inr r ] in
    let ih : In x (add_sorted value xs) → (x ≡ value) ⊎ In x xs = In-add_sorted value xs x in
    let below : In x (y ∷ add_sorted value xs) → (x ≡ value) ⊎ In x (y ∷ xs) = λ m. elim m [
      | inl e ↦ inr (inl e)
      | inr r ↦ elim (ih r) [ inl e ↦ inl e | inr r' ↦ inr (inr r') ]
    ] in
    elim (Bool-cases (y == value)) [
      | inl same ↦ inr (rw same at h)
      | inr differ ↦ elim (Bool-cases (precedes value y)) [
        | inl before ↦ head_or (rw (differ, before) at h)
        | inr after ↦ below (rw (differ, after) at h)
      ]
    ]
