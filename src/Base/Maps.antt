-- ===== src/Base/Maps.antt =====
-- Python's `dict`, as the list of its items in the order of insertion, and its sorted sets of texts.
pub mod Laws
use dev_tools_distribution_p.Base.Tests.{ltb, if◌then◌else◌, ◌==◌, nat_eq, list_eq}
use dev_tools_distribution_p.Base.Text.{Str}
use Prim.Native.Nat.{ℕ}
use mathlib.Core.Bool.{Bool, true, false, ◌||◌}
use mathlib.Core.Option.{Option, none, some}
use mathlib.Core.List.{List, [], ◌∷◌}

-- `d.get(key)`
unfoldable pub get_item : {V : Type 0} → List (Str × V) → Str → Option V
get_item [] key = none
get_item ((k, v) ∷ items) key = if k == key then some v else get_item items key

-- `d[key] = value`
unfoldable pub set_item : {V : Type 0} → Str → V → List (Str × V) → List (Str × V)
set_item key value [] = (key, value) ∷ []
set_item key value ((k, v) ∷ items) =
    let rest = set_item key value items in if k == key then (key, value) ∷ items else (k, v) ∷ rest

-- The order of texts, by code points.
unfoldable pub precedes : Str → Str → Bool
precedes s [] = false
precedes [] (d ∷ t) = true
precedes (c ∷ s) (d ∷ t) = if c == d then precedes s t else ltb c d

-- `s.add(value)`, on the sorted list of a set
unfoldable pub add_sorted : Str → List Str → List Str
unfolding precedes
add_sorted value [] = value ∷ []
add_sorted value (x ∷ xs) =
    let rest = add_sorted value xs in
    if x == value then x ∷ xs else if precedes value x then value ∷ x ∷ xs else x ∷ rest
