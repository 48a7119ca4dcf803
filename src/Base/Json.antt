-- ===== src/Base/Json.antt =====
-- What `json.loads` returns. An object is a list of fields with distinct keys.
use dev_tools_distribution_p.Base.Tests.{if◌then◌else◌, ◌==◌, nat_eq, list_eq}
use dev_tools_distribution_p.Base.Text.{Str, Bytes}
use Prim.Native.Nat.{ℕ, zero}
use mathlib.Core.Bool.{Bool, true, false}
use mathlib.Core.Option.{Option, none, some}
use mathlib.Core.List.{List, [], ◌∷◌}

-- `negsuc n` is -(n + 1).
pub data ℤ : Type 0 where
  pos : ℕ → ℤ
  negsuc : ℕ → ℤ

mutual
  pub data Json : Type 0 where
    null : Json
    bool : Bool → Json
    num : ℤ → Json
    -- a number with a fraction or an exponent, by what `int()` makes of it
    real : Option ℤ → Json
    str : Str → Json
    arr : Items → Json
    obj : Fields → Json

  pub data Items : Type 0 where
    nil : Items
    cons : Json → Items → Items

  pub data Fields : Type 0 where
    end : Fields
    field : Str → Json → Fields → Fields

-- `body[key]`, with `none` for a `KeyError`
unfoldable pub lookup : Fields → Str → Option Json
lookup end key = none
lookup (field k v rest) key = if k == key then some v else lookup rest key

-- `body.get(key, default)`
unfoldable pub get_or : Fields → Str → Json → Json
unfolding lookup
get_or body key default = elim (lookup body key) [ none ↦ default | some v ↦ v ]

-- `body.get(key)`: `None` and JSON's `null` are one value.
unfoldable pub get : Fields → Str → Json
unfolding get_or
get body key = get_or body key null

-- `bool(value)`
unfoldable pub truthy : Json → Bool
truthy null = false
truthy (bool b) = b
truthy (num (pos zero)) = false
truthy (num _) = true
truthy (real truncated) = true
truthy (str []) = false
truthy (str (_ ∷ _)) = true
truthy (arr nil) = false
truthy (arr (cons _ _)) = true
truthy (obj end) = false
truthy (obj (field _ _ _)) = true

-- The items of an array.
unfoldable pub items : Items → List Json
items nil = []
items (cons x xs) = x ∷ items xs

-- Python's `json` module with UTF-8: `loads` gives `none` where it raises.
pub record Codec : Type 0 where
  pub loads : Bytes → Option Json
  pub dumps : Json → Bytes
