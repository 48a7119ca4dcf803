-- ===== src/Base/Text/Decimal.antt =====
-- Decimal digits (`%d`) read back, and texts cut at a separator.
use dev_tools_distribution_p.Base.Tests.{ltb, nat_eq, ==_refl, Bool-cases}
use dev_tools_distribution_p.Base.Text.{Bytes, contains_char, digits, decimal}
use dev_tools_distribution_p.Base.Text.Laws.{contains_char-append}
use Prim.Native.Nat.{ℕ, zero, suc, ◌+◌, ◌-◌, ◌*◌, ◌/◌, ◌%◌, ◌<◌, ◌≤◌}
use mathlib.Core.Path.{◌≡◌, refl}
use mathlib.Core.Logic.{◌⊎◌, inl, inr}
use mathlib.Core.Bool.{false}
use mathlib.Core.List.{[], ◌∷◌, ◌++◌}
use native.Mathlib.Omega.{arith}

-- The number that decimal digits write, after `acc`.
unfoldable pub value : ℕ → Bytes → ℕ
value acc [] = acc
value acc (d ∷ ds) = value (acc * 10 + (d - b'0')) ds

value-append :
    (acc : ℕ) (ds : Bytes) (d : ℕ) → value acc (ds ++ d ∷ []) ≡ value acc ds * 10 + (d - b'0')
unfolding value
value-append acc [] d = refl
value-append acc (e ∷ ds) d = value-append (acc * 10 + (e - b'0')) ds d

value-digits : (fuel n : ℕ) → n + 1 ≤ fuel → value 0 (digits fuel n) ≡ n
unfolding value digits
value-digits zero n h = omega arith
value-digits (suc fuel) n h = elim (Bool-cases (ltb n 10)) [
  | inl small ↦ ground arith
  | inr large ↦ ground (
    arith,
    value-append 0 (digits fuel (n / 10)) (b'0' + n % 10),
    value-digits fuel (n / 10) (ground arith),
  )
]

pub value-decimal : (n : ℕ) → value 0 (decimal n) ≡ n
unfolding decimal
value-decimal n = value-digits (suc n) n (omega arith)

-- Decimal digits hold no character below or above the ten.
pub digits-no_char :
    (c : ℕ) → (c < b'0') ⊎ (b'9' < c) → (fuel n : ℕ) → contains_char c (digits fuel n) ≡ false
unfolding digits contains_char
digits-no_char c o zero n = refl
digits-no_char c o (suc fuel) n = elim (Bool-cases (ltb n 10)) [
  | inl small ↦ ground arith
  | inr large ↦ ground (
    arith,
    contains_char-append c (digits fuel (n / 10)) ((b'0' + n % 10) ∷ []),
    digits-no_char c o fuel (n / 10),
  )
]

-- Two texts with a separator are cut at the first one.
pub first_cut :
    (c : ℕ) (s s' t t' : Bytes)
    → contains_char c s ≡ false
    → contains_char c s' ≡ false
    → s ++ c ∷ t ≡ s' ++ c ∷ t'
    → (s ≡ s') × (t ≡ t')
unfolding contains_char
first_cut c [] [] t t' h h' e = (refl, cc)
first_cut c [] (d ∷ s') t t' h h' e = ground (arith, ==_refl c)
first_cut c (d ∷ s) [] t t' h h' e = ground (arith, ==_refl c)
first_cut c (d ∷ s) (d' ∷ s') t t' h h' e = ground (arith, first_cut c s s' t t')
