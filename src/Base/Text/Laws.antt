-- ===== src/Base/Text/Laws.antt =====
-- Laws of `startswith`, `split` and `join`.
use dev_tools_distribution_p.Base.Tests.{nat_eq, ==_iff, ==_refl}
use dev_tools_distribution_p.Base.Text.{Str, starts_with, contains_char, split, chomp, newline}
use Prim.Native.Nat.{ℕ}
use mathlib.Core.Path.{◌≡◌, refl, ap}
use mathlib.Core.Bool.{true, false, ◌||◌}
use mathlib.Core.List.{[], ◌∷◌, ◌++◌}
use native.Mathlib.Omega.{arith}

pub starts_with-append : (p s : Str) → starts_with (p ++ s) p ≡ true
unfolding starts_with
starts_with-append [] [] = refl
starts_with-append [] (d ∷ s) = refl
starts_with-append (c ∷ p) s = ground (arith, starts_with-append p s)

-- A text that starts with `p` is `p` with a rest.
pub starts_with-eq_true : (s p : Str) → starts_with s p ≡ true → (t : Str) × (s ≡ p ++ t)
unfolding starts_with
starts_with-eq_true s [] h = (s, refl)
starts_with-eq_true [] (c ∷ p) h = cc
starts_with-eq_true (d ∷ s) (c ∷ p) h =
    let (t, e) = starts_with-eq_true s p (ground arith) in (t, ground (arith, ==_iff d c))

pub append_cancel : (p s t : Str) → p ++ s ≡ p ++ t → s ≡ t
append_cancel [] s t h = h
append_cancel (c ∷ p) s t h = append_cancel p s t (cc)

pub contains_char-append :
    (c : ℕ) (s t : Str) → contains_char c (s ++ t) ≡ (contains_char c s || contains_char c t)
unfolding contains_char
contains_char-append c [] t = refl
contains_char-append c (d ∷ s) t = ground (arith, contains_char-append c s t)

-- A part with no separator is one part.
pub split_single : (c : ℕ) (s : Str) → contains_char c s ≡ false → split c s ≡ s ∷ []
unfolding contains_char split
split_single c [] h = refl
split_single c (d ∷ s) h = ground (arith, split_single c s)

pub split-append :
    (c : ℕ) (s t : Str) → contains_char c s ≡ false → split c (s ++ c ∷ t) ≡ s ∷ split c t
unfolding contains_char split
split-append c [] t h = ground (arith, ==_refl c)
split-append c (d ∷ s) t h = ground (arith, split-append c s t)

-- `$` sees past a newline at the end, and past none where there is none.
pub chomp-newline : (s : Str) → chomp (s ++ newline ∷ []) ≡ s
unfolding chomp
chomp-newline [] = refl
chomp-newline (c ∷ []) = refl
chomp-newline (c ∷ d ∷ s) = ap (λ t. c ∷ t) (chomp-newline (d ∷ s))

pub chomp-no_newline : (s : Str) → contains_char newline s ≡ false → chomp s ≡ s
unfolding chomp contains_char
chomp-no_newline [] h = refl
chomp-no_newline (c ∷ []) h = ground arith
chomp-no_newline (c ∷ d ∷ s) h = ground (arith, chomp-no_newline (d ∷ s))
