-- ===== src/Ingest/Schedule/Skips.antt =====
-- How long the cheap check can put off a poll (`_unchanged_since_last_poll` of
-- packages/dist-ingest/src/dist_ingest/worker.py).
use dev_tools_distribution_p.Base.{
  ℕ, suc, ◌+◌, ◌≤◌, ◌<◌, ◌≡◌, refl, ap, ◌∙◌, ◌⊎◌, inl, inr, Option, none, some, List, [], ◌∷◌,
  if◌then◌else◌, arith, list_eq, list_beq, nat_eq, leb, length, Result, ok, Bool-cases,
}
use dev_tools_distribution_p.Base.Text.{Str, text}
use dev_tools_distribution_p.Base.Json.{
  Json, null, bool, num, real, str, arr, obj, ℤ, pos, Fields, get, get_or, lookup,
}
use dev_tools_distribution_p.Ingest.Schedule.{
  comparable_of, comparable, unchanged_record, compare_hint, unchanged_after, max_consecutive_skips,
}

-- Results of polls of one source, each filed by the cheap check after the one before it.
abbrev pub IsSkipChain : Fields → List Fields → Type 0
IsSkipChain result [] = Unit
IsSkipChain result (skip ∷ skips) =
    ((hint : Result (Option Str)) × (unchanged_after result hint ≡ ok (some skip)))
    × IsSkipChain skip skips

compare_hint-eq-some :
    (known : Str) (n : ℤ) (hint : Result (Option Str)) (skip : Fields)
    → compare_hint known n hint ≡ ok (some skip)
    → skip ≡ unchanged_record known n
unfolding compare_hint
compare_hint-eq-some known n hint skip h = ground arith

comparable-unchanged_record :
    (c : ℕ) (known : Str) (n : ℕ)
    → comparable (unchanged_record (c ∷ known) (pos n))
      ≡ (if leb max_consecutive_skips (suc n) then none else some (c ∷ known, pos (suc n)))
unfolding comparable unchanged_record lookup list_beq
comparable-unchanged_record c known n = refl

module _ (result : Fields) where
  unchanged_after-none :
      (hint : Result (Option Str)) (skip : Fields)
      → comparable result ≡ none
      → unchanged_after result hint ≡ ok (some skip)
      → ⊥
  unfolding unchanged_after
  unchanged_after-none hint skip e h = ground arith

  unchanged_after-some :
      (hint : Result (Option Str)) (known : Str) (n : ℤ) (skip : Fields)
      → comparable result ≡ some (known, n)
      → unchanged_after result hint ≡ ok (some skip)
      → skip ≡ unchanged_record known n
  unfolding unchanged_after
  unchanged_after-some hint known n skip e h = compare_hint-eq-some known n hint skip (ground arith)

no_skips :
    (result : Fields) (skips : List Fields)
    → comparable result ≡ none
    → IsSkipChain result skips
    → length skips ≡ 0
no_skips result [] e chain = refl
no_skips result (skip ∷ skips) e ((hint, h), chain) =
    absurd (unchanged_after-none result hint skip e h)

first_skip :
    (tag : Json)
    → (comparable_of tag (num (pos 0)) ≡ none)
      ⊎ ((c : ℕ) × (known : Str) × (comparable_of tag (num (pos 0)) ≡ some (c ∷ known, pos 0)))
unfolding comparable_of
first_skip (str (c ∷ tag)) = inr (c, tag, refl)
first_skip (str []) = inl refl
first_skip null = inl refl
first_skip (bool b) = inl refl
first_skip (num n) = inl refl
first_skip (real n) = inl refl
first_skip (arr xs) = inl refl
first_skip (obj xs) = inl refl

comparable-first :
    (result : Fields)
    → lookup result (text "consecutive_skips") ≡ none
    → (comparable result ≡ none)
      ⊎ ((c : ℕ) × (known : Str) × (comparable result ≡ some (c ∷ known, pos 0)))
unfolding comparable
comparable-first result e =
    let zero_skips : get_or result (text "consecutive_skips") (num (pos 0)) ≡ num (pos 0) =
      rw (get_or, e) refl in
    rw (comparable, zero_skips) (first_skip (get result (text "tag")))

-- From a result whose count of skips is `n`, at most 24 - n more are filed.
skips_left :
    (result : Fields) (skips : List Fields) (c : ℕ) (known : Str) (n : ℕ)
    → comparable result ≡ some (c ∷ known, pos n)
    → n < max_consecutive_skips
    → IsSkipChain result skips
    → length skips + n ≤ max_consecutive_skips
skips_left result [] c known n e b chain = omega arith
skips_left result (skip ∷ skips) c known n e b ((hint, h), chain) =
    let same = unchanged_after-some result hint (c ∷ known) (pos n) skip e h in
    let next : comparable skip
        ≡ (if leb max_consecutive_skips (suc n) then none else some (c ∷ known, pos (suc n))) =
      ap comparable same ∙ comparable-unchanged_record c known n in
    elim (Bool-cases (leb max_consecutive_skips (suc n))) [
      | inl last ↦ let over = no_skips skip skips (next ∙ rw last) chain in omega (arith, over)
      | inr more ↦
          let rest = skips_left skip skips c known (suc n) (next ∙ rw more) (ground arith) chain in
          omega (arith, rest)
    ]

-- After a poll whose result counts no skips, as that of a poll that fetched a release, at most 24
-- skips in a row are filed before the source is polled again, whatever the release feed says.
pub skips_bounded :
    (result : Fields) (skips : List Fields)
    → lookup result (text "consecutive_skips") ≡ none
    → IsSkipChain result skips
    → length skips ≤ max_consecutive_skips
skips_bounded result skips fetched chain = elim (comparable-first result fetched) [
  | inl e ↦ let over = no_skips result skips e chain in omega (arith, over)
  | inr (c, known, e) ↦
      let rest = skips_left result skips c known 0 e (omega arith) chain in omega (arith, rest)
]
