-- ===== src/Admin/Forms/Checks.antt =====
-- packages/dist-admin/src/dist_admin/forms.py: what the checks of each field establish.
use dev_tools_distribution_p.Base.{
  ℕ, zero, suc, ◌<◌, ◌≤◌, Bool, true, false, not, ◌&&◌, [], if◌then◌else◌, ◌==◌, nat_eq, list_eq,
  leb, all, Result, ok, err, ◌>>=◌, ◌>>◌, >>=-eq-ok, require-eq-ok, from_option, form_error, ◌≡◌,
  refl, sym, ap, ◌∙◌, arith, Option-cases, ◌⊎◌, inl, inr,
}
use dev_tools_distribution_p.Base.Json.{
  Json, null, bool, num, real, str, arr, obj, Fields, lookup, ℤ, pos, negsuc,
}
use dev_tools_distribution_p.Base.Text.{Str, text, chomp, starts_with}
use dev_tools_distribution_p.Registry.Models.{status_eq}
use dev_tools_distribution_p.Admin.Forms.{
  Library, text_value, positive, text_of, required, asset_of, ref_prefix_of, asset_cap_of,
  positive_int, matches_project, matches_asset, placeholders, count_char, no_traversal, or_else,
  max_asset_bytes_ceiling,
}
use dev_tools_distribution_p.Admin.Forms.Sources.{project_of}

-- A text that is stripped ends in no newline.
pub record Strips (lib : Library) : Type 0 where
  pub no_newline : (s : Str) → chomp (lib.strip s) ≡ lib.strip s

refused : {B C : Type 0} (r : Result B) {c : C} → (r >> err form_error) ≡ ok c → ⊥
refused (ok b) e = cc
refused (err x) e = cc

if-cases :
    {A : Type 0} (b : Bool) (x y : A) {r : A}
    → (if b then x else y) ≡ r
    → ((b ≡ true) × (x ≡ r)) ⊎ ((b ≡ false) × (y ≡ r))
if-cases true x y e = inl (refl, e)
if-cases false x y e = inr (refl, e)

and-eq_true : (a b : Bool) → (a && b) ≡ true → (a ≡ true) × (b ≡ true)
and-eq_true true b h = (refl, h)
and-eq_true false b h = cc

ok_str : {a b : Str} → ◌≡◌ {A = Result Str} (ok a) (ok b) → a ≡ b
ok_str e = cc

ok_nat : {a b : ℕ} → ◌≡◌ {A = Result ℕ} (ok a) (ok b) → a ≡ b
ok_nat e = cc

module _ (lib : Library) where
  positive-pos : (z : ℤ) {n : ℕ} → positive lib z ≡ ok n → 0 < n
  unfolding positive
  positive-pos (pos zero) e = cc
  positive-pos (pos (suc n)) e = omega (arith, ok_nat e)
  positive-pos (negsuc n) e = cc

  pub positive_int-pos :
      (fields : Fields) (key : Str) (default : ℕ) {n : ℕ}
      → 0 < default
      → positive_int lib fields key default ≡ ok n
      → 0 < n
  unfolding positive_int
  positive_int-pos fields key default p e =
      let (raw, h, r) = >>=-eq-ok (text_of lib fields key []) _ e in
      elim (if-cases (raw == []) (ok default)
        (from_option (lib.int_of_text raw) form_error >>= λ value. positive lib value) r) [
          | inl (empty, is) ↦ omega (arith, p, ok_nat is)
          | inr (typed, is) ↦
              let (z, h', r') =
                >>=-eq-ok (from_option (lib.int_of_text raw) form_error)
                  (λ value. positive lib value) is in
              positive-pos z r'
        ]

  pub asset_cap_of-eq-ok :
      (fields : Fields) (default : ℕ) {n : ℕ}
      → 0 < default
      → asset_cap_of lib fields default ≡ ok n
      → (0 < n) × (n ≤ max_asset_bytes_ceiling)
  unfolding asset_cap_of
  asset_cap_of-eq-ok fields default p e =
      let (n, h, r) = >>=-eq-ok (positive_int lib fields (text "max_asset_bytes") default) _ e in
      let (small, r') = require-eq-ok (leb n max_asset_bytes_ceiling) form_error _ r in
      let below = positive_int-pos fields (text "max_asset_bytes") default p h in
      (omega (arith, below, ok_nat r'), ground (arith, ok_nat r'))

  pub ref_prefix_of-eq-ok :
      (fields : Fields) (default : Str) {s : Str}
      → ref_prefix_of lib fields default ≡ ok s
      → starts_with s (text "refs/") ≡ true
  unfolding ref_prefix_of
  ref_prefix_of-eq-ok fields default e =
      let (value, h, r) = >>=-eq-ok (text_of lib fields (text "require_tag_ref_prefix") []) _ e in
      let (starts, r') =
        require-eq-ok (starts_with (or_else value default) (text "refs/")) form_error _ r in
      ap (λ v. starts_with v (text "refs/")) (sym (ok_str r')) ∙ starts

  pub asset_of-eq-ok :
      (fields : Fields) {s : Str} → asset_of lib fields ≡ ok s → matches_asset s ≡ true
  unfolding asset_of
  asset_of-eq-ok fields e =
      let (typed, h, r) = >>=-eq-ok (text_of lib fields (text "asset_name") []) _ e in
      let (name, h1, r1) = >>=-eq-ok (required typed) _ r in
      let (matches, r2) = require-eq-ok (matches_asset name) form_error _ r1 in
      let (known, r3) =
        require-eq-ok (all (λ found. found == text "version") (placeholders name)) form_error _
          r2 in
      let (balanced, r4) =
        require-eq-ok (count_char b'{' name == count_char b'}' name) form_error _ r3 in
      ap matches_asset (sym (ok_str r4)) ∙ matches

  pub project_of-eq-ok :
      (fields : Fields) {s : Str}
      → project_of lib fields ≡ ok s
      → (matches_project s ≡ true) × (no_traversal s ≡ true)
  unfolding project_of
  project_of-eq-ok fields e =
      let (typed, h, r) = >>=-eq-ok (text_of lib fields (text "project") []) _ e in
      let (project, h1, r1) = >>=-eq-ok (required typed) _ r in
      elim (if-cases (matches_project project && no_traversal project) (ok project)
        (lib.urlsplit project >> err form_error) r1) [
          | inl (both, is) ↦
              let (a, b) = and-eq_true (matches_project project) (no_traversal project) both in
              (ap matches_project (sym (ok_str is)) ∙ a, ap no_traversal (sym (ok_str is)) ∙ b)
          | inr (fails, is) ↦ absurd (refused (lib.urlsplit project) is)
        ]

  text_value-stripped : Strips lib → (v : Json) {s : Str} → text_value lib v ≡ ok s → chomp s ≡ s
  unfolding text_value
  text_value-stripped law (str s) e = ap chomp (sym (ok_str e)) ∙ law.no_newline s ∙ ok_str e
  text_value-stripped law null e = cc
  text_value-stripped law (bool b) e = cc
  text_value-stripped law (num n) e = cc
  text_value-stripped law (real n) e = cc
  text_value-stripped law (arr x) e = cc
  text_value-stripped law (obj x) e = cc

  pub text_of-stripped :
      Strips lib
      → (fields : Fields) (key default : Str) {s : Str} → text_of lib fields key default ≡ ok s
      → chomp s ≡ s
  unfolding text_of
  text_of-stripped law fields key default e = elim (Option-cases (lookup fields key)) [
    | inl missing ↦
        ap chomp (sym (ok_str (rw (missing, text_of) at e)))
        ∙ law.no_newline default
        ∙ ok_str (rw (missing, text_of) at e)
    | inr (v, there) ↦ text_value-stripped law v (rw (there, text_of) at e)
  ]

  pub required-eq-ok : (value : Str) {s : Str} → required value ≡ ok s → s ≡ value
  unfolding required
  required-eq-ok value e =
      let (there, r) = require-eq-ok (not (value == [])) form_error _ e in sym (ok_str r)
