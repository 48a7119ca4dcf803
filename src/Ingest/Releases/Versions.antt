-- ===== src/Ingest/Releases/Versions.antt =====
-- Which versions that a forge's tag yields can stand in a target path
-- (packages/dist-ingest/src/dist_ingest/forge.py, packages/dist-core/src/dist_core/naming.py).
use dev_tools_distribution_p.Base.{
  ℕ, ◌≡◌, refl, Bool, true, false, not, ◌&&◌, ◌||◌, [], ◌∷◌, arith, if◌then◌else◌, ◌==◌, nat_eq,
  list_eq, all, drop, length, ok, err, forge_error, value_error, require-eq-ok,
}
use dev_tools_distribution_p.Base.Text.{
  Str, starts_with, is_decimal, is_alnum, is_lower_alnum, contains_char, newline,
}
use dev_tools_distribution_p.Base.Text.Laws.{chomp-no_newline}
use dev_tools_distribution_p.Core.Naming.{is_segment_char, matches_segment, check_segment}
use dev_tools_distribution_p.Ingest.Releases.{
  is_suffix, is_version_from, is_version, version_from_tag,
}

abbrev plus : ℕ
plus = b'+'

-- A segment's characters are all letters, digits, dots, hyphens or underscores: no plus sign.
plus-all : (s : Str) → contains_char plus s ≡ true → all is_segment_char s ≡ false
unfolding contains_char all is_segment_char is_alnum is_lower_alnum is_decimal
plus-all [] h = cc
plus-all (c ∷ s) h = ground (arith, plus-all s)

suffix_chars :
    (s : Str)
    → all (λ d. is_alnum d || d == b'.') s ≡ true
    → (all is_segment_char s ≡ true)
      × (contains_char newline s ≡ false)
      × (contains_char plus s ≡ false)
unfolding contains_char all is_segment_char is_alnum is_lower_alnum is_decimal
suffix_chars [] h = (refl, refl, refl)
suffix_chars (c ∷ s) h = ground (arith, suffix_chars s)

is_suffix-all : (s : Str) → is_suffix s ≡ true → all (λ d. is_alnum d || d == b'.') s ≡ true
unfolding is_suffix
is_suffix-all [] h = cc
is_suffix-all (c ∷ s) h = h

version_chars :
    (needed : Bool) (s : Str)
    → is_version_from needed s ≡ true
    → (contains_char newline s ≡ false)
      × (contains_char plus s ≡ false → all is_segment_char s ≡ true)
unfolding is_version_from is_suffix contains_char all is_segment_char is_alnum is_lower_alnum
    is_decimal
version_chars needed [] h = (refl, λ _. refl)
version_chars needed (c ∷ s) h = (
  ground (arith, version_chars false s, version_chars true s, is_suffix-all s, suffix_chars s),
  λ p. ground (arith, version_chars false s, version_chars true s, is_suffix-all s, suffix_chars s),
)

-- A version begins with a digit.
version_head :
    (s : Str) → is_version s ≡ true → (c : ℕ) × (t : Str) × (s ≡ c ∷ t) × (is_alnum c ≡ true)
unfolding is_version is_version_from is_alnum is_lower_alnum
version_head [] h = cc
version_head (c ∷ t) h = (c, t, refl, ground arith)

check_version :
    (v : Str) → is_version v ≡ true → (contains_char plus v ≡ false) → check_segment v ≡ ok v
unfolding is_version check_segment matches_segment all contains_char
check_version [] h p = cc
check_version (c ∷ t) h p =
    let (d, u, e, a) = version_head (c ∷ t) h in
    let (line, chars) = version_chars true (c ∷ t) h in ground (arith, chars p, chomp-no_newline t)

check_plus :
    (v : Str)
    → is_version v ≡ true
    → (contains_char plus v ≡ true)
    → check_segment v ≡ err value_error
unfolding is_version check_segment matches_segment all contains_char is_segment_char
check_plus [] h p = cc
check_plus (c ∷ t) h p =
    let (d, u, e, a) = version_head (c ∷ t) h in
    let (line, chars) = version_chars true (c ∷ t) h in
    ground (arith, plus-all (c ∷ t), chomp-no_newline t)

-- A version that a tag yields can be a segment of a target path exactly if it has no plus sign; with
-- one, the path is refused, though the forge's client takes the version for usable.
pub version_from_tag_lem :
    (tag prefix : Str) {v : Str}
    → version_from_tag tag prefix ≡ ok v
    → (contains_char plus v ≡ false → check_segment v ≡ ok v)
      × (contains_char plus v ≡ true → check_segment v ≡ err value_error)
unfolding version_from_tag
version_from_tag_lem tag prefix {v} h =
    let version =
      if not (prefix == []) && starts_with tag prefix then drop (length prefix) tag else tag in
    let (a, e) = require-eq-ok (is_version version) forge_error (ok version) h in
    let good : is_version v ≡ true = ground (arith, a, e) in
    (check_version v good, check_plus v good)
