-- ===== src/Admin/Forms.antt =====
-- packages/dist-admin/src/dist_admin/forms.py: the fields of a form, and the patterns they must match.
pub mod Sources
pub mod Checks
pub mod Accepted
pub mod Edits
pub mod Saved
pub mod Submitted
pub mod Examples
use dev_tools_distribution_p.Base.{
  ℕ, suc, ◌+◌, ◌*◌, ◌-◌, Bool, true, false, not, ◌&&◌, ◌||◌, Option, none, some, List, [], ◌∷◌,
  ◌++◌, if◌then◌else◌, ◌==◌, nat_eq, list_eq, leb, ltb, all, filter, contains, length, Result, ok,
  err, ◌>>=◌, ◌>>◌, require, from_option, form_error,
}
use dev_tools_distribution_p.Base.Json.{Json, str, Fields, lookup, ℤ, pos, negsuc}
use dev_tools_distribution_p.Base.Text.{
  Str, text, slash, split, is_alnum, is_lower_alnum, starts_with, contains_char,
}
use dev_tools_distribution_p.Registry.Models.{Forge, github, gitlab, forge_eq}

-- What `urlsplit` gives of a URL; a text without a host has `none`.
pub record Url : Type 0 where
  pub scheme : Str
  pub hostname : Option Str
  pub query : Str
  pub fragment : Str

-- The parts of Python's library: `str.strip`, `str.lower`, `int`, `urlsplit`, and whether a PEM loads.
pub record Library : Type 0 where
  pub strip : Str → Str
  pub lower : Str → Str
  pub int_of_text : Str → Option ℤ
  pub urlsplit : Str → Result Url
  pub loads_pem : Str → Bool

-- `[A-Za-z0-9._-]`
unfoldable pub is_name_char : ℕ → Bool
is_name_char c = is_alnum c || c == b'.' || c == b'_' || c == b'-'

-- `[A-Za-z0-9._-]+`
unfoldable pub is_name : Str → Bool
unfolding is_name_char
is_name s = not (s == []) && all is_name_char s

-- `_PROJECT`, on the segments: two to five of them
unfoldable pub matches_project : Str → Bool
unfolding is_name split
matches_project s =
    let segments = split slash s in
    all is_name segments && leb 2 (length segments) && leb (length segments) 5

-- `[A-Za-z0-9._+{}-]`
unfoldable pub is_asset_char : ℕ → Bool
unfolding is_name_char
is_asset_char c = is_name_char c || c == b'+' || c == b'{' || c == b'}'

-- `_ASSET`
unfoldable pub matches_asset : Str → Bool
unfolding is_asset_char
matches_asset [] = false
matches_asset (c ∷ s) = is_alnum c && all is_asset_char s && leb (length s) 127

-- `_TAG_PREFIX`
unfoldable pub matches_tag_prefix : Str → Bool
unfolding is_name_char
matches_tag_prefix s = all is_name_char s && leb (length s) 16

-- `_SLUG`
unfoldable pub matches_slug : Str → Bool
matches_slug [] = false
matches_slug (c ∷ s) =
    is_lower_alnum c && all (λ d. is_lower_alnum d || d == b'-') s && leb (length s) 31

-- A `{` opens a group, a `}` ends it.
next_group : Option Str → ℕ → Option Str
next_group o c =
    if c == b'{'
    then some []
    else if c == b'}'
    then none
    else elim o [ none ↦ none | some s ↦ some (s ++ c ∷ []) ]

found_group : Option Str → ℕ → List Str
found_group none c = []
found_group (some s) c = if c == b'}' then s ∷ [] else []

groups_from : Option Str → Str → List Str
unfolding next_group found_group
groups_from o [] = []
groups_from o (c ∷ s) = found_group o c ++ groups_from (next_group o c) s

-- `_ASSET_PLACEHOLDER.findall`
unfoldable pub placeholders : Str → List Str
unfolding groups_from
placeholders s = groups_from none s

-- `value.count(c)`
unfoldable pub count_char : ℕ → Str → ℕ
unfolding filter
count_char c s = length (filter (λ d. d == c) s)

-- `_no_traversal`
unfoldable pub no_traversal : Str → Bool
unfolding split
no_traversal path =
    all (λ segment. not (segment == text "." || segment == text "..")) (split slash path)

-- `MAX_ASSET_BYTES_CEILING`
abbrev pub max_asset_bytes_ceiling : ℕ
max_asset_bytes_ceiling = 8589934592

-- `DEFAULT_API_BASE`
unfoldable pub default_api_base : Forge → Str
default_api_base github = text "https://api.github.com"
default_api_base gitlab = text "https://gitlab.com"

-- `value or default`
abbrev pub or_else : Str → Str → Str
or_else [] default = default
or_else (c ∷ s) default = c ∷ s

-- `value.rstrip("/")`
unfoldable pub rstrip_slash : Str → Str
rstrip_slash [] = []
rstrip_slash (c ∷ s) =
    let rest = rstrip_slash s in if c == slash && rest == [] then [] else c ∷ rest

-- `_require`
unfoldable pub required : Str → Result Str
required value = do require (not (value == [])) form_error; ok value

module _ (lib : Library) where
  unfoldable pub text_value : Json → Result Str
  text_value (str s) = ok (lib.strip s)
  text_value _ = err form_error

  -- `_text`
  unfoldable pub text_of : Fields → Str → Str → Result Str
  unfolding lookup text_value
  text_of data_ key default = elim (lookup data_ key) [
    | none ↦ ok (lib.strip default)
    | some v ↦ text_value v
  ]

  unfoldable pub has_host : Option Str → Bool
  has_host none = false
  has_host (some host) = not (host == [])

  -- `_https`
  unfoldable pub https : Str → Result Str
  unfolding has_host rstrip_slash
  https value = do
    parts ← lib.urlsplit value
    require (parts.scheme == text "https" && has_host parts.hostname) form_error
    require (parts.query == [] && parts.fragment == []) form_error
    ok (rstrip_slash value)

  -- `_checkbox`
  unfoldable pub checkbox : Fields → Str → Result Bool
  unfolding text_of
  checkbox data_ key = do
    value ← text_of data_ key []
    ok (contains (lib.lower value) (text "on" ∷ text "true" ∷ text "1" ∷ text "yes" ∷ []))

  unfoldable pub positive : ℤ → Result ℕ
  positive (pos (suc n)) = ok (suc n)
  positive _ = err form_error

  -- `_positive_int`
  unfoldable pub positive_int : Fields → Str → ℕ → Result ℕ
  unfolding text_of positive
  positive_int data_ key default = do
    raw ← text_of data_ key []
    if raw == []
        then ok default
        else (do value ← from_option (lib.int_of_text raw) form_error; positive value)

  -- `_slug`
  unfoldable pub slug : Fields → Str → Str → Result Str
  unfolding text_of matches_slug
  slug data_ key default = do
    value ← text_of data_ key []
    require (matches_slug (or_else value default)) form_error
    ok (or_else value default)

  -- The asset's name, as both forms check it
  unfoldable pub asset_of : Fields → Result Str
  unfolding text_of required matches_asset placeholders count_char
  asset_of data_ = do
    typed ← text_of data_ (text "asset_name") []
    name ← required typed
    require (matches_asset name) form_error
    require (all (λ found. found == text "version") (placeholders name)) form_error
    require (count_char b'{' name == count_char b'}' name) form_error
    ok name

  -- The tag's prefix, which may be empty
  unfoldable pub tag_prefix_of : Fields → Str → Result Str
  unfolding text_of matches_tag_prefix
  tag_prefix_of data_ default = do
    value ← text_of data_ (text "tag_prefix") default
    require (matches_tag_prefix value) form_error
    ok value

  unfoldable pub ref_prefix_of : Fields → Str → Result Str
  unfolding text_of
  ref_prefix_of data_ default = do
    value ← text_of data_ (text "require_tag_ref_prefix") []
    require (starts_with (or_else value default) (text "refs/")) form_error
    ok (or_else value default)

  unfoldable pub asset_cap_of : Fields → ℕ → Result ℕ
  unfolding positive_int
  asset_cap_of data_ default = do
    value ← positive_int data_ (text "max_asset_bytes") default
    require (leb value max_asset_bytes_ceiling) form_error
    ok value
