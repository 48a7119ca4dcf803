-- ===== src/Ingest/Releases.antt =====
-- packages/dist-ingest/src/dist_ingest/forge.py: a release as a forge describes it, and the version
-- that its tag carries. The clients of the forges are not modelled.
pub mod Versions
use dev_tools_distribution_p.Base.{
  ℕ, zero, suc, ◌-◌, Bool, true, false, not, ◌&&◌, ◌||◌, Option, none, some, List, [], ◌∷◌, ◌++◌,
  if◌then◌else◌, ◌==◌, nat_eq, list_eq, all, find, drop, length, Result, ok, err, ◌>>◌, require,
  forge_error,
}
use dev_tools_distribution_p.Base.Text.{Str, text, starts_with, is_decimal, is_alnum}

pub record ForgeAsset : Type 0 where
  pub name : Str
  pub size : ℕ
  pub download_url : Str
  pub declared_sha256 : Option Str

abbrev pub version_placeholder : Str
version_placeholder = text "{version}"

pub record ForgeRelease : Type 0 where
  pub tag : Str
  pub version : Str
  pub assets : List ForgeAsset

-- `str.replace(old, new)` for a text `old` that is not empty; the number counts the characters that
-- are still to be dropped of an occurrence.
unfoldable pub replace_from : Str → Str → ℕ → Str → Str
replace_from old new n [] = []
replace_from old new (suc n) (c ∷ s) = replace_from old new n s
replace_from old new zero (c ∷ s) =
    let here = replace_from old new (length old - 1) s in
    let later = replace_from old new zero s in
    if starts_with (c ∷ s) old then new ++ here else c ∷ later

-- `ForgeRelease.resolve_asset_name`
unfoldable pub resolve_asset_name : ForgeRelease → Str → Str
unfolding replace_from
resolve_asset_name release name = replace_from version_placeholder release.version zero name

-- `ForgeRelease.asset`
unfoldable pub asset : ForgeRelease → Str → Option ForgeAsset
unfolding resolve_asset_name
asset release name =
    let resolved = resolve_asset_name release name in find (λ a. a.name == resolved) release.assets

-- `[0-9A-Za-z.]+`, and then the end
unfoldable pub is_suffix : Str → Bool
is_suffix [] = false
is_suffix (c ∷ s) = all (λ d. is_alnum d || d == b'.') (c ∷ s)

-- What is left of `_VERSION`, where the Boolean says that a digit must come
unfoldable pub is_version_from : Bool → Str → Bool
unfolding is_suffix
is_version_from needed [] = not needed
is_version_from needed (c ∷ s) =
    let digit = is_version_from false s in
    let dot = is_version_from true s in
    if is_decimal c
    then digit
    else if needed
    then false
    else if c == b'.'
    then dot
    else (c == b'-' || c == b'+') && is_suffix s

-- `_VERSION.match`
unfoldable pub is_version : Str → Bool
unfolding is_version_from
is_version s = is_version_from true s

-- `version_from_tag`
unfoldable pub version_from_tag : Str → Str → Result Str
unfolding is_version
version_from_tag tag prefix = do
  let version =
      if not (prefix == []) && starts_with tag prefix then drop (length prefix) tag else tag
  require (is_version version) forge_error
  ok version
