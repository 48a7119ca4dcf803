-- ===== src/Core/Naming.antt =====
-- packages/dist-core/src/dist_core/naming.py: target names and the signed documents beside them.
pub mod Segments
pub mod Paths
pub mod Documents
pub mod Rollout
pub mod Examples
use dev_tools_distribution_p.Base.{
  ℕ, zero, suc, ◌+◌, ◌-◌, not, ◌*◌, ◌%◌, Bool, true, false, ◌&&◌, ◌||◌, Option, none, some, List,
  [], ◌∷◌, ◌++◌, if◌then◌else◌, ◌==◌, list_eq, nat_eq, ltb, leb, all, contains, Result, ok, err,
  ◌>>=◌, ◌>>◌, require, value_error, key_error, type_error, from_option,
}
use dev_tools_distribution_p.Base.Json.{
  Json, null, bool, num, real, str, obj, Fields, end, field, lookup, get, get_or, truthy, Codec, ℤ,
  pos, negsuc,
}
use dev_tools_distribution_p.Base.Text.{
  encode, Str, Bytes, text, slash, is_alnum, chomp, join, starts_with, contains_char,
}

-- `CHANNELS`
abbrev pub channels : List Str
channels = text "stable" ∷ text "beta" ∷ text "canary" ∷ []

-- `[A-Za-z0-9._-]`
unfoldable pub is_segment_char : ℕ → Bool
is_segment_char c = is_alnum c || c == b'.' || c == b'_' || c == b'-'

-- `_SEGMENT`, as `re.match` applies it: `$` lets one newline stand at the end.
unfoldable pub matches_segment : Str → Bool
unfolding is_segment_char
matches_segment [] = false
matches_segment (c ∷ s) = is_alnum c && all is_segment_char (chomp s)

unfoldable pub check_segment : Str → Result Str
unfolding matches_segment
check_segment value = do require (matches_segment value) value_error; ok value

pub record TargetKey : Type 0 where
  pub app_id : Str
  pub channel : Str
  pub platform : Str
  pub arch : Str
  pub version : Str
  pub filename : Str

-- `TargetKey.__post_init__`
unfoldable pub new_target_key : TargetKey → Result TargetKey
unfolding check_segment
new_target_key k = do
  require (contains k.channel channels) value_error
  check_segment k.app_id
  check_segment k.platform
  check_segment k.arch
  check_segment k.version
  check_segment k.filename
  ok k

-- `TargetKey.path`
unfoldable pub path : TargetKey → Str
path k =
    k.app_id
    ++ slash
      ∷ (k.channel
          ++ slash ∷ (k.platform ++ b'-' ∷ (k.arch ++ slash ∷ (k.version ++ slash ∷ k.filename))))

-- `TARGET_PATH_SEGMENTS`
abbrev pub target_path_segments : ℕ
target_path_segments = 5

-- `[x] * n`
abbrev repeat : ℕ → Str → List Str
repeat zero x = []
repeat (suc n) x = x ∷ repeat n x

-- `app_path_pattern`
unfoldable pub app_path_pattern : Str → Str
unfolding join
app_path_pattern app_id = join slash (app_id ∷ repeat (target_path_segments - 1) (text "*"))

abbrev pub pointer_version : Str
pointer_version = text "_current"

abbrev pub pointer_file : Str
pointer_file = text "release.json"

pub record ChannelKey : Type 0 where
  pub app_id : Str
  pub channel : Str
  pub platform : Str
  pub arch : Str

-- `ChannelKey.__post_init__`
unfoldable pub new_channel_key : ChannelKey → Result ChannelKey
unfolding check_segment
new_channel_key k = do
  require (contains k.channel channels) value_error
  check_segment k.app_id
  check_segment k.platform
  check_segment k.arch
  ok k

-- `ChannelKey.prefix`, with what follows it
unfoldable pub with_prefix : ChannelKey → Str → Str
with_prefix k rest =
    k.app_id ++ slash ∷ (k.channel ++ slash ∷ (k.platform ++ b'-' ∷ (k.arch ++ slash ∷ rest)))

unfoldable pub prefix : ChannelKey → Str
unfolding with_prefix
prefix k = with_prefix k []

-- `ChannelKey.pointer_path`
unfoldable pub pointer_path : ChannelKey → Str
unfolding with_prefix
pointer_path k = with_prefix k (pointer_version ++ slash ∷ pointer_file)

-- `ChannelKey.covers`
unfoldable pub covers : ChannelKey → Str → Bool
unfolding prefix
covers k target_path = starts_with target_path (prefix k)

pub record CurrentRelease : Type 0 where
  pub target_path : Str
  pub version : Str

-- `CurrentRelease.__post_init__`
unfoldable pub new_current_release : Str → Str → Result CurrentRelease
unfolding check_segment
new_current_release target_path version = do
  check_segment version
  require (not (target_path == []) && not (contains_char b'\\' target_path)) value_error
  ok (record { target_path = target_path; version = version })

-- `CurrentRelease.to_json`
unfoldable pub to_json : Codec → CurrentRelease → Bytes
to_json c r = c.dumps (
    obj
      (field (text "target_path") (str r.target_path) (field (text "version") (str r.version) end)))

-- The test that both values are strings.
release_of : Json → Json → Result CurrentRelease
unfolding new_current_release
release_of (str target_path) (str version) = new_current_release target_path version
release_of _ _ = err value_error

release_of_document : Option Json → Result CurrentRelease
unfolding release_of
release_of_document (some (obj body)) =
    release_of (get body (text "target_path")) (get body (text "version"))
release_of_document _ = err value_error

-- `CurrentRelease.from_json`: what is no JSON is a `ValueError` too.
unfoldable pub from_json : Codec → Bytes → Result CurrentRelease
unfolding release_of_document
from_json c raw = release_of_document (c.loads raw)

-- The optional fields are whatever JSON gave, `null` for `None`: nothing checks them.
pub record ReleaseInfo : Type 0 where
  pub version : Str
  pub notes_url : Json
  pub min_os : Json
  pub min_from_version : Json
  pub mandatory : Bool
  pub rollout_pct : ℤ

-- `0 <= rollout_pct <= 100`
unfoldable pub is_percentage : ℤ → Bool
is_percentage (pos n) = leb n 100
is_percentage (negsuc n) = false

-- `ReleaseInfo.__post_init__`
unfoldable pub new_release_info : ReleaseInfo → Result ReleaseInfo
unfolding check_segment is_percentage
new_release_info r = do
  check_segment r.version
  require (is_percentage r.rollout_pct) value_error
  ok r

-- `ReleaseInfo(version=version, rollout_pct=100)`
abbrev pub plain_info : Str → ReleaseInfo
plain_info version = record {
  version = version;
  notes_url = null;
  min_os = null;
  min_from_version = null;
  mandatory = false;
  rollout_pct = pos 100;
}

-- `if value is not None: custom[key] = value`
optional : Str → Json → Fields → Fields
optional key null rest = rest
optional key value rest = field key value rest

-- `ReleaseInfo.to_custom`
unfoldable pub to_custom : ReleaseInfo → Fields
unfolding optional
to_custom r = field (text "version") (str r.version) (
    field (text "mandatory") (bool r.mandatory) (
      field (text "rollout_pct") (num r.rollout_pct) (
        optional (text "notes_url") r.notes_url (
          optional (text "min_os") r.min_os
            (optional (text "min_from_version") r.min_from_version end)))))

-- `custom["version"]`, which `_check_segment` can only match if it is a string
version_of : Option Json → Result Str
version_of none = err key_error
version_of (some (str s)) = ok s
version_of (some _) = err type_error

-- `int(value)`. A text goes to `int_of_text`, which stands for Python's reading of numerals.
to_int : (Str → Result ℤ) → Json → Result ℤ
to_int int_of_text (num n) = ok n
to_int int_of_text (real truncated) = from_option truncated value_error
to_int int_of_text (bool true) = ok (pos 1)
to_int int_of_text (bool false) = ok (pos 0)
to_int int_of_text (str s) = int_of_text s
to_int int_of_text _ = err type_error

-- `ReleaseInfo.from_custom`
unfoldable pub from_custom : (Str → Result ℤ) → Fields → Result ReleaseInfo
unfolding version_of to_int new_release_info
from_custom int_of_text custom = do
  version ← version_of (lookup custom (text "version"))
  pct ← to_int int_of_text (get_or custom (text "rollout_pct") (num (pos 100)))
  new_release_info (record {
    version = version;
    notes_url = get custom (text "notes_url");
    min_os = get custom (text "min_os");
    min_from_version = get custom (text "min_from_version");
    mandatory = truthy (get_or custom (text "mandatory") (bool false));
    rollout_pct = pct;
  })

-- `int.from_bytes(digest[:4], "big") % 100`
unfoldable pub bucket : Bytes → ℕ
bucket (a ∷ b ∷ c ∷ d ∷ rest) = (((a * 256 + b) * 256 + c) * 256 + d) % 100
bucket _ = 0

rollout_test : (Bytes → Bytes) → Str → Str → ℤ → Bool
unfolding bucket
rollout_test sha256 install_id app_id (pos n) =
    if n == 0
    then false
    else if n == 100
    then true
    else ltb (bucket (sha256 (encode (install_id ++ b':' ∷ app_id)))) n
rollout_test sha256 install_id app_id (negsuc n) = false

-- `in_rollout`
unfoldable pub in_rollout : (Bytes → Bytes) → Str → Str → ℤ → Result Bool
unfolding is_percentage rollout_test
in_rollout sha256 install_id app_id pct = do
  require (is_percentage pct) value_error
  ok (rollout_test sha256 install_id app_id pct)
