-- ===== src/Core/Naming/Examples.antt =====
-- Runs and instances for packages/dist-core/src/dist_core/naming.py.
use dev_tools_distribution_p.Base.{
  ℕ, zero, ==_refl, suc, ◌≡◌, refl, ◌≢◌, ◌↔◌, Bool, true, false, ◌||◌, Option, none, some, [], ◌∷◌,
  ◌++◌, arith, length, drop, Result, ok, err, value_error, all, contains, list_beq, list_eq, nat_eq,
  ◌==◌, ==_iff,
}
use dev_tools_distribution_p.Base.Text.{
  Str, Bytes, text, slash, contains_char, split, is_alnum, chomp, encode,
}
use dev_tools_distribution_p.Base.Json.{Json, str, obj, end, field, Codec, ℤ, pos}
use dev_tools_distribution_p.Core.Naming.{
  bucket, TargetKey, new_target_key, path, ChannelKey, new_channel_key, pointer_path, in_rollout,
  CurrentRelease, new_current_release, to_json, from_json, check_segment, app_path_pattern,
  ReleaseInfo, new_release_info, to_custom, from_custom, plain_info,
}
use dev_tools_distribution_p.Core.Naming.Paths.{
  split-path, path-ne-pointer_path, matches_pattern, IsFnmatch, matches_pattern-path,
}
use dev_tools_distribution_p.Core.Naming.Documents.{
  pointer_document, IsCodec, from_json-to_json, from_custom-to_custom,
}
use dev_tools_distribution_p.Core.Naming.Rollout.{in_rollout-bucket}

abbrev key : TargetKey
key = record {
  app_id = text "demo";
  channel = text "stable";
  platform = text "windows";
  arch = text "amd64";
  version = text "1.2.0";
  filename = text "demo.zip";
}

abbrev channel_key : ChannelKey
channel_key = record {
  app_id = text "demo";
  channel = text "stable";
  platform = text "windows";
  arch = text "amd64";
}

key_accepted : new_target_key key ≡ ok key
unfolding new_target_key contains list_beq is_alnum all chomp
key_accepted = refl

channel_key_accepted : new_channel_key channel_key ≡ ok channel_key
unfolding new_channel_key contains list_beq is_alnum all chomp
channel_key_accepted = refl

app_id_accepted : check_segment (text "demo") ≡ ok (text "demo")
unfolding check_segment is_alnum all chomp
app_id_accepted = refl

key_path : path key ≡ text "demo/stable/windows-amd64/1.2.0/demo.zip"
unfolding path
key_path = refl

unknown_channel : new_target_key (record key { channel = text "nightly" }) ≡ err value_error
unfolding new_target_key contains list_beq
unknown_channel = refl

pattern : app_path_pattern (text "demo") ≡ text "demo/*/*/*/*"
unfolding app_path_pattern
pattern = refl

split-path_example :
    split slash (path key)
    ≡ text "demo" ∷ text "stable" ∷ text "windows-amd64" ∷ text "1.2.0" ∷ text "demo.zip" ∷ []
split-path_example = split-path key key_accepted

path-ne-pointer_path_example : path key ≢ pointer_path channel_key
path-ne-pointer_path_example =
    path-ne-pointer_path key channel_key key_accepted channel_key_accepted

-- A matching of segments that knows the star alone.
star_match : Str → Str → Bool
star_match s p = text "*" == p || s == p

not_star : (p : Str) {r : Str} → check_segment p ≡ ok r → (text "*" == p) ≡ false
unfolding check_segment is_alnum list_beq
not_star [] h = refl
not_star (c ∷ s) h = ground arith

star_match-IsFnmatch : IsFnmatch star_match
unfolding star_match
star_match-IsFnmatch = record {
  star = λ s. ground (arith, ==_refl (text "*"));
  literal = λ s p h. ground (arith, not_star p h, ==_iff s p);
}

matches_pattern-path_example :
    (matches_pattern star_match
        (split slash (path key))
        (split slash (app_path_pattern (text "demo")))
      ≡ true)
    ↔ (text "demo" ≡ text "demo")
matches_pattern-path_example =
    matches_pattern-path star_match star_match-IsFnmatch (text "demo") key app_id_accepted
      key_accepted

-- A codec for pointers alone: the length of the path, the path, the version.
unfoldable pub write : Json → Bytes
write (obj (field _ (str s) (field _ (str v) end))) = length s ∷ (s ++ v)
write _ = []

abbrev take : ℕ → Bytes → Bytes
take zero xs = []
take (suc n) [] = []
take (suc n) (x ∷ xs) = x ∷ take n xs

unfoldable pub read : Bytes → Option Json
read [] = none
read (n ∷ rest) = some (pointer_document (take n rest) (drop n rest))

abbrev pub pointer_codec : Codec
pointer_codec = record { loads = read; dumps = write }

take_append : (s v : Bytes) → take (length s) (s ++ v) ≡ s
take_append [] v = refl
take_append (c ∷ s) v = ground (arith, take_append s v)

drop_append : (s v : Bytes) → drop (length s) (s ++ v) ≡ v
drop_append [] v = refl
drop_append (c ∷ s) v = drop_append s v

pub pointer_codec-IsCodec : IsCodec pointer_codec
unfolding read write
pointer_codec-IsCodec = record { loads-dumps = λ s v. rw (take_append s v, drop_append s v) }

abbrev release : CurrentRelease
release = record { target_path = text "demo/x"; version = text "1.2.0" }

release_accepted : new_current_release (text "demo/x") (text "1.2.0") ≡ ok release
unfolding new_current_release contains_char is_alnum all chomp list_beq
release_accepted = refl

from_json-to_json_example :
    (from_json pointer_codec (to_json pointer_codec release) ≡ ok release)
    × (text "demo/x" ≡ text "demo/x")
    × (text "1.2.0" ≡ text "1.2.0")
from_json-to_json_example =
    from_json-to_json pointer_codec pointer_codec-IsCodec (text "demo/x") (text "1.2.0")
      release_accepted

abbrev info : ReleaseInfo
info = record (plain_info (text "1.2.0")) { min_os = str (text "10.0"); rollout_pct = pos 25 }

info_accepted : new_release_info info ≡ ok info
unfolding new_release_info is_alnum all chomp
info_accepted = refl

no_texts : Str → Result ℤ
no_texts s = err value_error

from_custom-to_custom_example : from_custom no_texts (to_custom info) ≡ ok info
from_custom-to_custom_example = from_custom-to_custom no_texts info info_accepted

too_much : new_release_info (record info { rollout_pct = pos 101 }) ≡ err value_error
unfolding new_release_info is_alnum all chomp
too_much = refl

-- Stands for SHA-256 in the runs.
abbrev head_digest : Bytes → Bytes
head_digest _ = 0 ∷ 0 ∷ 0 ∷ 142 ∷ []

in_rollout-bucket_example : in_rollout head_digest (text "me") (text "demo") (pos 42) ≡ ok false
unfolding bucket encode
in_rollout-bucket_example = in_rollout-bucket head_digest (text "me") (text "demo") 42 (omega arith)

in_at_43 : in_rollout head_digest (text "me") (text "demo") (pos 43) ≡ ok true
unfolding in_rollout
in_at_43 = refl
