-- ===== src/Core/Naming/Paths.antt =====
-- Target paths and channel pointers (packages/dist-core/src/dist_core/naming.py): a path splits back
-- into the parts of its key, and no release path is a pointer.
use mathlib.Core.List.{append_assoc}
use dev_tools_distribution_p.Base.{
  ◌&&◌, ◌≡◌, refl, sym, ap, ◌∙◌, ◌≢◌, ◌↔◌, Bool, true, false, List, [], ◌∷◌, ◌++◌, arith, ok,
}
use dev_tools_distribution_p.Base.Text.{Str, text, slash, contains_char, split}
use dev_tools_distribution_p.Base.Text.Laws.{
  starts_with-append, starts_with-eq_true, contains_char-append, split_single, split-append,
}
use dev_tools_distribution_p.Core.Naming.{
  check_segment, TargetKey, new_target_key, path, ChannelKey, new_channel_key, with_prefix, prefix,
  pointer_path, pointer_version, pointer_file, covers, app_path_pattern,
}
use dev_tools_distribution_p.Core.Naming.Segments.{
  check_segment-no_slash, IsSplit, new_target_key-IsSplit, IsSplitChannel,
  new_channel_key-IsSplitChannel,
}

-- The segment that names the platform and the architecture.
abbrev pub slot : Str → Str → Str
slot platform arch = platform ++ b'-' ∷ arch

slot-no_slash :
    (p a : Str)
    → contains_char slash p ≡ false
    → contains_char slash a ≡ false
    → contains_char slash (slot p a) ≡ false
unfolding contains_char
slot-no_slash p a hp ha = ground (arith, contains_char-append slash p (b'-' ∷ a))

-- The channel that a release is published in, as `Repository.set_current` builds it.
unfoldable pub channel_of : TargetKey → ChannelKey
channel_of k = record {
  app_id = k.app_id;
  channel = k.channel;
  platform = k.platform;
  arch = k.arch;
}

with_prefix-slot :
    (c : ChannelKey) (rest : Str)
    → with_prefix c rest
      ≡ c.app_id ++ slash ∷ (c.channel ++ slash ∷ (slot c.platform c.arch ++ slash ∷ rest))
unfolding with_prefix
with_prefix-slot c rest =
    ap (λ s. c.app_id ++ slash ∷ (c.channel ++ slash ∷ s))
      (sym (append_assoc c.platform (b'-' ∷ c.arch) (slash ∷ rest)))

prefix-append : (c : ChannelKey) (rest : Str) → prefix c ++ rest ≡ with_prefix c rest
unfolding prefix with_prefix
prefix-append c rest = simp append_assoc

-- A text under a channel's prefix splits into the channel's three segments and the rest.
split-with_prefix :
    (c : ChannelKey) (rest : Str)
    → IsSplitChannel c
    → split slash (with_prefix c rest)
      ≡ c.app_id ∷ c.channel ∷ slot c.platform c.arch ∷ split slash rest
split-with_prefix c rest v = rw (
  with_prefix-slot c rest,
  split-append slash c.app_id (c.channel ++ slash ∷ (slot c.platform c.arch ++ slash ∷ rest))
      v.app_id,
  split-append slash c.channel (slot c.platform c.arch ++ slash ∷ rest) v.channel,
  split-append slash (slot c.platform c.arch) rest
      (slot-no_slash c.platform c.arch v.platform v.arch),
)

IsSplit-channel_of : (k : TargetKey) → IsSplit k → IsSplitChannel (channel_of k)
unfolding channel_of
IsSplit-channel_of k v = record {
  app_id = v.app_id;
  channel = v.channel;
  platform = v.platform;
  arch = v.arch;
}

path-with_prefix :
    (k : TargetKey) → path k ≡ with_prefix (channel_of k) (k.version ++ slash ∷ k.filename)
unfolding path with_prefix channel_of
path-with_prefix k = refl

segments_of : TargetKey → List Str
segments_of k = k.app_id ∷ k.channel ∷ slot k.platform k.arch ∷ k.version ∷ k.filename ∷ []

split-IsSplit : (k : TargetKey) → IsSplit k → split slash (path k) ≡ segments_of k
unfolding channel_of segments_of
split-IsSplit k v = rw (
  path-with_prefix k,
  split-with_prefix (channel_of k) (k.version ++ slash ∷ k.filename) (IsSplit-channel_of k v),
  split-append slash k.version k.filename v.version,
  split_single slash k.filename v.filename,
)

-- The path of an accepted key has five segments, and they are the parts of the key.
pub split-path :
    (k : TargetKey) {k' : TargetKey}
    → new_target_key k ≡ ok k'
    → split slash (path k)
      ≡ k.app_id ∷ k.channel ∷ slot k.platform k.arch ∷ k.version ∷ k.filename ∷ []
unfolding segments_of
split-path k h = split-IsSplit k (new_target_key-IsSplit k h)

-- Two accepted keys with one path agree in their application, channel, version and file, and in
-- the segment that joins platform and architecture.
pub path_determines :
    (k j : TargetKey) {k' j' : TargetKey}
    → new_target_key k ≡ ok k'
    → new_target_key j ≡ ok j'
    → path k ≡ path j
    → (k.app_id ≡ j.app_id)
      × (k.channel ≡ j.channel)
      × (slot k.platform k.arch ≡ slot j.platform j.arch)
      × (k.version ≡ j.version)
      × (k.filename ≡ j.filename)
path_determines k j hk hj e = ground (arith, ap (split slash) e, split-path k hk, split-path j hj)

split-pointer :
    split slash (pointer_version ++ slash ∷ pointer_file) ≡ pointer_version ∷ pointer_file ∷ []
unfolding split
split-pointer = refl

-- No accepted release key, of any application and channel, has the path of a channel pointer.
pub path-ne-pointer_path :
    (k : TargetKey) (c : ChannelKey) {k' : TargetKey} {c' : ChannelKey}
    → new_target_key k ≡ ok k'
    → new_channel_key c ≡ ok c'
    → path k ≢ pointer_path c
unfolding pointer_path
path-ne-pointer_path k c hk hc e = (new_target_key-IsSplit k hk).not_reserved (text "current") (
    ground (
      arith,
      ap (split slash) e,
      split-path k hk,
      split-with_prefix c (pointer_version ++ slash ∷ pointer_file)
          (new_channel_key-IsSplitChannel c hc),
      split-pointer,
    ))

same_prefix :
    (c : ChannelKey) (k : TargetKey)
    → (c.app_id ≡ k.app_id)
      × (c.channel ≡ k.channel)
      × (slot c.platform c.arch ≡ slot k.platform k.arch)
    → path k ≡ prefix c ++ (k.version ++ slash ∷ k.filename)
unfolding channel_of
same_prefix c k (a, h, p) =
    let rest = k.version ++ slash ∷ k.filename in
    path-with_prefix k
    ∙ with_prefix-slot (channel_of k) rest
    ∙ cc (a, h, p)
    ∙ sym (with_prefix-slot c rest)
    ∙ sym (prefix-append c rest)

-- A channel covers the path of an accepted release exactly when the release is of its application
-- and channel, and of its platform and architecture as the path joins them.
pub covers-path :
    (c : ChannelKey) (k : TargetKey) {c' : ChannelKey} {k' : TargetKey}
    → new_channel_key c ≡ ok c'
    → new_target_key k ≡ ok k'
    → (covers c (path k) ≡ true) ↔ (
        (c.app_id ≡ k.app_id)
        × (c.channel ≡ k.channel)
        × (slot c.platform c.arch ≡ slot k.platform k.arch))
unfolding covers
covers-path c k hc hk = (
  λ h.
      let (t, e) = starts_with-eq_true (path k) (prefix c) h in
      ground (
        arith,
        ap (split slash) (e ∙ prefix-append c t),
        split-path k hk,
        split-with_prefix c t (new_channel_key-IsSplitChannel c hc),
      ),
  λ same.
      rw (same_prefix c k same) (starts_with-append (prefix c) (k.version ++ slash ∷ k.filename)),
)

-- The rule of TUF path patterns, over its matching of one segment: segment by segment, and as many.
abbrev pub matches_pattern : (Str → Str → Bool) → List Str → List Str → Bool
matches_pattern fnmatch [] [] = true
matches_pattern fnmatch (s ∷ ss) (p ∷ ps) = fnmatch s p && matches_pattern fnmatch ss ps
matches_pattern fnmatch _ _ = false

-- What delegation relies on of that matching: `*` takes any segment, and a text that is accepted as
-- a segment, so without wildcards, takes itself alone.
pub record IsFnmatch (fnmatch : Str → Str → Bool) : Type 0 where
  pub star : (s : Str) → fnmatch s (text "*") ≡ true
  pub literal : (s p : Str) {r : Str} → check_segment p ≡ ok r → (fnmatch s p ≡ true) ↔ (s ≡ p)

split_stars : split slash (text "*/*/*/*") ≡ text "*" ∷ text "*" ∷ text "*" ∷ text "*" ∷ []
unfolding split
split_stars = refl

split-app_path_pattern :
    (app_id : Str) {r : Str}
    → check_segment app_id ≡ ok r
    → split slash (app_path_pattern app_id)
      ≡ app_id ∷ text "*" ∷ text "*" ∷ text "*" ∷ text "*" ∷ []
unfolding app_path_pattern
split-app_path_pattern app_id h =
    split-append slash app_id (text "*/*/*/*") (check_segment-no_slash app_id h)
    ∙ ap (λ t. app_id ∷ t) split_stars

-- The delegation pattern of an application matches the path of an accepted key exactly when the key
-- is of that application.
pub matches_pattern-path :
    (fnmatch : Str → Str → Bool)
    → IsFnmatch fnmatch
    → (app_id : Str) (k : TargetKey) {r : Str} {k' : TargetKey} → check_segment app_id ≡ ok r
    → new_target_key k ≡ ok k'
    → (matches_pattern fnmatch (split slash (path k)) (split slash (app_path_pattern app_id))
        ≡ true)
      ↔ (k.app_id ≡ app_id)
matches_pattern-path fnmatch law app_id k ha hk =
    rw (split-path k hk, split-app_path_pattern app_id ha)
      (ground (
        arith,
        law.literal k.app_id app_id ha,
        law.star k.channel,
        law.star (slot k.platform k.arch),
        law.star k.version,
        law.star k.filename,
      ))
