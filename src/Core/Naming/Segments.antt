-- ===== src/Core/Naming/Segments.antt =====
-- What `_check_segment` lets through (packages/dist-core/src/dist_core/naming.py).
use dev_tools_distribution_p.Base.{
  ℕ, ◌≡◌, refl, ◌≢◌, true, false, [], ◌∷◌, ◌++◌, arith, list_eq, ◌==◌, nat_eq, all, ok, >>=-eq-ok,
  require-eq-ok, contains, contains_iff, In, inl, inr,
}
use dev_tools_distribution_p.Base.Text.{Str, slash, newline, chomp, contains_char, is_alnum}
use dev_tools_distribution_p.Base.Text.Laws.{chomp-newline, chomp-no_newline}
use dev_tools_distribution_p.Core.Naming.{
  is_segment_char, matches_segment, check_segment, TargetKey, new_target_key, ChannelKey,
  new_channel_key, channels,
}

is_segment_char-ne-slash : (c : ℕ) → is_segment_char c ≡ true → (c == slash) ≡ false
unfolding is_segment_char is_alnum
is_segment_char-ne-slash c h = ground arith

chomp-no_slash : (s : Str) → all is_segment_char (chomp s) ≡ true → contains_char slash s ≡ false
unfolding chomp all contains_char
chomp-no_slash [] h = refl
chomp-no_slash (c ∷ []) h = ground (arith, is_segment_char-ne-slash c)
chomp-no_slash (c ∷ d ∷ s) h = ground (arith, is_segment_char-ne-slash c, chomp-no_slash (d ∷ s))

-- An accepted segment holds no separator.
pub check_segment-no_slash :
    (s : Str) {r : Str} → check_segment s ≡ ok r → contains_char slash s ≡ false
unfolding check_segment matches_segment contains_char is_alnum
check_segment-no_slash [] h = refl
check_segment-no_slash (c ∷ s) h = ground (arith, chomp-no_slash s)

-- An accepted segment does not begin with an underscore.
pub check_segment-head : (s t : Str) {r : Str} → check_segment s ≡ ok r → s ≢ b'_' ∷ t
unfolding check_segment matches_segment is_alnum
check_segment-head [] t h e = cc
check_segment-head (c ∷ s) t h e = ground arith

-- Every segment without a newline that is accepted is also accepted with a newline at its end.
pub check_segment-newline :
    (s : Str) {r : Str}
    → check_segment s ≡ ok r
    → contains_char newline s ≡ false
    → check_segment (s ++ newline ∷ []) ≡ ok (s ++ newline ∷ [])
unfolding check_segment matches_segment contains_char
check_segment-newline [] h n = cc
check_segment-newline (c ∷ s) h n = ground (arith, chomp-newline s, chomp-no_newline s)

In-channels-no_slash : (s : Str) → In s channels → contains_char slash s ≡ false
unfolding contains_char
In-channels-no_slash s (inl e) = rw (← e)
In-channels-no_slash s (inr (inl e)) = rw (← e)
In-channels-no_slash s (inr (inr (inl e))) = rw (← e)
In-channels-no_slash s (inr (inr (inr h))) = elim h [ ]

channel-no_slash : (s : Str) → contains s channels ≡ true → contains_char slash s ≡ false
channel-no_slash s h = In-channels-no_slash s ((contains_iff s channels).0 h)

-- No part of an accepted key holds a separator, and its version is no reserved name.
pub record IsSplit (k : TargetKey) : Type 0 where
  pub app_id : contains_char slash k.app_id ≡ false
  pub channel : contains_char slash k.channel ≡ false
  pub platform : contains_char slash k.platform ≡ false
  pub arch : contains_char slash k.arch ≡ false
  pub version : contains_char slash k.version ≡ false
  pub filename : contains_char slash k.filename ≡ false
  pub not_reserved : (t : Str) → k.version ≢ b'_' ∷ t

pub new_target_key-IsSplit : (k : TargetKey) {k' : TargetKey} → new_target_key k ≡ ok k' → IsSplit k
unfolding new_target_key
new_target_key-IsSplit k h =
    let (c, h₁) = require-eq-ok (contains k.channel channels) _ _ h in
    let (_, a, h₂) = >>=-eq-ok (check_segment k.app_id) _ h₁ in
    let (_, p, h₃) = >>=-eq-ok (check_segment k.platform) _ h₂ in
    let (_, r, h₄) = >>=-eq-ok (check_segment k.arch) _ h₃ in
    let (_, v, h₅) = >>=-eq-ok (check_segment k.version) _ h₄ in
    let (_, f, h₆) = >>=-eq-ok (check_segment k.filename) _ h₅ in
    record {
      app_id = check_segment-no_slash k.app_id a;
      channel = channel-no_slash k.channel c;
      platform = check_segment-no_slash k.platform p;
      arch = check_segment-no_slash k.arch r;
      version = check_segment-no_slash k.version v;
      filename = check_segment-no_slash k.filename f;
      not_reserved = λ t. check_segment-head k.version t v;
    }

pub record IsSplitChannel (k : ChannelKey) : Type 0 where
  pub app_id : contains_char slash k.app_id ≡ false
  pub channel : contains_char slash k.channel ≡ false
  pub platform : contains_char slash k.platform ≡ false
  pub arch : contains_char slash k.arch ≡ false

pub new_channel_key-IsSplitChannel :
    (k : ChannelKey) {k' : ChannelKey} → new_channel_key k ≡ ok k' → IsSplitChannel k
unfolding new_channel_key
new_channel_key-IsSplitChannel k h =
    let (c, h₁) = require-eq-ok (contains k.channel channels) _ _ h in
    let (_, a, h₂) = >>=-eq-ok (check_segment k.app_id) _ h₁ in
    let (_, p, h₃) = >>=-eq-ok (check_segment k.platform) _ h₂ in
    let (_, r, h₄) = >>=-eq-ok (check_segment k.arch) _ h₃ in
    record {
      app_id = check_segment-no_slash k.app_id a;
      channel = channel-no_slash k.channel c;
      platform = check_segment-no_slash k.platform p;
      arch = check_segment-no_slash k.arch r;
    }
