-- ===== src/Core/Repository/Payloads.antt =====
-- packages/dist-core/src/dist_core/repository.py: what a release is made of, and where it is stored.
use dev_tools_distribution_p.Base.{
  true, false, [], ◌∷◌, ◌++◌, append_nil, append_assoc, ◌==◌, nat_eq, list_eq, ==_refl, ◌≡◌, refl,
  sym, ap, ◌∙◌, arith, Result, ok, >>=-eq-ok, require-eq-ok, publication_error,
}
use dev_tools_distribution_p.Base.Json.{Codec}
use dev_tools_distribution_p.Base.Text.{Str, Bytes, text, slash, contains_char}
use dev_tools_distribution_p.Core.Naming.{TargetKey, path, ReleaseInfo}
use dev_tools_distribution_p.Core.Repository.{Tuf, SignerBackend, Repository, Payload, payload_name}
use dev_tools_distribution_p.Core.Repository.Operations.{delegated_role, release_parts}

-- A name without a slash has the digest in front.
payload_name-file :
    (digest base : Str)
    → contains_char slash base ≡ false
    → payload_name digest base ≡ digest ++ text "." ++ base
unfolding payload_name
payload_name-file digest [] h = sym (append_nil (digest ++ text "."))
payload_name-file digest (c ∷ base) h = rw h refl

contains_slash : (s t : Str) → contains_char slash (s ++ slash ∷ t) ≡ true
unfolding contains_char
contains_slash [] t = ground (arith, ==_refl slash)
contains_slash (c ∷ s) t = ground (arith, contains_slash s t)

-- A path keeps its directories, and its last part gets the digest in front.
pub payload_name-directory :
    (digest dir base : Str)
    → contains_char slash base ≡ false
    → payload_name digest (dir ++ slash ∷ base) ≡ dir ++ slash ∷ (digest ++ text "." ++ base)
unfolding payload_name
payload_name-directory digest [] base h = ap (λ s. slash ∷ s) (payload_name-file digest base h)
payload_name-directory digest (c ∷ dir) base h =
    rw (contains_slash (c ∷ dir) base) (ap (λ s. c ∷ s) (payload_name-directory digest dir base h))

-- `app/channel/platform-arch/version`
abbrev pub directory : TargetKey → Str
directory k =
    k.app_id ++ slash ∷ (k.channel ++ slash ∷ (k.platform ++ b'-' ∷ (k.arch ++ slash ∷ k.version)))

pub path-directory : (k : TargetKey) → path k ≡ directory k ++ slash ∷ k.filename
unfolding path
path-directory k =
    let file : Str = slash ∷ k.filename in
    sym (
      append_assoc k.app_id
        (slash ∷ (k.channel ++ slash ∷ (k.platform ++ b'-' ∷ (k.arch ++ slash ∷ k.version)))) file
      ∙ ap (λ t. k.app_id ++ slash ∷ t)
          (append_assoc k.channel (slash ∷ (k.platform ++ b'-' ∷ (k.arch ++ slash ∷ k.version)))
              file
            ∙ ap (λ t. k.channel ++ slash ∷ t)
                (append_assoc k.platform (b'-' ∷ (k.arch ++ slash ∷ k.version)) file
                  ∙ ap (λ t. k.platform ++ b'-' ∷ t)
                      (append_assoc k.arch (slash ∷ k.version) file))))

release_triple :
    {a a' : Str} {b b' c c' : Bytes}
    → ◌≡◌ {A = Result (Str × Bytes × Bytes)} (ok (a, b, c)) (ok (a', b', c'))
    → (a ≡ a') × (b ≡ b') × (c ≡ c')
release_triple h = (cc, cc, cc)

pub release_parts-eq-ok :
    (tuf : Tuf) (backend : SignerBackend) (sha256 : Bytes → Str) (codec : Codec) (key : TargetKey)
    (payload : Payload) (info : ReleaseInfo) (repo : Repository) {role : Str}
    {measured copied : Bytes}
    → release_parts tuf backend sha256 codec key payload info repo ≡ ok (role, measured, copied)
    → ((info.version == key.version) ≡ true)
      × (delegated_role tuf backend key.app_id repo ≡ ok role)
      × (payload.measured ≡ ok measured)
      × (payload.copied ≡ ok copied)
unfolding release_parts
release_parts-eq-ok tuf backend sha256 codec key payload info repo e =
    let (same, r1) = require-eq-ok (info.version == key.version) publication_error _ e in
    let (role, h2, r2) = >>=-eq-ok (delegated_role tuf backend key.app_id repo) _ r1 in
    let (measured, h3, r3) = >>=-eq-ok payload.measured _ r2 in
    let (copied, h4, r4) = >>=-eq-ok payload.copied _ r3 in
    let (a, b, c) = release_triple r4 in (same, h2 ∙ ap ok a, h3 ∙ ap ok b, h4 ∙ ap ok c)
