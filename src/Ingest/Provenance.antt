-- ===== src/Ingest/Provenance.antt =====
-- packages/dist-ingest/src/dist_ingest/provenance.py. `json.loads`, `base64`, `str.lower` and the
-- cryptography library are the fields of `Tools`.
pub mod Encoding
pub mod Statements
pub mod Signatures
use dev_tools_distribution_p.Base.{
  ℕ, zero, suc, ◌+◌, ◌*◌, ◌/◌, ◌%◌, ◌≡◌, Bool, true, false, not, ◌&&◌, ◌||◌, Option, none, some,
  List, [], ◌∷◌, ◌++◌, if◌then◌else◌, ◌==◌, nat_eq, list_eq, Eq, find, length, drop, ltb, leb,
  Error, Result, ok, err, ◌>>=◌, ◌>>◌, require, from_option, provenance_error, value_error,
  json_decode_error,
}
use dev_tools_distribution_p.Base.Text.{decimal, Str, Bytes, text, encode, starts_with}
use dev_tools_distribution_p.Base.Json.{
  Json, null, str, arr, obj, Items, nil, cons, Fields, get, items,
}

abbrev pub in_toto_statement_v1 : Str
in_toto_statement_v1 = text "https://in-toto.io/Statement/v1"

abbrev pub slsa_provenance_v1 : Str
slsa_provenance_v1 = text "https://slsa.dev/provenance/v1"

abbrev pub dsse_payload_type : Str
dsse_payload_type = text "application/vnd.in-toto+json"

abbrev pub max_envelope_bytes : ℕ
max_envelope_bytes = 1048576

pub record TrustedBuilder : Type 0 where
  pub builder_id : Str
  pub keyid : Str
  pub public_key_pem : Bytes

pub record CertificateIdentity : Type 0 where
  pub workflow_uri : Str
  pub issuer : Str
  pub repository : Str
  pub repository_id : Str
  pub repository_owner_id : Str
  pub runner_environment : Str

-- `CertificateIdentity.matches_builder`
unfoldable pub matches_builder : CertificateIdentity → Str → Bool
matches_builder identity builder_id = starts_with builder_id (identity.workflow_uri ++ text "@")

pub record ProvenancePolicy : Type 0 where
  pub trusted_builders : List TrustedBuilder
  pub project_url : Str
  pub require_tag_ref_prefix : Str
  pub trusted_identities : List CertificateIdentity

abbrev pub is_nil : {A : Type 0} → List A → Bool
is_nil [] = true
is_nil (_ ∷ _) = false

-- `ProvenancePolicy.__post_init__`
unfoldable pub new_provenance_policy : ProvenancePolicy → Result ProvenancePolicy
new_provenance_policy p = do
  require (not (is_nil p.trusted_builders && is_nil p.trusted_identities)) value_error
  ok p

-- `ProvenancePolicy.builder_for_keyid`
unfoldable pub builder_for_keyid : ProvenancePolicy → Str → Option TrustedBuilder
builder_for_keyid policy keyid = find (λ b. b.keyid == keyid) policy.trusted_builders

-- `ProvenancePolicy.identity_for_builder`
unfoldable pub identity_for_builder : ProvenancePolicy → Str → Option CertificateIdentity
identity_for_builder policy builder_id =
    find (λ i. matches_builder i builder_id) policy.trusted_identities

pub record Provenance : Type 0 where
  pub builder_id : Str
  pub source_uri : Str
  pub source_ref : Str
  pub subject_name : Str
  pub subject_sha256 : Str
  pub statement : Fields

-- A key by what its `verify(signature, message)` accepts; for an elliptic curve, with SHA-256.
pub data PublicKey : Type 0 where
  ed25519 : (Bytes → Bytes → Bool) → PublicKey
  elliptic_curve : (Bytes → Bytes → Bool) → PublicKey
  other_key : PublicKey

pub record Tools : Type 0 where
  pub loads : Bytes → Result Json
  pub b64decode : Str → Option Bytes
  pub load_pem_public_key : Bytes → Result PublicKey
  pub lower : Str → Str

-- `%s ` with what follows
abbrev pub spaced : Bytes → Bytes → Bytes
spaced word rest = word ++ (b' ' ∷ rest)

-- `_pae`
unfoldable pub pae : Str → Bytes → Bytes
pae payload_type payload =
    let encoded_type = encode payload_type in
    text "DSSEv1 "
    ++ spaced (decimal (length encoded_type))
        (spaced encoded_type (spaced (decimal (length payload)) payload))

-- `_verify_signature`
unfoldable pub verify_signature : PublicKey → Bytes → Bytes → Result Bool
verify_signature (ed25519 verify) signature message = ok (verify signature message)
verify_signature (elliptic_curve verify) signature message = ok (verify signature message)
verify_signature other_key signature message = err provenance_error

-- `except json.JSONDecodeError: raise ProvenanceError`. Any other exception passes.
unfoldable pub refuse_json : Result Json → Result Json
refuse_json (err json_decode_error) = err provenance_error
refuse_json (err e) = err e
refuse_json (ok v) = ok v

-- `if not isinstance(value, dict): raise ProvenanceError`
unfoldable pub require_object : Json → Result Fields
require_object (obj body) = ok body
require_object _ = err provenance_error

unfoldable pub require_text : Json → Result Str
require_text (str s) = ok s
require_text _ = err provenance_error

-- `if not isinstance(value, list): raise ProvenanceError`
unfoldable pub require_list : Json → Result (List Json)
require_list (arr xs) = ok (items xs)
require_list _ = err provenance_error

-- `value == expected`, for a text
unfoldable pub is_text : Json → Str → Bool
is_text (str s) expected = s == expected
is_text _ expected = false

-- `value.get(key) if isinstance(value, dict) else None`
unfoldable pub member : Json → Str → Json
member (obj body) key = get body key
member _ key = null

module _ (tools : Tools) where
  -- `_decode_envelope`, whose payload type is always the constant
  unfoldable pub decode_envelope : Bytes → Result (Bytes × List Json)
  unfolding refuse_json require_object require_text require_list is_text
  decode_envelope raw = do
    require (leb (length raw) max_envelope_bytes) provenance_error
    value ← refuse_json (tools.loads raw)
    envelope ← require_object value
    require (is_text (get envelope (text "payloadType")) dsse_payload_type) provenance_error
    encoded ← require_text (get envelope (text "payload"))
    payload ← from_option (tools.b64decode encoded) provenance_error
    signatures ← require_list (get envelope (text "signatures"))
    require (not (is_nil signatures)) provenance_error
    ok (payload, signatures)

  -- The key id and the signature of an entry of `signatures`, where both are texts.
  unfoldable pub signature_parts : Json → Option (Str × Str)
  unfolding member
  signature_parts entry = elim (member entry (text "keyid")) [
    | str keyid ↦ elim (member entry (text "sig")) [ str sig ↦ some (keyid, sig) | _ ↦ none ]
    | _ ↦ none
  ]

  -- The body of the loop on the builder's key and the signature's text.
  unfoldable pub signs : TrustedBuilder → Str → Bytes → Result Bool
  unfolding verify_signature
  signs builder sig message = elim (tools.b64decode sig) [
    | none ↦ ok false
    | some signature ↦ do
      key ← tools.load_pem_public_key builder.public_key_pem
      verify_signature key signature message
  ]

  -- The builder whose signature an entry is, or `none` where the loop continues.
  unfoldable pub signer_of : ProvenancePolicy → Bytes → Json → Result (Option TrustedBuilder)
  unfolding signature_parts builder_for_keyid signs
  signer_of policy message entry = elim (signature_parts entry) [
    | none ↦ ok none
    | some (keyid, sig) ↦ elim (builder_for_keyid policy keyid) [
      | none ↦ ok none
      | some builder ↦ do good ← signs builder sig message; ok (if good then some builder else none)
    ]
  ]

  -- The loop of `_verify_envelope`
  unfoldable pub first_signer : ProvenancePolicy → Bytes → List Json → Result TrustedBuilder
  unfolding signer_of
  first_signer policy message [] = err provenance_error
  first_signer policy message (entry ∷ entries) =
      let rest = first_signer policy message entries in
      signer_of policy message entry >>= λ o. elim o [ some builder ↦ ok builder | none ↦ rest ]

  -- `_verify_envelope`
  unfoldable pub verify_envelope : Bytes → ProvenancePolicy → Result (Fields × Str)
  unfolding decode_envelope first_signer pae refuse_json require_object
  verify_envelope raw policy = do
    (payload, signatures) ← decode_envelope raw
    builder ← first_signer policy (pae dsse_payload_type payload) signatures
    value ← refuse_json (tools.loads payload)
    statement ← require_object value
    ok (statement, builder.builder_id)

-- The builder that the statement names.
unfoldable pub claimed_builder : Fields → Json
unfolding member
claimed_builder statement =
    member (member (member (get statement (text "predicate")) (text "runDetails")) (text "builder"))
      (text "id")

-- `_check_builder_claim`
unfoldable pub check_builder_claim : Fields → Str → Result (Unit {0})
unfolding claimed_builder is_text
check_builder_claim statement builder_id =
    require (is_text (claimed_builder statement) builder_id) provenance_error

-- `name if isinstance(name, str) else ""`
unfoldable pub text_or_empty : Json → Str
text_or_empty (str s) = s
text_or_empty _ = []

-- `value if isinstance(value, str) else None`
unfoldable pub as_text : Json → Option Str
as_text (str s) = some s
as_text _ = none

-- The body of the loop of `_subject_digest`
unfoldable pub subject_match : (Str → Str) → Str → Json → Option (Str × Str)
unfolding member text_or_empty as_text
subject_match lower artifact_sha256 subject =
    elim (as_text (member (member subject (text "digest")) (text "sha256"))) [
      | none ↦ none
      | some declared ↦
          if lower declared == lower artifact_sha256
          then some (text_or_empty (member subject (text "name")), lower declared)
          else none
    ]

first_match : {A B : Type 0} → (A → Option B) → List A → Option B
first_match f [] = none
first_match f (x ∷ xs) = let rest = first_match f xs in elim (f x) [ some b ↦ some b | none ↦ rest ]

-- `_subject_digest`
unfoldable pub subject_digest : (Str → Str) → Fields → Str → Result (Str × Str)
unfolding subject_match first_match require_list
subject_digest lower statement artifact_sha256 = do
  subjects ← require_list (get statement (text "subject"))
  from_option (first_match (subject_match lower artifact_sha256) subjects) provenance_error

-- The URI of a dependency on the project.
unfoldable pub uri_under : Str → Json → Option Str
unfolding member
uri_under expected dependency = elim (member dependency (text "uri")) [
  | str uri ↦ if starts_with uri (expected ++ text "@") then some uri else none
  | _ ↦ none
]

-- `_source`
unfoldable pub source : Fields → ProvenancePolicy → Result (Str × Str)
unfolding require_object require_list uri_under first_match
source statement policy = do
  predicate ← require_object (get statement (text "predicate"))
  build_definition ← require_object (get predicate (text "buildDefinition"))
  dependencies ← require_list (get build_definition (text "resolvedDependencies"))
  let expected = text "git+" ++ policy.project_url
  uri ← from_option (first_match (uri_under expected) dependencies) provenance_error
  let ref = drop (length expected + 1) uri
  require (starts_with ref policy.require_tag_ref_prefix) provenance_error
  ok (uri, ref)

-- `check_statement`
unfoldable pub check_statement :
    (Str → Str) → Fields → Str → Str → ProvenancePolicy → Result Provenance
unfolding is_text check_builder_claim subject_digest source
check_statement lower statement builder_id artifact_sha256 policy = do
  require (is_text (get statement (text "_type")) in_toto_statement_v1) provenance_error
  require (is_text (get statement (text "predicateType")) slsa_provenance_v1) provenance_error
  check_builder_claim statement builder_id
  (subject_name, subject_sha256) ← subject_digest lower statement artifact_sha256
  (source_uri, source_ref) ← source statement policy
  ok (record {
    builder_id = builder_id;
    source_uri = source_uri;
    source_ref = source_ref;
    subject_name = subject_name;
    subject_sha256 = subject_sha256;
    statement = statement;
  })

-- `verify_provenance`
unfoldable pub verify_provenance : Tools → Bytes → Str → ProvenancePolicy → Result Provenance
unfolding verify_envelope check_statement
verify_provenance tools envelope artifact_sha256 policy = do
  (statement, builder_id) ← verify_envelope tools envelope policy
  check_statement tools.lower statement builder_id artifact_sha256 policy
