-- ===== src/Ingest/Examples.antt =====
-- Runs and instances for packages/dist-ingest/src/dist_ingest.
use dev_tools_distribution_p.Base.{
  ◌≡◌, refl, some, [], ◌∷◌, find, list_eq, list_beq, nat_eq, Result, ok, err, provenance_error,
  ◌==◌, if◌then◌else◌,
}
use dev_tools_distribution_p.Base.Text.{Bytes, text, starts_with, encode, decimal}
use dev_tools_distribution_p.Base.Json.{
  Json, str, arr, obj, nil, cons, Fields, end, field, get, items,
}
use dev_tools_distribution_p.Ingest.Provenance.{
  TrustedBuilder, ProvenancePolicy, Provenance, ed25519, Tools, pae, dsse_payload_type,
  in_toto_statement_v1, slsa_provenance_v1, verify_provenance,
}
use dev_tools_distribution_p.Ingest.Provenance.Encoding.{pae-injective}
use dev_tools_distribution_p.Ingest.Provenance.Statements.{IsAttested}
use dev_tools_distribution_p.Ingest.Provenance.Signatures.{IsSigned, verify_provenance_lem}
use dev_tools_distribution_p.Ingest.Attestation.{
  Sigstore, IsCertified, verify_sigstore_provenance, verify_sigstore_provenance_lem,
}

-- A statement on the digest `d1`, of a build of the project `u` by the builder `b`.
abbrev pub statement : Fields
statement = field (text "_type") (str in_toto_statement_v1) (
    field (text "predicateType") (str slsa_provenance_v1) (
      field (text "subject")
        (arr (
          cons
            (obj (
              field (text "name") (str (text "demo.zip"))
                (field (text "digest") (obj (field (text "sha256") (str (text "d1")) end)) end)))
            nil))
        (field (text "predicate")
          (obj (
            field (text "runDetails")
              (obj (field (text "builder") (obj (field (text "id") (str (text "b@r")) end)) end))
              (field (text "buildDefinition")
                (obj (
                  field (text "resolvedDependencies")
                    (arr
                      (cons (obj (field (text "uri") (str (text "git+u@refs/tags/v1")) end)) nil))
                    end))
                end)))
          end)))

abbrev envelope : Fields
envelope = field (text "payloadType") (str dsse_payload_type) (
    field (text "payload") (str (text "p")) (
      field (text "signatures")
        (arr (
          cons
            (obj (field (text "keyid") (str (text "k")) (field (text "sig") (str (text "s")) end)))
            nil))
        end))

-- Parses the texts `e` and `p`, and nothing else.
unfoldable pub loads : Bytes → Result Json
loads bytes =
    if bytes == text "e"
    then ok (obj envelope)
    else if bytes == text "p"
    then ok (obj statement)
    else err provenance_error

abbrev pub tools : Tools
tools = record {
  loads = loads;
  b64decode = λ s. some s;
  load_pem_public_key = λ pem. ok (ed25519 (λ signature message. signature == text "s"));
  lower = λ s. s;
}

abbrev pub fixed_key : ProvenancePolicy
fixed_key = record {
  trusted_builders =
      record { builder_id = text "b@r"; keyid = text "k"; public_key_pem = text "pem" } ∷ [];
  project_url = text "u";
  require_tag_ref_prefix = text "refs/tags/";
  trusted_identities = [];
}

abbrev pub certificate : ProvenancePolicy
certificate = record {
  trusted_builders = [];
  project_url = text "u";
  require_tag_ref_prefix = text "refs/tags/";
  trusted_identities =
      record {
        workflow_uri = text "b";
        issuer = text "i";
        repository = text "o/r";
        repository_id = text "1";
        repository_owner_id = text "2";
        runner_environment = text "github-hosted";
      }
      ∷ [];
}

abbrev pub sigstore : Sigstore Bytes
sigstore = record {
  from_json = λ raw. some raw;
  production = ok tt;
  verify_dsse = λ bundle clauses. some (dsse_payload_type, text "p");
}

abbrev built : Provenance
built = record {
  builder_id = text "b@r";
  source_uri = text "git+u@refs/tags/v1";
  source_ref = text "refs/tags/v1";
  subject_name = text "demo.zip";
  subject_sha256 = text "d1";
  statement = statement;
}

fixed_key_accepted : verify_provenance tools (text "e") (text "d1") fixed_key ≡ ok built
unfolding loads verify_provenance list_beq find get starts_with items
fixed_key_accepted = refl

other_digest : verify_provenance tools (text "e") (text "d2") fixed_key ≡ err provenance_error
unfolding loads verify_provenance list_beq find get starts_with items
other_digest = refl

certificate_accepted :
    verify_sigstore_provenance tools sigstore (text "x") (text "d1") certificate ≡ ok built
unfolding loads verify_sigstore_provenance list_beq get starts_with items
certificate_accepted = refl

pae_run : pae (text "t") (text "hello") ≡ text "DSSEv1 1 t 5 hello"
unfolding pae encode decimal
pae_run = refl

pae-injective_example : (encode (text "t") ≡ encode (text "t")) × (text "hello" ≡ text "hello")
pae-injective_example = pae-injective (text "t") (text "t") (text "hello") (text "hello") refl

verify_provenance_lem_example :
    ((b : TrustedBuilder) × (b.builder_id ≡ text "b@r") × IsSigned tools fixed_key b statement)
    × IsAttested (λ s. s) statement fixed_key built (text "d1")
verify_provenance_lem_example =
    verify_provenance_lem tools (text "e") (text "d1") fixed_key built fixed_key_accepted

verify_sigstore_provenance_lem_example :
    IsCertified tools sigstore certificate built
    × IsAttested (λ s. s) statement certificate built (text "d1")
verify_sigstore_provenance_lem_example =
    verify_sigstore_provenance_lem tools sigstore (text "d1") certificate built (text "x")
      certificate_accepted
