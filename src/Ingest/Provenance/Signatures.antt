-- ===== src/Ingest/Provenance/Signatures.antt =====
-- Who signed: `verify_provenance` of packages/dist-ingest/src/dist_ingest/provenance.py.
use dev_tools_distribution_p.Base.{
  ◌≡◌, refl, sym, ap, ◌∙◌, true, some, List, [], ◌∷◌, arith, ◌==◌, nat_eq, list_eq, In,
  find-eq-some, Result, ok, ◌>>=◌, >>=-eq-ok, Option-cases, inl, inr,
}
use dev_tools_distribution_p.Base.Text.{Str, Bytes}
use dev_tools_distribution_p.Base.Json.{Json, obj, Fields}
use dev_tools_distribution_p.Ingest.Provenance.{
  Provenance, ProvenancePolicy, TrustedBuilder, PublicKey, ed25519, elliptic_curve, other_key,
  Tools, refuse_json, require_object, pae, dsse_payload_type, verify_signature, signature_parts,
  signs, builder_for_keyid, signer_of, first_signer, decode_envelope, verify_envelope,
  verify_provenance,
}
use dev_tools_distribution_p.Ingest.Provenance.Statements.{
  IsAttested, check_statement-IsAttested, require_object-eq-ok,
}

-- The key itself verifies the signature; a key of another kind verifies none.
abbrev pub Accepts : PublicKey → Bytes → Bytes → Type 0
Accepts (ed25519 verify) signature message = verify signature message ≡ true
Accepts (elliptic_curve verify) signature message = verify signature message ≡ true
Accepts other_key signature message = ⊥

verify_signature-Accepts :
    (key : PublicKey) (signature message : Bytes)
    → verify_signature key signature message ≡ ok true
    → Accepts key signature message
unfolding verify_signature
verify_signature-Accepts (ed25519 verify) signature message h = cc
verify_signature-Accepts (elliptic_curve verify) signature message h = cc
verify_signature-Accepts other_key signature message h = cc

module _ (tools : Tools) where
  -- The builder's pinned key accepts a signature over the encoding of the payload, and the payload
  -- is the statement.
  pub record IsSigned (policy : ProvenancePolicy) (b : TrustedBuilder) (statement : Fields)
      : Type 0 where
    pub trusted : In b policy.trusted_builders
    pub payload : Bytes
    pub parsed : tools.loads payload ≡ ok (obj statement)
    pub signature : Bytes
    pub key : PublicKey
    pub pinned : tools.load_pem_public_key b.public_key_pem ≡ ok key
    pub valid : Accepts key signature (pae dsse_payload_type payload)

  refuse_json-eq-ok : (r : Result Json) (v : Json) → refuse_json r ≡ ok v → r ≡ ok v
  unfolding refuse_json
  refuse_json-eq-ok r v h = ground arith

  signs-eq-ok :
      (b : TrustedBuilder) (sig : Str) (message : Bytes)
      → signs tools b sig message ≡ ok true
      → (key : PublicKey) × (signature : Bytes) × (tools.load_pem_public_key b.public_key_pem
          ≡ ok key)
        × (verify_signature key signature message ≡ ok true)
  unfolding signs
  signs-eq-ok b sig message h = elim (Option-cases (tools.b64decode sig)) [
    | inl e ↦ ground arith
    | inr (signature, e) ↦
        let inner : (tools.load_pem_public_key b.public_key_pem >>= λ key.
        verify_signature key signature message)
            ≡ ok true =
          ground arith in
        let (key, k, v) =
          >>=-eq-ok (tools.load_pem_public_key b.public_key_pem)
            (λ key. verify_signature key signature message) inner in
        (key, signature, k, v)
  ]

  signer_of-eq-ok :
      (policy : ProvenancePolicy) (message : Bytes) (entry : Json) (b : TrustedBuilder)
      → signer_of tools policy message entry ≡ ok (some b)
      → (keyid sig : Str) × (signature_parts tools entry ≡ some (keyid, sig))
        × (builder_for_keyid policy keyid ≡ some b)
        × (signs tools b sig message ≡ ok true)
  unfolding signer_of
  signer_of-eq-ok policy message entry b h = elim (Option-cases (signature_parts tools entry)) [
    | inl e ↦ ground arith
    | inr ((keyid, sig), e) ↦ elim (Option-cases (builder_for_keyid policy keyid)) [
      | inl n ↦ ground arith
      | inr (c, n) ↦ (keyid, sig, e, ground arith, ground arith)
    ]
  ]

  first_signer-eq-ok :
      (policy : ProvenancePolicy) (message : Bytes) (entries : List Json) (b : TrustedBuilder)
      → first_signer tools policy message entries ≡ ok b
      → (entry : Json) × In entry entries × (signer_of tools policy message entry ≡ ok (some b))
  unfolding first_signer
  first_signer-eq-ok policy message [] b h = cc
  first_signer-eq-ok policy message (x ∷ xs) b h =
      let (o, e, k) = >>=-eq-ok (signer_of tools policy message x) _ h in
      elim (Option-cases o) [
        | inl n ↦
            let (y, m, q) = first_signer-eq-ok policy message xs b (ground arith) in (y, inr m, q)
        | inr (c, s) ↦ (x, inl refl, ground arith)
      ]

  verify_envelope-IsSigned :
      (raw : Bytes) (policy : ProvenancePolicy) (statement : Fields) (builder_id : Str)
      → verify_envelope tools raw policy ≡ ok (statement, builder_id)
      → (b : TrustedBuilder) × (b.builder_id ≡ builder_id) × IsSigned policy b statement
  unfolding verify_envelope builder_for_keyid
  verify_envelope-IsSigned raw policy statement builder_id h =
      let ((payload, signatures), a, h1) = >>=-eq-ok (decode_envelope tools raw) _ h in
      let (b, s, h2) =
        >>=-eq-ok (first_signer tools policy (pae dsse_payload_type payload) signatures) _ h1 in
      let (v, l, h3) = >>=-eq-ok (refuse_json (tools.loads payload)) _ h2 in
      let (st, o, h4) = >>=-eq-ok (require_object v) _ h3 in
      let (entry, m, q) =
        first_signer-eq-ok policy (pae dsse_payload_type payload) signatures b s in
      let (keyid, sig, parts, known, good) =
        signer_of-eq-ok policy (pae dsse_payload_type payload) entry b q in
      let (key, signature, k, valid) = signs-eq-ok b sig (pae dsse_payload_type payload) good in
      let same : st ≡ statement = ground arith in
      (
        b,
        ground arith,
        record {
          trusted = (find-eq-some (λ b. b.keyid == keyid) policy.trusted_builders b known).0;
          payload = payload;
          parsed =
              refuse_json-eq-ok (tools.loads payload) v l
              ∙ ap ok (require_object-eq-ok v st o ∙ ap obj same);
          signature = signature;
          key = key;
          pinned = k;
          valid = verify_signature-Accepts key signature (pae dsse_payload_type payload) valid;
        },
      )

  -- Provenance that is accepted has a statement that a pinned key of the policy's builders signed,
  -- under the payload's type; the statement names that builder, the artifact's digest, and a build
  -- of the policy's project at a ref under its prefix.
  pub verify_provenance_lem :
      (envelope : Bytes) (sha256 : Str) (policy : ProvenancePolicy) (p : Provenance)
      → verify_provenance tools envelope sha256 policy ≡ ok p
      → ((b : TrustedBuilder) × (b.builder_id ≡ p.builder_id) × IsSigned policy b p.statement)
        × IsAttested tools.lower p.statement policy p sha256
  unfolding verify_provenance
  verify_provenance_lem envelope sha256 policy p h =
      let ((statement, builder_id), a, h1) =
        >>=-eq-ok (verify_envelope tools envelope policy) _ h in
      let (b, i, signed) = verify_envelope-IsSigned envelope policy statement builder_id a in
      let (q, same, attested) =
        check_statement-IsAttested tools.lower statement sha256 policy builder_id p h1 in
      ((b, i ∙ sym q, rw (sym same) at signed), attested)
