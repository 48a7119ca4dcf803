-- ===== src/Ingest/Provenance/Statements.antt =====
-- What a statement must say, `check_statement` of
-- packages/dist-ingest/src/dist_ingest/provenance.py, as a predicate on the statement itself.
use dev_tools_distribution_p.Base.{
  suc, ◌+◌, ◌≡◌, refl, sym, ap, ◌∙◌, true, Option, some, List, [], ◌∷◌, ◌++◌, arith, ◌==◌, nat_eq,
  list_eq, ==_iff, length, drop, In, ok, from_option, provenance_error, >>=-eq-ok, require-eq-ok,
  Option-cases, inl, inr,
}
use dev_tools_distribution_p.Base.Text.{Str, text, starts_with}
use dev_tools_distribution_p.Base.Text.Laws.{starts_with-eq_true}
use dev_tools_distribution_p.Base.Json.{
  Json, null, bool, num, real, str, arr, obj, Fields, get, items,
}
use dev_tools_distribution_p.Ingest.Provenance.{
  Provenance, ProvenancePolicy, in_toto_statement_v1, slsa_provenance_v1, is_text, require_object,
  require_list, member, text_or_empty, claimed_builder, as_text, check_builder_claim, subject_match,
  first_match, subject_digest, uri_under, source, check_statement,
}

-- The value at a path of keys.
abbrev pub at_path : Json → List Str → Json
at_path v [] = v
at_path v (k ∷ ks) = at_path (member v k) ks

-- The items of the array that a value is.
abbrev pub items_of : Json → List Json
items_of (arr xs) = items xs
items_of _ = []

-- The statement is of the two types, names the builder, has a subject with the digest, and was built
-- of the project at the ref.
pub record IsAttested (lower : Str → Str) (statement : Fields) (policy : ProvenancePolicy)
    (p : Provenance) (sha256 : Str) : Type 0 where
  pub kind : get statement (text "_type") ≡ str in_toto_statement_v1
  pub predicate : get statement (text "predicateType") ≡ str slsa_provenance_v1
  pub builder :
      at_path
        (obj statement)
        (text "predicate" ∷ text "runDetails" ∷ text "builder" ∷ text "id" ∷ [])
      ≡ str p.builder_id
  pub subject :
      (entry : Json) × In entry (items_of (get statement (text "subject")))
      × (declared : Str) × (at_path entry (text "digest" ∷ text "sha256" ∷ []) ≡ str declared)
      × (lower declared ≡ lower sha256)
      × (p.subject_sha256 ≡ lower sha256)
      × (p.subject_name ≡ text_or_empty (member entry (text "name")))
  pub dependency :
      (entry : Json) × In entry (
        items_of (
          at_path
            (obj statement)
            (text "predicate" ∷ text "buildDefinition" ∷ text "resolvedDependencies" ∷ [])))
      × (member entry (text "uri") ≡ str p.source_uri)
  pub uri : p.source_uri ≡ ((text "git+" ++ policy.project_url) ++ text "@") ++ p.source_ref
  pub ref : starts_with p.source_ref policy.require_tag_ref_prefix ≡ true

pub is_text-eq_true : (v : Json) (s : Str) → is_text v s ≡ true → v ≡ str s
unfolding is_text
is_text-eq_true (str t) s h = ap str ((==_iff t s).0 h)
is_text-eq_true null s h = cc
is_text-eq_true (bool b) s h = cc
is_text-eq_true (num n) s h = cc
is_text-eq_true (real n) s h = cc
is_text-eq_true (arr xs) s h = cc
is_text-eq_true (obj xs) s h = cc

pub require_object-eq-ok : (v : Json) (body : Fields) → require_object v ≡ ok body → v ≡ obj body
unfolding require_object
require_object-eq-ok v body h = ground arith

pub require_list-eq-ok : (v : Json) (xs : List Json) → require_list v ≡ ok xs → items_of v ≡ xs
unfolding require_list
require_list-eq-ok v xs h = ground arith

first_match-eq-some :
    {A B : Type 0} (f : A → Option B) (xs : List A) (b : B)
    → first_match f xs ≡ some b
    → (x : A) × In x xs × (f x ≡ some b)
unfolding first_match
first_match-eq-some f [] b h = cc
first_match-eq-some f (x ∷ xs) b h = elim (Option-cases (f x)) [
  | inl e ↦ let (y, m, q) = first_match-eq-some f xs b (ground arith) in (y, inr m, q)
  | inr (a, e) ↦ (x, inl refl, ground arith)
]

pub as_text-eq-some : (v : Json) (s : Str) → as_text v ≡ some s → v ≡ str s
unfolding as_text
as_text-eq-some v s h = ground arith

subject_match-eq-some :
    (lower : Str → Str) (sha256 : Str) (entry : Json) (name digest : Str)
    → subject_match lower sha256 entry ≡ some (name, digest)
    → (declared : Str) × (member (member entry (text "digest")) (text "sha256") ≡ str declared)
      × (lower declared ≡ lower sha256)
      × (digest ≡ lower sha256)
      × (name ≡ text_or_empty (member entry (text "name")))
unfolding subject_match
subject_match-eq-some lower sha256 entry name digest h =
    elim (Option-cases (as_text (member (member entry (text "digest")) (text "sha256")))) [
      | inl e ↦ ground arith
      | inr (declared, e) ↦
          let hit : (lower declared == lower sha256) ≡ true = ground arith in
          (
            declared,
            as_text-eq-some _ declared e,
            (==_iff (lower declared) (lower sha256)).0 hit,
            ground (arith, (==_iff (lower declared) (lower sha256)).0 hit),
            ground arith,
          )
    ]

uri_under-eq-some :
    (expected : Str) (entry : Json) (uri : Str)
    → uri_under expected entry ≡ some uri
    → (member entry (text "uri") ≡ str uri) × (starts_with uri (expected ++ text "@") ≡ true)
unfolding uri_under
uri_under-eq-some expected entry uri h = ground arith

drop-length : (s t : Str) → drop (length s + 1) ((s ++ text "@") ++ t) ≡ t
drop-length [] t = refl
drop-length (c ∷ s) t =
    let n : suc (length s) + 1 ≡ suc (length s + 1) = omega arith in
    ap (λ k. drop k (c ∷ ((s ++ text "@") ++ t))) n ∙ drop-length s t

uri_cut :
    (expected uri : Str)
    → starts_with uri (expected ++ text "@") ≡ true
    → uri ≡ (expected ++ text "@") ++ drop (length expected + 1) uri
uri_cut expected uri h =
    let (t, e) = starts_with-eq_true uri (expected ++ text "@") h in rw (e, drop-length expected t)

module _ (lower : Str → Str) (statement : Fields) (sha256 : Str) (policy : ProvenancePolicy) where
  subject_digest-eq-ok :
      (name digest : Str)
      → subject_digest lower statement sha256 ≡ ok (name, digest)
      → (entry : Json) × In entry (items_of (get statement (text "subject")))
        × (declared : Str) × (at_path entry (text "digest" ∷ text "sha256" ∷ []) ≡ str declared)
        × (lower declared ≡ lower sha256)
        × (digest ≡ lower sha256)
        × (name ≡ text_or_empty (member entry (text "name")))
  unfolding subject_digest
  subject_digest-eq-ok name digest h =
      let (subjects, a, h1) = >>=-eq-ok (require_list (get statement (text "subject"))) _ h in
      let found : first_match (subject_match lower sha256) subjects ≡ some (name, digest) =
        ground arith in
      let (entry, m, e) =
        first_match-eq-some (subject_match lower sha256) subjects (name, digest) found in
      let (declared, d, l, g, n) = subject_match-eq-some lower sha256 entry name digest e in
      (
        entry,
        rw (require_list-eq-ok (get statement (text "subject")) subjects a) m,
        declared,
        d,
        l,
        g,
        n,
      )

  source-eq-ok :
      (uri ref : Str)
      → source statement policy ≡ ok (uri, ref)
      → ((entry : Json) × In entry (
            items_of (
              at_path
                (obj statement)
                (text "predicate" ∷ text "buildDefinition" ∷ text "resolvedDependencies" ∷ [])))
          × (member entry (text "uri") ≡ str uri))
        × (uri ≡ ((text "git+" ++ policy.project_url) ++ text "@") ++ ref)
        × (starts_with ref policy.require_tag_ref_prefix ≡ true)
  unfolding source member
  source-eq-ok uri ref h =
      let (predicate, a, h1) = >>=-eq-ok (require_object (get statement (text "predicate"))) _ h in
      let (build, b, h2) =
        >>=-eq-ok (require_object (get predicate (text "buildDefinition"))) _ h1 in
      let (deps, c, h3) = >>=-eq-ok (require_list (get build (text "resolvedDependencies"))) _ h2 in
      let expected = text "git+" ++ policy.project_url in
      let (u, d, h4) =
        >>=-eq-ok (from_option (first_match (uri_under expected) deps) provenance_error) _ h3 in
      let (e, h5) =
        require-eq-ok (starts_with (drop (length expected + 1) u) policy.require_tag_ref_prefix)
          provenance_error _ h4 in
      let found : first_match (uri_under expected) deps ≡ some u = ground arith in
      let (entry, m, f) = first_match-eq-some (uri_under expected) deps u found in
      let (is, starts) = uri_under-eq-some expected entry u f in
      let same_uri : u ≡ uri = ground arith in
      let same_ref : drop (length expected + 1) u ≡ ref = ground arith in
      let place : items_of (
            member (member (get statement (text "predicate")) (text "buildDefinition"))
              (text "resolvedDependencies"))
          ≡ deps =
        rw (require_object-eq-ok _ predicate a, require_object-eq-ok _ build b)
          (require_list-eq-ok _ deps c) in
      (
        (entry, rw place m, is ∙ ap str same_uri),
        sym same_uri ∙ uri_cut expected u starts ∙ ap (λ r. (expected ++ text "@") ++ r) same_ref,
        rw (sym same_ref) e,
      )

  module _ (builder_id : Str) (p : Provenance) where
    -- A statement that passes says all that it must.
    pub check_statement-IsAttested :
        check_statement lower statement builder_id sha256 policy ≡ ok p
        → (p.builder_id ≡ builder_id)
          × (p.statement ≡ statement)
          × IsAttested lower p.statement policy p sha256
    unfolding check_statement check_builder_claim claimed_builder
    check_statement-IsAttested h =
        let (a, h1) =
          require-eq-ok (is_text (get statement (text "_type")) in_toto_statement_v1)
            provenance_error _ h in
        let (b, h2) =
          require-eq-ok (is_text (get statement (text "predicateType")) slsa_provenance_v1)
            provenance_error _ h1 in
        let (c, h3) =
          require-eq-ok (is_text (claimed_builder statement) builder_id) provenance_error _ h2 in
        let ((name, digest), d, h4) = >>=-eq-ok (subject_digest lower statement sha256) _ h3 in
        let ((uri, ref), s, h5) = >>=-eq-ok (source statement policy) _ h4 in
        let (entry, m, declared, e1, e2, e3, e4) = subject_digest-eq-ok name digest d in
        let (found, cut, tag) = source-eq-ok uri ref s in
        let same : p ≡ record {
          builder_id = builder_id;
          source_uri = uri;
          source_ref = ref;
          subject_name = name;
          subject_sha256 = digest;
          statement = statement;
        } =
          cc (h5) in
        rw same (
          refl,
          refl,
          record {
            kind = is_text-eq_true _ _ a;
            predicate = is_text-eq_true _ _ b;
            builder = is_text-eq_true _ _ c;
            subject = (entry, m, declared, e1, e2, e3, e4);
            dependency = found;
            uri = cut;
            ref = tag;
          },
        )
