-- ===== src/Registry/Sources/Columns.antt =====
-- What an assignment to the columns that an edit may name leaves alone
-- (packages/dist-registry/src/dist_registry/store.py).
use dev_tools_distribution_p.Base.{
  ℕ, ◌≡◌, refl, ◌∙◌, inl, inr, true, Option, some, none, arith, nat_eq, list_eq, list_beq, all,
  contains, contains_iff,
}
use dev_tools_distribution_p.Base.Json.{
  Json, null, str, num, bool, real, arr, obj, pos, negsuc, Fields, end, field,
}
use dev_tools_distribution_p.Base.Text.{Str, text}
use dev_tools_distribution_p.Registry.Models.{Forge, Source, SourceStatus}
use dev_tools_distribution_p.Registry.Sources.{
  updatable_columns, names, assign, assign_text, assign_optional, assign_named, assign_number,
  assign_all,
}
use mathlib.Core.Path.{subst}

-- The columns on the strength of which a delegation was granted.
pub record Identity : Type 0 where
  pub id : ℕ
  pub app_id : Str
  pub forge : Forge
  pub project : Str
  pub api_base : Str
  pub project_url : Str
  pub status : SourceStatus
  pub workflow_uri : Option Str
  pub oidc_issuer : Option Str
  pub repository_id : Option Str
  pub repository_owner_id : Option Str
  pub runner_environment : Str
  pub builder_id : Option Str
  pub builder_keyid : Option Str
  pub builder_public_key_pem : Option Str
  pub attestation_asset : Str

abbrev pub identity_of : Source → Identity
identity_of s = record {
  id = s.id;
  app_id = s.app_id;
  forge = s.forge;
  project = s.project;
  api_base = s.api_base;
  project_url = s.project_url;
  status = s.status;
  workflow_uri = s.workflow_uri;
  oidc_issuer = s.oidc_issuer;
  repository_id = s.repository_id;
  repository_owner_id = s.repository_owner_id;
  runner_environment = s.runner_environment;
  builder_id = s.builder_id;
  builder_keyid = s.builder_keyid;
  builder_public_key_pem = s.builder_public_key_pem;
  attestation_asset = s.attestation_asset;
}

-- A column that an edit may name is one of the eight.
each_column :
    (P : Str → Type 0)
    → P (text "asset_name")
    → P (text "tag_prefix")
    → P (text "require_tag_ref_prefix")
    → P (text "max_asset_bytes")
    → P (text "critical")
    → P (text "channel")
    → P (text "platform")
    → P (text "arch")
    → (name : Str) → contains name updatable_columns ≡ true
    → P name
each_column P a b c d e f g h name known = elim ((contains_iff name updatable_columns).0 known) [
  | inl q ↦ subst P q a
  | inr (inl q) ↦ subst P q b
  | inr (inr (inl q)) ↦ subst P q c
  | inr (inr (inr (inl q))) ↦ subst P q d
  | inr (inr (inr (inr (inl q)))) ↦ subst P q e
  | inr (inr (inr (inr (inr (inl q))))) ↦ subst P q f
  | inr (inr (inr (inr (inr (inr (inl q)))))) ↦ subst P q g
  | inr (inr (inr (inr (inr (inr (inr (inl q))))))) ↦ subst P q h
  | inr (inr (inr (inr (inr (inr (inr (inr q))))))) ↦ absurd q
]

-- An assignment that keeps the identity of every row.
abbrev Keeps : (Source → Source) → Type 0
Keeps f = (s : Source) → identity_of (f s) ≡ identity_of s

keeps : (s : Source) → identity_of s ≡ identity_of s
keeps s = refl

module _ (name : Str) (known : contains name updatable_columns ≡ true) where
  assign_text-Keeps : (v : Str) → Keeps (assign_text name v)
  unfolding assign_text list_beq
  assign_text-Keeps v =
      each_column (λ n. Keeps (assign_text n v)) keeps keeps keeps keeps keeps keeps keeps keeps
        name known

  assign_optional-Keeps : (v : Option Str) → Keeps (assign_optional name v)
  unfolding assign_optional list_beq
  assign_optional-Keeps v =
      each_column (λ n. Keeps (assign_optional n v)) keeps keeps keeps keeps keeps keeps keeps keeps
        name known

  assign_named-Keeps : (v : Str) → Keeps (assign_named name v)
  unfolding assign_named list_beq
  assign_named-Keeps v =
      each_column (λ n. Keeps (assign_named n v)) keeps keeps keeps keeps keeps keeps keeps keeps
        name known

  assign_number-Keeps : (v : ℕ) → Keeps (assign_number name v)
  unfolding assign_number list_beq
  assign_number-Keeps v =
      each_column (λ n. Keeps (assign_number n v)) keeps keeps keeps keeps keeps keeps keeps keeps
        name known

  identity_of-assign : (v : Json) → Keeps (assign name v)
  unfolding assign
  identity_of-assign (str v) s =
      assign_named-Keeps v (assign_optional name (some v) (assign_text name v s))
      ∙ assign_optional-Keeps (some v) (assign_text name v s)
      ∙ assign_text-Keeps v s
  identity_of-assign null s = assign_optional-Keeps none s
  identity_of-assign (num (pos v)) s = assign_number-Keeps v s
  identity_of-assign (num (negsuc v)) s = refl
  identity_of-assign (bool v) s = ground arith
  identity_of-assign (real v) s = refl
  identity_of-assign (arr v) s = refl
  identity_of-assign (obj v) s = refl

-- The columns that fields name may all be edited.
abbrev pub IsKnown : Fields → Type 0
IsKnown fields = all (λ name. contains name updatable_columns) (names fields) ≡ true

pub identity_of-assign_all :
    (fields : Fields) (s : Source)
    → IsKnown fields
    → identity_of (assign_all fields s) ≡ identity_of s
unfolding assign_all names all
identity_of-assign_all end s known = refl
identity_of-assign_all (field name v rest) s known =
    identity_of-assign_all rest (assign name v s) (ground arith)
    ∙ identity_of-assign name (ground arith) v s
