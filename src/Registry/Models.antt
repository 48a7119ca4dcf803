-- ===== src/Registry/Models.antt =====
-- packages/dist-registry/src/dist_registry/models.py. Ids and times are numbers; the text of an error
-- is the exception that it renders.
use dev_tools_distribution_p.Base.{ℕ, ◌≡◌, ◌↔◌, Bool, true, false, Option, Eq, ◌==◌, arith, Error}
use dev_tools_distribution_p.Base.Text.{Str}
use dev_tools_distribution_p.Base.Json.{Fields}

pub data Forge : Type 0 where
  github gitlab : Forge

pub data SourceStatus : Type 0 where
  draft validating invalid pending_delegation active paused : SourceStatus

pub data JobKind : Type 0 where
  validate poll publish : JobKind

pub data JobState : Type 0 where
  queued running done failed : JobState

-- What the columns `last_error` and `error` hold.
pub data Message : Type 0 where
  source_deleted : Message
  raised : Error → Message

abbrev pub forge_beq : Forge → Forge → Bool
forge_beq github github = true
forge_beq gitlab gitlab = true
forge_beq _ _ = false

pub forge_beq_iff : (a b : Forge) → (forge_beq a b ≡ true) ↔ (a ≡ b)
forge_beq_iff a b = ground arith

instance abbrev pub forge_eq : Eq Forge
forge_eq = record { beq = forge_beq; beq_iff = forge_beq_iff }

abbrev pub status_beq : SourceStatus → SourceStatus → Bool
status_beq draft draft = true
status_beq validating validating = true
status_beq invalid invalid = true
status_beq pending_delegation pending_delegation = true
status_beq active active = true
status_beq paused paused = true
status_beq _ _ = false

pub status_beq_iff : (a b : SourceStatus) → (status_beq a b ≡ true) ↔ (a ≡ b)
status_beq_iff a b = ground arith

instance abbrev pub status_eq : Eq SourceStatus
status_eq = record { beq = status_beq; beq_iff = status_beq_iff }

abbrev pub kind_beq : JobKind → JobKind → Bool
kind_beq validate validate = true
kind_beq poll poll = true
kind_beq publish publish = true
kind_beq _ _ = false

pub kind_beq_iff : (a b : JobKind) → (kind_beq a b ≡ true) ↔ (a ≡ b)
kind_beq_iff a b = ground arith

instance abbrev pub kind_eq : Eq JobKind
kind_eq = record { beq = kind_beq; beq_iff = kind_beq_iff }

abbrev pub state_beq : JobState → JobState → Bool
state_beq queued queued = true
state_beq running running = true
state_beq done done = true
state_beq failed failed = true
state_beq _ _ = false

pub state_beq_iff : (a b : JobState) → (state_beq a b ≡ true) ↔ (a ≡ b)
state_beq_iff a b = ground arith

instance abbrev pub state_eq : Eq JobState
state_eq = record { beq = state_beq; beq_iff = state_beq_iff }

pub record Source : Type 0 where
  pub id : ℕ
  pub app_id : Str
  pub forge : Forge
  pub project : Str
  pub api_base : Str
  pub project_url : Str
  pub status : SourceStatus
  pub critical : Bool
  pub asset_name : Str
  pub tag_prefix : Str
  pub require_tag_ref_prefix : Str
  pub max_asset_bytes : ℕ
  pub channel : Str
  pub platform : Str
  pub arch : Str
  pub workflow_uri : Option Str
  pub oidc_issuer : Option Str
  pub repository_id : Option Str
  pub repository_owner_id : Option Str
  pub runner_environment : Str
  pub builder_id : Option Str
  pub builder_keyid : Option Str
  pub builder_public_key_pem : Option Str
  pub attestation_asset : Str
  pub created_at : Option ℕ
  pub updated_at : Option ℕ
  pub created_by : Str
  pub last_error : Option Message

-- `Source.pollable`
unfoldable pub pollable : Source → Bool
pollable s = s.status == active

pub record Job : Type 0 where
  pub id : ℕ
  pub source_id : ℕ
  pub kind : JobKind
  pub state : JobState
  pub requested_by : Str
  pub requested_at : ℕ
  pub started_at : Option ℕ
  pub finished_at : Option ℕ
  pub attempts : ℕ
  pub payload : Fields
  pub result : Option Fields
  pub error : Option Message

pub record AuditEvent : Type 0 where
  pub id : ℕ
  pub at : ℕ
  pub actor : Str
  pub action : Str
  pub source_id : Option ℕ
  pub detail : Fields
