-- ===== src/Core/Roles.antt =====
-- packages/dist-core/src/dist_core/roles.py: roles, custody and the names of delegated roles.
mod Names
mod Examples
use dev_tools_distribution_p.Base.{
  ℕ, suc, ◌+◌, ◌*◌, Bool, true, false, ◌&&◌, ◌||◌, List, [], ◌∷◌, ◌++◌, if◌then◌else◌, ◌==◌, nat_eq,
  leb, all, length, Result, ok, err, ◌>>=◌, ◌>>◌, require, value_error,
}
use dev_tools_distribution_p.Base.Text.{Str, text, is_lower_alnum, chomp}

abbrev pub root : Str
root = text "root"

abbrev pub targets : Str
targets = text "targets"

abbrev pub snapshot : Str
snapshot = text "snapshot"

abbrev pub timestamp : Str
timestamp = text "timestamp"

abbrev pub top_level_roles : List Str
top_level_roles = root ∷ targets ∷ snapshot ∷ timestamp ∷ []

-- `[a-z0-9-]`
is_app_id_char : ℕ → Bool
is_app_id_char c = is_lower_alnum c || c == b'-'

-- `[a-z0-9][a-z0-9-]{1,62}`
unfoldable pub is_app_id : Str → Bool
unfolding is_app_id_char
is_app_id [] = false
is_app_id (c ∷ s) =
    is_lower_alnum c && all is_app_id_char s && leb 1 (length s) && leb (length s) 62

-- `APP_ID_PATTERN.match`: `$` lets one newline stand at the end.
unfoldable pub matches_app_id : Str → Bool
unfolding is_app_id
matches_app_id s = is_app_id (chomp s)

abbrev pub app_role_prefix : Str
app_role_prefix = text "app-"

pub data KeyStore : Type 0 where
  offline online : KeyStore

pub record RolePolicy : Type 0 where
  pub name : Str
  pub keystore : KeyStore
  pub threshold : ℕ
  pub expiry_days : ℕ
  pub key_count : ℕ

-- `RolePolicy.__post_init__`
unfoldable pub new_role_policy : RolePolicy → Result RolePolicy
new_role_policy p = do require (leb p.threshold p.key_count) value_error; ok p

-- `ROOT_POLICY`, `TARGETS_POLICY`, `SNAPSHOT_POLICY`, `TIMESTAMP_POLICY`
abbrev pub top_level_policies : List RolePolicy
top_level_policies =
    record { name = root; keystore = offline; threshold = 3; expiry_days = 365; key_count = 5 }
    ∷ record { name = targets; keystore = offline; threshold = 2; expiry_days = 90; key_count = 3 }
    ∷ record { name = snapshot; keystore = online; threshold = 1; expiry_days = 7; key_count = 1 }
    ∷ record { name = timestamp; keystore = online; threshold = 1; expiry_days = 1; key_count = 1 }
    ∷ []

-- `app_role_name`
unfoldable pub app_role_name : Str → Result Str
unfolding matches_app_id
app_role_name app_id = do
  require (matches_app_id app_id) value_error
  ok (app_role_prefix ++ app_id)

-- `app_role_policy`
unfoldable pub app_role_policy : Str → Bool → Result RolePolicy
unfolding app_role_name new_role_policy
app_role_policy app_id critical = do
  name ← app_role_name app_id
  new_role_policy (record {
    name = name;
    keystore = if critical then offline else online;
    threshold = 1;
    expiry_days = 14;
    key_count = 1;
  })
