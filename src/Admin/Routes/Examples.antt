-- ===== src/Admin/Routes/Examples.antt =====
-- Requests on concrete tables (packages/dist-admin/src/dist_admin/app.py).
use dev_tools_distribution_p.Base.{
  false, Option, some, List, [], ◌∷◌, nat_eq, list_eq, list_beq, any, all, find, map, contains, ok,
  ◌≡◌, refl, ◌⊎◌,
}
use dev_tools_distribution_p.Base.Text.{Str, text, is_lower_alnum}
use dev_tools_distribution_p.Base.Json.{Json}
use dev_tools_distribution_p.Core.Roles.{is_app_id}
use dev_tools_distribution_p.Registry.Models.{SourceStatus, paused}
use dev_tools_distribution_p.Registry.Schema.{Db, SessionRow, row_ok, update_where}
use dev_tools_distribution_p.Registry.Sources.{set_status}
use dev_tools_distribution_p.Registry.Accounts.{audit, get_session}
use dev_tools_distribution_p.Admin.Forms.Examples.{sample_library, registered}
use dev_tools_distribution_p.Admin.Auth.{Digests, is_ascii}
use dev_tools_distribution_p.Admin.Routes.{to_login, act, supplied, respond, perform}
use dev_tools_distribution_p.Admin.Routes.Guarded.{Opens, respond_lem}

abbrev no_repr : Json → Str
no_repr value = []

abbrev hashes : Digests
hashes = record { scrypt = λ password salt. password; sha256 = λ token. b'#' ∷ token }

abbrev open_office : Db
open_office = record {
  sources = registered ∷ [];
  jobs = [];
  audit_log = [];
  operators =
      record { username = text "ops"; password_hash = text "pw"; salt = []; disabled = false } ∷ [];
  sessions =
      record {
        token_sha256 = text "#t";
        username = text "ops";
        csrf_token = text "c";
        expires_at = 200;
      }
      ∷ [];
  now = 100;
}

status_after : Str → Option Str → List SourceStatus
unfolding respond
status_after csrf cookie =
    map (λ s. s.status)
      (respond no_repr hashes sample_library cookie (act 9 1 (text "pause") csrf)
        open_office).1.sources

-- The token of the session pauses the source.
paused_by_session : status_after (text "c") (some (text "t")) ≡ paused ∷ []
unfolding status_after list_beq find any all get_session set_status audit row_ok update_where
    is_ascii perform is_app_id is_lower_alnum contains
paused_by_session = refl

respond_lem_example :
    ((s : SessionRow) × Opens hashes (some (text "t")) s open_office
      × (supplied no_repr (act 9 1 (text "pause") (text "c")) ≡ s.csrf_token))
    ⊎ ((respond no_repr hashes sample_library
          (some (text "t"))
          (act 9 1 (text "pause") (text "c"))
          open_office).1
        ≡ open_office)
      × (((s : SessionRow) × Opens hashes (some (text "t")) s open_office)
          ⊎ ((respond no_repr hashes sample_library
                (some (text "t"))
                (act 9 1 (text "pause") (text "c"))
                open_office).0
              ≡ ok to_login))
respond_lem_example =
    respond_lem no_repr hashes sample_library (some (text "t")) (act 9 1 (text "pause") (text "c"))
      open_office
