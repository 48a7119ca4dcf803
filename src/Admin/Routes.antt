-- ===== src/Admin/Routes.antt =====
-- packages/dist-admin/src/dist_admin/app.py: the handlers that change sources, after the operator of
-- the request is known. Pages are which page it is; an exception that no handler catches stays one.
pub mod Guarded
pub mod Examples
use dev_tools_distribution_p.Base.{
  ℕ, Bool, true, false, Option, none, some, List, [], ◌∷◌, ◌++◌, if◌then◌else◌, ◌==◌, nat_eq,
  list_eq, Error, form_error, store_error, Result, ok, err, ◌>>◌,
}
use dev_tools_distribution_p.Base.Exec.{Exec, ◌>>=◌, ◌⨟◌, lift}
use dev_tools_distribution_p.Base.Text.{Str, text, decimal}
use dev_tools_distribution_p.Base.Json.{
  Json, null, bool, num, real, str, arr, obj, pos, negsuc, Fields, end, field, get_or,
}
use dev_tools_distribution_p.Registry.Models.{
  Forge, github, gitlab, Source, pollable, validate, poll, validating, paused,
}
use dev_tools_distribution_p.Registry.Schema.{Db}
use dev_tools_distribution_p.Registry.Sources.{
  get_source, add_source, update_source, set_status, delete_source, is_empty,
}
use dev_tools_distribution_p.Registry.Jobs.{enqueue}
use dev_tools_distribution_p.Registry.Accounts.{audit}
use dev_tools_distribution_p.Admin.Forms.{Library}
use dev_tools_distribution_p.Admin.Forms.Sources.{source_from_form, source_edit_from_form}
use dev_tools_distribution_p.Admin.Auth.{Digests, Operator, check_csrf, current_operator}

-- What a handler answers with: a redirect, or a page
pub data Response : Type 0 where
  to_login to_sources not_found : Response
  to_source : ℕ → Response
  new_form edit_form : Error → Response

-- A request that may change a source, with the ids that it would use
pub data Request : Type 0 where
  create : ℕ → ℕ → Fields → Request
  edit : ℕ → Fields → Request
  act : ℕ → ℕ → Str → Str → Request

-- `str(forge)`
unfoldable pub forge_name : Forge → Str
forge_name github = text "github"
forge_name gitlab = text "gitlab"

-- `source.added`
unfoldable pub added_detail : Source → Fields
unfolding forge_name
added_detail s = field (text "app_id") (str s.app_id) (
    field (text "forge") (str (forge_name s.forge))
      (field (text "project") (str s.project) (field (text "critical") (bool s.critical) end)))

module _ (repr : Json → Str) where
  -- `str(value)`; that of a structure or of a number with a sign or a fraction is the parameter
  unfoldable pub str_of : Json → Str
  str_of null = text "None"
  str_of (bool true) = text "True"
  str_of (bool false) = text "False"
  str_of (num (pos n)) = decimal n
  str_of (num (negsuc n)) = repr (num (negsuc n))
  str_of (real r) = repr (real r)
  str_of (str s) = s
  str_of (arr xs) = repr (arr xs)
  str_of (obj fs) = repr (obj fs)

  unfoldable pub shown : Fields → Fields
  unfolding str_of
  shown end = end
  shown (field name value rest) = field name (str (str_of value)) (shown rest)

  -- `str(data.get("csrf", ""))`
  unfoldable pub csrf_of : Fields → Str
  unfolding str_of
  csrf_of data_ = str_of (get_or data_ (text "csrf") (str []))

  module _ (lib : Library) where
    -- `except (FormError, StoreError)`
    unfoldable pub refused_new : Error → Exec Db Response
    refused_new form_error db = (ok (new_form form_error), db)
    refused_new store_error db = (ok (new_form store_error), db)
    refused_new e db = (err e, db)

    unfoldable pub registered : ℕ → Operator → Source → Exec Db Response
    unfolding added_detail
    registered job_id operator created =
        audit operator.username (text "source.added") (some created.id) (added_detail created)
        ⨟ enqueue job_id created.id validate operator.username end
        ⨟ set_status created.id validating none
        ⨟ λ db. (ok (to_source created.id), db)

    unfoldable pub settle_new : ℕ → Operator → Result Source → Exec Db Response
    unfolding refused_new registered
    settle_new job_id operator (err e) = refused_new e
    settle_new job_id operator (ok created) = registered job_id operator created

    unfoldable pub register : ℕ → Operator → Fields → Exec Db Source
    unfolding csrf_of source_from_form
    register id operator data_ =
        lift (check_csrf operator (some (csrf_of data_)))
        ⨟ (lift (source_from_form lib id operator.username data_) >>= add_source)

    -- `create_source`, with the ids of the source and of its job
    unfoldable pub create_source : ℕ → ℕ → Fields → Option Operator → Exec Db Response
    unfolding register settle_new
    create_source id job_id data_ none db = (ok to_login, db)
    create_source id job_id data_ (some operator) db =
        let (created, after) = register id operator data_ db in
        settle_new job_id operator created after

    unfoldable pub refused_edit : Error → Error → Exec Db Response
    refused_edit form_error form_error db = (ok (edit_form form_error), db)
    refused_edit store_error store_error db = (ok (edit_form store_error), db)
    refused_edit caught e db = (err e, db)

    unfoldable pub settle_edit : ℕ → Operator → Fields → Result Source → Exec Db Response
    unfolding refused_edit shown
    settle_edit source_id operator changed (err e) = refused_edit store_error e
    settle_edit source_id operator changed (ok _) =
        audit operator.username (text "source.edited") (some source_id) (shown changed) ⨟ λ db.
        (ok (to_source source_id), db)

    unfoldable pub save_edit : ℕ → Operator → Result Fields → Exec Db Response
    unfolding settle_edit is_empty
    save_edit source_id operator (err e) db = refused_edit form_error e db
    save_edit source_id operator (ok changed) db =
        if is_empty changed
        then (ok (to_source source_id), db)
        else let (saved, after) = update_source source_id changed db in
          settle_edit source_id operator changed saved after

    edited : ℕ → Fields → Operator → Option Source → Exec Db Response
    unfolding save_edit csrf_of source_edit_from_form
    edited source_id data_ operator none db = (ok not_found, db)
    edited source_id data_ operator (some source) db =
        save_edit source_id operator
          (do check_csrf operator (some (csrf_of data_)); source_edit_from_form lib data_ source) db

    -- `edit_source`
    unfoldable pub edit_source : ℕ → Fields → Option Operator → Exec Db Response
    unfolding edited get_source
    edit_source source_id data_ none db = (ok to_login, db)
    edit_source source_id data_ (some operator) db =
        edited source_id data_ operator (get_source source_id db) db

  -- One after the other, then the row of the log and the source's page
  recorded : ℕ → Operator → Str → Exec Db Response
  recorded source_id operator action =
      audit operator.username action (some source_id) end ⨟ λ db. (ok (to_source source_id), db)

  polled : ℕ → ℕ → Operator → Bool → Exec Db Response
  unfolding recorded
  polled job_id source_id operator true =
      enqueue job_id source_id poll operator.username end
      ⨟ recorded source_id operator (text "source.poll")
  polled job_id source_id operator false = recorded source_id operator (text "source.poll.refused")

  -- The branches on the action
  unfoldable pub perform : ℕ → ℕ → Str → Operator → Source → Exec Db Response
  unfolding polled recorded pollable
  perform job_id source_id action operator source =
      if action == text "validate"
      then (enqueue job_id source_id validate operator.username end
          ⨟ set_status source_id validating none
          ⨟ recorded source_id operator (text "source.validate"))
      else if action == text "poll"
      then polled job_id source_id operator (pollable source)
      else if action == text "pause"
      then (set_status source_id paused none ⨟ recorded source_id operator (text "source.pause"))
      else if action == text "delete"
      then (delete_source source_id
          ⨟ audit operator.username (text "source.deleted") none
              (field (text "app_id") (str source.app_id) end)
          ⨟ λ db. (ok to_sources, db))
      else λ db. (ok (to_source source_id), db)

  unfoldable pub settle_action :
      ℕ → ℕ → Str → Operator → Source → Result (Unit {0}) → Exec Db Response
  unfolding perform
  settle_action job_id source_id action operator source (ok _) db =
      perform job_id source_id action operator source db
  settle_action job_id source_id action operator source (err form_error) db =
      (ok (to_source source_id), db)
  settle_action job_id source_id action operator source (err e) db = (err e, db)

  acted : ℕ → ℕ → Str → Str → Operator → Option Source → Exec Db Response
  unfolding settle_action check_csrf
  acted job_id source_id action csrf operator none db = (ok not_found, db)
  acted job_id source_id action csrf operator (some source) db =
      settle_action job_id source_id action operator source (check_csrf operator (some csrf)) db

  -- `source_action`
  unfoldable pub source_action : ℕ → ℕ → Str → Str → Option Operator → Exec Db Response
  unfolding acted get_source
  source_action job_id source_id action csrf none db = (ok to_login, db)
  source_action job_id source_id action csrf (some operator) db =
      acted job_id source_id action csrf operator (get_source source_id db) db

  unfoldable pub supplied : Request → Str
  unfolding csrf_of
  supplied (create id job_id data_) = csrf_of data_
  supplied (edit source_id data_) = csrf_of data_
  supplied (act job_id source_id action csrf) = csrf

  -- The handler of a request, for the operator that its cookie names
  unfoldable pub serve : Library → Request → Option Operator → Exec Db Response
  unfolding create_source edit_source source_action
  serve lib (create id job_id data_) operator = create_source lib id job_id data_ operator
  serve lib (edit source_id data_) operator = edit_source lib source_id data_ operator
  serve lib (act job_id source_id action csrf) operator =
      source_action job_id source_id action csrf operator

  unfoldable pub respond : Digests → Library → Option Str → Request → Exec Db Response
  unfolding serve current_operator
  respond digests lib cookie request db = serve lib request (current_operator digests cookie db) db
