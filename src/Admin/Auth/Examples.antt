-- ===== src/Admin/Auth/Examples.antt =====
-- A login on concrete tables (packages/dist-admin/src/dist_admin/auth.py and app.py).
use dev_tools_distribution_p.Base.{
  ℕ, true, false, Option, none, some, [], ◌∷◌, ◌++◌, list_eq, list_beq, nat_eq, any, all, find, ok,
  err, type_error, ◌≡◌, ◌≢◌, refl, arith,
}
use dev_tools_distribution_p.Base.Text.{Str, text}
use dev_tools_distribution_p.Registry.Schema.{Db}
use dev_tools_distribution_p.Registry.Accounts.{has_token, get_operator}
use dev_tools_distribution_p.Admin.Auth.{
  Digests, Operator, is_ascii, csrf_ok, compare_digest, check_csrf, verify_password, hash_password,
  admits, authenticate, current_operator, login, logout,
}
use dev_tools_distribution_p.Admin.Auth.Logins.{login_lem}
use dev_tools_distribution_p.Admin.Auth.Answers.{IsAdmitted}

-- Digests that are easy to read.
abbrev readable : Digests
readable = record { scrypt = λ password salt. password ++ salt; sha256 = λ token. b'#' ∷ token }

abbrev staffed : Db
staffed = record {
  sources = [];
  jobs = [];
  audit_log = [];
  operators =
      record {
        username = text "ops";
        password_hash = text "pws";
        salt = text "s";
        disabled = false;
      }
      ∷ [];
  sessions = [];
  now = 100;
}

right_password : authenticate readable (text "ops") (text "pw") staffed ≡ true
unfolding authenticate admits get_operator find verify_password hash_password list_beq
right_password = refl

wrong_password : authenticate readable (text "ops") (text "no") staffed ≡ false
unfolding authenticate admits get_operator find verify_password hash_password list_beq
wrong_password = refl

-- A field that is not ASCII raises what no handler of a form catches.
csrf_ok-accent : csrf_ok (text "c") (some (233 ∷ [])) ≡ err type_error
unfolding csrf_ok compare_digest is_ascii all
csrf_ok-accent = refl

no_session_yet : any (has_token (text "#t")) staffed.sessions ≡ false
unfolding any
no_session_yet = refl

ascii_token : is_ascii (text "c") ≡ true
unfolding is_ascii all
ascii_token = refl

nonempty : {c : ℕ} {cs : Str} → c ∷ cs ≢ []
nonempty e = cc

login_lem_example :
    (authenticate readable (text "ops") (text "pw") staffed ≡ false
      → ((login readable 100 (text "t") (text "c") (text "ops") (text "pw") staffed).0 ≡ ok none)
        × ((cookie : Option Str)
            → current_operator readable cookie
                (login readable 100 (text "t") (text "c") (text "ops") (text "pw") staffed).1
              ≡ current_operator readable cookie staffed))
    × (authenticate readable (text "ops") (text "pw") staffed ≡ true
        → IsAdmitted readable (text "ops") (text "pw") staffed
          × ((login readable 100 (text "t") (text "c") (text "ops") (text "pw") staffed).0
              ≡ ok (some (text "t")))
          × ((o : Operator) × (current_operator readable
                  (some (text "t"))
                  (login readable 100 (text "t") (text "c") (text "ops") (text "pw") staffed).1
                ≡ some o)
              × (o.username ≡ text "ops")
              × (check_csrf o (some (text "c")) ≡ ok tt))
          × (current_operator readable
                (some (text "t"))
                (logout readable
                  (some (text "t"))
                  (login readable 100 (text "t") (text "c") (text "ops") (text "pw") staffed).1).1
              ≡ none)
          × ((other : Str)
              → readable.sha256 other ≢ readable.sha256 (text "t")
              → (current_operator readable
                    (some other)
                    (login readable 100 (text "t") (text "c") (text "ops") (text "pw") staffed).1
                  ≡ current_operator readable (some other) staffed)
                × (current_operator readable
                      (some other)
                      (logout readable
                        (some (text "t"))
                        (login readable 100
                          (text "t")
                          (text "c")
                          (text "ops")
                          (text "pw")
                          staffed).1).1
                    ≡ current_operator readable (some other) staffed)))
login_lem_example =
    login_lem readable 100 (text "t") (text "c") (text "ops") (text "pw") staffed nonempty nonempty
      ascii_token (omega arith) no_session_yet
