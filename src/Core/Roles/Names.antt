-- ===== src/Core/Roles/Names.antt =====
-- The names of delegated roles (packages/dist-core/src/dist_core/roles.py).
use dev_tools_distribution_p.Base.{
  ◌≡◌, refl, true, false, [], ◌∷◌, ◌++◌, arith, list_beq, list_eq, nat_eq, all, ok, require-eq-ok,
  contains,
}
use dev_tools_distribution_p.Base.Text.{Str, slash, newline, is_lower_alnum, chomp, contains_char}
use dev_tools_distribution_p.Base.Text.Laws.{chomp-newline, chomp-no_newline, append_cancel}
use dev_tools_distribution_p.Core.Roles.{
  is_app_id_char, matches_app_id, app_role_name, app_role_prefix, top_level_roles,
}

all-chomp-no_slash : (s : Str) → all is_app_id_char (chomp s) ≡ true → contains_char slash s ≡ false
unfolding chomp all contains_char is_app_id_char is_lower_alnum
all-chomp-no_slash [] h = refl
all-chomp-no_slash (c ∷ []) h = ground arith
all-chomp-no_slash (c ∷ d ∷ s) h = ground (arith, all-chomp-no_slash (d ∷ s))

matches_app_id-no_slash : (s : Str) → matches_app_id s ≡ true → contains_char slash s ≡ false
unfolding matches_app_id chomp contains_char is_lower_alnum
matches_app_id-no_slash [] h = refl
matches_app_id-no_slash (c ∷ []) h = ground arith
matches_app_id-no_slash (c ∷ d ∷ s) h = ground (arith, all-chomp-no_slash (d ∷ s))

prefix-no_slash :
    (s : Str) → contains_char slash s ≡ false → contains_char slash (app_role_prefix ++ s) ≡ false
unfolding contains_char
prefix-no_slash s h = h

prefix-not_top_level : (s : Str) → contains (app_role_prefix ++ s) top_level_roles ≡ false
unfolding contains list_beq
prefix-not_top_level s = refl

-- A role name is the prefix with the application id; it holds no path separator, it is no top-level
-- role, and another application's role has another name.
pub app_role_name_lem :
    (app_id other : Str) {role : Str}
    → app_role_name app_id ≡ ok role
    → (role ≡ app_role_prefix ++ app_id)
      × (contains_char slash role ≡ false)
      × (contains role top_level_roles ≡ false)
      × (app_role_name other ≡ ok role → other ≡ app_id)
unfolding app_role_name
app_role_name_lem app_id other {role} h =
    let (accepted, e) = require-eq-ok (matches_app_id app_id) _ _ h in
    let named : role ≡ app_role_prefix ++ app_id = cc e in
    (
      named,
      rw named (prefix-no_slash app_id (matches_app_id-no_slash app_id accepted)),
      rw named (prefix-not_top_level app_id),
      λ h'.
          let (_, e') = require-eq-ok (matches_app_id other) _ _ h' in
          append_cancel app_role_prefix other app_id (cc (e, e')),
    )

-- Every application id without a newline that is accepted is also accepted with one at its end.
pub app_role_name-newline :
    (app_id : Str) {role : Str}
    → app_role_name app_id ≡ ok role
    → contains_char newline app_id ≡ false
    → app_role_name (app_id ++ newline ∷ []) ≡ ok (role ++ newline ∷ [])
unfolding app_role_name
app_role_name-newline app_id {role} h n =
    let (accepted, e) = require-eq-ok (matches_app_id app_id) _ _ h in
    let named : role ≡ app_role_prefix ++ app_id = cc e in
    let again : matches_app_id (app_id ++ newline ∷ []) ≡ true =
      unfold matches_app_id in cc (accepted, chomp-newline app_id, chomp-no_newline app_id n) in
    rw (again, named) refl
