-- ===== src/Core/Roles/Examples.antt =====
-- Runs and instances for packages/dist-core/src/dist_core/roles.py.
use dev_tools_distribution_p.Base.{
  ◌≡◌, refl, false, ◌++◌, ok, err, contains, list_eq, nat_eq, all, value_error,
}
use dev_tools_distribution_p.Base.Text.{text, slash, contains_char, chomp, is_lower_alnum}
use dev_tools_distribution_p.Core.Roles.{
  app_role_name, app_role_prefix, top_level_roles, matches_app_id,
}
use dev_tools_distribution_p.Core.Roles.Names.{app_role_name_lem}

demo_accepted : app_role_name (text "demo") ≡ ok (text "app-demo")
unfolding app_role_name matches_app_id all chomp is_lower_alnum
demo_accepted = refl

short_refused : app_role_name (text "d") ≡ err value_error
unfolding app_role_name matches_app_id all chomp is_lower_alnum
short_refused = refl

app_role_name_lem_example :
    (text "app-demo" ≡ app_role_prefix ++ text "demo")
    × (contains_char slash (text "app-demo") ≡ false)
    × (contains (text "app-demo") top_level_roles ≡ false)
    × (app_role_name (text "other") ≡ ok (text "app-demo") → text "other" ≡ text "demo")
app_role_name_lem_example = app_role_name_lem (text "demo") (text "other") demo_accepted
