-- ===== src/Admin/Forms/Submitted.antt =====
-- packages/dist-admin/src/dist_admin/forms.py, `source_edit_from_form`, over `update_source` of
-- packages/dist-registry/src/dist_registry/store.py: an edit, from the form to the stored row.
use dev_tools_distribution_p.Base.{nat_eq, list_eq}
