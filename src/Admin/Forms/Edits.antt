-- ===== src/Admin/Forms/Edits.antt =====
-- packages/dist-admin/src/dist_admin/forms.py, `source_edit_from_form`, over `update_source` of
-- packages/dist-registry/src/dist_registry/store.py: an edit from the form to the table.
use dev_tools_distribution_p.Base.{
  ℕ, Bool, true, false, some, ◌==◌, nat_eq, list_eq, list_beq, all, contains, ◌≡◌, refl, sym, ap,
  ◌∙◌, arith, ==_iff,
}
use dev_tools_distribution_p.Base.Json.{Json, str, num, bool, Fields, end, field, pos}
use dev_tools_distribution_p.Base.Text.{Str, text}
use dev_tools_distribution_p.Core.Naming.{channels}
use dev_tools_distribution_p.Registry.Models.{Source, status_eq}
use dev_tools_distribution_p.Registry.Schema.{row_ok, has_pins}
use dev_tools_distribution_p.Registry.Sources.{
  updatable_columns, names, assign, assign_all, fits, all_fit, is_empty,
}
use dev_tools_distribution_p.Admin.Forms.Sources.{changed, same, differences}

-- The registry can take the fields: it knows the columns, and the values are of their types.
pub record Storable (fields : Fields) : Type 0 where
  pub known : all (λ name. contains name updatable_columns) (names fields) ≡ true
  pub typed : all_fit fields ≡ true

changed-Storable :
    (b : Bool) (name : Str) (v : Json) (rest : Fields)
    → contains name updatable_columns ≡ true
    → fits name v ≡ true
    → Storable rest
    → Storable (changed b name v rest)
unfolding changed names all all_fit
changed-Storable true name v rest h k r = r
changed-Storable false name v rest h k r = record {
  known = ground (arith, h, r.known);
  typed = ground (arith, k, r.typed);
}

pub differences-Storable : (old new : Source) → Storable (differences old new)
unfolding differences contains list_beq fits names all all_fit
differences-Storable old new =
    let arch =
      changed-Storable (old.arch == new.arch) (text "arch") (str new.arch) end refl refl
        (record { known = refl; typed = refl }) in
    let platform =
      changed-Storable (old.platform == new.platform) (text "platform") (str new.platform) _ refl
        refl arch in
    let channel =
      changed-Storable (old.channel == new.channel) (text "channel") (str new.channel) _ refl refl
        platform in
    let critical =
      changed-Storable (same old.critical new.critical) (text "critical") (bool new.critical) _ refl
        refl channel in
    let max_asset_bytes =
      changed-Storable (old.max_asset_bytes == new.max_asset_bytes) (text "max_asset_bytes")
        (num (pos new.max_asset_bytes)) _ refl refl critical in
    let require_tag_ref_prefix =
      changed-Storable (old.require_tag_ref_prefix == new.require_tag_ref_prefix)
        (text "require_tag_ref_prefix") (str new.require_tag_ref_prefix) _ refl refl
        max_asset_bytes in
    let tag_prefix =
      changed-Storable (old.tag_prefix == new.tag_prefix) (text "tag_prefix") (str new.tag_prefix) _
        refl refl require_tag_ref_prefix in
    changed-Storable (old.asset_name == new.asset_name) (text "asset_name") (str new.asset_name) _
      refl refl tag_prefix

assign_all-changed :
    (b : Bool) (name : Str) (v : Json) (rest : Fields) (s : Source)
    → (b ≡ true → assign name v s ≡ s)
    → assign_all (changed b name v rest) s ≡ assign_all rest (assign name v s)
unfolding changed assign_all
assign_all-changed true name v rest s h = ap (assign_all rest) (sym (h refl))
assign_all-changed false name v rest s h = refl

same-eq : (a b : Bool) → same a b ≡ true → b ≡ a
unfolding same
same-eq true true h = refl
same-eq true false h = cc
same-eq false true h = cc
same-eq false false h = refl

-- The row with the columns that an edit may change taken from another
abbrev pub with_edits : Source → Source → Source
with_edits old new = record old {
  asset_name = new.asset_name;
  tag_prefix = new.tag_prefix;
  require_tag_ref_prefix = new.require_tag_ref_prefix;
  max_asset_bytes = new.max_asset_bytes;
  critical = new.critical;
  channel = new.channel;
  platform = new.platform;
  arch = new.arch;
}

pub assign_all-differences :
    (old new : Source) → assign_all (differences old new) old ≡ with_edits old new
unfolding differences assign list_beq assign_all
assign_all-differences old new =
    assign_all-changed (old.asset_name == new.asset_name) (text "asset_name") (str new.asset_name) _
      old
      (λ e.
        ap (λ v. record old { asset_name = v }) (sym ((==_iff old.asset_name new.asset_name).0 e)))
    ∙ assign_all-changed (old.tag_prefix == new.tag_prefix) (text "tag_prefix") (str new.tag_prefix)
        _ _
        (λ e.
          ap (λ v. record old { asset_name = new.asset_name; tag_prefix = v })
            (sym ((==_iff old.tag_prefix new.tag_prefix).0 e)))
    ∙ assign_all-changed (old.require_tag_ref_prefix == new.require_tag_ref_prefix)
        (text "require_tag_ref_prefix") (str new.require_tag_ref_prefix) _ _
        (λ e.
          ap
            (λ v. record old {
              asset_name = new.asset_name;
              tag_prefix = new.tag_prefix;
              require_tag_ref_prefix = v;
            })
            (sym ((==_iff old.require_tag_ref_prefix new.require_tag_ref_prefix).0 e)))
    ∙ assign_all-changed (old.max_asset_bytes == new.max_asset_bytes) (text "max_asset_bytes")
        (num (pos new.max_asset_bytes)) _ _
        (λ e.
          ap
            (λ v. record old {
              asset_name = new.asset_name;
              tag_prefix = new.tag_prefix;
              require_tag_ref_prefix = new.require_tag_ref_prefix;
              max_asset_bytes = v;
            })
            (sym ((==_iff old.max_asset_bytes new.max_asset_bytes).0 e)))
    ∙ assign_all-changed (same old.critical new.critical) (text "critical") (bool new.critical) _ _
        (λ e.
          ap
            (λ v. record old {
              asset_name = new.asset_name;
              tag_prefix = new.tag_prefix;
              require_tag_ref_prefix = new.require_tag_ref_prefix;
              max_asset_bytes = new.max_asset_bytes;
              critical = v;
            })
            (same-eq old.critical new.critical e))
    ∙ assign_all-changed (old.channel == new.channel) (text "channel") (str new.channel) _ _ (λ e.
      ap
        (λ v. record old {
          asset_name = new.asset_name;
          tag_prefix = new.tag_prefix;
          require_tag_ref_prefix = new.require_tag_ref_prefix;
          max_asset_bytes = new.max_asset_bytes;
          critical = new.critical;
          channel = v;
        })
        (sym ((==_iff old.channel new.channel).0 e)))
    ∙ assign_all-changed (old.platform == new.platform) (text "platform") (str new.platform) _ _
        (λ e.
          ap
            (λ v. record old {
              asset_name = new.asset_name;
              tag_prefix = new.tag_prefix;
              require_tag_ref_prefix = new.require_tag_ref_prefix;
              max_asset_bytes = new.max_asset_bytes;
              critical = new.critical;
              channel = new.channel;
              platform = v;
            })
            (sym ((==_iff old.platform new.platform).0 e)))
    ∙ assign_all-changed (old.arch == new.arch) (text "arch") (str new.arch) end _ (λ e.
      ap
        (λ v. record old {
          asset_name = new.asset_name;
          tag_prefix = new.tag_prefix;
          require_tag_ref_prefix = new.require_tag_ref_prefix;
          max_asset_bytes = new.max_asset_bytes;
          critical = new.critical;
          channel = new.channel;
          platform = new.platform;
          arch = v;
        })
        (sym ((==_iff old.arch new.arch).0 e)))

not_empty-at :
    (b : Bool) (name : Str) (v : Json) (rest : Fields)
    → b ≡ false
    → is_empty (changed b name v rest) ≡ false
unfolding is_empty changed
not_empty-at true name v rest h = cc
not_empty-at false name v rest h = refl

not_empty-below :
    (b : Bool) (name : Str) (v : Json) (rest : Fields)
    → is_empty rest ≡ false
    → is_empty (changed b name v rest) ≡ false
unfolding is_empty changed
not_empty-below true name v rest h = h
not_empty-below false name v rest h = refl

-- An edit of another channel is not empty.
pub differences-channel :
    (old new : Source)
    → (old.channel == new.channel) ≡ false
    → is_empty (differences old new) ≡ false
unfolding differences
differences-channel old new h =
    let channel =
      not_empty-at (old.channel == new.channel) (text "channel") (str new.channel)
        (changed (old.platform == new.platform) (text "platform") (str new.platform)
          (changed (old.arch == new.arch) (text "arch") (str new.arch) end))
        h in
    let critical =
      not_empty-below (same old.critical new.critical) (text "critical") (bool new.critical) _
        channel in
    let bytes =
      not_empty-below (old.max_asset_bytes == new.max_asset_bytes) (text "max_asset_bytes")
        (num (pos new.max_asset_bytes)) _ critical in
    let ref =
      not_empty-below (old.require_tag_ref_prefix == new.require_tag_ref_prefix)
        (text "require_tag_ref_prefix") (str new.require_tag_ref_prefix) _ bytes in
    let tag =
      not_empty-below (old.tag_prefix == new.tag_prefix) (text "tag_prefix") (str new.tag_prefix) _
        ref in
    not_empty-below (old.asset_name == new.asset_name) (text "asset_name") (str new.asset_name) _
      tag

assign_all-empty : (fields : Fields) (s : Source) → is_empty fields ≡ true → assign_all fields s ≡ s
unfolding assign_all is_empty
assign_all-empty end s h = refl
assign_all-empty (field name v rest) s h = cc

pub no_differences :
    (old new : Source) → is_empty (differences old new) ≡ true → with_edits old new ≡ old
no_differences old new h =
    sym (assign_all-differences old new) ∙ assign_all-empty (differences old new) old h

-- The row of the edited source, as `update_source` writes it
abbrev pub written : ℕ → Source → Source → Source
written now old new = record (with_edits old new) { updated_at = some now }

pub row_ok-with_edits :
    (now : ℕ) (old new : Source)
    → row_ok old ≡ true
    → row_ok (written now old new) ≡ contains new.channel channels
unfolding row_ok has_pins
row_ok-with_edits now old new h = ground (arith, h)
