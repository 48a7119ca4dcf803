-- ===== src/Core/Naming/Documents.antt =====
-- The signed documents of packages/dist-core/src/dist_core/naming.py read back as they were written,
-- and what their constructors refuse.
use dev_tools_distribution_p.Base.{
  ◌≡◌, refl, false, none, some, [], arith, Result, ok, list_beq, ◌==◌, ==_refl, not, ◌&&◌, ap, ◌∙◌,
  list_eq, nat_eq, >>=-eq-ok, require-eq-ok,
}
use dev_tools_distribution_p.Base.Text.{Str, text, contains_char}
use dev_tools_distribution_p.Base.Json.{
  Json, null, str, obj, Fields, end, field, Codec, lookup, get, truthy, ℤ,
}
use dev_tools_distribution_p.Core.Naming.{
  CurrentRelease, new_current_release, to_json, from_json, ReleaseInfo, new_release_info, to_custom,
  from_custom, check_segment, optional, release_of_document,
}

-- The document of a pointer.
abbrev pub pointer_document : Str → Str → Json
pointer_document target_path version =
    obj (field (text "target_path") (str target_path) (field (text "version") (str version) end))

-- What the round trip relies on of the `json` module: the pointer's document, written, reads back.
pub record IsCodec (c : Codec) : Type 0 where
  pub loads-dumps :
      (target_path version : Str)
      → c.loads (c.dumps (pointer_document target_path version))
        ≡ some (pointer_document target_path version)

-- A pointer that could be built reads back from its document as it was.
pub from_json-to_json :
    (c : Codec)
    → IsCodec c
    → (target_path version : Str) {r : CurrentRelease}
    → new_current_release target_path version ≡ ok r
    → (from_json c (to_json c r) ≡ ok r) × (r.target_path ≡ target_path) × (r.version ≡ version)
unfolding from_json to_json get lookup new_current_release list_beq
from_json-to_json c law target_path version {r} h =
    let (_, _, h₁) = >>=-eq-ok (check_segment version) _ h in
    let (_, e) =
      require-eq-ok (not (target_path == []) && not (contains_char b'\\' target_path)) _ _ h₁ in
    let same : r ≡ record { target_path = target_path; version = version } = cc e in
    (
      rw same (rw (law.loads-dumps target_path version, release_of_document) (h ∙ ap ok same)),
      cc same,
      cc same,
    )

lookup-optional_ne :
    (k j : Str) (v : Json) (rest : Fields)
    → (k == j) ≡ false
    → lookup (optional k v rest) j ≡ lookup rest j
unfolding optional lookup
lookup-optional_ne k j null rest h = refl
lookup-optional_ne k j v rest h = ground arith

get-optional_ne :
    (k j : Str) (v : Json) (rest : Fields)
    → (k == j) ≡ false
    → get (optional k v rest) j ≡ get rest j
unfolding get
get-optional_ne k j v rest h = ground (arith, lookup-optional_ne k j v rest h)

get-optional_self :
    (k : Str) (v : Json) (rest : Fields) → lookup rest k ≡ none → get (optional k v rest) k ≡ v
unfolding optional get lookup
get-optional_self k null rest h = ground arith
get-optional_self k v rest h = ground (arith, ==_refl k)

tail_fields : ReleaseInfo → Fields
tail_fields r =
    optional (text "notes_url") r.notes_url (
      optional (text "min_os") r.min_os (optional (text "min_from_version") r.min_from_version end))

module _ (r : ReleaseInfo) where
  get-notes_url : get (to_custom r) (text "notes_url") ≡ r.notes_url
  unfolding to_custom get lookup list_beq tail_fields
  get-notes_url = get-optional_self (text "notes_url") r.notes_url _ (
      lookup-optional_ne (text "min_os") (text "notes_url") r.min_os _ refl
      ∙ lookup-optional_ne (text "min_from_version") (text "notes_url") r.min_from_version end refl)

  get-min_os : get (to_custom r) (text "min_os") ≡ r.min_os
  unfolding to_custom get lookup list_beq
  get-min_os =
      get-optional_ne (text "notes_url") (text "min_os") r.notes_url _ refl
      ∙ get-optional_self (text "min_os") r.min_os _
          (lookup-optional_ne (text "min_from_version") (text "min_os") r.min_from_version end refl)

  get-min_from_version : get (to_custom r) (text "min_from_version") ≡ r.min_from_version
  unfolding to_custom get lookup list_beq
  get-min_from_version =
      get-optional_ne (text "notes_url") (text "min_from_version") r.notes_url _ refl
      ∙ get-optional_ne (text "min_os") (text "min_from_version") r.min_os _ refl
      ∙ get-optional_self (text "min_from_version") r.min_from_version end refl

-- Release info that could be built reads back from its custom fields as it was.
pub from_custom-to_custom :
    (int_of_text : Str → Result ℤ) (r : ReleaseInfo) {r' : ReleaseInfo}
    → new_release_info r ≡ ok r'
    → from_custom int_of_text (to_custom r) ≡ ok r
unfolding from_custom new_release_info
from_custom-to_custom int_of_text r h =
    simp (get-notes_url r, get-min_os r, get-min_from_version r)
      (unfold to_custom get lookup list_beq truthy in ground arith)
