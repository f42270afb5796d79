-- ===== src/Responses/Projects.antt =====
-- What a guest reads of projects: `filterProjectDetail` and `filterSidebarBootstrap` of
-- plugin/guest-gateway/responses.ts.
use bb_shared.Base.{
  ◌≡◌, refl, ap, List, [], ◌∷◌, Bool, true, false, ◌&&◌, Option, none, some, Text, codes, same,
  is_one_of, is_one_of-All, inl, inr, arith, Bool-cases, if◌then◌else◌,
}
use bb_shared.Base.Json.{Json, null, arr, obj, Fields, field, end, property, get_field}
use bb_shared.Frames.{GuestScope}
use bb_shared.Responses.{
  as_items, filter_items, has_id_in, metadata_keys, project_metadata, scoped_threads, section_ids,
  sections_in, section_fields, is_foreign, project_detail_fields, filter_project_detail,
  sidebar_project,
}
use bb_shared.Responses.Lists.{all_items, all_items-filter_items}
use bb_shared.Responses.Config.{get_field-kept_fields, first_some}

-- All threads of the project are in scope.
abbrev pub has_scoped_threads : GuestScope → Json → Bool
has_scoped_threads scope v =
    all_items (has_id_in scope.thread_ids) (as_items (property (codes "threads") v))

-- And the project is, too.
abbrev pub is_scoped_project : GuestScope → Json → Bool
is_scoped_project scope v = has_id_in scope.project_ids v && has_scoped_threads scope v

-- The sections of the object are those of its threads.
abbrev pub has_own_sections : Json → Bool
has_own_sections v =
    all_items (has_id_in (section_ids (as_items (property (codes "threads") v))))
      (as_items (property (codes "sections") v))

-- The keys of a project's detail that are made anew.
abbrev pub made_keys : List Text
made_keys =
    codes "sources" ∷ codes "defaultExecutionOptions" ∷ codes "threads" ∷ codes "sections" ∷ []

metadata-not_made :
    (key : Text) → is_one_of key metadata_keys ≡ true → is_one_of key made_keys ≡ false
unfolding same
metadata-not_made key h =
    is_one_of-All (λ k. is_one_of k made_keys ≡ false) key metadata_keys
      (refl, (refl, (refl, (refl, (refl, (refl, tt)))))) h

-- A field of a project's metadata, before the fields `rest`.
get_field-project_metadata :
    (key : Text) (fs rest : Fields)
    → same (codes "sources") key ≡ false
    → same (codes "defaultExecutionOptions") key ≡ false
    → get_field key (project_metadata fs rest) ≡ (
        if is_one_of key metadata_keys
        then first_some (get_field key fs) (get_field key rest)
        else get_field key rest)
unfolding get_field
get_field-project_metadata key fs rest a b =
    ground (arith, a, b, get_field-kept_fields key metadata_keys fs rest)

id-project_metadata :
    (fs rest : Fields)
    → get_field (codes "id") rest ≡ none
    → get_field (codes "id") (project_metadata fs rest) ≡ get_field (codes "id") fs
unfolding same
id-project_metadata fs rest h =
    ground (arith, get_field-project_metadata (codes "id") fs rest refl refl, h)

threads-project_metadata :
    (fs rest : Fields)
    → get_field (codes "threads") (project_metadata fs rest) ≡ get_field (codes "threads") rest
unfolding same
threads-project_metadata fs rest = get_field-project_metadata (codes "threads") fs rest refl refl

sections-project_metadata :
    (fs rest : Fields)
    → get_field (codes "sections") (project_metadata fs rest) ≡ get_field (codes "sections") rest
unfolding same
sections-project_metadata fs rest = get_field-project_metadata (codes "sections") fs rest refl refl

-- A field is read through an optional value.
project_detail-threads :
    (fs : Fields) (scope : GuestScope)
    → get_field (codes "threads") (project_detail_fields fs scope)
      ≡ some (arr (scoped_threads (get_field (codes "threads") fs) scope))
unfolding same get_field
project_detail-threads fs scope =
    let threads = scoped_threads (get_field (codes "threads") fs) scope in
    threads-project_metadata fs (
      field (codes "threads") (arr threads)
        (section_fields (section_ids threads) (get_field (codes "sections") fs)))

section_fields-id :
    (ids : List Text) (sections : Option Json)
    → get_field (codes "id") (section_fields ids sections) ≡ none
unfolding same get_field
section_fields-id ids (some (arr vs)) = refl
section_fields-id ids none = refl
section_fields-id ids (some _) = refl

section_fields-sections :
    (ids : List Text) (sections : Option Json)
    → all_items
        (has_id_in ids)
        (as_items (get_field (codes "sections") (section_fields ids sections)))
      ≡ true
unfolding same get_field sections_in
section_fields-sections ids (some (arr vs)) = all_items-filter_items (has_id_in ids) vs
section_fields-sections ids none = refl
section_fields-sections ids (some _) = refl

pub project_detail-id :
    (fs : Fields) (scope : GuestScope)
    → get_field (codes "id") (project_detail_fields fs scope) ≡ get_field (codes "id") fs
unfolding same get_field
project_detail-id fs scope =
    let threads = scoped_threads (get_field (codes "threads") fs) scope in
    id-project_metadata fs
      (field (codes "threads") (arr threads)
        (section_fields (section_ids threads) (get_field (codes "sections") fs)))
      (section_fields-id (section_ids threads) (get_field (codes "sections") fs))

project_detail-sections :
    (fs : Fields) (scope : GuestScope)
    → get_field (codes "sections") (project_detail_fields fs scope)
      ≡ get_field (codes "sections") (
          section_fields
            (section_ids (scoped_threads (get_field (codes "threads") fs) scope))
            (get_field (codes "sections") fs))
unfolding same get_field
project_detail-sections fs scope =
    let threads = scoped_threads (get_field (codes "threads") fs) scope in
    sections-project_metadata fs (
      field (codes "threads") (arr threads)
        (section_fields (section_ids threads) (get_field (codes "sections") fs)))

scoped_threads-all_items :
    (threads : Option Json) (scope : GuestScope)
    → all_items (has_id_in scope.thread_ids) (scoped_threads threads scope) ≡ true
unfolding scoped_threads
scoped_threads-all_items threads scope =
    all_items-filter_items (has_id_in scope.thread_ids) (as_items threads)

pub project_detail-scoped :
    (fs : Fields) (scope : GuestScope)
    → has_scoped_threads scope (obj (project_detail_fields fs scope)) ≡ true
project_detail-scoped fs scope =
    rw (project_detail-threads fs scope)
      (scoped_threads-all_items (get_field (codes "threads") fs) scope)

project_detail-own :
    (fs : Fields) (scope : GuestScope)
    → has_own_sections (obj (project_detail_fields fs scope)) ≡ true
project_detail-own fs scope =
    rw (project_detail-threads fs scope, project_detail-sections fs scope)
      (section_fields-sections (section_ids (scoped_threads (get_field (codes "threads") fs) scope))
        (get_field (codes "sections") fs))

-- The detail of a project holds threads in scope only, and sections of these threads only, and its
-- id, if it is a text, is in scope.
pub filter_project_detail_scoped :
    (v : Json) (scope : GuestScope)
    → (has_scoped_threads scope (filter_project_detail v scope) ≡ true)
      × (has_own_sections (filter_project_detail v scope) ≡ true)
      × (is_foreign (property (codes "id") (filter_project_detail v scope)) scope.project_ids
          ≡ false)
unfolding filter_project_detail get_field
filter_project_detail_scoped (obj fs) scope =
    elim (Bool-cases (is_foreign (get_field (codes "id") fs) scope.project_ids)) [
      | inl foreign ↦ rw foreign (refl, refl, refl)
      | inr own ↦ rw own (
        project_detail-scoped fs scope,
        project_detail-own fs scope,
        rw (project_detail-id fs scope) own,
      )
    ]
filter_project_detail_scoped null scope = (refl, refl, refl)
filter_project_detail_scoped _ scope = (refl, refl, refl)

pub sidebar_project-scoped :
    (scope : GuestScope) (v : Json)
    → has_id_in scope.project_ids v ≡ true
    → is_scoped_project scope (sidebar_project scope v) ≡ true
unfolding sidebar_project same get_field
sidebar_project-scoped scope (obj fs) h =
    let rest =
      field (codes "threads") (arr (scoped_threads (get_field (codes "threads") fs) scope)) end in
    rw (id-project_metadata fs rest refl, threads-project_metadata fs rest, h)
      (scoped_threads-all_items (get_field (codes "threads") fs) scope)
sidebar_project-scoped scope null h = cc
sidebar_project-scoped scope _ h = cc

pub sidebar_project-id :
    (scope : GuestScope) (v : Json)
    → property (codes "id") (sidebar_project scope v) ≡ property (codes "id") v
unfolding sidebar_project same get_field
sidebar_project-id scope (obj fs) =
    id-project_metadata fs
      (field (codes "threads") (arr (scoped_threads (get_field (codes "threads") fs) scope)) end)
      refl
sidebar_project-id scope null = refl
sidebar_project-id scope _ = refl

pub sidebar_project-threads :
    (scope : GuestScope) (v : Json)
    → has_id_in scope.project_ids v ≡ true
    → as_items (property (codes "threads") (sidebar_project scope v))
      ≡ filter_items (has_id_in scope.thread_ids) (as_items (property (codes "threads") v))
unfolding sidebar_project scoped_threads same get_field
sidebar_project-threads scope (obj fs) h = ap as_items (
    threads-project_metadata fs
      (field (codes "threads") (arr (scoped_threads (get_field (codes "threads") fs) scope)) end))
sidebar_project-threads scope null h = cc
sidebar_project-threads scope _ h = cc
