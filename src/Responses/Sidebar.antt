-- ===== src/Responses/Sidebar.antt =====
-- `filterSidebarBootstrap` of plugin/guest-gateway/responses.ts.
use bb_shared.Base.{
  ◌⊎◌, ◌≡◌, refl, List, true, false, Option, none, some, Text, codes, same, inl, inr, arith,
  Bool-cases,
}
use bb_shared.Base.Json.{
  Json, arr, nil, field, end, null, str, obj, Items, Fields, property, get_field,
}
use bb_shared.Frames.{GuestScope, in_set}
use bb_shared.Responses.{
  as_items, filter_items, has_id_in, scoped_threads, sections_in, filter_project_detail,
  sidebar_project, sidebar_projects, all_section_ids, personal_project, filter_sidebar_bootstrap,
  is_foreign, empty_personal_project_stub, sidebar,
}
use bb_shared.Responses.Lists.{
  all_items, all_items-filter_items, all_items-map_items, InItems, InItems-filter_items,
  InItems-map_items,
}
use bb_shared.Responses.Projects.{
  is_scoped_project, project_detail-id, project_detail-scoped, sidebar_project-scoped,
  sidebar_project-id, sidebar_project-threads,
}

-- The projects of a sidebar.
abbrev pub projects_of : Json → Items
projects_of v = as_items (property (codes "projects") v)

-- The empty project that a guest gets, or one in scope with threads in scope only.
abbrev IsPersonal : GuestScope → Json → Type 0
IsPersonal scope v = (v ≡ empty_personal_project_stub) ⊎ (is_scoped_project scope v ≡ true)

-- A sidebar with nothing but what is in scope: its sections, its projects and its personal project.
pub record IsScopedSidebar (scope : GuestScope) (v : Json) : Type 0 where
  pub sections : Items
  pub projects : Items
  pub personal : Json
  pub shape :
      v
      ≡ obj (
          field (codes "sections") (arr sections) (
            field (codes "projects") (arr projects) (field (codes "personalProject") personal end)))
  pub own_projects : all_items (is_scoped_project scope) projects ≡ true
  pub own_sections : all_items (has_id_in (all_section_ids projects)) sections ≡ true
  pub own_personal : IsPersonal scope personal

in_set-own : (v : Option Json) (ids : List Text) → in_set v ids ≡ true → is_foreign v ids ≡ false
in_set-own (some (str id)) ids h = ground arith
in_set-own none ids h = cc
in_set-own (some _) ids h = cc

own_project-scoped :
    (fs : Fields) (scope : GuestScope)
    → in_set (get_field (codes "id") fs) scope.project_ids ≡ true
    → is_scoped_project scope (filter_project_detail (obj fs) scope) ≡ true
unfolding filter_project_detail
own_project-scoped fs scope h = rw (
  in_set-own (get_field (codes "id") fs) scope.project_ids h,
  project_detail-id fs scope,
  project_detail-scoped fs scope,
  h,
)

personal_project-IsPersonal :
    (v : Option Json) (scope : GuestScope) → IsPersonal scope (personal_project v scope)
personal_project-IsPersonal (some (obj fs)) scope =
    elim (Bool-cases (in_set (get_field (codes "id") fs) scope.project_ids)) [
      | inl own ↦ rw own (inr (own_project-scoped fs scope own))
      | inr foreign ↦ rw foreign (inl refl)
    ]
personal_project-IsPersonal none scope = inl refl
personal_project-IsPersonal (some null) scope = inl refl
personal_project-IsPersonal (some _) scope = inl refl

sidebar_projects-scoped :
    (projects : Option Json) (scope : GuestScope)
    → all_items (is_scoped_project scope) (sidebar_projects projects scope) ≡ true
unfolding sidebar_projects
sidebar_projects-scoped projects scope =
    all_items-map_items (has_id_in scope.project_ids) (is_scoped_project scope)
      (sidebar_project scope) (filter_items (has_id_in scope.project_ids) (as_items projects))
      (sidebar_project-scoped scope)
      (all_items-filter_items (has_id_in scope.project_ids) (as_items projects))

blank_sidebar :
    (scope : GuestScope) → IsScopedSidebar scope (sidebar nil nil empty_personal_project_stub)
blank_sidebar scope = record {
  sections = nil;
  projects = nil;
  personal = empty_personal_project_stub;
  shape = refl;
  own_projects = refl;
  own_sections = refl;
  own_personal = inl refl;
}

-- Whatever BB answers, the sidebar of a guest is scoped.
pub filter_sidebar_bootstrap-IsScopedSidebar :
    (v : Json) (scope : GuestScope) → IsScopedSidebar scope (filter_sidebar_bootstrap v scope)
unfolding filter_sidebar_bootstrap sections_in
filter_sidebar_bootstrap-IsScopedSidebar (obj fs) scope =
    let shown = sidebar_projects (get_field (codes "projects") fs) scope in
    record {
      sections = sections_in (all_section_ids shown) (get_field (codes "sections") fs);
      projects = shown;
      personal = personal_project (get_field (codes "personalProject") fs) scope;
      shape = refl;
      own_projects = sidebar_projects-scoped (get_field (codes "projects") fs) scope;
      own_sections =
          all_items-filter_items (has_id_in (all_section_ids shown))
            (as_items (get_field (codes "sections") fs));
      own_personal = personal_project-IsPersonal (get_field (codes "personalProject") fs) scope;
    }
filter_sidebar_bootstrap-IsScopedSidebar null scope = blank_sidebar scope
filter_sidebar_bootstrap-IsScopedSidebar _ scope = blank_sidebar scope

-- A thread in scope of a project in scope is listed as it is, under a project of the same id.
pub filter_sidebar_bootstrap_complete :
    (fs : Fields) (scope : GuestScope) (project thread : Json)
    → InItems project (as_items (get_field (codes "projects") fs))
    → has_id_in scope.project_ids project ≡ true
    → InItems thread (as_items (property (codes "threads") project))
    → has_id_in scope.thread_ids thread ≡ true
    → (shown : Json) × InItems shown (projects_of (filter_sidebar_bootstrap (obj fs) scope))
      × (property (codes "id") shown ≡ property (codes "id") project)
      × InItems thread (as_items (property (codes "threads") shown))
unfolding filter_sidebar_bootstrap same get_field sidebar_projects scoped_threads
filter_sidebar_bootstrap_complete fs scope project thread listed own inside shared = (
  sidebar_project scope project,
  InItems-map_items (sidebar_project scope) project
      (filter_items (has_id_in scope.project_ids) (as_items (get_field (codes "projects") fs)))
      (InItems-filter_items (has_id_in scope.project_ids) project
        (as_items (get_field (codes "projects") fs)) own listed),
  sidebar_project-id scope project,
  rw (sidebar_project-threads scope project own) (
      InItems-filter_items (has_id_in scope.thread_ids) thread
        (as_items (property (codes "threads") project)) shared inside),
)
