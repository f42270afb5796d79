-- ===== src/Tests/Projections.antt =====
-- The projections of the answers of BB.
use bb_shared.Base.{
  ◌≡◌, refl, [], true, false, none, some, Text, codes, same, split, starts_with, drop_end,
  is_one_of, if◌then◌else◌,
}
use bb_shared.Base.Json.{Json, str, arr, obj, nil, cons, Fields, field, end, property, get_field}
use bb_shared.Responses.{
  filter_items, map_items, as_items, kept_fields, filter_system_config, scoped_threads, section_ids,
  sections_in, all_section_ids, is_foreign, filter_project_detail, sidebar_project,
  sidebar_projects, filter_sidebar_bootstrap, config_keys, fixed_config, match_path,
  match_response_filter, constant,
}
use bb_shared.Responses.Lists.{InItems, here, later}
use bb_shared.Responses.Config.{filter_system_config-property}
use bb_shared.Responses.Projects.{
  has_scoped_threads, has_own_sections, filter_project_detail_scoped,
}
use bb_shared.Responses.Sidebar.{
  projects_of, IsScopedSidebar, filter_sidebar_bootstrap-IsScopedSidebar,
  filter_sidebar_bootstrap_complete,
}
use bb_shared.Tests.Data.{scope}

-- Every function that a projection runs.
projection_run : Unit {0}
unfolding get_field same split starts_with drop_end filter_items map_items kept_fields
    filter_system_config scoped_threads section_ids sections_in all_section_ids
    filter_project_detail sidebar_project sidebar_projects filter_sidebar_bootstrap match_path
    match_response_filter
projection_run = tt

abbrev thread : Text → Text → Json
thread id section = obj (field (codes "id") (str id) (field (codes "sectionId") (str section) end))

abbrev project : Text → Json
project id = obj (
    field (codes "id") (str id) (
      field (codes "path") (str (codes "/home")) (
        field (codes "threads")
          (arr (
            cons (thread (codes "thr_z") (codes "s2"))
              (cons (thread (codes "thr_a") (codes "s1")) nil)))
          end)))

abbrev upstream : Fields
upstream = field (codes "dataDir") (str (codes "/home")) (
    field (codes "projects")
      (arr (cons (project (codes "proj_9")) (cons (project (codes "proj_1")) nil))) end)

data_dir_test : property (codes "dataDir") (filter_system_config (obj upstream)) ≡ some (str [])
unfolding projection_run
data_dir_test = refl

match_tests :
    (match_response_filter (codes "GET") (codes "/api/v1/hosts//") ≡ some (constant (arr nil)))
    × (match_response_filter (codes "POST") (codes "/api/v1/hosts") ≡ none)
    × (match_response_filter (codes "GET") (codes "/api/v1/projects/") ≡ none)
unfolding projection_run
match_tests = (refl, refl, refl)

filter_system_config-property_case :
    property (codes "dataDir") (filter_system_config (obj upstream)) ≡ (
      if is_one_of (codes "dataDir") config_keys
      then get_field (codes "dataDir") upstream
      else get_field (codes "dataDir") fixed_config)
filter_system_config-property_case = filter_system_config-property (codes "dataDir") upstream

filter_project_detail_scoped_example :
    (has_scoped_threads scope (filter_project_detail (project (codes "proj_1")) scope) ≡ true)
    × (has_own_sections (filter_project_detail (project (codes "proj_1")) scope) ≡ true)
    × (is_foreign
          (property (codes "id") (filter_project_detail (project (codes "proj_1")) scope))
          scope.project_ids
        ≡ false)
filter_project_detail_scoped_example = filter_project_detail_scoped (project (codes "proj_1")) scope

sidebar_case : IsScopedSidebar scope (filter_sidebar_bootstrap (obj upstream) scope)
sidebar_case = filter_sidebar_bootstrap-IsScopedSidebar (obj upstream) scope

filter_sidebar_bootstrap_complete_case :
    (shown : Json) × InItems shown (projects_of (filter_sidebar_bootstrap (obj upstream) scope))
    × (property (codes "id") shown ≡ some (str (codes "proj_1")))
    × InItems (thread (codes "thr_a") (codes "s1")) (as_items (property (codes "threads") shown))
unfolding projection_run
filter_sidebar_bootstrap_complete_case =
    filter_sidebar_bootstrap_complete upstream scope (project (codes "proj_1"))
      (thread (codes "thr_a") (codes "s1")) (later (here refl)) refl (later (here refl)) refl
