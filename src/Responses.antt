-- ===== src/Responses.antt =====
-- plugin/guest-gateway/responses.ts: the projections of BB's JSON responses for a guest.
-- `key in upstream` is modelled for the own properties, which all keys of the program are.
pub mod Projects
pub mod Config
pub mod Lists
pub mod Sidebar
use bb_shared.Base.{
  ℕ, Bool, true, false, ◌&&◌, ◌||◌, not, List, [], ◌∷◌, ◌++◌, Option, none, some, Text, codes, same,
  is_one_of, starts_with, split, drop_end, length, if◌then◌else◌, ◌==◌, leb,
}
use bb_shared.Base.Json.{
  Json, null, bool, num, str, arr, obj, Items, nil, cons, Fields, end, field, property, get_field,
}
use bb_shared.Frames.{GuestScope, in_set}

-- `Array.isArray(value) ? value : []`.
abbrev pub as_items : Option Json → Items
as_items (some (arr vs)) = vs
as_items _ = nil

unfoldable pub filter_items : (Json → Bool) → Items → Items
filter_items p nil = nil
filter_items p (cons v vs) = let rest = filter_items p vs in if p v then cons v rest else rest

unfoldable pub map_items : (Json → Json) → Items → Items
map_items f nil = nil
map_items f (cons v vs) = cons (f v) (map_items f vs)

-- `isRecord(value) && typeof value.id === "string" && ids.has(value.id)`.
abbrev pub has_id_in : List Text → Json → Bool
has_id_in ids (obj fs) = in_set (get_field (codes "id") fs) ids
has_id_in ids _ = false

-- The keys of the list that the object has, with their values.
unfoldable pub kept_fields : List Text → Fields → Fields → Fields
kept_fields [] fs rest = rest
kept_fields (key ∷ keys) fs rest =
    let more = kept_fields keys fs rest in
    elim (get_field key fs) [ none ↦ more | some v ↦ field key v more ]

abbrev pub config_keys : List Text
config_keys =
    codes "generalSettings"
    ∷ codes "defaultKeybindings"
    ∷ codes "experiments"
    ∷ codes "appearance"
    ∷ codes "featureFlags"
    ∷ []

abbrev pub fixed_config : Fields
fixed_config = field (codes "keybindings") (arr nil) (
    field (codes "keybindingOverrides") (arr nil) (
      field (codes "customThemes") (arr nil) (
        field (codes "pluginThemes") (arr nil) (
          field (codes "hostDaemonPort") null (
            field (codes "serverUrl") (str []) (
              field (codes "primaryHostId") null (
                field (codes "primaryHostPlatform") null (
                  field (codes "voiceTranscriptionEnabled") (bool false)
                    (field (codes "dataDir") (str []) end)))))))))

unfoldable pub filter_system_config : Json → Json
filter_system_config (obj fs) = obj (kept_fields config_keys fs fixed_config)
filter_system_config _ = obj end

abbrev pub metadata_keys : List Text
metadata_keys =
    codes "id"
    ∷ codes "kind"
    ∷ codes "name"
    ∷ codes "gitRemoteUrl"
    ∷ codes "createdAt"
    ∷ codes "updatedAt"
    ∷ []

-- `projectMetadata`, with the fields that the caller puts behind it.
abbrev pub project_metadata : Fields → Fields → Fields
project_metadata fs rest =
    field (codes "sources") (arr nil)
      (field (codes "defaultExecutionOptions") null (kept_fields metadata_keys fs rest))

unfoldable pub scoped_threads : Option Json → GuestScope → Items
scoped_threads threads scope = filter_items (has_id_in scope.thread_ids) (as_items threads)

-- The section ids of threads, in order.
abbrev section_id : Json → Option Text
section_id (obj fs) = elim (get_field (codes "sectionId") fs) [ some (str id) ↦ some id | _ ↦ none ]
section_id _ = none

unfoldable pub section_ids : Items → List Text
section_ids nil = []
section_ids (cons v vs) =
    let rest = section_ids vs in elim (section_id v) [ none ↦ rest | some id ↦ id ∷ rest ]

unfoldable pub sections_in : List Text → Option Json → Items
sections_in ids sections = filter_items (has_id_in ids) (as_items sections)

abbrev pub empty_personal_project_stub : Json
empty_personal_project_stub = obj (
    field (codes "id") (str (codes "proj_personal")) (
      field (codes "kind") (str (codes "personal")) (
        field (codes "name") (str (codes "Personal")) (
          field (codes "gitRemoteUrl") null (
            field (codes "createdAt") (num (codes "0")) (
              field (codes "updatedAt") (num (codes "0")) (
                field (codes "sources") (arr nil) (
                  field (codes "threads") (arr nil)
                    (field (codes "defaultExecutionOptions") null end)))))))))

-- `result.sections`, where there is an array.
abbrev section_fields : List Text → Option Json → Fields
section_fields ids (some (arr vs)) =
    field (codes "sections") (arr (sections_in ids (some (arr vs)))) end
section_fields ids _ = end

-- `typeof upstream.id === "string" && !scope.projectIds.has(upstream.id)`.
abbrev pub is_foreign : Option Json → List Text → Bool
is_foreign (some (str id)) ids = not (is_one_of id ids)
is_foreign _ ids = false

abbrev pub project_detail_fields : Fields → GuestScope → Fields
project_detail_fields fs scope =
    let threads = scoped_threads (get_field (codes "threads") fs) scope in
    project_metadata fs (
      field (codes "threads") (arr threads)
        (section_fields (section_ids threads) (get_field (codes "sections") fs)))

unfoldable pub filter_project_detail : Json → GuestScope → Json
filter_project_detail (obj fs) scope =
    if is_foreign (get_field (codes "id") fs) scope.project_ids
    then obj end
    else obj (project_detail_fields fs scope)
filter_project_detail _ scope = obj end

-- One project of the sidebar.
unfoldable pub sidebar_project : GuestScope → Json → Json
sidebar_project scope (obj fs) = obj (
    project_metadata fs
      (field (codes "threads") (arr (scoped_threads (get_field (codes "threads") fs) scope)) end))
sidebar_project scope v = v

unfoldable pub sidebar_projects : Option Json → GuestScope → Items
sidebar_projects projects scope =
    map_items (sidebar_project scope)
      (filter_items (has_id_in scope.project_ids) (as_items projects))

-- The section ids of the threads of projects.
unfoldable pub all_section_ids : Items → List Text
all_section_ids nil = []
all_section_ids (cons v vs) =
    section_ids (as_items (property (codes "threads") v)) ++ all_section_ids vs

abbrev pub personal_project : Option Json → GuestScope → Json
personal_project (some (obj fs)) scope =
    if in_set (get_field (codes "id") fs) scope.project_ids
    then filter_project_detail (obj fs) scope
    else empty_personal_project_stub
personal_project _ scope = empty_personal_project_stub

abbrev pub sidebar : Items → Items → Json → Json
sidebar sections projects personal = obj (
    field (codes "sections") (arr sections)
      (field (codes "projects") (arr projects) (field (codes "personalProject") personal end)))

unfoldable pub filter_sidebar_bootstrap : Json → GuestScope → Json
filter_sidebar_bootstrap (obj fs) scope =
    let projects = sidebar_projects (get_field (codes "projects") fs) scope in
    sidebar (sections_in (all_section_ids projects) (get_field (codes "sections") fs)) projects
      (personal_project (get_field (codes "personalProject") fs) scope)
filter_sidebar_bootstrap _ scope = sidebar nil nil empty_personal_project_stub

-- `FilterMatch`: the three filters that reshape, and the constants.
pub data FilterMatch : Type 0 where
  reshape : (filter : Json → GuestScope → Json) → FilterMatch
  constant : (value : Json) → FilterMatch

abbrev is_slash : ℕ → Bool
is_slash c = c == b'/'

abbrev pub trim_slashes : Text → Text
trim_slashes raw = if leb (length raw) 1 then raw else drop_end is_slash raw

-- The two regular expressions, on the segments of the path.
abbrev pub is_tabs_path : List Text → Bool
is_tabs_path (a ∷ b ∷ c ∷ d ∷ e ∷ f ∷ []) =
    same a []
    && (same b (codes "api")
        && (same c (codes "v1")
            && (same d (codes "threads") && (not (same e []) && same f (codes "tabs")))))
is_tabs_path _ = false

abbrev pub is_project_path : List Text → Bool
is_project_path (a ∷ b ∷ c ∷ d ∷ e ∷ []) =
    same a []
    && (same b (codes "api")
        && (same c (codes "v1") && (same d (codes "projects") && not (same e []))))
is_project_path _ = false

abbrev contributions : Json
contributions =
    obj (field (codes "cliCommands") (arr nil) (field (codes "mentionProviders") (arr nil) end))

abbrev no_tabs : Json
no_tabs = obj (field (codes "revision") (num (codes "0")) (field (codes "tabs") (arr nil) end))

unfoldable pub match_path : Text → Option FilterMatch
match_path path =
    if same path (codes "/api/v1/system/config")
    then some (reshape (λ v scope. filter_system_config v))
    else if same path (codes "/api/v1/sidebar-bootstrap")
    then some (reshape filter_sidebar_bootstrap)
    else if same path (codes "/api/v1/plugins/contributions")
    then some (constant contributions)
    else if same path (codes "/api/v1/plugins")
    then some (constant (obj (field (codes "plugins") (arr nil) end)))
    else if same path (codes "/api/v1/hosts")
    then some (constant (arr nil))
    else if is_tabs_path (split b'/' path)
    then some (constant no_tabs)
    else if starts_with path (codes "/api/v1/plugin-settings/")
    then some (constant (obj end))
    else if is_project_path (split b'/' path)
    then some (reshape filter_project_detail)
    else none

unfoldable pub match_response_filter : Text → Text → Option FilterMatch
unfolding match_path
match_response_filter method raw =
    if same method (codes "GET") then match_path (trim_slashes raw) else none
