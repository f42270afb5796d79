-- ===== src/Authz/Path.antt =====
-- plugin/authz/authz.ts: the paths that a guest may name. Regular expressions are read as the
-- functions that they compute; a path is cut at its slashes.
pub mod Laws
use bb_shared.Base.{
  ℕ, ◌+◌, ◌-◌, Bool, true, false, ◌&&◌, ◌||◌, not, List, [], ◌∷◌, ◌++◌, map, Option, none, some,
  Text, codes, same, is_one_of, starts_with, ends_with, trim, until, drop_end, split, join,
  fold_case, is_line_end, length, drop, any, all, if◌then◌else◌, ltb, leb, ◌==◌,
}

-- `rawPath` without its query or fragment, its API prefix and its trailing slashes.
strip_api : Text → Text
strip_api p =
    if same p (codes "/api/v1")
    then codes "/"
    else if starts_with p (codes "/api/v1/")
    then drop 7 p
    else p

abbrev is_slash : ℕ → Bool
is_slash c = c == b'/'

strip_slashes : Text → Text
strip_slashes p = if ltb 1 (length p) then drop_end is_slash p else p

abbrev with_slash : Text → Text
with_slash p = if starts_with p (codes "/") then p else codes "/" ++ p

cut : Text → Text
cut raw = trim (until (λ c. c == b'?' || c == b'#') raw)

unfoldable pub normalize_path : Text → Text
unfolding strip_api strip_slashes cut
normalize_path raw =
    let p = cut raw in if same p [] then [] else strip_slashes (strip_api (with_slash p))

pub data PathClass : Type 0 where
  non_thread : PathClass
  thread : (thread_id rest : Text) → PathClass
  project : (project_id : Text) → PathClass
  invalid : PathClass

abbrev pub non_thread_exact : List Text
non_thread_exact =
    codes "/system/config"
    ∷ codes "/sidebar-bootstrap"
    ∷ codes "/plugins"
    ∷ codes "/plugins/contributions"
    ∷ codes "/hosts"
    ∷ codes "/system/execution-options"
    ∷ codes "/system/version"
    ∷ codes "/ws"
    ∷ []

abbrev static_extensions : List Text
static_extensions =
    codes ".js"
    ∷ codes ".mjs"
    ∷ codes ".css"
    ∷ codes ".map"
    ∷ codes ".woff"
    ∷ codes ".woff2"
    ∷ codes ".ttf"
    ∷ codes ".otf"
    ∷ codes ".png"
    ∷ codes ".jpg"
    ∷ codes ".jpeg"
    ∷ codes ".gif"
    ∷ codes ".svg"
    ∷ codes ".ico"
    ∷ codes ".webp"
    ∷ codes ".avif"
    ∷ codes ".webmanifest"
    ∷ []

-- A name before the extension, and no slash in it.
is_root_file : Text → Bool
is_root_file name =
    not (any is_slash name)
    && any (λ e. ltb (length e) (length name) && ends_with (map fold_case name) e) static_extensions

unfoldable pub is_static_asset_path : Text → Bool
unfolding is_root_file
is_static_asset_path path =
    starts_with path (codes "/assets/")
    || (starts_with path (codes "/") && is_root_file (drop 1 path))

-- `/[%\\\x00-\x20]/`.
abbrev pub is_forbidden : ℕ → Bool
is_forbidden c = c == b'%' || c == 92 || leb c 32

abbrev pub is_dots : Text → Bool
is_dots part = same part (codes ".") || same part (codes "..")

-- The group `(\/.*)?` at the end of the path: `.` takes no line terminator.
abbrev pub rest_of : List Text → Text
rest_of [] = []
rest_of (part ∷ parts) = b'/' ∷ join b'/' (part ∷ parts)

pub thread_at : Text → List Text → Option (Text × Text)
thread_at id more =
    if not (same id []) && not (any is_line_end (rest_of more))
    then some (id, rest_of more)
    else none

-- `/^(?:\/projects\/[^/]+)?\/threads\/([^/]+)(\/.*)?$/` on the parts of the path.
pub match_thread : List Text → Option (Text × Text)
unfolding thread_at
match_thread (a ∷ b ∷ c ∷ d ∷ e ∷ more) =
    if same a [] && same b (codes "threads")
    then thread_at c (d ∷ e ∷ more)
    else if same a [] && same b (codes "projects") && not (same c []) && same d (codes "threads")
    then thread_at e more
    else none
match_thread (a ∷ b ∷ c ∷ more) =
    if same a [] && same b (codes "threads") then thread_at c more else none
match_thread _ = none

-- `/^\/projects\/([^/]+)$/`.
pub match_project : List Text → Option Text
match_project (a ∷ b ∷ c ∷ []) =
    if same a [] && same b (codes "projects") && not (same c []) then some c else none
match_project _ = none

-- `/^\/system\/providers\/[^/]+\/logo$/`.
is_provider_logo : List Text → Bool
is_provider_logo (a ∷ b ∷ c ∷ d ∷ e ∷ []) =
    same a []
    && same b (codes "system")
    && same c (codes "providers")
    && not (same d [])
    && same e (codes "logo")
is_provider_logo _ = false

-- What is neither a thread nor a project.
pub classify_other : Text → PathClass
unfolding is_provider_logo
classify_other path =
    if is_one_of path non_thread_exact
    then non_thread
    else if same path (codes "/system/providers") || is_provider_logo (split b'/' path)
    then non_thread
    else invalid

pub classify_clean : Text → PathClass
unfolding classify_other match_thread match_project
classify_clean path =
    if same path (codes "/") || is_static_asset_path path
    then non_thread
    else elim (match_thread (split b'/' path)) [
      | some (id, rest) ↦ thread id rest
      | none ↦ elim (match_project (split b'/' path)) [
        | some id ↦ project id
        | none ↦ classify_other path
      ]
    ]

-- The guard of `classifyPath`.
abbrev pub is_refused : Text → Bool
is_refused path = same path [] || any is_forbidden path || any is_dots (split b'/' path)

unfoldable pub classify_path : Text → PathClass
unfolding classify_clean
classify_path raw =
    let path = normalize_path raw in if is_refused path then invalid else classify_clean path
