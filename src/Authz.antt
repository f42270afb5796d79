-- ===== src/Authz.antt =====
-- plugin/authz/authz.ts: what a guest's request may do. Every method and path goes through
-- `compute_authz`; a denial carries the reason that the source gives.
pub mod Path
pub mod Scope
pub mod Decision
use bb_shared.Base.{
  Bool, true, false, ◌&&◌, not, List, [], ◌∷◌, ◌++◌, map, Option, none, some, Text, codes, same,
  is_one_of, to_upper_case, trim, find?, if◌then◌else◌,
}
use bb_shared.TokenStore.{
  Perm, read, write, Share, Token, Tokens, has_thread, find_by_raw_token, or_else,
}
use Path.{PathClass, non_thread, thread, project, invalid, classify_path}

pub record AuthzPerm : Type 0 where
  pub thread_id : Text
  pub mode : Perm

pub record AuthzResult : Type 0 where
  pub allowed : Bool
  pub thread_scope : List Text
  pub project_scope : List Text
  pub perms : List AuthzPerm
  pub reason : Option Text

abbrev mutating_methods : List Text
mutating_methods = codes "POST" ∷ codes "PUT" ∷ codes "PATCH" ∷ codes "DELETE" ∷ []

unfoldable pub is_mutating_method : Text → Bool
is_mutating_method method = is_one_of (to_upper_case method) mutating_methods

unfoldable pub is_supported_method : Text → Bool
is_supported_method method =
    is_one_of (to_upper_case method) (
      codes "GET" ∷ codes "HEAD" ∷ codes "POST" ∷ codes "PUT" ∷ codes "PATCH" ∷ codes "DELETE" ∷ [])

-- `[...new Set(ids)]`: each id once, where it came first.
pub add_id : List Text → Text → List Text
add_id seen id = if is_one_of id seen then seen else seen ++ id ∷ []

unfoldable pub dedupe : List Text → List Text → List Text
unfolding add_id
dedupe seen [] = seen
dedupe seen (id ∷ ids) = dedupe (add_id seen id) ids

abbrev pub thread_scope : Token → List Text
thread_scope t = map (λ (s : Share). s.thread_id) t.shares

unfoldable pub project_scope : Token → List Text
unfolding dedupe
project_scope t = dedupe [] (map (λ (s : Share). s.project_id) t.shares)

abbrev perms_of : Token → List AuthzPerm
perms_of t = map (λ (s : Share). record { thread_id = s.thread_id; mode = s.perm }) t.shares

abbrev pub result_of : Token → Bool → Option Text → AuthzResult
result_of t allowed reason = record {
  allowed = allowed;
  thread_scope = thread_scope t;
  project_scope = project_scope t;
  perms = perms_of t;
  reason = reason;
}

abbrev allow : Token → AuthzResult
allow t = result_of t true none

abbrev deny : Token → Text → AuthzResult
deny t reason = result_of t false (some reason)

abbrev deny_all : Text → AuthzResult
deny_all reason = record {
  allowed = false;
  thread_scope = [];
  project_scope = [];
  perms = [];
  reason = some reason;
}

abbrev pub read_endpoints : List Text
read_endpoints =
    []
    ∷ codes "/timeline"
    ∷ codes "/timeline/turn-summary-details"
    ∷ codes "/conversation-outline"
    ∷ codes "/events"
    ∷ codes "/events/wait"
    ∷ codes "/output"
    ∷ codes "/default-execution-options"
    ∷ codes "/interactions"
    ∷ codes "/queued-messages"
    ∷ codes "/prompt-history"
    ∷ codes "/tabs"
    ∷ []

unfoldable pub is_read_endpoint : Text → Bool
is_read_endpoint rest = is_one_of rest read_endpoints

unfoldable pub is_send : Text → Text → Bool
is_send method rest = same (to_upper_case method) (codes "POST") && same rest (codes "/send")

abbrev pub is_write : Perm → Bool
is_write write = true
is_write read = false

abbrev refuse_method : Token → Text → Text → AuthzResult
refuse_method t method path = deny t (codes "guest may not " ++ (method ++ (codes " " ++ path)))

pub authz_thread : Token → Text → Text → Text → AuthzResult
authz_thread t method thread_id rest = elim (find? (has_thread thread_id) t.shares) [
  | none ↦ deny t (codes "thread " ++ (thread_id ++ codes " not in token scope"))
  | some share ↦
      if not (is_mutating_method method) && not (is_read_endpoint rest)
      then deny t (codes "thread endpoint not available to guests")
      else if not (is_mutating_method method)
      then allow t
      else if not (is_send method rest)
      then deny t (codes "guest may only POST /threads/" ++ (thread_id ++ codes "/send"))
      else if not (is_write share.perm)
      then deny t (codes "write permission required on thread " ++ thread_id)
      else allow t
]

pub authz_class : Token → Text → Text → PathClass → AuthzResult
unfolding authz_thread
authz_class t path method invalid =
    deny t (codes "unrecognized path: " ++ (if same path [] then codes "(empty)" else path))
authz_class t path method non_thread =
    if is_mutating_method method then refuse_method t method path else allow t
authz_class t path method (project id) =
    if is_mutating_method method
    then refuse_method t method path
    else if not (is_one_of id (project_scope t))
    then deny t (codes "project " ++ (id ++ codes " not in token scope"))
    else allow t
authz_class t path method (thread id rest) = authz_thread t method id rest

unfoldable pub compute_authz : Option Token → Text → Text → AuthzResult
unfolding authz_class
compute_authz none path method = deny_all (codes "unknown token")
compute_authz (some t) path method =
    if not (is_supported_method method)
    then deny t (codes "unsupported method")
    else authz_class t path method (classify_path path)

pub record AuthzParams : Type 0 where
  pub token : Option Text
  pub path : Option Text
  pub method : Option Text

-- `params.token?.trim()`, and the test for an empty string.
abbrev pub bearer_of : Option Text → Text
bearer_of none = []
bearer_of (some token) = trim token

unfoldable pub authorize : (Text → Text) → Tokens → AuthzParams → AuthzResult
authorize hash_token tokens params =
    if same (bearer_of params.token) []
    then deny_all (codes "missing token")
    else compute_authz (find_by_raw_token hash_token tokens (bearer_of params.token))
        (or_else params.path []) (or_else params.method (codes "GET"))
