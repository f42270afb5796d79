-- ===== src/Frames.antt =====
-- plugin/guest-gateway/frames.ts and scope.ts: the filters of the guest's realtime socket.
-- `JSON.parse` and `JSON.stringify` are arguments; `none` is a text that does not parse.
pub mod Client
pub mod Server
use bb_shared.Base.{
  ℕ, Bool, true, false, ◌&&◌, ◌||◌, not, List, [], ◌∷◌, ◌++◌, map, Option, none, some, Text, codes,
  same, is_one_of, if◌then◌else◌,
}
use bb_shared.Base.Json.{
  Json, null, bool, num, str, arr, obj, Items, Fields, property, get_field, set_field, drop_field,
  as_string, to_string,
}
use bb_shared.TokenStore.{Share, Token}

pub record GuestScope : Type 0 where
  pub thread_ids : List Text
  pub project_ids : List Text

-- `scope(token)` of plugin/guest-gateway/index.ts; a set has no order and no repetitions.
unfoldable pub scope_of : Token → GuestScope
scope_of t = record {
  thread_ids = map (λ (s : Share). s.thread_id) t.shares;
  project_ids = map (λ (s : Share). s.project_id) t.shares;
}

abbrev pub empty_scope : GuestScope
empty_scope = record { thread_ids = []; project_ids = [] }

-- What the bridge does with one frame. `filterServerFrame` never closes.
pub data FrameDecision : Type 0 where
  forward : (frame : Text) → FrameDecision
  drops : (reason : Text) → FrameDecision
  close : (code : ℕ) (reason : Text) → FrameDecision

abbrev invalid_message : FrameDecision
invalid_message = close 1008 (codes "invalid-message")

-- `typeof id === "string" && ids.has(id)`.
abbrev pub in_set : Option Json → List Text → Bool
in_set (some (str id)) ids = is_one_of id ids
in_set _ ids = false

-- `value === "text"`.
abbrev pub is_text : Text → Option Json → Bool
is_text s (some (str t)) = same t s
is_text s _ = false

-- Kinds of targets that a guest has no use for.
abbrev list_kinds : List Text
list_kinds =
    codes "thread-list"
    ∷ codes "project-list"
    ∷ codes "environment-detail"
    ∷ codes "environment-list"
    ∷ codes "host-detail"
    ∷ codes "host-list"
    ∷ codes "system"
    ∷ []

module _ (raw : Text) (scope : GuestScope) where
  pub client_kind : Json → Text → FrameDecision
  client_kind target kind =
      if same kind (codes "thread-detail")
      then (if in_set (property (codes "threadId") target) scope.thread_ids
          then forward raw
          else drops (codes "thread-detail out of scope"))
      else if same kind (codes "project-detail")
      then (if in_set (property (codes "projectId") target) scope.project_ids
          then forward raw
          else drops (codes "project-detail out of scope"))
      else if is_one_of kind list_kinds
      then drops (kind ++ codes " not allowed for guest")
      else drops (codes "unknown subscription target")

  pub client_target : Option Json → FrameDecision
  unfolding client_kind
  client_target none = invalid_message
  client_target (some target) = elim (as_string (property (codes "kind") target)) [
    | none ↦ invalid_message
    | some kind ↦ client_kind target kind
  ]

  pub client_message : Json → FrameDecision
  unfolding client_target
  client_message msg = elim (as_string (property (codes "type") msg)) [
    | none ↦ invalid_message
    | some type ↦
        if same type (codes "ping")
        then forward raw
        else if same type (codes "subscribe") || same type (codes "unsubscribe")
        then client_target (property (codes "target") msg)
        else invalid_message
  ]

unfoldable pub filter_client_frame : (Text → Option Json) → Text → GuestScope → FrameDecision
unfolding client_message
filter_client_frame parse raw scope = elim (parse raw) [
  | none ↦ invalid_message
  | some msg ↦ client_message raw scope msg
]

-- The `projectId` of the metadata, where it names a project out of scope.
unfoldable pub leaks : Option Json → GuestScope → Bool
leaks (some (obj fs)) scope = elim (as_string (get_field (codes "projectId") fs)) [
  | none ↦ false
  | some id ↦ not (is_one_of id scope.project_ids)
]
leaks _ scope = false

-- `{ ...msg, metadata: restMetadata }`.
abbrev pub strip_project : Json → Json
strip_project (obj fs) = elim (get_field (codes "metadata") fs) [
  | some (obj ms) ↦ obj (set_field (codes "metadata") (obj (drop_field (codes "projectId") ms)) fs)
  | _ ↦ obj fs
]
strip_project v = v

module _ (stringify : Json → Text) (raw : Text) (scope : GuestScope) where
  pub relay_thread_changed : Json → FrameDecision
  relay_thread_changed msg =
      if leaks (property (codes "metadata") msg) scope
      then forward (stringify (strip_project msg))
      else forward raw

  pub server_changed : Json → Option Json → FrameDecision
  unfolding relay_thread_changed
  server_changed msg entity =
      if is_text (codes "thread") entity
      then (if in_set (property (codes "id") msg) scope.thread_ids
          then relay_thread_changed msg
          else drops (codes "thread changed out of scope"))
      else if is_text (codes "project") entity
      then (if in_set (property (codes "id") msg) scope.project_ids
          then forward raw
          else drops (codes "project changed out of scope"))
      else drops (codes "changed/" ++ (to_string entity ++ codes " not allowed for guest"))

  pub server_message : Json → FrameDecision
  unfolding server_changed
  server_message msg = elim (as_string (property (codes "type") msg)) [
    | none ↦ drops (codes "server frame missing type")
    | some type ↦
        if same type (codes "pong")
        then forward raw
        else if same type (codes "changed")
        then server_changed msg (property (codes "entity") msg)
        else if is_one_of type
            (codes "thread-open" ∷ codes "thread-pane-action" ∷ codes "plugin-signal" ∷ [])
        then drops (type ++ codes " not allowed for guest")
        else drops (codes "unrecognised server frame type")
  ]

unfoldable pub filter_server_frame :
    (Text → Option Json) → (Json → Text) → Text → GuestScope → FrameDecision
unfolding server_message
filter_server_frame parse stringify raw scope = elim (parse raw) [
  | none ↦ drops (codes "unparseable server frame")
  | some msg ↦ server_message stringify raw scope msg
]
