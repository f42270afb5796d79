-- ===== src/Frames/Server.antt =====
-- BB to guest: what `filterServerFrame` of plugin/guest-gateway/frames.ts lets through.
use bb_shared.Base.{
  ◌≡◌, ◌↔◌, refl, ap, ◌∙◌, inl, inr, Bool, true, false, ◌&&◌, Option, none, some, Text, codes, same,
  same_iff, same_refl, is_one_of, arith, Bool-cases, Option-cases, if◌then◌else◌,
}
use bb_shared.Base.Json.{
  Json, str, obj, Fields, property, as_string, get_field, drop_field, get_field-set_field,
  get_field-drop_field,
}
use bb_shared.Frames.{
  GuestScope, forward, in_set, is_text, leaks, strip_project, server_changed, server_message,
  filter_server_frame,
}
use bb_shared.Frames.Client.{in_set-id, as_string_iff}

-- The frames of BB that concern the guest.
pub data IsRelevant (scope : GuestScope) (msg : Json) : Type 0 where
  pong : property (codes "type") msg ≡ some (str (codes "pong")) → IsRelevant scope msg
  thread_changed :
      (id : Text)
      → property (codes "type") msg ≡ some (str (codes "changed"))
      → property (codes "entity") msg ≡ some (str (codes "thread"))
      → property (codes "id") msg ≡ some (str id)
      → is_one_of id scope.thread_ids ≡ true
      → IsRelevant scope msg
  project_changed :
      (id : Text)
      → property (codes "type") msg ≡ some (str (codes "changed"))
      → property (codes "entity") msg ≡ some (str (codes "project"))
      → property (codes "id") msg ≡ some (str id)
      → is_one_of id scope.project_ids ≡ true
      → IsRelevant scope msg

-- A thread's message whose metadata names a project out of scope.
abbrev pub is_leaky : Json → GuestScope → Bool
is_leaky msg scope =
    is_text (codes "thread") (property (codes "entity") msg)
    && (is_text (codes "changed") (property (codes "type") msg)
        && leaks (property (codes "metadata") msg) scope)

is_text-eq : (s : Text) (v : Option Json) → is_text s v ≡ true → v ≡ some (str s)
is_text-eq s none h = cc
is_text-eq s (some (str t)) h = ap (λ u. some (str u)) ((same_iff t s).0 h)
is_text-eq s (some _) h = cc

is_text-str : (s t : Text) (v : Option Json) → v ≡ some (str t) → is_text s v ≡ same t s
is_text-str s t v e = rw e

-- The rewritten metadata names no project.
strip_metadata-leaks :
    (fs : Fields) (v : Option Json) (scope : GuestScope)
    → get_field (codes "metadata") fs ≡ v
    → leaks v scope ≡ true
    → leaks (property (codes "metadata") (strip_project (obj fs))) scope ≡ false
unfolding leaks
strip_metadata-leaks fs (some (obj ms)) scope e h = ground (
  arith,
  e,
  get_field-set_field (codes "metadata") (codes "metadata")
      (obj (drop_field (codes "projectId") ms)) fs,
  get_field-drop_field (codes "projectId") (codes "projectId") ms,
  same_refl (codes "metadata"),
  same_refl (codes "projectId"),
)
strip_metadata-leaks fs none scope e h = cc
strip_metadata-leaks fs (some _) scope e h = cc

strip_project-leaks :
    (msg : Json) (scope : GuestScope)
    → leaks (property (codes "metadata") msg) scope ≡ true
    → leaks (property (codes "metadata") (strip_project msg)) scope ≡ false
unfolding leaks
strip_project-leaks (obj fs) scope h =
    strip_metadata-leaks fs (get_field (codes "metadata") fs) scope refl h
strip_project-leaks Json.null scope h = cc
strip_project-leaks _ scope h = cc

module _ (stringify : Json → Text) (raw : Text) (scope : GuestScope) where
  abbrev pub relayed : Json → Text
  relayed msg = if is_leaky msg scope then stringify (strip_project msg) else raw

  server_changed_sound :
      (msg : Json) {frame : Text}
      → property (codes "type") msg ≡ some (str (codes "changed"))
      → server_changed stringify raw scope msg (property (codes "entity") msg) ≡ forward frame
      → IsRelevant scope msg × (frame ≡ relayed msg)
  unfolding server_changed same
  server_changed_sound msg {frame} et e =
      let entity = property (codes "entity") msg in
      elim (Bool-cases (is_text (codes "thread") entity)) [
        | inl th ↦
            let here = is_text-eq (codes "thread") entity th in
            elim (Bool-cases (in_set (property (codes "id") msg) scope.thread_ids)) [
              | inl there ↦
                  let (id, ei, m) = in_set-id (property (codes "id") msg) scope.thread_ids there in
                  (thread_changed id et here ei m, ground (arith, th, there, et))
              | inr gone ↦ absurd (ground (arith, th, gone))
            ]
        | inr nth ↦ elim (Bool-cases (is_text (codes "project") entity)) [
          | inl pr ↦
              let here = is_text-eq (codes "project") entity pr in
              elim (Bool-cases (in_set (property (codes "id") msg) scope.project_ids)) [
                | inl there ↦
                    let (id, ei, m) =
                      in_set-id (property (codes "id") msg) scope.project_ids there in
                    (project_changed id et here ei m, ground (arith, nth, pr, there, et))
                | inr gone ↦ absurd (ground (arith, nth, pr, gone))
              ]
          | inr npr ↦ absurd (ground (arith, nth, npr))
        ]
      ]

  server_message_sound :
      (msg : Json) {frame : Text}
      → server_message stringify raw scope msg ≡ forward frame
      → IsRelevant scope msg × (frame ≡ relayed msg)
  unfolding server_message same
  server_message_sound msg {frame} e =
      elim (Option-cases (as_string (property (codes "type") msg))) [
        | inl untyped ↦ absurd (ground (arith, untyped))
        | inr (type, typed) ↦
            let et = (as_string_iff (property (codes "type") msg) type).0 typed in
            elim (Bool-cases (same type (codes "pong"))) [
              | inl p ↦
                  let ep = et ∙ ap (λ k. some (str k)) ((same_iff type (codes "pong")).0 p) in
                  (pong ep, ground (arith, typed, p, ep))
              | inr np ↦ elim (Bool-cases (same type (codes "changed"))) [
                | inl c ↦
                    server_changed_sound msg {frame = frame}
                      (et ∙ ap (λ k. some (str k)) ((same_iff type (codes "changed")).0 c))
                      (ground (arith, typed, np, c))
                | inr nc ↦ absurd (ground (arith, typed, np, nc))
              ]
            ]
      ]

  server_message_complete :
      (msg : Json)
      → IsRelevant scope msg
      → server_message stringify raw scope msg ≡ forward (relayed msg)
  unfolding server_message same
  server_message_complete msg (pong e) = ground (arith, e)
  server_message_complete msg (thread_changed id et ee ei m) = ground (arith, et, ee, ei, m)
  server_message_complete msg (project_changed id et ee ei m) = ground (arith, et, ee, ei, m)

-- A frame of BB reaches the guest exactly when it is a pong, or a change of a thread or a project in
-- scope. It reaches the guest as it is, but for a thread's frame whose metadata names a project out
-- of scope: that one is printed anew without the project.
pub filter_server_frame_iff :
    (parse : Text → Option Json) (stringify : Json → Text) (raw frame : Text) (scope : GuestScope)
    → (filter_server_frame parse stringify raw scope ≡ forward frame) ↔ (
        (msg : Json) × (parse raw ≡ some msg)
        × IsRelevant scope msg
        × (frame ≡ relayed stringify raw scope msg))
unfolding filter_server_frame
filter_server_frame_iff parse stringify raw frame scope = (
  λ e. elim (Option-cases (parse raw)) [
    | inl broken ↦ absurd (ground (arith, broken))
    | inr (msg, parsed) ↦
        let (a, b) =
          server_message_sound stringify raw scope msg {frame = frame} (ground (arith, parsed)) in
        (msg, parsed, a, b)
  ],
  λ (msg, parsed, relevant, made).
      ground (arith, parsed, made, server_message_complete stringify raw scope msg relevant),
)

-- What the guest reads never names a project out of scope in the metadata of a changed thread, where
-- parsing undoes printing on the rewritten frame.
pub filter_server_frame-not_leaky :
    (parse : Text → Option Json) (stringify : Json → Text) (raw frame : Text) (scope : GuestScope)
    → ((msg : Json)
        → parse raw ≡ some msg
        → parse (stringify (strip_project msg)) ≡ some (strip_project msg))
    → filter_server_frame parse stringify raw scope ≡ forward frame
    → (seen : Json) × (parse frame ≡ some seen) × (is_leaky seen scope ≡ false)
filter_server_frame-not_leaky parse stringify raw frame scope print e =
    let (msg, parsed, relevant, made) =
      (filter_server_frame_iff parse stringify raw frame scope).0 e in
    elim (Bool-cases (is_leaky msg scope)) [
      | inl leaky ↦ (
        strip_project msg,
        ground (arith, made, leaky, print msg parsed),
        ground (arith, leaky, strip_project-leaks msg scope),
      )
      | inr clean ↦ (msg, ground (arith, made, clean, parsed), clean)
    ]
