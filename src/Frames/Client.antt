-- ===== src/Frames/Client.antt =====
-- Guest to BB: what `filterClientFrame` of plugin/guest-gateway/frames.ts lets through.
use bb_shared.Base.{
  ◌≡◌, ◌↔◌, refl, ap, ◌∙◌, ◌⊎◌, inl, inr, true, ◌||◌, List, Option, none, some, Text, codes, same,
  same_iff, is_one_of, arith, Bool-cases, Option-cases,
}
use bb_shared.Base.Json.{Json, str, property, as_string}
use bb_shared.Frames.{GuestScope, forward, in_set, client_kind, client_message, filter_client_frame}

pub as_string_iff : (v : Option Json) (s : Text) → (as_string v ≡ some s) ↔ (v ≡ some (str s))
as_string_iff v s = ground arith

-- The frames that a guest may send: a ping, and a subscription to a thread or a project in scope.
pub data IsAllowed (scope : GuestScope) (msg : Json) : Type 0 where
  ping : property (codes "type") msg ≡ some (str (codes "ping")) → IsAllowed scope msg
  thread_detail :
      (type id : Text) (target : Json)
      → property (codes "type") msg ≡ some (str type)
      → ((type ≡ codes "subscribe") ⊎ (type ≡ codes "unsubscribe"))
      → property (codes "target") msg ≡ some target
      → property (codes "kind") target ≡ some (str (codes "thread-detail"))
      → property (codes "threadId") target ≡ some (str id)
      → is_one_of id scope.thread_ids ≡ true
      → IsAllowed scope msg
  project_detail :
      (type id : Text) (target : Json)
      → property (codes "type") msg ≡ some (str type)
      → ((type ≡ codes "subscribe") ⊎ (type ≡ codes "unsubscribe"))
      → property (codes "target") msg ≡ some target
      → property (codes "kind") target ≡ some (str (codes "project-detail"))
      → property (codes "projectId") target ≡ some (str id)
      → is_one_of id scope.project_ids ≡ true
      → IsAllowed scope msg

pub in_set-id :
    (v : Option Json) (ids : List Text)
    → in_set v ids ≡ true
    → (id : Text) × (v ≡ some (str id)) × (is_one_of id ids ≡ true)
in_set-id none ids h = cc
in_set-id (some (str id)) ids h = (id, refl, h)
in_set-id (some _) ids h = cc

module _ (raw : Text) (scope : GuestScope) where
  client_kind_sound :
      (msg target : Json) (type kind : Text) {frame : Text}
      → property (codes "type") msg ≡ some (str type)
      → ((type ≡ codes "subscribe") ⊎ (type ≡ codes "unsubscribe"))
      → property (codes "target") msg ≡ some target
      → property (codes "kind") target ≡ some (str kind)
      → client_kind raw scope target kind ≡ forward frame
      → IsAllowed scope msg × (frame ≡ raw)
  unfolding client_kind
  client_kind_sound msg target type kind {frame} et es eg ek e =
      elim (Bool-cases (same kind (codes "thread-detail"))) [
        | inl th ↦
            elim (Bool-cases (in_set (property (codes "threadId") target) scope.thread_ids)) [
              | inl there ↦
                  let (id, ei, m) =
                    in_set-id (property (codes "threadId") target) scope.thread_ids there in
                  (
                    thread_detail type id target et es eg
                        (ek ∙ ap (λ k. some (str k)) ((same_iff kind (codes "thread-detail")).0 th))
                        ei m,
                    ground (arith, th, there),
                  )
              | inr gone ↦ absurd (ground (arith, th, gone))
            ]
        | inr nth ↦ elim (Bool-cases (same kind (codes "project-detail"))) [
          | inl pr ↦
              elim (Bool-cases (in_set (property (codes "projectId") target) scope.project_ids)) [
                | inl there ↦
                    let (id, ei, m) =
                      in_set-id (property (codes "projectId") target) scope.project_ids there in
                    (
                      project_detail type id target et es eg
                          (ek
                            ∙ ap (λ k. some (str k))
                                ((same_iff kind (codes "project-detail")).0 pr))
                          ei m,
                      ground (arith, nth, pr, there),
                    )
                | inr gone ↦ absurd (ground (arith, nth, pr, gone))
              ]
          | inr npr ↦ absurd (ground (arith, nth, npr))
        ]
      ]

  client_message_sound :
      (msg : Json) {frame : Text}
      → client_message raw scope msg ≡ forward frame
      → IsAllowed scope msg × (frame ≡ raw)
  unfolding client_message
  client_message_sound msg {frame} e =
      elim (Option-cases (as_string (property (codes "type") msg))) [
        | inl untyped ↦ absurd (ground (arith, untyped))
        | inr (type, typed) ↦
            let et = (as_string_iff (property (codes "type") msg) type).0 typed in
            elim (Bool-cases (same type (codes "ping"))) [
              | inl p ↦ (
                ping (et ∙ ap (λ k. some (str k)) ((same_iff type (codes "ping")).0 p)),
                ground (arith, typed, p),
              )
              | inr np ↦
                  elim (Bool-cases
                    (same type (codes "subscribe") || same type (codes "unsubscribe"))) [
                      | inl sub ↦
                          let es : (type ≡ codes "subscribe") ⊎ (type ≡ codes "unsubscribe") =
                            ground (
                              arith,
                              sub,
                              same_iff type (codes "subscribe"),
                              same_iff type (codes "unsubscribe"),
                            ) in
                          elim (Option-cases (property (codes "target") msg)) [
                            | inl untargeted ↦ absurd (ground (arith, typed, np, sub, untargeted))
                            | inr (target, targeted) ↦
                                elim (Option-cases (as_string (property (codes "kind") target))) [
                                  | inl unkind ↦
                                      absurd (ground (arith, typed, np, sub, targeted, unkind))
                                  | inr (kind, kinded) ↦
                                      client_kind_sound msg target type kind {frame = frame} et es
                                        targeted
                                        ((as_string_iff (property (codes "kind") target) kind).0
                                          kinded)
                                        (ground (arith, typed, np, sub, targeted, kinded))
                                ]
                          ]
                      | inr nsub ↦ absurd (ground (arith, typed, np, nsub))
                    ]
            ]
      ]

  client_message_complete :
      (msg : Json) → IsAllowed scope msg → client_message raw scope msg ≡ forward raw
  unfolding client_message same
  client_message_complete msg (ping e) = ground (arith, e)
  client_message_complete msg (thread_detail type id target et (inl es) eg ek ei m) =
      ground (arith, et, es, eg, ek, ei, m)
  client_message_complete msg (thread_detail type id target et (inr es) eg ek ei m) =
      ground (arith, et, es, eg, ek, ei, m)
  client_message_complete msg (project_detail type id target et (inl es) eg ek ei m) =
      ground (arith, et, es, eg, ek, ei, m)
  client_message_complete msg (project_detail type id target et (inr es) eg ek ei m) =
      ground (arith, et, es, eg, ek, ei, m)

-- A guest's frame is forwarded exactly when it parses to a ping or to a subscription to a thread or
-- a project in scope, and it is forwarded unchanged.
pub filter_client_frame_iff :
    (parse : Text → Option Json) (raw frame : Text) (scope : GuestScope)
    → (filter_client_frame parse raw scope ≡ forward frame)
      ↔ ((msg : Json) × (parse raw ≡ some msg) × IsAllowed scope msg × (frame ≡ raw))
unfolding filter_client_frame
filter_client_frame_iff parse raw frame scope = (
  λ e. elim (Option-cases (parse raw)) [
    | inl broken ↦ absurd (ground (arith, broken))
    | inr (msg, parsed) ↦
        let (a, b) = client_message_sound raw scope msg {frame = frame} (ground (arith, parsed)) in
        (msg, parsed, a, b)
  ],
  λ (msg, parsed, allowed, unchanged).
      ground (arith, parsed, unchanged, client_message_complete raw scope msg allowed),
)
