-- ===== src/Tests/Sockets.antt =====
-- The frames of the guest's socket.
use bb_shared.Base.{
  ◌≡◌, ◌↔◌, refl, subst, false, Option, none, some, Text, codes, same, if◌then◌else◌, arith,
}
use bb_shared.Base.Json.{Json, str, obj, Fields, end, field, get_field, set_field, drop_field}
use bb_shared.Frames.{
  forward, drops, close, empty_scope, strip_project, leaks, filter_client_frame,
  filter_server_frame,
}
use bb_shared.Frames.Client.{IsAllowed, filter_client_frame_iff}
use bb_shared.Frames.Server.{
  IsRelevant, relayed, is_leaky, filter_server_frame_iff, filter_server_frame-not_leaky,
}
use bb_shared.Tests.Data.{scope}

-- Every function that a filter runs.
frame_run : Unit {0}
unfolding filter_client_frame filter_server_frame same get_field set_field drop_field leaks
frame_run = tt

abbrev subscribe : Json
subscribe = obj (
    field (codes "type") (str (codes "subscribe")) (
      field (codes "target")
        (obj (
          field (codes "kind") (str (codes "thread-detail"))
            (field (codes "threadId") (str (codes "thr_a")) end)))
        end))

-- A changed thread whose metadata names a project that the guest does not share.
abbrev changed : Fields → Json
changed metadata = obj (
    field (codes "type") (str (codes "changed")) (
      field (codes "entity") (str (codes "thread"))
        (field (codes "id") (str (codes "thr_a")) (field (codes "metadata") (obj metadata) end))))

abbrev leaky : Json
leaky = changed (field (codes "projectId") (str (codes "proj_9")) end)

-- A parser and a printer of three texts.
abbrev parse : Text → Option Json
parse raw =
    if same raw (codes "s")
    then some subscribe
    else if same raw (codes "l")
    then some leaky
    else if same raw (codes "c")
    then some (changed end)
    else none

abbrev stringify : Json → Text
stringify v = codes "c"

filter_tests :
    (filter_client_frame parse (codes "s") scope ≡ forward (codes "s"))
    × (filter_client_frame parse (codes "x") scope ≡ close 1008 (codes "invalid-message"))
    × (filter_server_frame parse stringify (codes "s") scope
        ≡ drops (codes "unrecognised server frame type"))
    × (filter_server_frame parse stringify (codes "l") scope ≡ forward (codes "c"))
    × (filter_server_frame parse stringify (codes "l") empty_scope
        ≡ drops (codes "thread changed out of scope"))
unfolding frame_run
filter_tests = (refl, refl, refl, refl, refl)

filter_client_frame_iff_example :
    (filter_client_frame parse (codes "s") scope ≡ forward (codes "s")) ↔ (
      (msg : Json) × (parse (codes "s") ≡ some msg) × IsAllowed scope msg × (codes "s" ≡ codes "s"))
filter_client_frame_iff_example = filter_client_frame_iff parse (codes "s") (codes "s") scope

filter_server_frame_iff_example :
    (filter_server_frame parse stringify (codes "l") scope ≡ forward (codes "c")) ↔ (
      (msg : Json) × (parse (codes "l") ≡ some msg)
      × IsRelevant scope msg
      × (codes "c" ≡ relayed stringify (codes "l") scope msg))
filter_server_frame_iff_example =
    filter_server_frame_iff parse stringify (codes "l") (codes "c") scope

-- The rewritten frame is printed as the text that parses to it.
print_leaky :
    (msg : Json)
    → parse (codes "l") ≡ some msg
    → parse (stringify (strip_project msg)) ≡ some (strip_project msg)
unfolding frame_run
print_leaky msg parsed =
    let e : leaky ≡ msg = ground arith in
    subst (λ v. parse (stringify (strip_project v)) ≡ some (strip_project v)) e refl

filter_server_frame-not_leaky_example :
    (seen : Json) × (parse (codes "c") ≡ some seen) × (is_leaky seen scope ≡ false)
unfolding frame_run
filter_server_frame-not_leaky_example =
    filter_server_frame-not_leaky parse stringify (codes "l") (codes "c") scope print_leaky refl
