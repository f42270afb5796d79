-- ===== src/Tests/Requests.antt =====
-- The gateway's handler, its bridge and the tunnel.
use bb_shared.Base.{
  All, ◌⊎◌, ◌≡◌, ◌≤◌, ◌↔◌, ◌*◌, refl, [], ◌∷◌, ◌++◌, true, none, some, Text, text_eq, Dict, codes,
  same, length, split, starts_with, drop_end, trim, until, join, to_upper_case, ends_with, arith,
}
use bb_shared.Base.Json.{
  Json, Items, null, num, str, arr, obj, nil, cons, field, end, property, get_field,
}
use bb_shared.TokenStore.{get_token, Token}
use bb_shared.Sessions.{
  Session, session_of, collect_share, collect_shares, collect_grants, resolve, cookie_id, redeem,
}
use bb_shared.Authz.{
  compute_authz, is_supported_method, is_mutating_method, is_send, is_read_endpoint, project_scope,
}
use bb_shared.Authz.Path.{classify_path, normalize_path, is_static_asset_path}
use bb_shared.Frames.{scope_of}
use bb_shared.Responses.{
  filter_items, map_items, filter_sidebar_bootstrap, sidebar_projects, sidebar_project,
  scoped_threads, section_ids, sections_in, all_section_ids, kept_fields, filter_project_detail,
  match_path, match_response_filter, sidebar, empty_personal_project_stub,
}
use bb_shared.Responses.Sidebar.{IsScopedSidebar}
use bb_shared.ShareState.{is_prefixed}
use bb_shared.Gateway.{
  version_request, Request, Runtime, World, Fetched, Upstream, request_url, picked, picked_filled,
  relay_response, handle_url, handle, ready_body, refusal,
}
use bb_shared.Gateway.Requests.{
  Url, contains, has_escape, is_valid_target, is_json_type, is_html, is_thread_page,
}
use bb_shared.Gateway.Messages.{
  Bytes, collect, message_limit, items_length, read_message, guest_message,
}
use bb_shared.Gateway.Texts.{IsRebuilt, guest_message-accepted}
use bb_shared.Gateway.Safety.{IsProbe, IsLent, handle-sent}
use bb_shared.Gateway.Answers.{handle-sidebar}
use bb_shared.Gateway.Joining.{Changes, handle-Changes}
use bb_shared.Gateway.Readiness.{ready_keys, is_proof, verify_readiness, verify_readiness-probe}
use bb_shared.Gateway.Bridge.{Moment, new_bridge, upstream_open, upstream_frame, timer, run}
use bb_shared.Gateway.Bridge.Revoked.{IsStill, run-revoked}
use bb_shared.Tests.Data.{tag, store}
use bb_shared.Tests.Store.{store_run}

-- A session id that a cookie can carry.
abbrev sid : Text
sid = codes "0123456789012345678901234567890123456789-_A"

abbrev guests : Dict Text Session
guests = (sid, record { id = sid; grants = codes "bbsh_w" ∷ []; expires = 900 }) ∷ []

-- A runtime that reads one message and one page.
abbrev message : Json
message = obj (
    field (codes "mode") (str (codes "auto")) (
      field (codes "model") (str (codes "big")) (
        field (codes "input")
          (arr (
            cons
              (obj (
                field (codes "type") (str (codes "text"))
                  (field (codes "text") (str (codes "hi")) end)))
              nil))
          end)))

abbrev runtime : Text → Runtime
runtime path = record {
  parse_url = λ raw. some (record { pathname = path; params = [] });
  print_search = λ params. [];
  locate = λ raw. none;
  from_utf8 = λ bytes. bytes;
  parse_json = λ raw. some message;
  proof = λ challenge. codes "00112233445566778899aabbccddeeff00112233445566778899aabbccddeeff";
  origin = codes "http://127.0.0.1:1";
}

-- A thread in a section.
abbrev thread : Text → Text → Json
thread id section = obj (field (codes "id") (str id) (field (codes "sectionId") (str section) end))

abbrev threads : Items
threads =
    cons (thread (codes "thr_a") (codes "s1")) (cons (thread (codes "thr_z") (codes "s2")) nil)

abbrev project : Text → Json
project id = obj (field (codes "id") (str id) (field (codes "threads") (arr threads) end))

abbrev section : Text → Json
section id = obj (field (codes "id") (str id) end)

abbrev page : Json
page = obj (
    field (codes "projects")
      (arr (cons (project (codes "proj_9")) (cons (project (codes "proj_1")) nil)))
      (field (codes "sections")
        (arr (cons (section (codes "s1")) (cons (section (codes "s2")) nil)))
        (field (codes "personalProject") (project (codes "proj_personal")) end)))

abbrev bb_answer : Fetched
bb_answer = record {
  status = 200;
  headers = (codes "content-type", codes "application/json") ∷ [];
  has_body = true;
  json = some page;
  html = none;
  chunks = [];
}

abbrev world : World
world = record {
  hash_token = tag;
  json_size = λ rows. 2;
  tokens = store;
  now = 100;
  fresh = sid;
  stored = true;
  fetch = λ u. some bb_answer;
}

abbrev request : Text → Text → Request
request method path = record {
  target = path;
  method = method;
  headers =
      (codes "cookie", codes "__Host-bb-shared-session=" ++ sid)
      ∷ (codes "content-type", codes "application/json")
      ∷ [];
  chunks = codes "x" ∷ [];
}

request_run : Unit {0}
unfolding store_run session_of collect_share collect_shares collect_grants is_supported_method
    is_mutating_method is_send is_read_endpoint project_scope classify_path normalize_path
    is_static_asset_path scope_of get_token resolve cookie_id redeem get_field same split
    starts_with drop_end trim until join to_upper_case ends_with compute_authz filter_items
    map_items filter_sidebar_bootstrap sidebar_projects sidebar_project scoped_threads section_ids
    sections_in all_section_ids kept_fields filter_project_detail match_path match_response_filter
    is_prefixed request_url picked picked_filled relay_response handle_url handle contains
    has_escape is_valid_target is_json_type is_html is_thread_page collect items_length read_message
    guest_message is_proof verify_readiness
request_run = tt

abbrev send_path : Text
send_path = codes "/api/v1/threads/thr_b/send"

-- A refused read, a message that goes on, and one that is not JSON.
handle_tests :
    ((handle
        (runtime (codes "/api/v1/threads/thr_z"))
        world
        (request (codes "GET") (codes "/x"))
        guests).answer
      ≡ refusal 403 (codes "This invitation does not permit that request"))
    × ((handle (runtime send_path) world (request (codes "POST") (codes "/x%2F")) guests).answer
        ≡ refusal 400 (codes "Invalid request target"))
unfolding request_run
handle_tests = (refl, refl)

abbrev clean_message : Json
clean_message = obj (
    field (codes "input")
      (arr (
        cons
          (obj (
            field (codes "type") (str (codes "text"))
              (field (codes "text") (str (codes "hi")) (field (codes "mentions") (arr nil) end))))
          nil))
      (field (codes "mode") (str (codes "auto")) end))

guest_message-accepted_example :
    IsRebuilt clean_message
    × ((bytes : Bytes) × (collect message_limit 0 (codes "x" ∷ []) ≡ some bytes)
        × (length bytes ≤ 1024 * 1024))
unfolding request_run
guest_message-accepted_example =
    guest_message-accepted (λ bytes. bytes) (λ raw. some message) (codes "x" ∷ []) clean_message
      refl

abbrev posted : Upstream
posted = record {
  method = codes "POST";
  pathname = send_path;
  params = [];
  headers =
      (codes "content-type", codes "application/json")
      ∷ (codes "origin", codes "http://127.0.0.1:1")
      ∷ (codes "accept-encoding", codes "identity")
      ∷ [];
  body = some clean_message;
}

handle-sent_example :
    (url : Url) × (request_url (runtime send_path) send_path ≡ some url)
    × (IsProbe (request (codes "POST") send_path) url posted
        ⊎ IsLent (runtime send_path) world (request (codes "POST") send_path) guests url posted)
unfolding request_run
handle-sent_example =
    handle-sent (runtime send_path) world (request (codes "POST") send_path) guests posted refl

-- Anyone may make the gateway ask BB for its version.
probe_test :
    (handle
      (runtime (codes "/__bb_shared/ready"))
      world
      (request (codes "GET") (codes "/__bb_shared/ready"))
      []).sent
    ≡ some version_request
unfolding request_run
probe_test = refl

abbrev sidebar_path : Text
sidebar_path = codes "/api/v1/sidebar-bootstrap"

-- What the guest gets of it: one thread of one project.
abbrev guest_page : Json
guest_page =
    sidebar (cons (section (codes "s1")) nil)
      (cons
        (obj (
          field (codes "sources") (arr nil) (
            field (codes "defaultExecutionOptions") null (
              field (codes "id") (str (codes "proj_1")) (
                field (codes "threads") (arr (cons (thread (codes "thr_a") (codes "s1")) nil))
                  end)))))
        nil)
      empty_personal_project_stub

handle-sidebar_example :
    (token : Token) × (resolve 100 store guests
        (cookie_id (some (codes "__Host-bb-shared-session=" ++ sid)))
      ≡ some token)
    × IsScopedSidebar (scope_of token) guest_page
unfolding request_run
handle-sidebar_example =
    handle-sidebar (runtime sidebar_path) world (request (codes "GET") sidebar_path) guests
      (record { pathname = sidebar_path; params = [] }) 200 guest_page refl refl refl refl

abbrev challenge : Text
challenge = codes "abc"

-- An answer without the proof.
abbrev unproved : Json
unproved = obj (
    field (codes "service") (str (codes "bb-shared-gateway"))
      (field (codes "version") (num (codes "1")) (field (codes "challenge") (str challenge) end)))

verify_readiness-probe_example :
    (verify_readiness (runtime []) challenge unproved ≡ true)
    ↔ All
        (λ key. property key unproved ≡ property key (ready_body (runtime []) world challenge))
        ready_keys
unfolding request_run
verify_readiness-probe_example =
    verify_readiness-probe (runtime []) world guests challenge bb_answer 200
      (ready_body (runtime []) world challenge) unproved refl (omega arith) refl refl refl

abbrev link_runtime : Runtime
link_runtime = record (runtime []) {
  parse_url = λ raw. some (record {
    pathname = codes "/threads/thr_b";
    params = (codes "token", codes "bbsh_" ++ sid) ∷ [];
  });
}

handle-Changes_example :
    Changes link_runtime world
      (request (codes "GET") (codes "/t"))
      guests
      (record {
        pathname = codes "/threads/thr_b";
        params = (codes "token", codes "bbsh_" ++ sid) ∷ [];
      })
      (handle link_runtime world (request (codes "GET") (codes "/t")) guests)
unfolding request_run
handle-Changes_example =
    handle-Changes link_runtime world (request (codes "GET") (codes "/t")) guests
      (record {
        pathname = codes "/threads/thr_b";
        params = (codes "token", codes "bbsh_" ++ sid) ∷ [];
      })
      refl

abbrev late : Moment
late = record { now = 1000; tokens = store; rows = guests }

abbrev early : Moment
early = record { now = 100; tokens = store; rows = guests }

-- The session lapses, and the frame that comes after it is not sent.
run-revoked_example : IsStill new_bridge (
    run
      (λ raw. none)
      (λ v. [])
      (some sid)
      ((late, timer) ∷ (early, upstream_open) ∷ (early, upstream_frame (codes "x")) ∷ [])
      new_bridge)
unfolding request_run
run-revoked_example =
    run-revoked (λ raw. none) (λ v. []) (some sid) late timer new_bridge
      ((early, upstream_open) ∷ (early, upstream_frame (codes "x")) ∷ []) refl
