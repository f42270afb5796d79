-- ===== src/Tests/Tunnels.antt =====
-- The relay.
use bb_shared.Base.{
  ℕ, ◌==◌, ◌≡◌, ◌≢◌, ◌↔◌, refl, List, [], ◌∷◌, ◌++◌, true, false, All, none, some, nat_eq, codes,
  same, lookup, insert, erase, has, starts_with, trim, drop_end, split, arith,
}
use bb_shared.Base.{◌||◌, not, ◌==◌}
use bb_shared.Relay.{
  Bytes, body_chunk, body_end, Socket, plain, upgraded, Relay, wake, max_seen, active_tunnel_socket,
  bearer_from, timing_safe_equal, diff_loop, fail_http_stream, fail_all, abandon_streams,
  forwardable_headers,
}
use bb_shared.Relay.Handlers.{
  Request, is_websocket, accept_tunnel, take_over, proxy_guest_request, proxy_http,
  open_visitor_web_socket, on_timeout, on_resp_head, on_body_end, on_tunnel_frame, waiting,
  times_out, tunnel_sends, step, steps,
}
use bb_shared.Relay.Body.{
  slices, body_frames, send_while, pump_request_body, IsSendable, carried, concat,
  pump_request_body-IsSendable, pump_request_body-ends,
}
use bb_shared.Relay.Answers.{served}
use bb_shared.Relay.Timeouts.{stop, next, proxy_guest_request-on_timeout}
use bb_shared.Relay.Stranded.{body_end-stranded}
use bb_shared.Relay.Streams.{unused, next_stream_id-fresh}
use bb_shared.Relay.Credential.{timing_safe_equal_iff}
use bb_shared.Relay.Dialing.{accept_tunnel_iff, accept_tunnel-clears, new_tunnel}

-- Every function that a run of the relay calls.
relay_run : Unit {0}
unfolding lookup insert erase same starts_with trim drop_end split wake max_seen
    active_tunnel_socket bearer_from timing_safe_equal diff_loop fail_http_stream fail_all
    abandon_streams forwardable_headers accept_tunnel take_over proxy_guest_request proxy_http
    open_visitor_web_socket on_timeout on_resp_head on_body_end on_tunnel_frame step steps
relay_run = tt

abbrev dial : Request
dial = record {
  method = codes "GET";
  path = codes "/__tunnel?v=2";
  headers = [];
  has_body = false;
  upgrade = some (codes "WebSocket");
  authorization = some (codes "Bearer key");
  protocols = none;
  version = some (codes "2");
}

abbrev page : Request
page = record dial { path = codes "/threads/thr_a"; upgrade = none }

-- A tunnel and a visitor's socket that survived.
abbrev survivors : List Socket
survivors = new_tunnel 7 ∷ (record { handle = 8; stream = some 4; is_open = true }) ∷ []

abbrev before : Relay
before = wake survivors

abbrev begun : Relay
begun = (proxy_guest_request page 9 true before).0

-- The relay after the new dial.
abbrev redialled : Relay
redialled = (accept_tunnel (codes "2") (some (codes "key")) dial 10 begun).0

dial_tests :
    (begun.next_stream_id ≡ 6)
    × (lookup 5 begun.pending ≡ some waiting)
    × ((accept_tunnel (codes "2") (some []) dial 10 begun).1
        ≡ plain 401 (codes "bb-shared tunnel: invalid credential\n") false)
    × ((accept_tunnel (codes "3") (some (codes "key")) dial 10 begun).1
        ≡ plain 426 (codes "bb-shared tunnel: unsupported relay protocol; expected v=3\n") false)
    × (lookup 5 redialled.answers
        ≡ some (plain 502 (codes "bb-shared: tunnel reconnected mid-request\n") false))
unfolding relay_run
dial_tests = (refl, refl, refl, refl, refl)

timing_safe_equal_iff_case :
    (timing_safe_equal (codes "key") (codes "kez") ≡ true)
    ↔ ((codes "key" ≢ []) × (codes "key" ≡ codes "kez"))
timing_safe_equal_iff_case = timing_safe_equal_iff (codes "key") (codes "kez")

accept_tunnel_iff_example :
    ((accept_tunnel (codes "2") (some (codes "key")) dial 10 begun).1 ≡ upgraded 10 none) ↔ (
      (is_websocket dial.upgrade ≡ true)
      × (bearer_from dial.authorization ≢ none)
      × (some (codes "key") ≡ bearer_from dial.authorization)
      × (dial.version ≡ some (codes "2")))
accept_tunnel_iff_example = accept_tunnel_iff (codes "2") (some (codes "key")) dial 10 begun

accept_tunnel-clears_example :
    ((k : ℕ) → lookup k redialled.pending ≡ none)
    × ((k : ℕ) → (not (served k begun) || has k redialled.answers) ≡ true)
    × (active_tunnel_socket redialled.sockets ≡ some (new_tunnel 10))
    × ((earlier : List Socket) × (redialled.sockets ≡ earlier ++ new_tunnel 10 ∷ [])
        × All (λ (s : Socket). s.is_open ≡ false) earlier)
unfolding relay_run
accept_tunnel-clears_example =
    accept_tunnel-clears (codes "2") (some (codes "key")) dial 10 begun redialled refl

proxy_guest_request-on_timeout_example :
    has 5 (on_timeout 5 (step (times_out 3) begun)).answers ≡ true
unfolding relay_run
proxy_guest_request-on_timeout_example =
    proxy_guest_request-on_timeout page 9 true before (step (times_out 3) begun) refl
      (next (times_out 3) refl stop)

body_end-stranded_example :
    has 5 (steps (times_out 5 ∷ []) (step (tunnel_sends (body_end 5) true) begun)).answers ≡ false
unfolding relay_run
body_end-stranded_example =
    body_end-stranded 5 true begun (times_out 5 ∷ []) (omega arith) refl refl

next_stream_id-fresh_example :
    unused
      (steps (times_out 3 ∷ []) (wake survivors)).next_stream_id
      (steps (times_out 3 ∷ []) (wake survivors))
    ≡ true
next_stream_id-fresh_example = next_stream_id-fresh survivors (times_out 3 ∷ [])

-- Two chunks of a body, the first above the limit of two bytes.
abbrev chunks : List Bytes
chunks = (1 ∷ 2 ∷ 3 ∷ []) ∷ (4 ∷ []) ∷ []

pump_test :
    (pump_request_body 2 (λ i. true) 5 chunks false
      ≡ body_chunk 5 (1 ∷ 2 ∷ []) ∷ body_chunk 5 (3 ∷ []) ∷ body_chunk 5 (4 ∷ []) ∷ body_end 5 ∷ [])
    × (pump_request_body 2 (λ i. i == 0) 5 chunks false ≡ body_chunk 5 (1 ∷ 2 ∷ []) ∷ [])
unfolding slices body_frames send_while pump_request_body
pump_test = (refl, refl)

pump_request_body-IsSendable_case :
    All (IsSendable 2) (pump_request_body 2 (λ i. i == 0) 5 chunks false)
pump_request_body-IsSendable_case =
    pump_request_body-IsSendable 2 (λ i. i == 0) 5 chunks false (omega arith)

pump_request_body-ends_example :
    (false ≡ false) × (carried (pump_request_body 2 (λ i. true) 5 chunks false) ≡ concat chunks)
unfolding slices body_frames send_while pump_request_body
pump_request_body-ends_example =
    pump_request_body-ends 2 (λ i. true) 5 chunks false (omega arith) refl
