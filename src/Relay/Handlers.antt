-- ===== src/Relay/Handlers.antt =====
-- The handlers of `TunnelDO` (worker/src/tunnel/tunnel-do.ts), and a step for every event.
use bb_shared.Base.{
  ℕ, ◌+◌, List, [], ◌∷◌, ◌++◌, Bool, true, false, ◌||◌, not, map, filter, Option, none, some, Text,
  nat_eq, codes, length, same, trim, split, lookup, insert, has, if◌then◌else◌, ◌==◌,
}
use bb_shared.TokenStore.Labels.{decimal}
use bb_shared.Relay.{
  Headers, Bytes, Frame, open_http, body_chunk, body_end, resp_head, open_ws, ws_open_ack, ws_data,
  close_stream, to_lower_case, forwardable_headers, bearer_from, timing_safe_equal, safe_close_code,
  Socket, PendingHttp, Reply, plain, bodiless, streamed, upgraded, sent, passed, wrote, ended,
  Relay, is_tunnel, active_tunnel_socket, visitor_socket, note, resolve_with, delete_pending,
  close_sockets, shut, fail_http_stream, abandon_streams,
}

-- What the code reads of a request: `path` is `url.pathname + url.search`, `version` the query's `v`.
pub record Request : Type 0 where
  pub method : Text
  pub path : Text
  pub headers : Headers
  pub has_body : Bool
  pub upgrade : Option Text
  pub authorization : Option Text
  pub protocols : Option Text
  pub version : Option Text

abbrev pub is_websocket : Option Text → Bool
is_websocket none = false
is_websocket (some s) = same (to_lower_case s) (codes "websocket")

abbrev pub or_empty : Option Text → Text
or_empty none = []
or_empty (some s) = s

abbrev is_text_of : Option Text → Text → Bool
is_text_of none t = false
is_text_of (some s) t = same s t

abbrev pub accept_socket : Socket → Relay → Relay
accept_socket s r = record r { sockets = r.sockets ++ s ∷ [] }

-- `acceptTunnel` after its guards.
unfoldable pub take_over : ℕ → Relay → Relay
take_over handle r =
    accept_socket (record { handle = handle; stream = none; is_open = true })
      (abandon_streams (codes "tunnel reconnected mid-request") (codes "tunnel reconnected")
        (close_sockets is_tunnel 1000 (codes "replaced by a new tunnel connection") r))

abbrev refuse_tunnel : ℕ → Text → Reply
refuse_tunnel status message =
    plain status (codes "bb-shared tunnel: " ++ (message ++ codes "\n")) false

unfoldable pub accept_tunnel : Text → Option Text → Request → ℕ → Relay → Relay × Reply
accept_tunnel version secret q handle r =
    if not (is_websocket q.upgrade)
    then (r, refuse_tunnel 426 (codes "expected websocket upgrade"))
    else elim (bearer_from q.authorization) [
      | none ↦ (r, refuse_tunnel 401 (codes "missing bearer"))
      | some presented ↦
          if not (timing_safe_equal (or_empty secret) presented)
          then (r, refuse_tunnel 401 (codes "invalid credential"))
          else if not (is_text_of q.version version)
          then (r, refuse_tunnel 426 (codes "unsupported relay protocol; expected v=" ++ version))
          else (take_over handle r, upgraded handle none)
    ]

abbrev pub offline_response : Reply
offline_response =
    plain 503 (codes "bb-shared: no tunnel connected (owner's bb is offline or unpaired)\n") true

-- `send`, where the argument says whether it works.
abbrev try_send : Bool → ℕ → Frame → Relay → Relay
try_send works handle frame r = if works then note (sent handle frame) r else r

abbrev is_filled : Text → Bool
is_filled s = not (length s == 0)

abbrev offered : Option Text → List Text
offered none = []
offered (some header) = filter is_filled (map trim (split b',' header))

abbrev first_of : List Text → Option Text
first_of [] = none
first_of (p ∷ ps) = some p

abbrev take_id : Relay → Relay
take_id r = record r { next_stream_id = r.next_stream_id + 1 }

unfoldable pub open_visitor_web_socket : Request → Socket → ℕ → Bool → Relay → Relay × Option Reply
open_visitor_web_socket q tunnel handle works r =
    let id = r.next_stream_id in
    let protocols = offered q.protocols in
    let frame = open_ws id q.path (forwardable_headers q.headers) protocols in
    if works
    then (
      accept_socket (record { handle = handle; stream = some id; is_open = true })
          (note (sent tunnel.handle frame) (take_id r)),
      some (upgraded handle (first_of protocols)),
    )
    else (take_id r, some offline_response)

abbrev pub waiting : PendingHttp
waiting = record { streaming = false; armed = true }

abbrev put_pending : ℕ → PendingHttp → Relay → Relay
put_pending k entry r = record r { pending = insert k entry r.pending }

-- `none` is the promise, which a later event resolves.
unfoldable pub proxy_http : Request → Socket → Bool → Relay → Relay × Option Reply
proxy_http q tunnel works r =
    let id = r.next_stream_id in
    let frame = open_http id q.method q.path (forwardable_headers q.headers) q.has_body in
    let begun = put_pending id waiting (take_id r) in
    if works
    then (note (sent tunnel.handle frame) begun, none)
    else (delete_pending id begun, some offline_response)

unfoldable pub proxy_guest_request : Request → ℕ → Bool → Relay → Relay × Option Reply
proxy_guest_request q handle works r = elim (active_tunnel_socket r.sockets) [
  | none ↦ (r, some offline_response)
  | some tunnel ↦
      if is_websocket q.upgrade
      then open_visitor_web_socket q tunnel handle works r
      else proxy_http q tunnel works r
]

-- The visitor gave up the response body: `writer.closed` rejects.
unfoldable pub cancel_http_stream : ℕ → Text → Bool → Relay → Relay
cancel_http_stream k message works r = elim (lookup k r.pending) [
  | none ↦ r
  | some entry ↦ elim (active_tunnel_socket r.sockets) [
    | none ↦ delete_pending k r
    | some tunnel ↦ try_send works tunnel.handle (close_stream k 1000 message) (delete_pending k r)
  ]
]

abbrev pub is_null_body : ℕ → Bool
is_null_body status = status == 204 || (status == 205 || status == 304)

abbrev pub unrelayable : ℕ → Reply
unrelayable status =
    plain 502
      (codes "bb-shared: unrelayable bb response (status " ++ (decimal status ++ codes ")\n")) false

-- `resp-head`; `builds` says whether `new Response` takes the status and the headers. Where it does
-- not for a status without a body, the exception leaves the entry with its timeout cleared.
unfoldable pub on_resp_head : ℕ → ℕ → Headers → Bool → Relay → Relay
on_resp_head k status headers builds r = elim (lookup k r.pending) [
  | none ↦ r
  | some entry ↦
      let kept = forwardable_headers headers in
      let disarmed = put_pending k (record entry { armed = false }) r in
      if is_null_body status
      then (if builds then resolve_with k (bodiless status kept) disarmed else disarmed)
      else if not builds
      then resolve_with k (unrelayable status) (delete_pending k disarmed)
      else resolve_with k (streamed status kept)
          (put_pending k (record { streaming = true; armed = false }) r)
]

unfoldable pub on_body_chunk : ℕ → Bytes → Relay → Relay
on_body_chunk k payload r = elim (lookup k r.pending) [
  | none ↦ r
  | some entry ↦ if entry.streaming then note (wrote k payload) r else r
]

unfoldable pub on_body_end : ℕ → Relay → Relay
on_body_end k r = elim (lookup k r.pending) [
  | none ↦ r
  | some entry ↦ if entry.streaming then note (ended k) (delete_pending k r) else delete_pending k r
]

abbrev pub with_handle : ℕ → Socket → Bool
with_handle handle s = s.handle == handle

-- `works` says whether the runtime takes the reason: where `close` throws, the socket stays open.
unfoldable pub on_close_stream : ℕ → ℕ → Text → Bool → Relay → Relay
on_close_stream k code reason works r =
    if has k r.pending
    then fail_http_stream k 502 (codes "tunnel client aborted: " ++ reason) r
    else elim (visitor_socket k r.sockets) [
      | none ↦ r
      | some visitor ↦
          if works
          then close_sockets (with_handle visitor.handle) (safe_close_code code) reason r
          else r
    ]

unfoldable pub on_ws_data : ℕ → Bool → Bytes → Bool → Relay → Relay
on_ws_data k is_binary payload works r = elim (visitor_socket k r.sockets) [
  | none ↦ r
  | some visitor ↦ if works then note (passed visitor.handle is_binary payload) r else r
]

unfoldable pub on_tunnel_frame : Frame → Bool → Relay → Relay
on_tunnel_frame (resp_head k status headers) works r = on_resp_head k status headers works r
on_tunnel_frame (body_chunk k payload) works r = on_body_chunk k payload r
on_tunnel_frame (body_end k) works r = on_body_end k r
on_tunnel_frame (close_stream k code reason) works r = on_close_stream k code reason works r
on_tunnel_frame (ws_data k is_binary payload) works r = on_ws_data k is_binary payload works r
on_tunnel_frame (ws_open_ack _ _) works r = r
on_tunnel_frame (open_http _ _ _ _ _) works r = r
on_tunnel_frame (open_ws _ _ _ _) works r = r

-- A message of the visitor of stream `k`.
unfoldable pub on_visitor_message : ℕ → ℕ → Bool → Bytes → Bool → Relay → Relay
on_visitor_message k handle is_binary payload works r =
    let hang_up = close_sockets (with_handle handle) 1011 (codes "tunnel disconnected") r in
    elim (active_tunnel_socket r.sockets) [
      | none ↦ hang_up
      | some tunnel ↦
          if works then note (sent tunnel.handle (ws_data k is_binary payload)) r else hang_up
    ]

-- `webSocketClose`, for the tunnel's sockets and for a visitor's.
unfoldable pub on_tunnel_close : Relay → Relay
on_tunnel_close r = elim (active_tunnel_socket r.sockets) [
  | some tunnel ↦ r
  | none ↦ abandon_streams (codes "tunnel disconnected mid-request") (codes "tunnel disconnected") r
]

unfoldable pub on_visitor_close : ℕ → ℕ → ℕ → Text → Bool → Relay → Relay
on_visitor_close k handle code reason works r =
    let frame = close_stream k (safe_close_code code) reason in
    close_sockets (with_handle handle) (safe_close_code code) reason
      (elim (active_tunnel_socket r.sockets) [
        | none ↦ r
        | some tunnel ↦ try_send works tunnel.handle frame r
      ])

abbrev expire : ℕ → Option PendingHttp → Relay → Relay
expire k none r = r
expire k (some entry) r =
    if entry.armed
    then fail_http_stream k 504 (codes "timed out waiting for the tunnel client") r
    else r

-- The timeout of stream `k`, where it was not cleared. Deleting an entry without `clearTimeout`
-- leaves a call that finds no entry.
unfoldable pub on_timeout : ℕ → Relay → Relay
on_timeout k r = expire k (lookup k r.pending) r

abbrev cancel_body : ℕ → Bool → Option PendingHttp → Relay → Relay
cancel_body k works none r = r
cancel_body k works (some entry) r =
    if entry.streaming
    then cancel_http_stream k (codes "visitor canceled response body") works r
    else r

unfoldable pub on_cancel : ℕ → Bool → Relay → Relay
on_cancel k works r = cancel_body k works (lookup k r.pending) r

-- What can happen. The runtime also closes and forgets sockets.
pub data Event : Type 0 where
  dials : (version : Text) (secret : Option Text) (q : Request) (handle : ℕ) → Event
  requests : (q : Request) (handle : ℕ) (works : Bool) → Event
  tunnel_sends : (frame : Frame) (works : Bool) → Event
  times_out : (k : ℕ) → Event
  cancels : (k : ℕ) (works : Bool) → Event
  visitor_sends : (k handle : ℕ) (is_binary : Bool) (payload : Bytes) (works : Bool) → Event
  tunnel_closes : Event
  visitor_closes : (k handle code : ℕ) (reason : Text) (works : Bool) → Event
  loses : (handle : ℕ) → Event
  forgets : (handle : ℕ) → Event

unfoldable pub step : Event → Relay → Relay
step (dials version secret q handle) r = (accept_tunnel version secret q handle r).0
step (requests q handle works) r = (proxy_guest_request q handle works r).0
step (tunnel_sends frame works) r = on_tunnel_frame frame works r
step (times_out k) r = on_timeout k r
step (cancels k works) r = on_cancel k works r
step (visitor_sends k handle is_binary payload works) r =
    on_visitor_message k handle is_binary payload works r
step tunnel_closes r = on_tunnel_close r
step (visitor_closes k handle code reason works) r = on_visitor_close k handle code reason works r
step (loses handle) r = record r { sockets = map (shut (with_handle handle)) r.sockets }
step (forgets handle) r = record r { sockets = filter (λ s. not (with_handle handle s)) r.sockets }

-- The events in order.
unfoldable pub steps : List Event → Relay → Relay
steps [] r = r
steps (event ∷ events) r = steps events (step event r)
