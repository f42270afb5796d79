-- ===== src/Relay/Answers.antt =====
-- Which requests the relay of worker/src/tunnel/tunnel-do.ts answers.
use bb_shared.Base.{
  ℕ, ◌≡◌, sym, subst, ◌⊎◌, List, [], ◌∷◌, ◌++◌, Bool, true, false, ◌&&◌, ◌||◌, not, Option, none,
  some, Text, text_eq, nat_eq, codes, lookup, insert, lookup-insert, lookup-erase, has, keys, ltb,
  ◌==◌, ==_iff, inl, inr, arith, Bool-cases, Option-cases,
}
use bb_shared.Relay.{
  Headers, Frame, open_http, body_chunk, body_end, resp_head, open_ws, ws_open_ack, ws_data,
  close_stream, PendingHttp, plain, bodiless, streamed, Relay, forwardable_headers,
  fail_http_stream, fail_all, abandon_streams, is_tunnel, close_sockets,
}
use bb_shared.Relay.Handlers.{
  Request, take_over, accept_tunnel, open_visitor_web_socket, waiting, proxy_http,
  proxy_guest_request, cancel_http_stream, on_resp_head, on_body_chunk, on_body_end,
  on_close_stream, on_ws_data, on_tunnel_frame, on_visitor_message, on_tunnel_close,
  on_visitor_close, on_timeout, on_cancel, is_null_body, unrelayable, Event, dials, requests,
  tunnel_sends, times_out, cancels, visitor_sends, tunnel_closes, visitor_closes, loses, forgets,
  step,
}

abbrev pub is_waiting : Option PendingHttp → Bool
is_waiting none = false
is_waiting (some entry) = not entry.streaming && entry.armed

-- Stream `k` has been opened, and it has its answer or waits for it under a timeout.
abbrev pub served : ℕ → Relay → Bool
served k r = ltb k r.next_stream_id && (has k r.answers || is_waiting (lookup k r.pending))

fail_http_stream-served :
    (k j status : ℕ) (message : Text) (r : Relay)
    → served k r ≡ true
    → served k (fail_http_stream j status message r) ≡ true
unfolding fail_http_stream
fail_http_stream-served k j status message r h = elim (Option-cases (lookup j r.pending)) [
  | inl missing ↦ ground (arith, missing)
  | inr (entry, found) ↦ ground (
    arith,
    found,
    ==_iff j k,
    lookup-erase j k r.pending,
    lookup-insert j k (plain status (codes "bb-shared: " ++ (message ++ codes "\n")) false)
        r.answers,
  )
]

fail_all-served :
    (k : ℕ) (ks : List ℕ) (status : ℕ) (message : Text) (r : Relay)
    → served k r ≡ true
    → served k (fail_all ks status message r) ≡ true
unfolding fail_all
fail_all-served k [] status message r h = h
fail_all-served k (j ∷ ks) status message r h =
    fail_all-served k ks status message (fail_http_stream j status message r)
      (fail_http_stream-served k j status message r h)

abandon_streams-served :
    (k : ℕ) (a b : Text) (r : Relay) → served k r ≡ true → served k (abandon_streams a b r) ≡ true
unfolding abandon_streams
abandon_streams-served k a b r h = fail_all-served k (keys r.pending) 502 a r h

pub take_over-served :
    (k handle : ℕ) (r : Relay) → served k r ≡ true → served k (take_over handle r) ≡ true
unfolding take_over
take_over-served k handle r h =
    abandon_streams-served k (codes "tunnel reconnected mid-request") (codes "tunnel reconnected")
      (close_sockets is_tunnel 1000 (codes "replaced by a new tunnel connection") r) h

-- A dial is refused, or takes over.
pub accept_tunnel-cases :
    (version : Text) (secret : Option Text) (q : Request) (handle : ℕ) (r : Relay)
    → ((accept_tunnel version secret q handle r).0 ≡ r)
      ⊎ ((accept_tunnel version secret q handle r).0 ≡ take_over handle r)
unfolding accept_tunnel
accept_tunnel-cases version secret q handle r = ground arith

accept_tunnel-served :
    (k : ℕ) (version : Text) (secret : Option Text) (q : Request) (handle : ℕ) (r : Relay)
    → served k r ≡ true
    → served k (accept_tunnel version secret q handle r).0 ≡ true
accept_tunnel-served k version secret q handle r h =
    elim (accept_tunnel-cases version secret q handle r) [
      | inl kept ↦ subst (λ s. served k s ≡ true) (sym kept) h
      | inr taken ↦ subst (λ s. served k s ≡ true) (sym taken) (take_over-served k handle r h)
    ]

proxy_guest_request-served :
    (k : ℕ) (q : Request) (handle : ℕ) (works : Bool) (r : Relay)
    → served k r ≡ true
    → served k (proxy_guest_request q handle works r).0 ≡ true
unfolding proxy_guest_request open_visitor_web_socket proxy_http
proxy_guest_request-served k q handle works r h = ground (
  arith,
  ==_iff r.next_stream_id k,
  lookup-insert r.next_stream_id k waiting r.pending,
  lookup-erase r.next_stream_id k (insert r.next_stream_id waiting r.pending),
)

-- A frame of the tunnel's client that keeps the order of the protocol as far as stream `k` goes: the
-- body ends after the head, and a head without a body can be built.
abbrev pub is_orderly_frame : ℕ → Frame → Bool → Relay → Bool
is_orderly_frame k (body_end j) works r = not (j == k) || has k r.answers
is_orderly_frame k (resp_head j status headers) works r =
    not (j == k) || (has k r.answers || (works || not (is_null_body status)))
is_orderly_frame k _ works r = true

abbrev pub is_orderly : ℕ → Event → Relay → Bool
is_orderly k (tunnel_sends frame works) r = is_orderly_frame k frame works r
is_orderly k _ r = true

on_resp_head-served :
    (k j status : ℕ) (headers : Headers) (works : Bool) (r : Relay)
    → is_orderly_frame k (resp_head j status headers) works r ≡ true
    → served k r ≡ true
    → served k (on_resp_head j status headers works r) ≡ true
unfolding on_resp_head
on_resp_head-served k j status headers works r o h = elim (Option-cases (lookup j r.pending)) [
  | inl missing ↦ ground (arith, missing)
  | inr (entry, found) ↦ elim (Bool-cases (j == k)) [
    | inl here ↦ ground (
      arith,
      found,
      here,
      ==_iff j k,
      lookup-insert j k (record entry { armed = false }) r.pending,
      lookup-insert j k (record { streaming = true; armed = false }) r.pending,
      lookup-insert j k (bodiless status (forwardable_headers headers)) r.answers,
      lookup-insert j k (streamed status (forwardable_headers headers)) r.answers,
      lookup-insert j k (unrelayable status) r.answers,
    )
    | inr elsewhere ↦ ground (
      arith,
      found,
      elsewhere,
      lookup-insert j k (record entry { armed = false }) r.pending,
      lookup-insert j k (record { streaming = true; armed = false }) r.pending,
      lookup-erase j k (insert j (record entry { armed = false }) r.pending),
      lookup-insert j k (bodiless status (forwardable_headers headers)) r.answers,
      lookup-insert j k (streamed status (forwardable_headers headers)) r.answers,
      lookup-insert j k (unrelayable status) r.answers,
    )
  ]
]

on_body_end-served :
    (k j : ℕ) (works : Bool) (r : Relay)
    → is_orderly_frame k (body_end j) works r ≡ true
    → served k r ≡ true
    → served k (on_body_end j r) ≡ true
unfolding on_body_end
on_body_end-served k j works r o h = ground (arith, ==_iff j k, lookup-erase j k r.pending)

on_close_stream-served :
    (k j code : ℕ) (reason : Text) (works : Bool) (r : Relay)
    → served k r ≡ true
    → served k (on_close_stream j code reason works r) ≡ true
unfolding on_close_stream
on_close_stream-served k j code reason works r h =
    ground (arith, fail_http_stream-served k j 502 (codes "tunnel client aborted: " ++ reason) r)

on_tunnel_frame-served :
    (k : ℕ) (frame : Frame) (works : Bool) (r : Relay)
    → is_orderly_frame k frame works r ≡ true
    → served k r ≡ true
    → served k (on_tunnel_frame frame works r) ≡ true
unfolding on_tunnel_frame on_body_chunk on_ws_data
on_tunnel_frame-served k (resp_head j status headers) works r o h =
    on_resp_head-served k j status headers works r o h
on_tunnel_frame-served k (body_chunk j payload) works r o h = ground arith
on_tunnel_frame-served k (body_end j) works r o h = on_body_end-served k j works r o h
on_tunnel_frame-served k (close_stream j code reason) works r o h =
    on_close_stream-served k j code reason works r h
on_tunnel_frame-served k (ws_data j is_binary payload) works r o h = ground arith
on_tunnel_frame-served k (ws_open_ack _ _) works r o h = h
on_tunnel_frame-served k (open_http _ _ _ _ _) works r o h = h
on_tunnel_frame-served k (open_ws _ _ _ _) works r o h = h

-- A body is cancelled only where it streams, and then the answer has been given.
on_timeout-served : (k j : ℕ) (r : Relay) → served k r ≡ true → served k (on_timeout j r) ≡ true
unfolding on_timeout
on_timeout-served k j r h =
    ground
      (arith, fail_http_stream-served k j 504 (codes "timed out waiting for the tunnel client") r)

on_cancel-served :
    (k j : ℕ) (works : Bool) (r : Relay) → served k r ≡ true → served k (on_cancel j works r) ≡ true
unfolding on_cancel cancel_http_stream
on_cancel-served k j works r h = ground (arith, ==_iff j k, lookup-erase j k r.pending)

pub step-served :
    (k : ℕ) (event : Event) (r : Relay)
    → is_orderly k event r ≡ true
    → served k r ≡ true
    → served k (step event r) ≡ true
unfolding step on_visitor_message on_tunnel_close on_visitor_close
step-served k (dials version secret q handle) r o h =
    accept_tunnel-served k version secret q handle r h
step-served k (requests q handle works) r o h = proxy_guest_request-served k q handle works r h
step-served k (tunnel_sends frame works) r o h = on_tunnel_frame-served k frame works r o h
step-served k (times_out j) r o h = on_timeout-served k j r h
step-served k (cancels j works) r o h = on_cancel-served k j works r h
step-served k (visitor_sends j handle is_binary payload works) r o h = ground arith
step-served k tunnel_closes r o h = ground (
  arith,
  abandon_streams-served k (codes "tunnel disconnected mid-request") (codes "tunnel disconnected")
      r,
)
step-served k (visitor_closes j handle code reason works) r o h = ground arith
step-served k (loses handle) r o h = h
step-served k (forgets handle) r o h = h
