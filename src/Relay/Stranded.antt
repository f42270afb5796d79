-- ===== src/Relay/Stranded.antt =====
-- Requests that worker/src/tunnel/tunnel-do.ts never answers.
use bb_shared.Base.{
  ℕ, ◌<◌, ◌≡◌, sym, subst, List, [], ◌∷◌, ◌++◌, Bool, true, false, ◌&&◌, not, Option, Text, text_eq,
  nat_eq, codes, lookup, insert, lookup-insert, lookup-erase, has, keys, is_some, ltb, ==_iff, inl,
  inr, arith, Option-cases,
}
use bb_shared.Relay.{
  Headers, Frame, open_http, body_chunk, body_end, resp_head, open_ws, ws_open_ack, ws_data,
  close_stream, plain, bodiless, streamed, Relay, fail_http_stream, fail_all, abandon_streams,
  is_tunnel, close_sockets, forwardable_headers,
}
use bb_shared.Relay.Handlers.{
  Request, take_over, accept_tunnel, open_visitor_web_socket, waiting, proxy_http,
  proxy_guest_request, cancel_http_stream, on_resp_head, on_body_chunk, on_body_end,
  on_close_stream, on_ws_data, on_tunnel_frame, on_visitor_message, on_tunnel_close,
  on_visitor_close, on_timeout, on_cancel, unrelayable, Event, dials, requests, tunnel_sends,
  times_out, cancels, visitor_sends, tunnel_closes, visitor_closes, loses, forgets, step, steps,
}
use bb_shared.Relay.Answers.{accept_tunnel-cases, is_waiting}

-- Stream `k` was opened and has no answer, and nothing remembers it.
abbrev pub stranded : ℕ → Relay → Bool
stranded k r =
    ltb k r.next_stream_id && (not (has k r.answers) && not (is_some (lookup k r.pending)))

fail_http_stream-stranded :
    (k j status : ℕ) (message : Text) (r : Relay)
    → stranded k r ≡ true
    → stranded k (fail_http_stream j status message r) ≡ true
unfolding fail_http_stream
fail_http_stream-stranded k j status message r h = elim (Option-cases (lookup j r.pending)) [
  | inl missing ↦ ground (arith, missing)
  | inr (entry, found) ↦ ground (
    arith,
    found,
    ==_iff j k,
    lookup-erase j k r.pending,
    lookup-insert j k (plain status (codes "bb-shared: " ++ (message ++ codes "\n")) false)
        r.answers,
  )
]

fail_all-stranded :
    (k : ℕ) (ks : List ℕ) (status : ℕ) (message : Text) (r : Relay)
    → stranded k r ≡ true
    → stranded k (fail_all ks status message r) ≡ true
unfolding fail_all
fail_all-stranded k [] status message r h = h
fail_all-stranded k (j ∷ ks) status message r h =
    fail_all-stranded k ks status message (fail_http_stream j status message r)
      (fail_http_stream-stranded k j status message r h)

abandon_streams-stranded :
    (k : ℕ) (a b : Text) (r : Relay)
    → stranded k r ≡ true
    → stranded k (abandon_streams a b r) ≡ true
unfolding abandon_streams
abandon_streams-stranded k a b r h = fail_all-stranded k (keys r.pending) 502 a r h

take_over-stranded :
    (k handle : ℕ) (r : Relay) → stranded k r ≡ true → stranded k (take_over handle r) ≡ true
unfolding take_over
take_over-stranded k handle r h =
    abandon_streams-stranded k (codes "tunnel reconnected mid-request") (codes "tunnel reconnected")
      (close_sockets is_tunnel 1000 (codes "replaced by a new tunnel connection") r) h

accept_tunnel-stranded :
    (k : ℕ) (version : Text) (secret : Option Text) (q : Request) (handle : ℕ) (r : Relay)
    → stranded k r ≡ true
    → stranded k (accept_tunnel version secret q handle r).0 ≡ true
accept_tunnel-stranded k version secret q handle r h =
    elim (accept_tunnel-cases version secret q handle r) [
      | inl kept ↦ subst (λ s. stranded k s ≡ true) (sym kept) h
      | inr taken ↦ subst (λ s. stranded k s ≡ true) (sym taken) (take_over-stranded k handle r h)
    ]

proxy_guest_request-stranded :
    (k : ℕ) (q : Request) (handle : ℕ) (works : Bool) (r : Relay)
    → stranded k r ≡ true
    → stranded k (proxy_guest_request q handle works r).0 ≡ true
unfolding proxy_guest_request open_visitor_web_socket proxy_http
proxy_guest_request-stranded k q handle works r h = ground (
  arith,
  ==_iff r.next_stream_id k,
  lookup-insert r.next_stream_id k waiting r.pending,
  lookup-erase r.next_stream_id k (insert r.next_stream_id waiting r.pending),
)

on_resp_head-stranded :
    (k j status : ℕ) (headers : Headers) (works : Bool) (r : Relay)
    → stranded k r ≡ true
    → stranded k (on_resp_head j status headers works r) ≡ true
unfolding on_resp_head
on_resp_head-stranded k j status headers works r h = elim (Option-cases (lookup j r.pending)) [
  | inl missing ↦ ground (arith, missing)
  | inr (entry, found) ↦ ground (
    arith,
    found,
    ==_iff j k,
    lookup-insert j k (record entry { armed = false }) r.pending,
    lookup-insert j k (record { streaming = true; armed = false }) r.pending,
    lookup-erase j k (insert j (record entry { armed = false }) r.pending),
    lookup-insert j k (bodiless status (forwardable_headers headers)) r.answers,
    lookup-insert j k (streamed status (forwardable_headers headers)) r.answers,
    lookup-insert j k (unrelayable status) r.answers,
  )
]

on_tunnel_frame-stranded :
    (k : ℕ) (frame : Frame) (works : Bool) (r : Relay)
    → stranded k r ≡ true
    → stranded k (on_tunnel_frame frame works r) ≡ true
unfolding on_tunnel_frame on_body_chunk on_ws_data on_body_end on_close_stream
on_tunnel_frame-stranded k (resp_head j status headers) works r h =
    on_resp_head-stranded k j status headers works r h
on_tunnel_frame-stranded k (body_chunk j payload) works r h = ground arith
on_tunnel_frame-stranded k (body_end j) works r h =
    ground (arith, ==_iff j k, lookup-erase j k r.pending)
on_tunnel_frame-stranded k (close_stream j code reason) works r h =
    ground (arith, fail_http_stream-stranded k j 502 (codes "tunnel client aborted: " ++ reason) r)
on_tunnel_frame-stranded k (ws_data j is_binary payload) works r h = ground arith
on_tunnel_frame-stranded k (ws_open_ack _ _) works r h = h
on_tunnel_frame-stranded k (open_http _ _ _ _ _) works r h = h
on_tunnel_frame-stranded k (open_ws _ _ _ _) works r h = h

step-stranded :
    (k : ℕ) (event : Event) (r : Relay) → stranded k r ≡ true → stranded k (step event r) ≡ true
unfolding step on_visitor_message on_tunnel_close on_visitor_close on_timeout on_cancel
    cancel_http_stream
step-stranded k (dials version secret q handle) r h =
    accept_tunnel-stranded k version secret q handle r h
step-stranded k (requests q handle works) r h = proxy_guest_request-stranded k q handle works r h
step-stranded k (tunnel_sends frame works) r h = on_tunnel_frame-stranded k frame works r h
step-stranded k (times_out j) r h =
    ground
      (arith, fail_http_stream-stranded k j 504 (codes "timed out waiting for the tunnel client") r)
step-stranded k (cancels j works) r h = ground (arith, ==_iff j k, lookup-erase j k r.pending)
step-stranded k (visitor_sends j handle is_binary payload works) r h = ground arith
step-stranded k tunnel_closes r h = ground (
  arith,
  abandon_streams-stranded k (codes "tunnel disconnected mid-request") (codes "tunnel disconnected")
      r,
)
step-stranded k (visitor_closes j handle code reason works) r h = ground arith
step-stranded k (loses handle) r h = h
step-stranded k (forgets handle) r h = h

steps-stranded :
    (k : ℕ) (events : List Event) (r : Relay)
    → stranded k r ≡ true
    → stranded k (steps events r) ≡ true
unfolding steps
steps-stranded k [] r h = h
steps-stranded k (event ∷ events) r h =
    steps-stranded k events (step event r) (step-stranded k event r h)

early_end-stranded :
    (k : ℕ) (works : Bool) (r : Relay)
    → k < r.next_stream_id
    → is_waiting (lookup k r.pending) ≡ true
    → has k r.answers ≡ false
    → stranded k (step (tunnel_sends (body_end k) works) r) ≡ true
unfolding step on_tunnel_frame on_body_end
early_end-stranded k works r opened waits unanswered =
    ground (arith, ==_iff k k, lookup-erase k k r.pending)

-- A request whose body the tunnel's client ends before the head is never answered, whatever happens
-- then, timeouts included.
pub body_end-stranded :
    (k : ℕ) (works : Bool) (r : Relay) (events : List Event)
    → k < r.next_stream_id
    → is_waiting (lookup k r.pending) ≡ true
    → has k r.answers ≡ false
    → has k (steps events (step (tunnel_sends (body_end k) works) r)).answers ≡ false
body_end-stranded k works r events opened waits unanswered =
    let still =
      steps-stranded k events (step (tunnel_sends (body_end k) works) r)
        (early_end-stranded k works r opened waits unanswered) in
    ground (arith, still)
