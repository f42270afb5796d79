-- ===== src/Relay/Streams.antt =====
-- The stream ids that worker/src/tunnel/tunnel-do.ts allocates.
use bb_shared.Base.{
  ℕ, ◌≡◌, refl, sym, subst, List, [], ◌∷◌, ◌++◌, Bool, true, false, ◌&&◌, ◌||◌, not, map, filter,
  any, Option, none, some, Text, text_eq, nat_eq, codes, lookup, insert, lookup-insert,
  lookup-erase, has, keys, is_some, ltb, ==_iff, inl, inr, arith, Bool-cases, Option-cases,
}
use bb_shared.Relay.{
  Headers, Frame, open_http, body_chunk, body_end, resp_head, open_ws, ws_open_ack, ws_data,
  close_stream, Socket, plain, bodiless, streamed, Relay, fail_http_stream, fail_all,
  abandon_streams, visitor_socket, is_tunnel, close_sockets, forwardable_headers, shut, has_stream,
  stream_or, max_seen, wake,
}
use bb_shared.Relay.Handlers.{
  Request, take_over, accept_tunnel, open_visitor_web_socket, waiting, proxy_http,
  proxy_guest_request, cancel_http_stream, on_resp_head, on_body_chunk, on_body_end,
  on_close_stream, on_ws_data, on_tunnel_frame, on_visitor_message, on_tunnel_close,
  on_visitor_close, on_timeout, on_cancel, unrelayable, Event, dials, requests, tunnel_sends,
  times_out, cancels, visitor_sends, tunnel_closes, visitor_closes, loses, forgets, step, steps,
  accept_socket, with_handle,
}
use bb_shared.Relay.Answers.{accept_tunnel-cases}

-- A socket has the stream.
abbrev pub uses : ℕ → List Socket → Bool
uses k ss = any (λ (s : Socket). has_stream k s.stream) ss

uses-append : (k : ℕ) (ss ts : List Socket) → uses k (ss ++ ts) ≡ (uses k ss || uses k ts)
uses-append k [] ts = refl
uses-append k (s ∷ ss) ts = ground (arith, uses-append k ss ts)

uses-map-shut :
    (k : ℕ) (p : Socket → Bool) (ss : List Socket) → uses k (map (shut p) ss) ≡ uses k ss
uses-map-shut k p [] = refl
uses-map-shut k p (s ∷ ss) = ground (arith, uses-map-shut k p ss)

uses-filter :
    (k : ℕ) (p : Socket → Bool) (ss : List Socket)
    → uses k ss ≡ false
    → uses k (filter p ss) ≡ false
uses-filter k p [] h = refl
uses-filter k p (s ∷ ss) h = ground (arith, uses-filter k p ss)

-- No socket, no promise and no answer has the stream id.
abbrev pub unused : ℕ → Relay → Bool
unused k r = not (uses k r.sockets) && (not (is_some (lookup k r.pending)) && not (has k r.answers))

abbrev pub fresh : ℕ → Relay → Bool
fresh k r = ltb k r.next_stream_id || unused k r

close_sockets-fresh :
    (k : ℕ) (p : Socket → Bool) (code : ℕ) (reason : Text) (r : Relay)
    → fresh k r ≡ true
    → fresh k (close_sockets p code reason r) ≡ true
close_sockets-fresh k p code reason r h = ground (arith, uses-map-shut k p r.sockets)

fail_http_stream-fresh :
    (k j status : ℕ) (message : Text) (r : Relay)
    → fresh k r ≡ true
    → fresh k (fail_http_stream j status message r) ≡ true
unfolding fail_http_stream
fail_http_stream-fresh k j status message r h = elim (Option-cases (lookup j r.pending)) [
  | inl missing ↦ ground (arith, missing)
  | inr (entry, found) ↦ ground (
    arith,
    found,
    ==_iff j k,
    lookup-erase j k r.pending,
    lookup-insert j k (plain status (codes "bb-shared: " ++ (message ++ codes "\n")) false)
        r.answers,
  )
]

fail_all-fresh :
    (k : ℕ) (ks : List ℕ) (status : ℕ) (message : Text) (r : Relay)
    → fresh k r ≡ true
    → fresh k (fail_all ks status message r) ≡ true
unfolding fail_all
fail_all-fresh k [] status message r h = h
fail_all-fresh k (j ∷ ks) status message r h =
    fail_all-fresh k ks status message (fail_http_stream j status message r)
      (fail_http_stream-fresh k j status message r h)

abandon_streams-fresh :
    (k : ℕ) (a b : Text) (r : Relay) → fresh k r ≡ true → fresh k (abandon_streams a b r) ≡ true
unfolding abandon_streams
abandon_streams-fresh k a b r h =
    close_sockets-fresh k (λ s. not (is_tunnel s)) 1001 b (fail_all (keys r.pending) 502 a r)
      (fail_all-fresh k (keys r.pending) 502 a r h)

accept_socket-fresh :
    (k handle : ℕ) (r : Relay)
    → fresh k r ≡ true
    → fresh k (accept_socket (record { handle = handle; stream = none; is_open = true }) r) ≡ true
accept_socket-fresh k handle r h = ground (
  arith,
  uses-append k r.sockets (record { handle = handle; stream = none; is_open = true } ∷ []),
)

take_over-fresh :
    (k handle : ℕ) (r : Relay) → fresh k r ≡ true → fresh k (take_over handle r) ≡ true
unfolding take_over
take_over-fresh k handle r h =
    let replaced = close_sockets is_tunnel 1000 (codes "replaced by a new tunnel connection") r in
    let gone = codes "tunnel reconnected mid-request" in
    accept_socket-fresh k handle (abandon_streams gone (codes "tunnel reconnected") replaced) (
      abandon_streams-fresh k gone (codes "tunnel reconnected") replaced
        (close_sockets-fresh k is_tunnel 1000 (codes "replaced by a new tunnel connection") r h))

accept_tunnel-fresh :
    (k : ℕ) (version : Text) (secret : Option Text) (q : Request) (handle : ℕ) (r : Relay)
    → fresh k r ≡ true
    → fresh k (accept_tunnel version secret q handle r).0 ≡ true
accept_tunnel-fresh k version secret q handle r h =
    elim (accept_tunnel-cases version secret q handle r) [
      | inl kept ↦ subst (λ s. fresh k s ≡ true) (sym kept) h
      | inr taken ↦ subst (λ s. fresh k s ≡ true) (sym taken) (take_over-fresh k handle r h)
    ]

proxy_guest_request-fresh :
    (k : ℕ) (q : Request) (handle : ℕ) (works : Bool) (r : Relay)
    → fresh k r ≡ true
    → fresh k (proxy_guest_request q handle works r).0 ≡ true
unfolding proxy_guest_request open_visitor_web_socket proxy_http
proxy_guest_request-fresh k q handle works r h = ground (
  arith,
  ==_iff r.next_stream_id k,
  lookup-insert r.next_stream_id k waiting r.pending,
  lookup-erase r.next_stream_id k (insert r.next_stream_id waiting r.pending),
  uses-append k r.sockets
      (record { handle = handle; stream = some r.next_stream_id; is_open = true } ∷ []),
)

on_resp_head-fresh :
    (k j status : ℕ) (headers : Headers) (works : Bool) (r : Relay)
    → fresh k r ≡ true
    → fresh k (on_resp_head j status headers works r) ≡ true
unfolding on_resp_head
on_resp_head-fresh k j status headers works r h = elim (Option-cases (lookup j r.pending)) [
  | inl missing ↦ ground (arith, missing)
  | inr (entry, found) ↦ ground (
    arith,
    found,
    ==_iff j k,
    lookup-insert j k (record entry { armed = false }) r.pending,
    lookup-insert j k (record { streaming = true; armed = false }) r.pending,
    lookup-erase j k (insert j (record entry { armed = false }) r.pending),
    lookup-insert j k (bodiless status (forwardable_headers headers)) r.answers,
    lookup-insert j k (streamed status (forwardable_headers headers)) r.answers,
    lookup-insert j k (unrelayable status) r.answers,
  )
]

on_close_stream-fresh :
    (k j code : ℕ) (reason : Text) (works : Bool) (r : Relay)
    → fresh k r ≡ true
    → fresh k (on_close_stream j code reason works r) ≡ true
unfolding on_close_stream
on_close_stream-fresh k j code reason works r h = elim (Option-cases (visitor_socket j r.sockets)) [
  | inl missing ↦
      ground (
        arith,
        missing,
        fail_http_stream-fresh k j 502 (codes "tunnel client aborted: " ++ reason) r,
      )
  | inr (visitor, found) ↦ ground (
    arith,
    found,
    fail_http_stream-fresh k j 502 (codes "tunnel client aborted: " ++ reason) r,
    uses-map-shut k (with_handle visitor.handle) r.sockets,
  )
]

on_tunnel_frame-fresh :
    (k : ℕ) (frame : Frame) (works : Bool) (r : Relay)
    → fresh k r ≡ true
    → fresh k (on_tunnel_frame frame works r) ≡ true
unfolding on_tunnel_frame on_body_chunk on_ws_data on_body_end
on_tunnel_frame-fresh k (resp_head j status headers) works r h =
    on_resp_head-fresh k j status headers works r h
on_tunnel_frame-fresh k (body_chunk j payload) works r h = ground arith
on_tunnel_frame-fresh k (body_end j) works r h =
    ground (arith, ==_iff j k, lookup-erase j k r.pending)
on_tunnel_frame-fresh k (close_stream j code reason) works r h =
    on_close_stream-fresh k j code reason works r h
on_tunnel_frame-fresh k (ws_data j is_binary payload) works r h = ground arith
on_tunnel_frame-fresh k (ws_open_ack _ _) works r h = h
on_tunnel_frame-fresh k (open_http _ _ _ _ _) works r h = h
on_tunnel_frame-fresh k (open_ws _ _ _ _) works r h = h

step-fresh : (k : ℕ) (event : Event) (r : Relay) → fresh k r ≡ true → fresh k (step event r) ≡ true
unfolding step on_visitor_message on_tunnel_close on_visitor_close on_timeout on_cancel
    cancel_http_stream
step-fresh k (dials version secret q handle) r h = accept_tunnel-fresh k version secret q handle r h
step-fresh k (requests q handle works) r h = proxy_guest_request-fresh k q handle works r h
step-fresh k (tunnel_sends frame works) r h = on_tunnel_frame-fresh k frame works r h
step-fresh k (times_out j) r h =
    ground
      (arith, fail_http_stream-fresh k j 504 (codes "timed out waiting for the tunnel client") r)
step-fresh k (cancels j works) r h = ground (arith, ==_iff j k, lookup-erase j k r.pending)
step-fresh k (visitor_sends j handle is_binary payload works) r h =
    ground (arith, uses-map-shut k (with_handle handle) r.sockets)
step-fresh k tunnel_closes r h = ground (
  arith,
  abandon_streams-fresh k (codes "tunnel disconnected mid-request") (codes "tunnel disconnected") r,
)
step-fresh k (visitor_closes j handle code reason works) r h =
    ground (arith, uses-map-shut k (with_handle handle) r.sockets)
step-fresh k (loses handle) r h = ground (arith, uses-map-shut k (with_handle handle) r.sockets)
step-fresh k (forgets handle) r h =
    ground (arith, uses-filter k (λ (s : Socket). not (with_handle handle s)) r.sockets)

steps-fresh :
    (k : ℕ) (events : List Event) (r : Relay) → fresh k r ≡ true → fresh k (steps events r) ≡ true
unfolding steps
steps-fresh k [] r h = h
steps-fresh k (event ∷ events) r h = steps-fresh k events (step event r) (step-fresh k event r h)

max_seen-bounds :
    (k m : ℕ) (ss : List Socket)
    → ltb (max_seen m ss) k ≡ true
    → (ltb m k ≡ true) × (uses k ss ≡ false)
unfolding max_seen
max_seen-bounds k m [] h = (h, refl)
max_seen-bounds k m (s ∷ ss) h =
    let (a, b) = max_seen-bounds k (stream_or m s.stream) ss h in
    (ground (arith, a), ground (arith, a, b))

wake-fresh : (k : ℕ) (ss : List Socket) → fresh k (wake ss) ≡ true
unfolding wake lookup
wake-fresh k ss = elim (Bool-cases (ltb (max_seen 0 ss) k)) [
  | inl above ↦ ground (arith, max_seen-bounds k 0 ss above)
  | inr below ↦ ground (arith, below)
]

-- From the moment the relay wakes, over any sockets that survived, the next stream id is one that no
-- socket, no pending request and no answer has, whatever happens.
pub next_stream_id-fresh :
    (sockets : List Socket) (events : List Event)
    → unused (steps events (wake sockets)).next_stream_id (steps events (wake sockets)) ≡ true
next_stream_id-fresh sockets events =
    let r = steps events (wake sockets) in
    ground (
      arith,
      steps-fresh r.next_stream_id events (wake sockets) (wake-fresh r.next_stream_id sockets),
    )
