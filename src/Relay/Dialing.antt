-- ===== src/Relay/Dialing.antt =====
-- `acceptTunnel` of worker/src/tunnel/tunnel-do.ts: who may dial, and what a new tunnel replaces.
use bb_shared.Base.{
  ℕ, ◌≡◌, ◌≢◌, ◌↔◌, refl, sym, ap, ◌∙◌, subst, List, [], ◌∷◌, ◌++◌, Bool, true, false, ◌||◌, not,
  map, Option, none, some, Text, text_eq, nat_eq, codes, lookup, lookup-erase, has, keys, is_some,
  any, All, same_iff, Dict, if◌then◌else◌, ◌==◌, ==_iff, inl, inr, arith, Option-cases,
}
use bb_shared.Relay.{
  Socket, PendingHttp, upgraded, Relay, fail_http_stream, fail_all, abandon_streams,
  active_tunnel_socket, bearer_from, is_tunnel, close_sockets, shut,
}
use bb_shared.Relay.Handlers.{Request, is_websocket, take_over, accept_tunnel}
use bb_shared.Relay.Credential.{timing_safe_equal_iff}
use bb_shared.Relay.Answers.{served, take_over-served}

fail_http_stream-pending :
    (j k status : ℕ) (message : Text) (r : Relay)
    → lookup k (fail_http_stream j status message r).pending
      ≡ (if j == k then none else lookup k r.pending)
unfolding fail_http_stream
fail_http_stream-pending j k status message r = elim (Option-cases (lookup j r.pending)) [
  | inl missing ↦ ground (arith, missing, ==_iff j k)
  | inr (entry, found) ↦ ground (arith, found, lookup-erase j k r.pending)
]

-- A key that is among those to fail, or absent, is absent after all have failed.
fail_all-pending :
    (ks : List ℕ) (k status : ℕ) (message : Text) (r : Relay)
    → any (λ j. j == k) ks || not (is_some (lookup k r.pending)) ≡ true
    → lookup k (fail_all ks status message r).pending ≡ none
unfolding fail_all
fail_all-pending [] k status message r h = ground arith
fail_all-pending (j ∷ ks) k status message r h =
    fail_all-pending ks k status message (fail_http_stream j status message r)
      (ground (arith, fail_http_stream-pending j k status message r))

lookup-keys :
    (k : ℕ) (m : Dict ℕ PendingHttp)
    → any (λ j. j == k) (keys m) || not (is_some (lookup k m)) ≡ true
unfolding lookup
lookup-keys k [] = refl
lookup-keys k ((j, e) ∷ m) = ground (arith, lookup-keys k m)

take_over-pending : (handle k : ℕ) (r : Relay) → lookup k (take_over handle r).pending ≡ none
unfolding take_over abandon_streams
take_over-pending handle k r =
    fail_all-pending (keys r.pending) k 502 (codes "tunnel reconnected mid-request")
      (close_sockets is_tunnel 1000 (codes "replaced by a new tunnel connection") r)
      (lookup-keys k r.pending)

-- The new tunnel finds no promise left open.
take_over-answers :
    (handle k : ℕ) (r : Relay) → served k r ≡ true → has k (take_over handle r).answers ≡ true
take_over-answers handle k r h =
    ground (arith, take_over-served k handle r h, take_over-pending handle k r)

abbrev pub new_tunnel : ℕ → Socket
new_tunnel handle = record { handle = handle; stream = none; is_open = true }

active_tunnel_socket-snoc :
    (handle : ℕ) (ss : List Socket)
    → active_tunnel_socket (ss ++ new_tunnel handle ∷ []) ≡ some (new_tunnel handle)
unfolding active_tunnel_socket
active_tunnel_socket-snoc handle [] = refl
active_tunnel_socket-snoc handle (s ∷ ss) = ground (arith, active_tunnel_socket-snoc handle ss)

fail_http_stream-sockets :
    (j status : ℕ) (message : Text) (r : Relay)
    → (fail_http_stream j status message r).sockets ≡ r.sockets
unfolding fail_http_stream
fail_http_stream-sockets j status message r = ground arith

fail_all-sockets :
    (ks : List ℕ) (status : ℕ) (message : Text) (r : Relay)
    → (fail_all ks status message r).sockets ≡ r.sockets
unfolding fail_all
fail_all-sockets [] status message r = refl
fail_all-sockets (j ∷ ks) status message r =
    fail_all-sockets ks status message (fail_http_stream j status message r)
    ∙ fail_http_stream-sockets j status message r

abbrev visitors : Socket → Bool
visitors s = not (is_tunnel s)

shut-All-closed :
    (ss : List Socket)
    → All (λ (s : Socket). s.is_open ≡ false) (map (shut visitors) (map (shut is_tunnel) ss))
shut-All-closed [] = tt
shut-All-closed (s ∷ ss) = (ground arith, shut-All-closed ss)

take_over-sockets :
    (handle : ℕ) (r : Relay)
    → (take_over handle r).sockets
      ≡ map (shut visitors) (map (shut is_tunnel) r.sockets) ++ new_tunnel handle ∷ []
unfolding take_over abandon_streams
take_over-sockets handle r =
    ap (λ ss. map (shut visitors) ss ++ new_tunnel handle ∷ [])
      (fail_all-sockets (keys r.pending) 502 (codes "tunnel reconnected mid-request")
        (close_sockets is_tunnel 1000 (codes "replaced by a new tunnel connection") r))

bearer_from-filled :
    (header : Option Text) (presented : Text) → bearer_from header ≡ some presented → presented ≢ []
unfolding bearer_from
bearer_from-filled header presented e = ground arith

-- A dial is accepted exactly when it asks for a WebSocket, presents the configured secret, which is
-- set, and speaks the relay's version of the protocol.
pub accept_tunnel_iff :
    (version : Text) (secret : Option Text) (q : Request) (handle : ℕ) (r : Relay)
    → ((accept_tunnel version secret q handle r).1 ≡ upgraded handle none) ↔ (
        (is_websocket q.upgrade ≡ true)
        × (bearer_from q.authorization ≢ none)
        × (secret ≡ bearer_from q.authorization)
        × (q.version ≡ some version))
unfolding accept_tunnel
accept_tunnel_iff version secret q handle r = elim (Option-cases (bearer_from q.authorization)) [
  | inl missing ↦ ground (arith, missing)
  | inr (presented, found) ↦ elim (Option-cases secret) [
    | inl unset ↦ ground (arith, found, unset, timing_safe_equal_iff [] presented)
    | inr (value, set) ↦ elim (Option-cases q.version) [
      | inl unversioned ↦ ground (arith, found, set, unversioned)
      | inr (v, versioned) ↦ ground (
        arith,
        found,
        set,
        versioned,
        timing_safe_equal_iff value presented,
        same_iff v version,
        bearer_from-filled q.authorization presented found,
      )
    ]
  ]
]

-- An accepted dial leaves no stream behind: nothing is pending, every stream that was to be answered
-- has its answer, and of all sockets the new tunnel is the open one, which requests now go to.
pub accept_tunnel-clears :
    (version : Text) (secret : Option Text) (q : Request) (handle : ℕ) (r after : Relay)
    → accept_tunnel version secret q handle r ≡ (after, upgraded handle none)
    → ((k : ℕ) → lookup k after.pending ≡ none)
      × ((k : ℕ) → (not (served k r) || has k after.answers) ≡ true)
      × (active_tunnel_socket after.sockets ≡ some (new_tunnel handle))
      × ((earlier : List Socket) × (after.sockets ≡ earlier ++ new_tunnel handle ∷ [])
          × All (λ (s : Socket). s.is_open ≡ false) earlier)
unfolding accept_tunnel
accept_tunnel-clears version secret q handle r after e =
    let taken : take_over handle r ≡ after = ground arith in
    let ss = map (shut visitors) (map (shut is_tunnel) r.sockets) in
    let placed : after.sockets ≡ ss ++ new_tunnel handle ∷ [] =
      ap (λ (s : Relay). s.sockets) (sym taken) ∙ take_over-sockets handle r in
    (
      λ k. subst (λ (s : Relay). lookup k s.pending ≡ none) taken (take_over-pending handle k r),
      λ k.
          subst (λ (s : Relay). (not (served k r) || has k s.answers) ≡ true) taken
            (ground (arith, take_over-answers handle k r)),
      ap active_tunnel_socket placed ∙ active_tunnel_socket-snoc handle ss,
      (ss, placed, shut-All-closed r.sockets),
    )
