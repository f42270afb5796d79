-- ===== src/SharedTunnel/Phases.antt =====
-- The phases of the tunnel of plugin/lib/shared-tunnel.ts.
use bb_shared.Base.{
  ℕ, ◌≡◌, refl, subst, inl, inr, Bool, true, false, ◌||◌, List, [], ◌∷◌, Option, none, some, Text,
  arith, Bool-cases, ◌==◌,
}
use bb_shared.SharedTunnel.{
  TunnelState, disconnected, connecting, connected, reconnecting, incompatible, stopped, Backoff,
  Options, Tunnel, initial, new_tunnel, set_state, teardown_socket, open_tunnel, start, stop,
  schedule_reconnect, on_open, on_unexpected_response, on_error, on_close, SocketEvent, opens,
  unexpected_response, error, closes, clients_change, on_socket, on_timer, Event, start_call,
  stop_call, timer_fires, socket_event, at_socket, at_timer, step, run,
}

-- A tunnel at rest has no socket and no timer; one that runs has a socket, or a timer for the next one, and
-- never both.
pub data Phase : TunnelState → Bool → Option ℕ → Option ℕ → Bool → Type 0 where
  idle : Phase disconnected true none none false
  halted : Phase stopped true none none false
  refused : Phase incompatible true none none false
  dialing : {socket : ℕ} → Phase connecting false (some socket) none false
  up : {socket : ℕ} → Phase connected false (some socket) none true
  waiting : {delay : ℕ} → Phase reconnecting false none (some delay) false

abbrev pub PhaseOf : {B : Type 0} → Tunnel B → Type 0
PhaseOf t = Phase t.state t.is_stopped t.attached t.retry_timer t.has_session

pub at_rest :
    {s : TunnelState} {rest : Bool} {at timer : Option ℕ} {session : Bool}
    → Phase s rest at timer session
    → rest ≡ true
    → (at ≡ none) × (timer ≡ none) × (session ≡ false)
at_rest idle e = (refl, refl, refl)
at_rest halted e = (refl, refl, refl)
at_rest refused e = (refl, refl, refl)
at_rest dialing e = absurd cc
at_rest up e = absurd cc
at_rest waiting e = absurd cc

pub with_socket :
    {s : TunnelState} {rest : Bool} {at timer : Option ℕ} {session : Bool} (socket : ℕ)
    → Phase s rest at timer session
    → at ≡ some socket
    → (rest ≡ false) × (timer ≡ none)
with_socket socket idle e = absurd cc
with_socket socket halted e = absurd cc
with_socket socket refused e = absurd cc
with_socket socket dialing e = (refl, refl)
with_socket socket up e = (refl, refl)
with_socket socket waiting e = absurd cc

with_timer :
    {s : TunnelState} {rest : Bool} {at timer : Option ℕ} {session : Bool} (delay : ℕ)
    → Phase s rest at timer session
    → timer ≡ some delay
    → (rest ≡ false) × (session ≡ false)
with_timer delay idle e = absurd cc
with_timer delay halted e = absurd cc
with_timer delay refused e = absurd cc
with_timer delay dialing e = absurd cc
with_timer delay up e = absurd cc
with_timer delay waiting e = (refl, refl)

module _ {B : Type 0} (query : Text) (b : Backoff B) where
  open_tunnel-Phase :
      (t : Tunnel B)
      → t.is_stopped ≡ false
      → t.retry_timer ≡ none
      → t.has_session ≡ false
      → PhaseOf (open_tunnel query b t)
  unfolding open_tunnel set_state
  open_tunnel-Phase t running untimed down = rw (running, untimed, down) dialing

  start-Phase : (t : Tunnel B) → PhaseOf t → PhaseOf (start query b t)
  unfolding start
  start-Phase t p = elim (Bool-cases t.is_stopped) [
    | inr running ↦
        rw running (subst (λ x. Phase t.state x t.attached t.retry_timer t.has_session) running p)
    | inl resting ↦
        let (free, untimed, down) = at_rest p resting in
        rw resting (open_tunnel-Phase _ refl untimed down)
  ]

  stop-Phase : (t : Tunnel B) → PhaseOf (stop query b t)
  unfolding stop set_state teardown_socket
  stop-Phase t = halted

  schedule_reconnect-Phase :
      (now : ℕ) (t : Tunnel B)
      → t.is_stopped ≡ false
      → t.retry_timer ≡ none
      → t.attached ≡ none
      → t.has_session ≡ false
      → PhaseOf (schedule_reconnect query b now t)
  unfolding schedule_reconnect set_state
  schedule_reconnect-Phase now t running untimed detached down =
      rw (running, untimed, detached, down) waiting

  on_open-Phase :
      (now socket : ℕ) (t : Tunnel B)
      → PhaseOf t
      → t.attached ≡ some socket
      → PhaseOf (on_open query b now t)
  unfolding on_open set_state
  on_open-Phase now socket t p e =
      let (running, untimed) = with_socket socket p e in rw (running, untimed, e) up

  on_unexpected_response-Phase :
      (now socket status : ℕ) (digits : Text) (t : Tunnel B)
      → PhaseOf t
      → t.attached ≡ some socket
      → PhaseOf (on_unexpected_response query b now status digits t)
  unfolding on_unexpected_response set_state teardown_socket
  on_unexpected_response-Phase now socket status digits t p e =
      let (running, untimed) = with_socket socket p e in
      elim (Bool-cases (status == 409 || status == 426)) [
        | inl old ↦ rw (old, untimed) refused
        | inr known ↦ elim (Bool-cases (status == 401 || status == 403)) [
          | inl denied ↦ rw (known, denied) (stop-Phase _)
          | inr other ↦ rw (known, other) (schedule_reconnect-Phase now _ running untimed refl refl)
        ]
      ]

  on_socket-Phase :
      (now socket : ℕ) (e : SocketEvent) (t : Tunnel B)
      → PhaseOf t
      → t.attached ≡ some socket
      → PhaseOf (on_socket query b now e t)
  unfolding on_error on_close
  on_socket-Phase now socket opens t p e = on_open-Phase now socket t p e
  on_socket-Phase now socket (unexpected_response status digits) t p e =
      on_unexpected_response-Phase now socket status digits t p e
  on_socket-Phase now socket (error message) t p e = p
  on_socket-Phase now socket (clients_change count) t p e = p
  on_socket-Phase now socket closes t p e =
      let (running, untimed) = with_socket socket p e in
      schedule_reconnect-Phase now _ running untimed refl refl

  at_socket-Phase :
      (o : Option ℕ) (socket now : ℕ) (e : SocketEvent) (t : Tunnel B)
      → PhaseOf t
      → t.attached ≡ o
      → PhaseOf (at_socket query b o socket now e t)
  at_socket-Phase none socket now e t p at = p
  at_socket-Phase (some s) socket now e t p at = elim (Bool-cases (s == socket)) [
    | inl own ↦ rw own (on_socket-Phase now s e t p at)
    | inr other ↦ rw other p
  ]

  at_timer-Phase :
      (o : Option ℕ) (t : Tunnel B) → PhaseOf t → t.retry_timer ≡ o → PhaseOf (at_timer query b o t)
  unfolding on_timer
  at_timer-Phase none t p e = p
  at_timer-Phase (some delay) t p e =
      let (running, down) = with_timer delay p e in open_tunnel-Phase _ running refl down

  pub step-Phase : (e : Event) (t : Tunnel B) → PhaseOf t → PhaseOf (step query b e t)
  unfolding step
  step-Phase start_call t p = start-Phase t p
  step-Phase stop_call t p = stop-Phase t
  step-Phase timer_fires t p = at_timer-Phase t.retry_timer t p refl
  step-Phase (socket_event socket now e) t p = at_socket-Phase t.attached socket now e t p refl

  run-PhaseOf : (events : List Event) (t : Tunnel B) → PhaseOf t → PhaseOf (run query b events t)
  unfolding run
  run-PhaseOf [] t p = p
  run-PhaseOf (e ∷ more) t p = run-PhaseOf more (step query b e t) (step-Phase e t p)

-- After any events from its construction, a tunnel is in one of its phases: at rest, with no socket and no
-- timer; dialing or up, with a socket and no timer; or waiting, with a timer and no socket.
pub new_tunnel-Phase :
    {B : Type 0} (query : Text) (b : Backoff B) (is_url : Text → Bool) (options : Options)
    (fresh : B) (t : Tunnel B) (events : List Event)
    → new_tunnel is_url options fresh ≡ some t
    → PhaseOf (run query b events t)
unfolding new_tunnel
new_tunnel-Phase query b is_url options fresh t events e =
    let made : initial options fresh ≡ t = ground (arith, e) in
    run-PhaseOf query b events t (subst PhaseOf made idle)
