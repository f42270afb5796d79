-- ===== src/SharedTunnel.antt =====
-- plugin/lib/shared-tunnel.ts: the socket to the relay, and its reconnection.
-- The backoff is a state of the tunnel client with two operations, and the parsing of an address is
-- an argument, as are the clock, which does not run backwards, and the text of a transport error. A socket is a number;
-- its events are handled while its listeners are attached, and `close` is the last of them.
pub mod Phases
pub mod Rest
use bb_shared.Base.{
  ℕ, suc, ◌+◌, ◌-◌, Bool, true, false, not, ◌&&◌, ◌||◌, List, [], ◌∷◌, ◌++◌, Option, none, some,
  Text, codes, same, starts_with, length, drop, is_some, if◌then◌else◌, leb, ◌==◌,
}
use bb_shared.TokenStore.{or_else}

pub data TunnelState : Type 0 where
  disconnected connecting connected reconnecting incompatible stopped : TunnelState

-- `ReconnectBackoff` of the tunnel client.
pub record Backoff (B : Type 0) : Type 0 where
  pub reset : B → B
  pub next_delay : B → ℕ → ℕ × B

pub record Options : Type 0 where
  pub worker_url : Text
  pub tunnel_secret : Text
  pub loopback_base_url : Text

-- An address and the bearer that a socket is opened with.
pub record Dial : Type 0 where
  pub url : Text
  pub bearer : Text

pub record Tunnel (B : Type 0) : Type 0 where
  pub options : Options
  pub is_stopped : Bool
  pub state : TunnelState
  pub changes : List TunnelState
  pub socket : Option ℕ
  pub attached : Option ℕ
  pub has_session : Bool
  pub retry_timer : Option ℕ
  pub backoff : B
  pub connected_at : Option ℕ
  pub last_connected_at : Option ℕ
  pub last_error : Option Text
  pub remote_clients : ℕ
  pub dials : List Dial

pub data SocketEvent : Type 0 where
  opens : SocketEvent
  unexpected_response : (status : ℕ) (digits : Text) → SocketEvent
  error : (message : Text) → SocketEvent
  closes : SocketEvent
  clients_change : (count : ℕ) → SocketEvent

-- What can happen to a tunnel, and when.
pub data Event : Type 0 where
  start_call : Event
  stop_call : Event
  timer_fires : Event
  socket_event : (socket now : ℕ) (e : SocketEvent) → Event

abbrev is_state : TunnelState → TunnelState → Bool
is_state disconnected disconnected = true
is_state connecting connecting = true
is_state connected connected = true
is_state reconnecting reconnecting = true
is_state incompatible incompatible = true
is_state stopped stopped = true
is_state _ _ = false

-- `s.replace(/\/$/u, "")`.
unfoldable pub strip_slash : Text → Text
strip_slash [] = []
strip_slash (c ∷ []) = if c == b'/' then [] else c ∷ []
strip_slash (c ∷ d ∷ s) = c ∷ strip_slash (d ∷ s)

abbrev pub as_ws : Text → Text
as_ws url = if starts_with url (codes "http") then codes "ws" ++ drop 4 url else url

-- `s.replaceAll(secret, "[redacted]")`, for a secret that is not empty; the number counts the units of an
-- occurrence that are left out.
unfoldable pub redact_from : Text → ℕ → Text → Text
redact_from secret skip [] = []
redact_from secret skip (c ∷ s) =
    let rest = redact_from secret (skip - 1) s in
    let replaced = redact_from secret (length secret - 1) s in
    let kept = redact_from secret 0 s in
    if leb 1 skip
    then rest
    else if starts_with (c ∷ s) secret
    then codes "[redacted]" ++ replaced
    else c ∷ kept

abbrev pub redact : Text → Text → Text
redact secret s = redact_from secret 0 s

abbrev pub initial : {B : Type 0} → Options → B → Tunnel B
initial options fresh = record {
  options = options;
  is_stopped = true;
  state = disconnected;
  changes = [];
  socket = none;
  attached = none;
  has_session = false;
  retry_timer = none;
  backoff = fresh;
  connected_at = none;
  last_connected_at = none;
  last_error = none;
  remote_clients = 0;
  dials = [];
}

-- The constructor; `none` where it throws.
unfoldable pub new_tunnel : {B : Type 0} → (Text → Bool) → Options → B → Option (Tunnel B)
new_tunnel is_url options fresh =
    if not (is_url options.worker_url)
      || not (is_url (strip_slash options.loopback_base_url))
      || length options.tunnel_secret == 0
    then none
    else some (initial options fresh)

module _ {B : Type 0} where
  unfoldable pub set_state : TunnelState → Tunnel B → Tunnel B
  set_state next t = record t {
    state = next;
    changes = if is_state t.state next then t.changes else t.changes ++ next ∷ [];
  }

  unfoldable pub teardown_socket : Tunnel B → Tunnel B
  teardown_socket t = record t {
    has_session = false;
    remote_clients = 0;
    attached = none;
    socket = none;
  }

module _ {B : Type 0} (query : Text) (b : Backoff B) where
  abbrev pub dial : Options → Dial
  dial options = record {
    url = strip_slash (as_ws options.worker_url) ++ (codes "/__tunnel" ++ query);
    bearer = codes "Bearer " ++ options.tunnel_secret;
  }

  unfoldable pub open_tunnel : Tunnel B → Tunnel B
  open_tunnel t =
      if t.is_stopped
      then t
      else let at = set_state connecting t in
        record at {
          socket = some (length at.dials);
          attached = some (length at.dials);
          dials = at.dials ++ dial at.options ∷ [];
        }

  unfoldable pub start : Tunnel B → Tunnel B
  start t =
      if not t.is_stopped
      then t
      else open_tunnel (record t { is_stopped = false; backoff = b.reset t.backoff })

  unfoldable pub stop : Tunnel B → Tunnel B
  stop t = set_state stopped (teardown_socket (record t { is_stopped = true; retry_timer = none }))

  abbrev stable_for : ℕ → Option ℕ → ℕ
  stable_for now none = 0
  stable_for now (some since) = now - since

  unfoldable pub schedule_reconnect : ℕ → Tunnel B → Tunnel B
  schedule_reconnect now t =
      if t.is_stopped || is_some t.retry_timer
      then t
      else let next = b.next_delay t.backoff (stable_for now t.connected_at) in
        record (set_state reconnecting (record t { connected_at = none; backoff = next.1 })) {
          retry_timer = some next.0;
        }

  unfoldable pub on_open : ℕ → Tunnel B → Tunnel B
  on_open now t =
      record (set_state connected (record t {
        connected_at = some now;
        last_connected_at = some now;
        last_error = none;
        backoff = b.reset t.backoff;
      })) { has_session = true }

  -- `unexpected-response`, with the text of the status.
  unfoldable pub on_unexpected_response : ℕ → ℕ → Text → Tunnel B → Tunnel B
  on_unexpected_response now status digits t =
      let down = record (teardown_socket t) {
        last_error = some (codes "worker rejected tunnel: HTTP " ++ digits);
      } in
      if status == 409 || status == 426
      then set_state incompatible (record down {
        last_error = some (
            codes "Relay protocol incompatible (HTTP "
            ++ (digits ++ codes "); update the relay deployment."));
        is_stopped = true;
      })
      else if status == 401 || status == 403
      then stop down
      else schedule_reconnect now down

  unfoldable pub on_error : Text → Tunnel B → Tunnel B
  on_error message t = record t { last_error = some (redact t.options.tunnel_secret message) }

  unfoldable pub on_close : ℕ → Tunnel B → Tunnel B
  on_close now t =
      schedule_reconnect now (record t { has_session = false; remote_clients = 0; attached = none })

  abbrev pub on_socket : ℕ → SocketEvent → Tunnel B → Tunnel B
  on_socket now opens t = on_open now t
  on_socket now (unexpected_response status digits) t = on_unexpected_response now status digits t
  on_socket now (error message) t = on_error message t
  on_socket now closes t = on_close now t
  on_socket now (clients_change count) t = record t { remote_clients = count }

  -- The callback of the retry timer.
  unfoldable pub on_timer : Tunnel B → Tunnel B
  on_timer t = open_tunnel (record t { retry_timer = none })

  abbrev pub at_socket : Option ℕ → ℕ → ℕ → SocketEvent → Tunnel B → Tunnel B
  at_socket none socket now e t = t
  at_socket (some s) socket now e t = if s == socket then on_socket now e t else t

  abbrev pub at_timer : Option ℕ → Tunnel B → Tunnel B
  at_timer none t = t
  at_timer (some delay) t = on_timer t

  unfoldable pub step : Event → Tunnel B → Tunnel B
  step start_call t = start t
  step stop_call t = stop t
  step timer_fires t = at_timer t.retry_timer t
  step (socket_event socket now e) t = at_socket t.attached socket now e t

  unfoldable pub run : List Event → Tunnel B → Tunnel B
  run [] t = t
  run (e ∷ more) t = run more (step e t)
