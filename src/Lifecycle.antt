-- ===== src/Lifecycle.antt =====
-- plugin/worker-lifecycle/worker-lifecycle.ts: one connection at a time, its tunnel and its probe.
-- A tunnel is what `getStatus` tells of it, and tells its changes. What `fetch` answers and what the gateway
-- verifies are arguments.
pub mod Connected
pub mod Mutations
use bb_shared.Base.{
  ℕ, suc, [], Bool, true, false, not, ◌&&◌, ◌||◌, ◌++◌, Option, none, some, Text, codes, is_some,
  if◌then◌else◌, leb, ◌==◌,
}
use bb_shared.Base.Json.{Json}
use bb_shared.TokenStore.{or_else}
use bb_shared.SharedTunnel.{TunnelState}
use bb_shared.Redaction.{redact_secrets}
use bb_shared.Connections.{ConnectionRecord}

pub data ConnectionState : Type 0 where
  connecting ready offline incompatible : ConnectionState

pub record TunnelStatus : Type 0 where
  pub state : TunnelState
  pub last_error : Option Text

-- A request for the readiness proof that is on its way: `generation`, and the challenge in its address.
pub record Probe : Type 0 where
  pub generation : ℕ
  pub challenge : Text

pub record Runtime : Type 0 where
  pub connection : ConnectionRecord
  pub state : ConnectionState
  pub fault : Option Text
  pub tunnel : Option TunnelStatus
  pub probe : Option Probe
  pub generation : ℕ

-- What `fetch` gives: an error, with its message if it has one, or a status and the body, which is `null` if it
-- is no JSON.
pub data FetchResult : Type 0 where
  fetch_failed : (message : Option Text) → FetchResult
  responded : (status : ℕ) (digits : Text) (body : Json) → FetchResult

-- `response.ok`.
abbrev pub is_ok_status : ℕ → Bool
is_ok_status status = leb 200 status && leb status 299

abbrev pub is_ready : ConnectionState → Bool
is_ready ready = true
is_ready _ = false

abbrev is_up : TunnelState → Bool
is_up TunnelState.connected = true
is_up _ = false

abbrev pub is_connected : Option TunnelStatus → Bool
is_connected none = false
is_connected (some status) = is_up status.state

abbrev pub is_stopped : TunnelState → Bool
is_stopped TunnelState.stopped = true
is_stopped _ = false

abbrev pub new_runtime : ConnectionRecord → Runtime
new_runtime connection = record {
  connection = connection;
  state = connecting;
  fault = none;
  tunnel = none;
  probe = none;
  generation = 0;
}

abbrev pub state_after : TunnelState → ConnectionState
state_after TunnelState.incompatible = incompatible
state_after TunnelState.stopped = offline
state_after TunnelState.reconnecting = offline
state_after TunnelState.disconnected = offline
state_after TunnelState.connecting = connecting
state_after TunnelState.connected = connecting

unfoldable pub fault_after : TunnelState → Option Text → Option Text
fault_after TunnelState.connected last_error = none
fault_after TunnelState.connecting last_error = none
fault_after _ last_error =
    some (or_else last_error (codes "Connection to relay interrupted; reconnecting."))

-- The beginning of `probe`, up to the request.
unfoldable pub begin_probe : Bool → Text → Runtime → Runtime
begin_probe aborted challenge r =
    if is_some r.probe || (aborted || not (is_connected r.tunnel))
    then r
    else record r { probe = some (record { generation = r.generation; challenge = challenge }) }

abbrev pub changed_runtime : TunnelStatus → Runtime → Runtime
changed_runtime status r = record r {
  generation = suc r.generation;
  state = state_after status.state;
  fault = fault_after status.state status.last_error;
  tunnel = some status;
}

-- `onStatusChange`, with the challenge of the probe that it may begin.
unfoldable pub on_status_change : Bool → Text → TunnelStatus → Runtime → Runtime
on_status_change aborted challenge status r =
    let changed = changed_runtime status r in
    if is_up status.state then begin_probe aborted challenge changed else changed

-- `connect`: a tunnel that starts tells that it is connecting.
unfoldable pub connect : Bool → Runtime → Runtime
connect aborted r =
    if aborted
    then r
    else on_status_change aborted [] (record { state = TunnelState.connecting; last_error = none })
        r

-- `runtime.tunnel?.stop()`: a tunnel that was not stopped before tells that it is.
abbrev pub stopped_tunnel : Option TunnelStatus → Runtime → Runtime
stopped_tunnel none r = r
stopped_tunnel (some status) r =
    if is_stopped status.state
    then r
    else on_status_change true [] (record status { state = TunnelState.stopped }) r

unfoldable pub stop_tunnel : Runtime → Runtime
stop_tunnel r = stopped_tunnel r.tunnel r

unfoldable pub judged : Option Text → Runtime → Runtime
judged none r = record r { state = ready; fault = none }
judged (some message) r = record r { state = offline; fault = some (redact_secrets message) }

module _ (verify : Text → Json → Bool) where
  -- What an answer tells of the relay: nothing wrong, or the message of the error.
  unfoldable pub trouble : Text → FetchResult → Option Text
  trouble challenge (fetch_failed message) =
      some (or_else message (codes "Guest gateway is unavailable."))
  trouble challenge (responded status digits body) =
      if is_ok_status status && verify challenge body
      then none
      else some (codes "Guest gateway readiness failed (HTTP " ++ (digits ++ codes ")."))

  abbrev pub concluded : Bool → FetchResult → Option Probe → Runtime → Runtime
  concluded aborted answer none r = r
  concluded aborted answer (some p) r =
      let free : Runtime = record r { probe = none } in
      if not (r.generation == p.generation) || aborted
      then free
      else judged (trouble p.challenge answer) free

  -- The rest of `probe`, when its request is answered.
  unfoldable pub conclude_probe : Bool → FetchResult → Runtime → Runtime
  conclude_probe aborted answer r = concluded aborted answer r.probe r
