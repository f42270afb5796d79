-- ===== src/Lifecycle/Connected.antt =====
-- When plugin/worker-lifecycle/worker-lifecycle.ts calls a connection ready.
use bb_shared.Base.{
  ℕ, suc, [], ◌≡◌, refl, subst, Bool, true, false, not, ◌&&◌, ◌||◌, Option, none, some, Text, arith,
  if◌then◌else◌, leb, ◌==◌,
}
use bb_shared.Base.Json.{Json}
use bb_shared.SharedTunnel.{TunnelState}
use bb_shared.Connections.{ConnectionRecord}
use bb_shared.Lifecycle.{
  TunnelStatus, Probe, Runtime, FetchResult, is_ready, is_connected, new_runtime, state_after,
  changed_runtime, begin_probe, on_status_change, connect, stopped_tunnel, stop_tunnel, trouble,
  judged, concluded, conclude_probe,
}

-- A probe is of an earlier generation, or of this one, in which the tunnel is still up.
abbrev is_timely : Option TunnelStatus → ℕ → Option Probe → Bool
is_timely tunnel generation none = true
is_timely tunnel generation (some p) =
    leb p.generation generation && (not (p.generation == generation) || is_connected tunnel)

-- A connection is ready only while its tunnel is up, and not after the end.
abbrev is_sound : Bool → Runtime → Bool
is_sound aborted r =
    (not (is_ready r.state) || is_connected r.tunnel)
    && (not (aborted && is_ready r.state) && is_timely r.tunnel r.generation r.probe)

unfoldable pub IsSound : Bool → Runtime → Type 0
IsSound aborted r = is_sound aborted r ≡ true

pub state_after-unready : (s : TunnelState) → is_ready (state_after s) ≡ false
state_after-unready TunnelState.incompatible = refl
state_after-unready TunnelState.stopped = refl
state_after-unready TunnelState.reconnecting = refl
state_after-unready TunnelState.disconnected = refl
state_after-unready TunnelState.connecting = refl
state_after-unready TunnelState.connected = refl

is_timely-later :
    (tunnel next : Option TunnelStatus) (generation : ℕ) (p : Option Probe)
    → is_timely tunnel generation p ≡ true
    → is_timely next (suc generation) p ≡ true
is_timely-later tunnel next generation none h = refl
is_timely-later tunnel next generation (some p) h = ground arith

pub begin_probe-IsSound :
    (aborted : Bool) (challenge : Text) (r : Runtime)
    → IsSound aborted r
    → IsSound aborted (begin_probe aborted challenge r)
unfolding begin_probe IsSound
begin_probe-IsSound aborted challenge r h = ground arith

pub on_status_change-IsSound :
    (before aborted : Bool) (challenge : Text) (status : TunnelStatus) (r : Runtime)
    → IsSound before r
    → IsSound aborted (on_status_change aborted challenge status r)
unfolding on_status_change IsSound
on_status_change-IsSound before aborted challenge status r h =
    let unready = state_after-unready status.state in
    let later = is_timely-later r.tunnel (some status) r.generation r.probe (ground arith) in
    let changed : IsSound aborted (changed_runtime status r) = ground (arith, unready, later) in
    ground
      (arith, changed, begin_probe-IsSound aborted challenge (changed_runtime status r) changed)

connect-IsSound :
    (aborted : Bool) (r : Runtime) → IsSound aborted r → IsSound aborted (connect aborted r)
unfolding connect IsSound
connect-IsSound aborted r h = ground (
  arith,
  on_status_change-IsSound aborted aborted []
      (record { state = TunnelState.connecting; last_error = none }) r h,
)

pub new_runtime-IsSound :
    (aborted : Bool) (c : ConnectionRecord) → IsSound aborted (connect aborted (new_runtime c))
unfolding IsSound
new_runtime-IsSound aborted c = connect-IsSound aborted (new_runtime c) (ground arith)

stopped_tunnel-IsSound :
    (before : Bool) (tunnel : Option TunnelStatus) (r : Runtime)
    → r.tunnel ≡ tunnel
    → IsSound before r
    → IsSound true (stopped_tunnel tunnel r)
unfolding IsSound
stopped_tunnel-IsSound before none r e h = ground (arith, e)
stopped_tunnel-IsSound before (some status) r e h = ground (
  arith,
  e,
  on_status_change-IsSound before true [] (record status { state = TunnelState.stopped }) r h,
)

pub stop_tunnel-IsSound :
    (before : Bool) (r : Runtime) → IsSound before r → IsSound true (stop_tunnel r)
unfolding stop_tunnel IsSound
stop_tunnel-IsSound before r h = stopped_tunnel-IsSound before r.tunnel r refl h

judged-IsSound :
    (aborted : Bool) (problem : Option Text) (r : Runtime)
    → aborted ≡ false
    → IsSound aborted r
    → is_connected r.tunnel ≡ true
    → IsSound aborted (judged problem r)
unfolding IsSound judged
judged-IsSound aborted none r running h up = ground (arith, up)
judged-IsSound aborted (some message) r running h up = ground (arith, up)

-- Without its probe, and what is known where the probe is of this generation.
freed-IsSound :
    (aborted : Bool) (r : Runtime) → IsSound aborted r → IsSound aborted (record r { probe = none })
unfolding IsSound
freed-IsSound aborted r h = ground arith

timely-connected :
    (aborted : Bool) (r : Runtime) (p : Probe)
    → IsSound aborted r
    → r.probe ≡ some p
    → (r.generation == p.generation) ≡ true
    → is_connected r.tunnel ≡ true
unfolding IsSound
timely-connected aborted r p h e same_generation =
    let timely : is_timely r.tunnel r.generation (some p) ≡ true =
      subst (λ o. is_timely r.tunnel r.generation o ≡ true) e (ground arith) in
    ground (arith, timely)

pick-IsSound :
    (aborted b : Bool) (x y : Runtime)
    → (b ≡ true → IsSound aborted x)
    → (b ≡ false → IsSound aborted y)
    → IsSound aborted (if b then x else y)
pick-IsSound aborted true x y h k = h refl
pick-IsSound aborted false x y h k = k refl

current_probe : (b aborted : Bool) → (not b || aborted) ≡ false → (b ≡ true) × (aborted ≡ false)
current_probe true aborted e = (refl, e)
current_probe false aborted e = absurd cc

module _ (verify : Text → Json → Bool) where
  concluded-IsSound :
      (aborted : Bool) (answer : FetchResult) (p : Option Probe) (r : Runtime)
      → r.probe ≡ p
      → IsSound aborted r
      → IsSound aborted (concluded verify aborted answer p r)
  concluded-IsSound aborted answer none r e h = h
  concluded-IsSound aborted answer (some p) r e h =
      let free = freed-IsSound aborted r h in
      pick-IsSound aborted (not (r.generation == p.generation) || aborted) _ _ (λ late. free)
        (λ now.
          let (current, running) = current_probe (r.generation == p.generation) aborted now in
          judged-IsSound aborted (trouble verify p.challenge answer) _ running free
            (timely-connected aborted r p h e current))

  pub conclude_probe-IsSound :
      (aborted : Bool) (answer : FetchResult) (r : Runtime)
      → IsSound aborted r
      → IsSound aborted (conclude_probe verify aborted answer r)
  unfolding conclude_probe
  conclude_probe-IsSound aborted answer r h = concluded-IsSound aborted answer r.probe r refl h
