-- ===== src/Lifecycle/Mutations/Verified.antt =====
-- Which connections of plugin/worker-lifecycle/worker-lifecycle.ts never get ready.
use bb_shared.Base.{
  Bool-cases, inl, inr, ℕ, ◌≡◌, refl, ap, ◌∙◌, All, Bool, true, false, not, ◌||◌, List, [], ◌∷◌,
  Option, none, some, Text, is_some, arith, if◌then◌else◌, ◌==◌,
}
use bb_shared.Base.Json.{Json}
use bb_shared.SharedTunnel.{TunnelState}
use bb_shared.Connections.{Urls}
use bb_shared.Lifecycle.{
  TunnelStatus, Runtime, Probe, FetchResult, responded, fetch_failed, is_ok_status, is_ready,
  new_runtime, changed_runtime, begin_probe, on_status_change, connect, stopped_tunnel, stop_tunnel,
  trouble, judged, concluded, conclude_probe,
}
use bb_shared.Lifecycle.Connected.{state_after-unready}
use bb_shared.Lifecycle.Mutations.{RecordStore, fresh}
use bb_shared.Lifecycle.Mutations.Steps.{
  Event, initialize_call, stop_call, save_done, tick, tunnel_changes, probe_answered, remove_call,
  set_default_call, register_call, deploy_call, ensure_call, poll, probe_awaited, run,
}
use bb_shared.Lifecycle.Mutations.Everywhere.{IsObservable, Everywhere}
use bb_shared.Lifecycle.Mutations.Ready.{Concludes, run-Everywhere}

unfoldable pub IsUnready : Bool → Runtime → Type 0
IsUnready aborted r = is_ready r.state ≡ false

-- An event that is no answer to a probe, or one whose body verifies for no challenge if its status is good.
abbrev pub IsUnverified : {C : Type 0} → (Text → Json → Bool) → Event C → Type 0
IsUnverified verify (probe_answered at (responded status digits body)) =
    (challenge : Text) → is_ok_status status ≡ true → verify challenge body ≡ false
IsUnverified verify _ = Unit

begin_probe-state :
    (aborted : Bool) (challenge : Text) (r : Runtime)
    → (begin_probe aborted challenge r).state ≡ r.state
unfolding begin_probe
begin_probe-state aborted challenge r = ground arith

on_status_change-IsUnready :
    (before aborted : Bool) (challenge : Text) (status : TunnelStatus) (r : Runtime)
    → IsUnready before (on_status_change aborted challenge status r)
unfolding on_status_change IsUnready
on_status_change-IsUnready before aborted challenge status r = ground (
  arith,
  begin_probe-state aborted challenge (changed_runtime status r),
  state_after-unready status.state,
)

stopped_tunnel-IsUnready :
    (before : Bool) (tunnel : Option TunnelStatus) (r : Runtime)
    → IsUnready before r
    → IsUnready true (stopped_tunnel tunnel r)
unfolding IsUnready
stopped_tunnel-IsUnready before none r h = h
stopped_tunnel-IsUnready before (some status) r h = ground (
  arith,
  on_status_change-IsUnready true true [] (record status { state = TunnelState.stopped }) r,
)

unready : IsObservable IsUnready
unfolding IsUnready connect stop_tunnel
unready = record {
  starts = λ aborted c. ground (
    arith,
    on_status_change-IsUnready aborted aborted []
        (record { state = TunnelState.connecting; last_error = none }) (new_runtime c),
  );
  begins = λ aborted challenge r h. ap is_ready (begin_probe-state aborted challenge r) ∙ h;
  changes =
      λ aborted challenge status r h. on_status_change-IsUnready aborted aborted challenge status r;
  stops = λ before r h. stopped_tunnel-IsUnready before r.tunnel r h;
}

judged-unready :
    (problem : Option Text) (r : Runtime)
    → is_some problem ≡ true
    → is_ready (judged problem r).state ≡ false
unfolding judged
judged-unready none r h = absurd cc
judged-unready (some message) r h = refl

pick-unready :
    (b : Bool) (x y : Runtime)
    → is_ready x.state ≡ false
    → is_ready y.state ≡ false
    → is_ready (if b then x else y).state ≡ false
pick-unready true x y h k = h
pick-unready false x y h k = k

module _ (verify : Text → Json → Bool) where
  concluded-unready :
      (aborted : Bool) (answer : FetchResult) (p : Option Probe) (r : Runtime)
      → ((challenge : Text) → is_some (trouble verify challenge answer) ≡ true)
      → is_ready r.state ≡ false
      → is_ready (concluded verify aborted answer p r).state ≡ false
  concluded-unready aborted answer none r u h = h
  concluded-unready aborted answer (some p) r u h =
      pick-unready (not (r.generation == p.generation) || aborted) _ _ h (
        judged-unready (trouble verify p.challenge answer) (record r { probe = none })
          (u p.challenge))

  responded-trouble :
      (challenge : Text) (status : ℕ) (digits : Text) (body : Json)
      → (is_ok_status status ≡ true → verify challenge body ≡ false)
      → is_some (trouble verify challenge (responded status digits body)) ≡ true
  unfolding trouble
  responded-trouble challenge status digits body u = elim (Bool-cases (is_ok_status status)) [
    | inl good ↦ rw (good, u good) refl
    | inr bad ↦ rw bad refl
  ]

  failed-trouble :
      (challenge : Text) (message : Option Text)
      → is_some (trouble verify challenge (fetch_failed message)) ≡ true
  unfolding trouble
  failed-trouble challenge message = refl

  event-Concludes :
      {C : Type 0} (e : Event C) → IsUnverified verify e → Concludes IsUnready verify e
  unfolding conclude_probe IsUnready
  event-Concludes (probe_answered at (responded status digits body)) u = λ aborted r h.
      concluded-unready aborted (responded status digits body) r.probe r
        (λ challenge. responded-trouble challenge status digits body (u challenge)) h
  event-Concludes (probe_answered at (fetch_failed message)) u = λ aborted r h.
      concluded-unready aborted (fetch_failed message) r.probe r
        (λ challenge. failed-trouble challenge message) h
  event-Concludes initialize_call u = tt
  event-Concludes stop_call u = tt
  event-Concludes save_done u = tt
  event-Concludes (tick challenges) u = tt
  event-Concludes (tunnel_changes at challenge status) u = tt
  event-Concludes (remove_call c now id) u = tt
  event-Concludes (set_default_call c now id) u = tt
  event-Concludes (register_call now id url secret reply) u = tt
  event-Concludes (deploy_call now id secret worker reply) u = tt
  event-Concludes (ensure_call now id secret worker reply) u = tt
  event-Concludes (poll c now challenge) u = tt
  event-Concludes (probe_awaited c now) u = tt

  events-Conclude :
      {C : Type 0} (es : List (Event C))
      → All (IsUnverified verify) es
      → All (Concludes IsUnready verify) es
  events-Conclude [] u = tt
  events-Conclude (e ∷ es) (u, us) = (event-Concludes e u, events-Conclude es us)

-- Over every sequence of events in which `verifyReadiness` accepts the body of no good answer to a probe, for no
-- challenge, no connection and no candidate of a registration is ever ready, whatever the relays, their tunnels
-- and the store do.
pub run_fresh-IsUnready :
    {S C : Type 0} (st : RecordStore S C) (u : Urls) (protocol : Text) (timeout : ℕ)
    (verify : Text → Json → Bool) (es : List (Event C)) (store : S)
    → All (IsUnverified verify) es
    → Everywhere IsUnready (run st u protocol timeout verify es (fresh store))
unfolding IsUnready
run_fresh-IsUnready st u protocol timeout verify es store h =
    run-Everywhere IsUnready unready st u protocol timeout verify es (fresh store)
      (events-Conclude verify es h) (tt, tt)
