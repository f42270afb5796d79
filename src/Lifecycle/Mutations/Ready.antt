-- ===== src/Lifecycle/Mutations/Ready.antt =====
-- Which connections plugin/worker-lifecycle/worker-lifecycle.ts calls ready, over every sequence of events.
use bb_shared.Base.{
  ℕ, All, Bool, true, false, not, ◌&&◌, ◌||◌, List, [], ◌∷◌, Option, none, some, Text, text_eq,
  lookup, length, is_some, leb, ltb, ◌==◌,
}
use bb_shared.Base.Json.{Json}
use bb_shared.Connections.{Claim, Urls}
use bb_shared.Lifecycle.{Runtime, FetchResult, is_ready, begin_probe, conclude_probe}
use bb_shared.Lifecycle.Connected.{
  IsSound, new_runtime-IsSound, stop_tunnel-IsSound, begin_probe-IsSound, on_status_change-IsSound,
  conclude_probe-IsSound,
}
use bb_shared.Lifecycle.Mutations.{RecordStore, Registration, Lifecycle, fresh, has_failed}
use bb_shared.Lifecycle.Mutations.Steps.{
  Event, initialize_call, stop_call, save_done, tick, tunnel_changes, probe_answered, remove_call,
  set_default_call, register_call, deploy_call, ensure_call, poll, probe_awaited, fail, started,
  initialize, ready_for, mutate, removed, remove_connection, preferred, set_default_connection,
  end_registration, polled, resumed, register, deployed, deploy, step, run,
}
use bb_shared.Lifecycle.Mutations.Everywhere.{
  IsObservable, InCandidate, Everywhere, each-InMap, pick-Everywhere, on_target-Everywhere,
  stop-Everywhere, loaded-Everywhere, kept-Everywhere, begun-Everywhere, complete-Everywhere,
}

-- What an answer to a probe has to keep, if the event is one.
abbrev pub Concludes :
    {C : Type 0} → (Bool → Runtime → Type 0) → (Text → Json → Bool) → Event C → Type 0
Concludes P verify (probe_answered at answer) =
    (aborted : Bool) (r : Runtime)
    → P aborted r
    → P aborted (conclude_probe verify aborted answer r)
Concludes P verify _ = Unit

module _ (P : Bool → Runtime → Type 0) (o : IsObservable P) where
  module _ {S C : Type 0} (st : RecordStore S C) where
    started-Everywhere :
        (i : Option Bool) (s : Lifecycle S) → Everywhere P s → Everywhere P (started st i s)
    started-Everywhere (some done) s h = h
    started-Everywhere none s h = loaded-Everywhere P o (st.load s.store) s h

    initialize-Everywhere : (s : Lifecycle S) → Everywhere P s → Everywhere P (initialize st s)
    unfolding initialize
    initialize-Everywhere s h = started-Everywhere s.initialization s h

    ready_for-Everywhere :
        (i : Option Bool) (operation : Lifecycle S → Lifecycle S) (s : Lifecycle S)
        → ((t : Lifecycle S) → Everywhere P t → Everywhere P (operation t))
        → Everywhere P s
        → Everywhere P (ready_for st i operation s)
    ready_for-Everywhere none operation s h p = p
    ready_for-Everywhere (some false) operation s h p = p
    ready_for-Everywhere (some true) operation s h p =
        pick-Everywhere P o s.aborted _ _ p
          (pick-Everywhere P o (is_some s.candidate || is_some s.saving) s _ p (h s p))

    mutate-Everywhere :
        (operation : Lifecycle S → Lifecycle S) (s : Lifecycle S)
        → ((t : Lifecycle S) → Everywhere P t → Everywhere P (operation t))
        → Everywhere P s
        → Everywhere P (mutate st operation s)
    unfolding mutate
    mutate-Everywhere operation s h p =
        ready_for-Everywhere (initialize st s).initialization operation (initialize st s) h
          (initialize-Everywhere s p)

    removed-Everywhere :
        (c : C) (now : ℕ) (id : Text) (r : Option Runtime) (s : Lifecycle S)
        → Everywhere P s
        → Everywhere P (removed st c now id r s)
    removed-Everywhere c now id none s h = h
    removed-Everywhere c now id (some r) s (a, p) = kept-Everywhere P o _ _ s s (a, p) (a, p)

    remove_connection-Everywhere :
        (c : C) (now : ℕ) (id : Text) (s : Lifecycle S)
        → Everywhere P s
        → Everywhere P (remove_connection st c now id s)
    unfolding remove_connection
    remove_connection-Everywhere c now id s h =
        removed-Everywhere c now id (lookup id s.connections) s h

    preferred-Everywhere :
        (c : C) (now : ℕ) (id : Text) (r : Option Runtime) (s : Lifecycle S)
        → Everywhere P s
        → Everywhere P (preferred st c now id r s)
    preferred-Everywhere c now id none s h = h
    preferred-Everywhere c now id (some r) s h = kept-Everywhere P o _ _ s s h h

    set_default_connection-Everywhere :
        (c : C) (now : ℕ) (id : Text) (s : Lifecycle S)
        → Everywhere P s
        → Everywhere P (set_default_connection st c now id s)
    unfolding set_default_connection
    set_default_connection-Everywhere c now id s h =
        preferred-Everywhere c now id (lookup id s.connections) s h

    end_registration-Everywhere :
        (c : C) (now : ℕ) (g : Registration) (s : Lifecycle S)
        → P s.aborted g.runtime
        → Everywhere P s
        → Everywhere P (end_registration st c now g s)
    unfolding end_registration fail
    end_registration-Everywhere c now g s p (a, q) =
        pick-Everywhere P o (not (is_ready g.runtime.state) || s.aborted) _ _ (a, tt)
          (kept-Everywhere P o _ _ _ _ (a, q) (a, tt))

    polled-Everywhere :
        (c : C) (now : ℕ) (challenge : Text) (g : Option Registration) (s : Lifecycle S)
        → InCandidate P s.aborted g
        → Everywhere P s
        → Everywhere P (polled st c now challenge g s)
    polled-Everywhere c now challenge none s p h = h
    polled-Everywhere c now challenge (some g) s p (a, q) =
        pick-Everywhere P o (g.awaits_probe || is_some s.saving) s _ (a, q)
          (pick-Everywhere P o (ltb now g.deadline && not s.aborted) _ _
            (a, o.begins s.aborted challenge g.runtime p)
            (end_registration-Everywhere c now g s p (a, q)))

    resumed-Everywhere :
        (c : C) (now : ℕ) (g : Option Registration) (s : Lifecycle S)
        → InCandidate P s.aborted g
        → Everywhere P s
        → Everywhere P (resumed st c now g s)
    unfolding fail
    resumed-Everywhere c now none s p h = h
    resumed-Everywhere c now (some g) s p (a, q) =
        pick-Everywhere P o (not g.awaits_probe || (is_some g.runtime.probe || is_some s.saving)) s
          _ (a, q)
          (pick-Everywhere P o (is_ready g.runtime.state) _ _
            (end_registration-Everywhere c now g s p (a, q))
            (pick-Everywhere P o (has_failed g.runtime.tunnel) _ _ (a, tt) (a, p)))

    module _ (u : Urls) (protocol : Text) (timeout : ℕ) where
      register-Everywhere :
          (now : ℕ) (id url secret : Text) (claim : Option Claim) (reply : FetchResult)
          (s : Lifecycle S)
          → Everywhere P s
          → Everywhere P (register st u protocol timeout now id url secret claim reply s)
      unfolding register
      register-Everywhere now id url secret claim reply s h = begun-Everywhere P o now timeout _ s h

      deployed-Everywhere :
          (now : ℕ) (id secret : Text) (worker : Option (Text × Option Claim)) (reply : FetchResult)
          (s : Lifecycle S)
          → Everywhere P s
          → Everywhere P (deployed st u protocol timeout now id secret worker reply s)
      deployed-Everywhere now id secret none reply s h = h
      deployed-Everywhere now id secret (some (url, claim)) reply s h =
          register-Everywhere now id url secret claim reply s h

      deploy-Everywhere :
          (now : ℕ) (id secret : Text) (worker : Option (Text × Option Claim)) (reply : FetchResult)
          (s : Lifecycle S)
          → Everywhere P s
          → Everywhere P (deploy st u protocol timeout now id secret worker reply s)
      unfolding deploy
      deploy-Everywhere now id secret worker reply s h =
          pick-Everywhere P o (leb 16 (length s.connections)) _ _ h
            (deployed-Everywhere now id secret worker reply s h)

      module _ (verify : Text → Json → Bool) where
        step-Everywhere :
            (e : Event C) (s : Lifecycle S)
            → Concludes P verify e
            → Everywhere P s
            → Everywhere P (step st u protocol timeout verify e s)
        unfolding step
        step-Everywhere initialize_call s k h = initialize-Everywhere s h
        step-Everywhere stop_call s k h = stop-Everywhere P o s h
        step-Everywhere save_done s k h = complete-Everywhere P o s h
        step-Everywhere (tick challenges) s k (a, c) = (
          each-InMap P o s.aborted s.aborted (λ id. begin_probe s.aborted (challenges id))
              s.connections (λ id r p. o.begins s.aborted (challenges id) r p) a,
          c,
        )
        step-Everywhere (tunnel_changes at challenge status) s k h =
            on_target-Everywhere P o at _ s (o.changes s.aborted challenge status) h
        step-Everywhere (probe_answered at answer) s k h =
            on_target-Everywhere P o at _ s (k s.aborted) h
        step-Everywhere (remove_call c now id) s k h =
            mutate-Everywhere _ s (λ t p. remove_connection-Everywhere c now id t p) h
        step-Everywhere (set_default_call c now id) s k h =
            mutate-Everywhere _ s (λ t p. set_default_connection-Everywhere c now id t p) h
        step-Everywhere (register_call now id url secret reply) s k h =
            mutate-Everywhere _ s (register-Everywhere now id url secret none reply) h
        step-Everywhere (deploy_call now id secret worker reply) s k h =
            mutate-Everywhere _ s (deploy-Everywhere now id secret worker reply) h
        step-Everywhere (ensure_call now id secret worker reply) s k h =
            mutate-Everywhere _ s
              (λ t p.
                pick-Everywhere P o (length t.connections == 0) _ t
                  (deploy-Everywhere now id secret worker reply t p) p)
              h
        step-Everywhere (poll c now challenge) s k h =
            polled-Everywhere c now challenge s.candidate s h.1 h
        step-Everywhere (probe_awaited c now) s k h = resumed-Everywhere c now s.candidate s h.1 h

        pub run-Everywhere :
            (es : List (Event C)) (s : Lifecycle S)
            → All (Concludes P verify) es
            → Everywhere P s
            → Everywhere P (run st u protocol timeout verify es s)
        unfolding run
        run-Everywhere [] s k h = h
        run-Everywhere (e ∷ es) s (k, ks) h = run-Everywhere es _ ks (step-Everywhere e s k h)

sound : IsObservable IsSound
sound = record {
  starts = new_runtime-IsSound;
  begins = begin_probe-IsSound;
  changes = λ aborted. on_status_change-IsSound aborted aborted;
  stops = stop_tunnel-IsSound;
}

event-Concludes :
    {C : Type 0} (verify : Text → Json → Bool) (e : Event C) → Concludes IsSound verify e
event-Concludes verify (probe_answered at answer) =
    λ aborted r p. conclude_probe-IsSound verify aborted answer r p
event-Concludes verify initialize_call = tt
event-Concludes verify stop_call = tt
event-Concludes verify save_done = tt
event-Concludes verify (tick challenges) = tt
event-Concludes verify (tunnel_changes at challenge status) = tt
event-Concludes verify (remove_call c now id) = tt
event-Concludes verify (set_default_call c now id) = tt
event-Concludes verify (register_call now id url secret reply) = tt
event-Concludes verify (deploy_call now id secret worker reply) = tt
event-Concludes verify (ensure_call now id secret worker reply) = tt
event-Concludes verify (poll c now challenge) = tt
event-Concludes verify (probe_awaited c now) = tt

events-Conclude :
    {C : Type 0} (verify : Text → Json → Bool) (es : List (Event C))
    → All (Concludes IsSound verify) es
events-Conclude verify [] = tt
events-Conclude verify (e ∷ es) = (event-Concludes verify e, events-Conclude verify es)

-- Over every sequence of events, each connection that is ready has a tunnel that is connected, none is ready
-- after the end, and a probe that is on its way is of an earlier generation of its connection's tunnel or the
-- tunnel is connected.
pub run_fresh-IsSound :
    {S C : Type 0} (st : RecordStore S C) (u : Urls) (protocol : Text) (timeout : ℕ)
    (verify : Text → Json → Bool) (es : List (Event C)) (store : S)
    → Everywhere IsSound (run st u protocol timeout verify es (fresh store))
run_fresh-IsSound st u protocol timeout verify es store =
    run-Everywhere IsSound sound st u protocol timeout verify es (fresh store)
      (events-Conclude verify es) (tt, tt)
