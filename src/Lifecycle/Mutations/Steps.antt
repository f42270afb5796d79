-- ===== src/Lifecycle/Mutations/Steps.antt =====
-- The calls and events of plugin/worker-lifecycle/worker-lifecycle.ts as steps.
use mathlib.Core.Logic.{◌⊎◌, inl, inr}
use bb_shared.Base.{
  ℕ, ◌+◌, Bool, true, false, not, ◌&&◌, ◌||◌, List, [], ◌∷◌, ◌++◌, Option, none, some, Text, codes,
  same, text_eq, Dict, lookup, insert, erase, length, is_some, if◌then◌else◌, leb, ltb, ◌==◌,
}
use bb_shared.Base.Json.{Json}
use bb_shared.TokenStore.{or_else}
use bb_shared.Redaction.{redact_secrets}
use bb_shared.Connections.{Claim, ConnectionRecord, Snapshot, Urls}
use bb_shared.Lifecycle.{
  TunnelStatus, Runtime, FetchResult, is_ready, new_runtime, begin_probe, on_status_change, connect,
  conclude_probe,
}
use bb_shared.Lifecycle.Mutations.{
  RecordStore, Refusal, stopping, not_loaded, not_found, not_saved, too_many, no_worker, not_paired,
  Registration, Lifecycle, records, each, on_runtime, pruned, default_after, new_record, has_failed,
  connect_all, refuse, stop, Commit, removal, preference, addition,
}

-- A connection by its id, or the candidate.
pub data Target : Type 0 where
  connection : (id : Text) → Target
  candidate : Target

-- What can happen. A call comes with the time, the store's circumstances and the answers that it awaits.
pub data Event (C : Type 0) : Type 0 where
  initialize_call stop_call save_done : Event C
  tick : (challenges : Text → Text) → Event C
  tunnel_changes : Target → (challenge : Text) → TunnelStatus → Event C
  probe_answered : Target → FetchResult → Event C
  remove_call set_default_call : C → (now : ℕ) (id : Text) → Event C
  register_call : (now : ℕ) (id url secret : Text) → (reply : FetchResult) → Event C
  deploy_call ensure_call :
      (now : ℕ) (id secret : Text)
      → (worker : Option (Text × Option Claim)) (reply : FetchResult) → Event C
  poll : C → (now : ℕ) (challenge : Text) → Event C
  probe_awaited : C → (now : ℕ) → Event C

-- The object under a key, changed in place.
unfoldable pub update : Text → (Runtime → Runtime) → Dict Text Runtime → Dict Text Runtime
update id f m = each (λ k r. if same k id then f r else r) m

module _ {S : Type 0} where
  abbrev pub on_target : Target → (Runtime → Runtime) → Lifecycle S → Lifecycle S
  on_target (connection id) f s = record s { connections = update id f s.connections }
  on_target candidate f s = record s { candidate = on_runtime f s.candidate }

  abbrev pub loaded : Option Snapshot × S → Lifecycle S → Lifecycle S
  loaded (none, store) s = record s { initialization = some false; store = store }
  loaded (some snapshot, store) s = record s {
    initialization = some true;
    store = store;
    default_id = snapshot.default_id;
    connections = connect_all s.aborted snapshot.connections s.connections;
  }

  -- A call that awaits its save, or whose save threw; then the second state is left.
  abbrev pub kept : Option S → Commit → Lifecycle S → Lifecycle S → Lifecycle S
  kept none p s left = refuse not_saved left
  kept (some store) p s left = record s { store = store; saving = some p }

  -- The `catch` and `finally` of `register`; the tunnel of the candidate is stopped and forgotten.
  unfoldable pub fail : Text → Lifecycle S → Lifecycle S
  fail message s = refuse (not_paired (redact_secrets message)) (record s { candidate = none })

  -- The rest of `register`, after the save.
  abbrev pub added : Text → Option Registration → Lifecycle S → Lifecycle S
  added default_id none s = s
  added default_id (some g) s =
      if s.aborted
      then fail (codes "Sharing stopped while registering the connection.") s
      else record s {
        connections = insert g.runtime.connection.id g.runtime s.connections;
        candidate = none;
        default_id = some default_id;
      }

  abbrev pub completed : Option Commit → Lifecycle S → Lifecycle S
  completed none s = s
  completed (some (removal id default_id)) s = record s {
    connections = erase id s.connections;
    default_id = default_id;
    saving = none;
  }
  completed (some (preference id)) s = record s { default_id = some id; saving = none }
  completed (some (addition default_id)) s =
      added default_id s.candidate (record s { saving = none })

  -- The rest of a call, when its save is done.
  unfoldable pub complete : Lifecycle S → Lifecycle S
  complete s = completed s.saving s

  abbrev pub begun : (now timeout : ℕ) → Refusal ⊎ ConnectionRecord → Lifecycle S → Lifecycle S
  begun now timeout (inl why) s = refuse why s
  begun now timeout (inr r) s = record s {
    candidate = some (record {
      runtime = connect s.aborted (new_runtime r);
      deadline = now + timeout;
      awaits_probe = false;
    });
  }

module _ {S C : Type 0} (st : RecordStore S C) where
  abbrev pub started : Option Bool → Lifecycle S → Lifecycle S
  started (some done) s = s
  started none s = loaded (st.load s.store) s

  unfoldable pub initialize : Lifecycle S → Lifecycle S
  initialize s = started s.initialization s

  -- A call that comes while another one polls or saves waits for its end; its event is the one after that.
  abbrev pub ready_for : Option Bool → (Lifecycle S → Lifecycle S) → Lifecycle S → Lifecycle S
  ready_for (some true) operation s =
      if s.aborted
      then refuse stopping s
      else if is_some s.candidate || is_some s.saving
      then s
      else operation s
  ready_for _ operation s = refuse not_loaded s

  unfoldable pub mutate : (Lifecycle S → Lifecycle S) → Lifecycle S → Lifecycle S
  mutate operation s = let t = initialize s in ready_for t.initialization operation t

  unfoldable pub save_records : C → ℕ → Lifecycle S → List ConnectionRecord → Option Text → Option S
  save_records c now s rs default_id = st.save c s.store (pruned now default_id rs)

  abbrev pub removed : C → ℕ → Text → Option Runtime → Lifecycle S → Lifecycle S
  removed c now id none s = refuse not_found s
  removed c now id (some r) s =
      let next = erase id s.connections in
      let default_id = default_after id next s.default_id in
      kept (save_records c now s (records next) default_id) (removal id default_id) s s

  unfoldable pub remove_connection : C → ℕ → Text → Lifecycle S → Lifecycle S
  remove_connection c now id s = removed c now id (lookup id s.connections) s

  abbrev pub preferred : C → ℕ → Text → Option Runtime → Lifecycle S → Lifecycle S
  preferred c now id none s = refuse not_found s
  preferred c now id (some r) s =
      kept (save_records c now s (records s.connections) (some id)) (preference id) s s

  unfoldable pub set_default_connection : C → ℕ → Text → Lifecycle S → Lifecycle S
  set_default_connection c now id s = preferred c now id (lookup id s.connections) s

  -- `register` after the polling, up to its save.
  unfoldable pub end_registration : C → ℕ → Registration → Lifecycle S → Lifecycle S
  end_registration c now g s =
      if not (is_ready g.runtime.state) || s.aborted
      then fail
          (or_else g.runtime.fault (
            codes "The relay did not establish a working connection to BB. "
            ++ codes "Check the hostname and pairing secret, then retry."))
          s
      else let r = g.runtime.connection in
        let default_id = or_else s.default_id r.id in
        kept (save_records c now s (records s.connections ++ r ∷ []) (some default_id))
          (addition default_id) s (record s { candidate = none })

  -- The head of the loop, and the probe that it awaits.
  abbrev pub polled : C → ℕ → Text → Option Registration → Lifecycle S → Lifecycle S
  polled c now challenge none s = s
  polled c now challenge (some g) s =
      if g.awaits_probe || is_some s.saving
      then s
      else if ltb now g.deadline && not s.aborted
      then record s {
        candidate =
            some (record g {
              runtime = begin_probe s.aborted challenge g.runtime;
              awaits_probe = true;
            });
      }
      else end_registration c now g s

  -- The rest of the loop's body.
  abbrev pub resumed : C → ℕ → Option Registration → Lifecycle S → Lifecycle S
  resumed c now none s = s
  resumed c now (some g) s =
      if not g.awaits_probe || (is_some g.runtime.probe || is_some s.saving)
      then s
      else if is_ready g.runtime.state
      then end_registration c now g s
      else if has_failed g.runtime.tunnel
      then fail (or_else g.runtime.fault (codes "Relay pairing failed. Check the pairing secret."))
          s
      else record s { candidate = some (record g { awaits_probe = false }) }

  module _ (u : Urls) (protocol : Text) (timeout : ℕ) where
    unfoldable pub register :
        (now : ℕ) (id url secret : Text) → Option Claim → FetchResult → Lifecycle S → Lifecycle S
    register now id url secret claim reply s =
        begun now timeout (new_record u protocol s.connections now id url secret claim reply) s

    abbrev pub deployed :
        (now : ℕ) (id secret : Text)
        → Option (Text × Option Claim)
        → FetchResult
        → Lifecycle S
        → Lifecycle S
    deployed now id secret none reply s = refuse no_worker s
    deployed now id secret (some (url, claim)) reply s = register now id url secret claim reply s

    -- `deploy`, with the secret that it mints and what `deployWorker` gives; `none` where that throws.
    unfoldable pub deploy :
        (now : ℕ) (id secret : Text)
        → Option (Text × Option Claim)
        → FetchResult
        → Lifecycle S
        → Lifecycle S
    deploy now id secret worker reply s =
        if leb 16 (length s.connections)
        then refuse too_many s
        else deployed now id secret worker reply s

    module _ (verify : Text → Json → Bool) where
      unfoldable pub step : Event C → Lifecycle S → Lifecycle S
      step initialize_call s = initialize s
      step stop_call s = stop s
      step save_done s = complete s
      step (tick challenges) s = record s {
        connections = each (λ k. begin_probe s.aborted (challenges k)) s.connections;
      }
      step (tunnel_changes at challenge status) s =
          on_target at (on_status_change s.aborted challenge status) s
      step (probe_answered at answer) s = on_target at (conclude_probe verify s.aborted answer) s
      step (remove_call c now id) s = mutate (remove_connection c now id) s
      step (set_default_call c now id) s = mutate (set_default_connection c now id) s
      step (register_call now id url secret reply) s =
          mutate (register now id url secret none reply) s
      step (deploy_call now id secret worker reply) s = mutate (deploy now id secret worker reply) s
      step (ensure_call now id secret worker reply) s =
          mutate (λ t. if length t.connections == 0 then deploy now id secret worker reply t else t)
            s
      step (poll c now challenge) s = polled c now challenge s.candidate s
      step (probe_awaited c now) s = resumed c now s.candidate s

      unfoldable pub run : List (Event C) → Lifecycle S → Lifecycle S
      run [] s = s
      run (e ∷ more) s = run more (step e s)
