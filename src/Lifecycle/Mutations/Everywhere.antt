-- ===== src/Lifecycle/Mutations/Everywhere.antt =====
-- What is observed of the connections of plugin/worker-lifecycle/worker-lifecycle.ts keeps what holds of each of them.
use mathlib.Core.Logic.{◌⊎◌, inl, inr}
use bb_shared.Base.{
  ℕ, Bool, true, false, List, [], ◌∷◌, Option, none, some, Text, same, text_eq, Dict, Entries,
  insert-Entries, erase-Entries, if◌then◌else◌,
}
use bb_shared.Connections.{ConnectionRecord, Snapshot}
use bb_shared.Lifecycle.{
  Runtime, TunnelStatus, new_runtime, connect, begin_probe, on_status_change, stop_tunnel,
}
use bb_shared.Lifecycle.Mutations.{
  Refusal, Registration, Lifecycle, each, on_runtime, connect_all, stop, Commit, removal,
  preference, addition,
}
use bb_shared.Lifecycle.Mutations.Steps.{
  Target, connection, candidate, update, on_target, loaded, kept, begun, fail, added, completed,
  complete,
}

-- What is kept where a connection starts, a probe begins, its tunnel changes or is stopped.
pub record IsObservable (P : Bool → Runtime → Type 0) : Type 0 where
  pub starts : (aborted : Bool) (c : ConnectionRecord) → P aborted (connect aborted (new_runtime c))
  pub begins :
      (aborted : Bool) (challenge : Text) (r : Runtime)
      → P aborted r
      → P aborted (begin_probe aborted challenge r)
  pub changes :
      (aborted : Bool) (challenge : Text) (status : TunnelStatus) (r : Runtime)
      → P aborted r
      → P aborted (on_status_change aborted challenge status r)
  pub stops : (before : Bool) (r : Runtime) → P before r → P true (stop_tunnel r)

module _ (P : Bool → Runtime → Type 0) where
  abbrev InMap : Bool → Dict Text Runtime → Type 0
  InMap aborted m = Entries (λ k r. P aborted r) m

  abbrev pub InCandidate : Bool → Option Registration → Type 0
  InCandidate aborted none = Unit
  InCandidate aborted (some g) = P aborted g.runtime

  -- Every connection and the candidate.
  abbrev pub Everywhere : {S : Type 0} → Lifecycle S → Type 0
  Everywhere s = InMap s.aborted s.connections × InCandidate s.aborted s.candidate

module _ (P : Bool → Runtime → Type 0) (o : IsObservable P) where
  pub each-InMap :
      (before aborted : Bool) (f : Text → Runtime → Runtime) (m : Dict Text Runtime)
      → ((k : Text) (r : Runtime) → P before r → P aborted (f k r))
      → InMap P before m
      → InMap P aborted (each f m)
  unfolding each
  each-InMap before aborted f [] h a = tt
  each-InMap before aborted f ((k, r) ∷ m) h (p, a) = (h k r p, each-InMap before aborted f m h a)

  on_runtime-InCandidate :
      (before aborted : Bool) (f : Runtime → Runtime) (g : Option Registration)
      → ((r : Runtime) → P before r → P aborted (f r))
      → InCandidate P before g
      → InCandidate P aborted (on_runtime f g)
  on_runtime-InCandidate before aborted f none h a = tt
  on_runtime-InCandidate before aborted f (some g) h a = h g.runtime a

  connect_all-InMap :
      (aborted : Bool) (rs : List ConnectionRecord) (m : Dict Text Runtime)
      → InMap P aborted m
      → InMap P aborted (connect_all aborted rs m)
  connect_all-InMap aborted [] m a = a
  connect_all-InMap aborted (r ∷ rs) m a =
      connect_all-InMap aborted rs _
        (insert-Entries (λ k x. P aborted x) r.id _ m (o.starts aborted r) a)

  pick_runtime-holds :
      (aborted b : Bool) (f : Runtime → Runtime) (r : Runtime)
      → ((x : Runtime) → P aborted x → P aborted (f x))
      → P aborted r
      → P aborted (if b then f r else r)
  pick_runtime-holds aborted true f r h p = h r p
  pick_runtime-holds aborted false f r h p = p

  module _ {S : Type 0} where
    pub pick-Everywhere :
        (b : Bool) (s t : Lifecycle S)
        → Everywhere P s
        → Everywhere P t
        → Everywhere P (if b then s else t)
    pick-Everywhere true s t p q = p
    pick-Everywhere false s t p q = q

    pub on_target-Everywhere :
        (at : Target) (f : Runtime → Runtime) (s : Lifecycle S)
        → ((r : Runtime) → P s.aborted r → P s.aborted (f r))
        → Everywhere P s
        → Everywhere P (on_target at f s)
    unfolding update
    on_target-Everywhere (connection id) f s h (a, c) = (
      each-InMap s.aborted s.aborted (λ k r. if same k id then f r else r) s.connections
          (λ k r p. pick_runtime-holds s.aborted (same k id) f r h p) a,
      c,
    )
    on_target-Everywhere candidate f s h (a, c) =
        (a, on_runtime-InCandidate s.aborted s.aborted f s.candidate h c)

    pub stop-Everywhere : (s : Lifecycle S) → Everywhere P s → Everywhere P (stop s)
    unfolding stop
    stop-Everywhere s (a, c) =
        pick-Everywhere s.aborted s _ (a, c)
          (
            each-InMap s.aborted true (λ _. stop_tunnel) s.connections
                (λ k r p. o.stops s.aborted r p) a,
            on_runtime-InCandidate s.aborted true stop_tunnel s.candidate (o.stops s.aborted) c,
          )

    pub loaded-Everywhere :
        (result : Option Snapshot × S) (s : Lifecycle S)
        → Everywhere P s
        → Everywhere P (loaded result s)
    loaded-Everywhere (none, store) s h = h
    loaded-Everywhere (some snapshot, store) s (a, c) =
        (connect_all-InMap s.aborted snapshot.connections s.connections a, c)

    pub kept-Everywhere :
        (result : Option S) (p : Commit) (s left : Lifecycle S)
        → Everywhere P s
        → Everywhere P left
        → Everywhere P (kept result p s left)
    kept-Everywhere none p s left h k = k
    kept-Everywhere (some store) p s left h k = h

    added-Everywhere :
        (default_id : Text) (g : Option Registration) (s : Lifecycle S)
        → InCandidate P s.aborted g
        → Everywhere P s
        → Everywhere P (added default_id g s)
    unfolding fail
    added-Everywhere default_id none s p h = h
    added-Everywhere default_id (some g) s p (a, c) =
        pick-Everywhere s.aborted _ _ (a, tt)
          (
            insert-Entries (λ k x. P s.aborted x) g.runtime.connection.id g.runtime s.connections p
                a,
            tt,
          )

    completed-Everywhere :
        (p : Option Commit) (s : Lifecycle S) → Everywhere P s → Everywhere P (completed p s)
    completed-Everywhere none s h = h
    completed-Everywhere (some (removal id default_id)) s (a, c) =
        (erase-Entries (λ k x. P s.aborted x) id s.connections a, c)
    completed-Everywhere (some (preference id)) s h = h
    completed-Everywhere (some (addition default_id)) s h =
        added-Everywhere default_id s.candidate (record s { saving = none }) h.1 h

    pub complete-Everywhere : (s : Lifecycle S) → Everywhere P s → Everywhere P (complete s)
    unfolding complete
    complete-Everywhere s h = completed-Everywhere s.saving s h

    pub begun-Everywhere :
        (now timeout : ℕ) (result : Refusal ⊎ ConnectionRecord) (s : Lifecycle S)
        → Everywhere P s
        → Everywhere P (begun now timeout result s)
    begun-Everywhere now timeout (inl why) s h = h
    begun-Everywhere now timeout (inr r) s (a, c) = (a, o.starts s.aborted r)
