-- ===== src/Lifecycle/Mutations/Books/Refinement.antt =====
-- The steps of plugin/worker-lifecycle/worker-lifecycle.ts change its books only in the ways of `Change`.
use mathlib.Core.Logic.{◌⊎◌, inl, inr}
use bb_shared.Base.{ℕ, refl, ap, Bool, Option, none, some, Text, text_eq, length, leb, ◌==◌}
use bb_shared.Base.Json.{Json}
use bb_shared.Connections.{Claim, ConnectionRecord, Urls}
use bb_shared.Lifecycle.{FetchResult, new_runtime, begin_probe}
use bb_shared.Lifecycle.Mutations.{RecordStore, Refusal, Lifecycle}
use bb_shared.Lifecycle.Mutations.Steps.{
  Event, initialize_call, stop_call, save_done, tick, tunnel_changes, probe_answered, remove_call,
  set_default_call, register_call, deploy_call, ensure_call, poll, probe_awaited, begun, register,
  deployed, deploy, step,
}
use bb_shared.Lifecycle.Mutations.Books.{candidate_record, book_of, Change, stays, begins, next}
use bb_shared.Lifecycle.Mutations.Books.Entries.{
  Keeps, begin_probe-Keeps, connect-Keeps, on_status_change-Keeps, conclude_probe-Keeps,
  entries-each,
}
use bb_shared.Lifecycle.Mutations.Books.Moves.{
  same_book, pick-Change, on_target-Change, stop-Change, IsIdle, initialize-Change, mutate-Change,
}
use bb_shared.Lifecycle.Mutations.Books.Calls.{
  remove_connection-Change, set_default_connection-Change, polled-Change, resumed-Change,
  complete-Change,
}

module _ {S C : Type 0} (st : RecordStore S C) where
  begun-Change :
      (now timeout : ℕ) (o : Refusal ⊎ ConnectionRecord) (s : Lifecycle S)
      → IsIdle st s
      → Change st (book_of s) (book_of (begun now timeout o s))
  unfolding Keeps
  begun-Change now timeout (inl why) s i = stays
  begun-Change now timeout (inr r) s i =
      next (begins r i.initialized (ap candidate_record i.alone) i.at_rest) (
        same_book st (
          ap (λ x. record (book_of s) { candidate = some x })
            (connect-Keeps s.aborted (new_runtime r))))

  module _ (u : Urls) (protocol : Text) (timeout : ℕ) where
    register-Change :
        (now : ℕ) (id url secret : Text) (claim : Option Claim) (reply : FetchResult)
        (s : Lifecycle S)
        → IsIdle st s
        → Change st
            (book_of s)
            (book_of (register st u protocol timeout now id url secret claim reply s))
    unfolding register
    register-Change now id url secret claim reply s i = begun-Change now timeout _ s i

    deployed-Change :
        (now : ℕ) (id secret : Text) (worker : Option (Text × Option Claim)) (reply : FetchResult)
        (s : Lifecycle S)
        → IsIdle st s
        → Change st
            (book_of s)
            (book_of (deployed st u protocol timeout now id secret worker reply s))
    deployed-Change now id secret none reply s i = stays
    deployed-Change now id secret (some (url, claim)) reply s i =
        register-Change now id url secret claim reply s i

    deploy-Change :
        (now : ℕ) (id secret : Text) (worker : Option (Text × Option Claim)) (reply : FetchResult)
        (s : Lifecycle S)
        → IsIdle st s
        → Change st
            (book_of s)
            (book_of (deploy st u protocol timeout now id secret worker reply s))
    unfolding deploy
    deploy-Change now id secret worker reply s i =
        pick-Change st (book_of s) (leb 16 (length s.connections)) _ _ (λ b. stays)
          (λ b. deployed-Change now id secret worker reply s i)

    -- Every step changes the books only in the ways of `Change`: they are loaded, the end comes, a candidate
    -- begins or is given up, a change of the connections or of the default is saved and then made as it was
    -- saved, and after the end a registration that was saved is dropped; all else leaves the books alone.
    pub step-Change :
        (verify : Text → Json → Bool) (e : Event C) (s : Lifecycle S)
        → Change st (book_of s) (book_of (step st u protocol timeout verify e s))
    unfolding step
    step-Change verify initialize_call s = initialize-Change st s
    step-Change verify stop_call s = stop-Change st s
    step-Change verify save_done s = complete-Change st s
    step-Change verify (tick challenges) s = same_book st (
        ap (λ m. record (book_of s) { connections = m })
          (entries-each (λ k. begin_probe s.aborted (challenges k)) s.connections
            (λ k. begin_probe-Keeps s.aborted (challenges k))))
    step-Change verify (tunnel_changes at challenge status) s =
        on_target-Change st at _ s (on_status_change-Keeps s.aborted challenge status)
    step-Change verify (probe_answered at answer) s =
        on_target-Change st at _ s (conclude_probe-Keeps verify s.aborted answer)
    step-Change verify (remove_call c now id) s =
        mutate-Change st _ s (remove_connection-Change st c now id)
    step-Change verify (set_default_call c now id) s =
        mutate-Change st _ s (set_default_connection-Change st c now id)
    step-Change verify (register_call now id url secret reply) s =
        mutate-Change st _ s (register-Change now id url secret none reply)
    step-Change verify (deploy_call now id secret worker reply) s =
        mutate-Change st _ s (deploy-Change now id secret worker reply)
    step-Change verify (ensure_call now id secret worker reply) s = mutate-Change st _ s (λ t i.
        pick-Change st (book_of t) (length t.connections == 0) _ t
          (λ b. deploy-Change now id secret worker reply t i) (λ b. stays))
    step-Change verify (poll c now challenge) s =
        polled-Change st c now challenge s.candidate s refl
    step-Change verify (probe_awaited c now) s = resumed-Change st c now s.candidate s refl
