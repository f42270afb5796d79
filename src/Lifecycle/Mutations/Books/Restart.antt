-- ===== src/Lifecycle/Mutations/Books/Restart.antt =====
-- The connections of plugin/worker-lifecycle/worker-lifecycle.ts fit together, and survive a restart.
use bb_shared.Base.{
  ◌≡◌, refl, sym, subst, ap, ◌∙◌, Bool, true, false, if◌then◌else◌, List, [], Option, none, some,
  Text, values, arith,
}
use bb_shared.Base.{ℕ}
use bb_shared.Base.Json.{Json}
use bb_shared.Connections.{ConnectionRecord, Snapshot, Urls, is_consistent, is_snapshot}
use bb_shared.Lifecycle.Mutations.{
  RecordStore, Registration, Commit, removal, preference, addition, Lifecycle, fresh, records,
  connect_all,
}
use bb_shared.Lifecycle.Mutations.Steps.{Event, initialize, loaded, run, complete, completed, added}
use bb_shared.Lifecycle.Mutations.Books.{entries, book_of}
use bb_shared.Lifecycle.Mutations.Books.Entries.{values-entries, entries-connect_all}
use bb_shared.Lifecycle.Mutations.Books.Keys.{values-enter_all}
use bb_shared.Lifecycle.Mutations.Books.Claims.{IsLawful, IsStored, claimless}
use bb_shared.Lifecycle.Mutations.Books.Stored.{IsKept, Change-IsKept, run_fresh-IsKept}
use bb_shared.Lifecycle.Mutations.Books.Calls.{complete-Change}

module _ {S C : Type 0} (u : Urls) (st : RecordStore S C) where
  -- What a fresh lifecycle makes of a snapshot.
  initialize_fresh :
      (store : S) (snapshot : Snapshot)
      → st.load store ≡ (some snapshot, store)
      → initialize st (fresh store) ≡ loaded (some snapshot, store) (fresh store)
  unfolding initialize
  initialize_fresh store snapshot e = rw e refl

  records-connect_all :
      (d : Option Text) (rs : List ConnectionRecord)
      → is_snapshot u (record { default_id = d; connections = rs }) ≡ true
      → records (connect_all false rs []) ≡ rs
  unfolding entries is_consistent
  records-connect_all d rs h =
      sym (values-entries (connect_all false rs []))
      ∙ ap values (entries-connect_all false rs [])
      ∙ values-enter_all rs [] tt (ground arith)

-- What the end of a save leaves as it is, before the end of all.
record IsCompleted {S : Type 0} (s t : Lifecycle S) : Type 0 where
  same_state : t.initialization ≡ s.initialization
  same_store : t.store ≡ s.store
  running : t.aborted ≡ false
  at_rest : t.saving ≡ none

pick-IsCompleted :
    {S : Type 0} (b : Bool) (s x y : Lifecycle S)
    → b ≡ false
    → IsCompleted s y
    → IsCompleted s (if b then x else y)
pick-IsCompleted true s x y e h = absurd cc
pick-IsCompleted false s x y e h = h

added-IsCompleted :
    {S : Type 0} (default_id : Text) (g : Option Registration) (s : Lifecycle S)
    → s.aborted ≡ false
    → s.saving ≡ none
    → IsCompleted s (added default_id g s)
added-IsCompleted default_id none s e f = record {
  same_state = refl;
  same_store = refl;
  running = e;
  at_rest = f;
}
added-IsCompleted default_id (some g) s e f =
    pick-IsCompleted s.aborted s _ _ e
      (record { same_state = refl; same_store = refl; running = e; at_rest = f })

completed-IsCompleted :
    {S : Type 0} (p : Option Commit) (s : Lifecycle S)
    → s.saving ≡ p
    → s.aborted ≡ false
    → IsCompleted s (completed p s)
completed-IsCompleted none s f e = record {
  same_state = refl;
  same_store = refl;
  running = e;
  at_rest = f;
}
completed-IsCompleted (some (removal id default_id)) s f e = record {
  same_state = refl;
  same_store = refl;
  running = e;
  at_rest = refl;
}
completed-IsCompleted (some (preference id)) s f e = record {
  same_state = refl;
  same_store = refl;
  running = e;
  at_rest = refl;
}
completed-IsCompleted (some (addition default_id)) s f e =
    let c = added-IsCompleted default_id s.candidate (record s { saving = none }) e refl in
    record {
      same_state = c.same_state;
      same_store = c.same_store;
      running = c.running;
      at_rest = c.at_rest;
    }

complete-IsStored :
    {S C : Type 0} (u : Urls) (st : RecordStore S C) (s : Lifecycle S)
    → IsLawful u st
    → IsKept u st (book_of s)
    → s.initialization ≡ some true
    → s.aborted ≡ false
    → IsStored u st (book_of (complete s)) × ((complete s).store ≡ s.store)
unfolding complete
complete-IsStored u st s l k i e =
    let c = completed-IsCompleted s.saving s refl e in
    (
      (Change-IsKept u st l (complete-Change st s) k).after (c.same_state ∙ i) c.at_rest c.running,
      c.same_store,
    )

-- Over every sequence of events, once the connections have been loaded, there are at most 16, no two have an
-- id, a relay or an address in common, and the default is one of them unless there is none. The store gives
-- back what it saved, and neither loads nor saves what does not meet the schemas.
pub run_fresh-consistent :
    {S C : Type 0} (u : Urls) (st : RecordStore S C) (protocol : Text) (timeout : ℕ)
    (verify : Text → Json → Bool) (es : List (Event C)) (store : S)
    → IsLawful u st
    → (run st u protocol timeout verify es (fresh store)).initialization ≡ some true
    → is_consistent (record {
      default_id = (run st u protocol timeout verify es (fresh store)).default_id;
      connections = records (run st u protocol timeout verify es (fresh store)).connections;
    })
      ≡ true
run_fresh-consistent u st protocol timeout verify es store l i =
    let s = run st u protocol timeout verify es (fresh store) in
    subst (λ rs. is_consistent (record { default_id = s.default_id; connections = rs }) ≡ true)
      (values-entries s.connections)
      ((run_fresh-IsKept u st protocol timeout verify es store l).whole i)

-- Over every sequence of events before the end, once the connections have been loaded, a lifecycle that starts
-- anew on the store has the same default and, claims apart, the same connections as the one that runs, when the
-- call that awaits its save, if there is one, is completed. The store gives back what it saved, and neither
-- loads nor saves what does not meet the schemas.
pub initialize-run :
    {S C : Type 0} (u : Urls) (st : RecordStore S C) (protocol : Text) (timeout : ℕ)
    (verify : Text → Json → Bool) (es : List (Event C)) (store : S)
    → IsLawful u st
    → (run st u protocol timeout verify es (fresh store)).initialization ≡ some true
    → (run st u protocol timeout verify es (fresh store)).aborted ≡ false
    → let s = run st u protocol timeout verify es (fresh store) in
      let again = initialize st (fresh s.store) in
      (again.default_id ≡ (complete s).default_id)
      × (claimless (records again.connections) ≡ claimless (records (complete s).connections))
initialize-run u st protocol timeout verify es store l i e =
    let s = run st u protocol timeout verify es (fresh store) in
    let (h, same_store) =
      complete-IsStored u st s l (run_fresh-IsKept u st protocol timeout verify es store l) i e in
    let loads_again = subst (λ x. st.load x ≡ (some h.snapshot, x)) same_store h.loaded_again in
    let begun = initialize_fresh u st s.store h.snapshot loads_again in
    (
      ap (λ x. x.default_id) begun ∙ h.same_default,
      ap (λ x. claimless (records x.connections)) begun
          ∙ ap claimless
              (records-connect_all u st h.snapshot.default_id h.snapshot.connections h.valid)
          ∙ h.same_records
          ∙ ap claimless (values-entries (complete s).connections),
    )
