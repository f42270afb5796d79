-- ===== src/Lifecycle/Mutations/Books/Calls.antt =====
-- What the calls of plugin/worker-lifecycle/worker-lifecycle.ts do to its books.
use bb_shared.Base.{
  ℕ, ◌≡◌, refl, sym, subst, ap, ◌∙◌, not, ◌&&◌, ◌||◌, [], ◌∷◌, ◌++◌, Option, none, some, Text,
  text_eq, Dict, values, lookup, insert, erase, is_some, arith, ltb,
}
use bb_shared.TokenStore.{or_else}
use bb_shared.Lifecycle.{Runtime, is_ready}
use bb_shared.Lifecycle.Mutations.{
  RecordStore, Registration, Lifecycle, records, default_after, pruned, has_failed, Commit, removal,
  preference, addition,
}
use bb_shared.Lifecycle.Mutations.Steps.{
  kept, fail, save_records, removed, remove_connection, preferred, set_default_connection,
  end_registration, polled, resumed, added, completed, complete,
}
use bb_shared.Lifecycle.Mutations.Books.{
  entries, candidate_record, book_of, next_default, Change, stays, gives_up, adds, removes, prefers,
  next, completes, abandons, commit, entered,
}
use bb_shared.Lifecycle.Mutations.Books.Entries.{
  Keeps, begin_probe-Keeps, entries-insert, entries-erase, values-entries, has-entries,
  first_record_id-entries,
}
use bb_shared.Lifecycle.Mutations.Books.Moves.{same_book, pick-Change, IsIdle}

module _ {S C : Type 0} (st : RecordStore S C) where
  kept-Change :
      (o : Option S) (p : Commit) (s left : Lifecycle S)
      → ((store : S)
          → o ≡ some store
          → Change st (book_of s) (record (book_of s) { store = store; saving = some p }))
      → Change st (book_of s) (book_of left)
      → Change st (book_of s) (book_of (kept o p s left))
  kept-Change none p s left h k = k
  kept-Change (some store) p s left h k = h store refl

  default_after-next_default :
      (id : Text) (m : Dict Text Runtime) (d : Option Text)
      → default_after id m d ≡ next_default id (entries m) d
  default_after-next_default id m d = ground (arith, first_record_id-entries m)

  default_after-erase :
      (id : Text) (s : Lifecycle S)
      → default_after id (erase id s.connections) s.default_id
        ≡ next_default id (erase id (entries s.connections)) s.default_id
  default_after-erase id s =
      default_after-next_default id (erase id s.connections) s.default_id
      ∙ ap (λ m. next_default id m s.default_id) (entries-erase id s.connections)

  records-erase :
      (id : Text) (m : Dict Text Runtime) → records (erase id m) ≡ values (erase id (entries m))
  records-erase id m = sym (values-entries (erase id m)) ∙ ap values (entries-erase id m)

  removed-Change :
      (c : C) (now : ℕ) (id : Text) (r : Option Runtime) (s : Lifecycle S)
      → IsIdle st s
      → Change st (book_of s) (book_of (removed st c now id r s))
  unfolding save_records
  removed-Change c now id none s i = stays
  removed-Change c now id (some r) s i =
      kept-Change _ _ s s
        (λ store e.
          let saved =
            subst
              (λ d.
                st.save c s.store (pruned now d (values (erase id (entries s.connections))))
                ≡ some store)
              (default_after-erase id s)
              (subst
                (λ rs.
                  st.save c s.store
                    (pruned now (default_after id (erase id s.connections) s.default_id) rs)
                  ≡ some store)
                (records-erase id s.connections) e) in
          subst
            (λ d.
              Change st (book_of s)
                (record (book_of s) { store = store; saving = some (removal id d) }))
            (sym (default_after-erase id s)) (removes c now id i.initialized i.at_rest saved))
        stays

  pub remove_connection-Change :
      (c : C) (now : ℕ) (id : Text) (s : Lifecycle S)
      → IsIdle st s
      → Change st (book_of s) (book_of (remove_connection st c now id s))
  unfolding remove_connection
  remove_connection-Change c now id s i = removed-Change c now id (lookup id s.connections) s i

  preferred-Change :
      (c : C) (now : ℕ) (id : Text) (r : Option Runtime) (s : Lifecycle S)
      → IsIdle st s
      → lookup id s.connections ≡ r
      → Change st (book_of s) (book_of (preferred st c now id r s))
  unfolding save_records
  preferred-Change c now id none s i e = stays
  preferred-Change c now id (some r) s i found =
      kept-Change _ _ s s
        (λ store e.
          prefers c now id i.initialized i.at_rest (rw (has-entries id s.connections, found) refl) (
            subst (λ rs. st.save c s.store (pruned now (some id) rs) ≡ some store)
              (sym (values-entries s.connections)) e))
        stays

  pub set_default_connection-Change :
      (c : C) (now : ℕ) (id : Text) (s : Lifecycle S)
      → IsIdle st s
      → Change st (book_of s) (book_of (set_default_connection st c now id s))
  unfolding set_default_connection
  set_default_connection-Change c now id s i =
      preferred-Change c now id (lookup id s.connections) s i refl

  end_registration-Change :
      (c : C) (now : ℕ) (g : Registration) (s : Lifecycle S)
      → s.candidate ≡ some g
      → s.saving ≡ none
      → Change st (book_of s) (book_of (end_registration st c now g s))
  unfolding end_registration save_records fail
  end_registration-Change c now g s e f =
      pick-Change st (book_of s) (not (is_ready g.runtime.state) || s.aborted) _ _ (λ b. gives_up f)
        (λ b.
          kept-Change _ _ s _
            (λ store saved. adds c now g.runtime.connection (ap candidate_record e) f (
              subst
                (λ rs.
                  st.save c s.store (
                    pruned now (some (or_else s.default_id g.runtime.connection.id))
                      (rs ++ g.runtime.connection ∷ []))
                  ≡ some store)
                (sym (values-entries s.connections)) saved))
            (gives_up f))

  pub polled-Change :
      (c : C) (now : ℕ) (challenge : Text) (g : Option Registration) (s : Lifecycle S)
      → s.candidate ≡ g
      → Change st (book_of s) (book_of (polled st c now challenge g s))
  unfolding Keeps
  polled-Change c now challenge none s e = stays
  polled-Change c now challenge (some g) s e =
      pick-Change st (book_of s) (g.awaits_probe || is_some s.saving) s _ (λ b. stays)
        (λ b.
          pick-Change st (book_of s) (ltb now g.deadline && not s.aborted) _ _
            (λ h. same_book st (
              ap (λ r. record (book_of s) { candidate = r })
                (ap some (begin_probe-Keeps s.aborted challenge g.runtime)
                  ∙ sym (ap candidate_record e))))
            (λ h. end_registration-Change c now g s e (ground arith)))

  pub resumed-Change :
      (c : C) (now : ℕ) (g : Option Registration) (s : Lifecycle S)
      → s.candidate ≡ g
      → Change st (book_of s) (book_of (resumed st c now g s))
  unfolding fail
  resumed-Change c now none s e = stays
  resumed-Change c now (some g) s e =
      pick-Change st (book_of s)
        (not g.awaits_probe || (is_some g.runtime.probe || is_some s.saving)) s _ (λ b. stays)
        (λ b.
          pick-Change st (book_of s) (is_ready g.runtime.state) _ _
            (λ h. end_registration-Change c now g s e (ground arith))
            (λ h.
              pick-Change st (book_of s) (has_failed g.runtime.tunnel) _ _
                (λ k. gives_up (ground arith))
                (λ k.
                  same_book st (
                    ap (λ r. record (book_of s) { candidate = r }) (sym (ap candidate_record e))))))

  entered-insert :
      (default_id : Text) (g : Registration) (s : Lifecycle S)
      → s.candidate ≡ some g
      → book_of (record s {
        connections = insert g.runtime.connection.id g.runtime s.connections;
        candidate = none;
        default_id = some default_id;
        saving = none;
      })
        ≡ commit (addition default_id) (book_of s)
  entered-insert default_id g s e =
      let resting : Lifecycle S = record s { saving = none } in
      subst
        (λ o.
          book_of (record resting {
            connections = insert g.runtime.connection.id g.runtime s.connections;
            candidate = none;
            default_id = some default_id;
          })
          ≡ entered default_id o (book_of resting))
        (sym (ap candidate_record e))
        (ap
          (λ m. record (book_of resting) {
            connections = m;
            candidate = none;
            default_id = some default_id;
          })
          (entries-insert g.runtime.connection.id g.runtime s.connections))

  added-Change :
      (default_id : Text) (g : Option Registration) (s : Lifecycle S)
      → s.candidate ≡ g
      → s.saving ≡ some (addition default_id)
      → Change st (book_of s) (book_of (added default_id g (record s { saving = none })))
  unfolding fail
  added-Change default_id none s e f =
      let resting : Lifecycle S = record s { saving = none } in
      next (completes f) (
        same_book st (
          subst (λ o. book_of resting ≡ entered default_id o (book_of resting))
            (sym (ap candidate_record e)) refl))
  added-Change default_id (some g) s e f =
      pick-Change st (book_of s) s.aborted _ _ (λ a. abandons a f)
        (λ a. next (completes f) (same_book st (entered-insert default_id g s e)))

  completed-Change :
      (p : Option Commit) (s : Lifecycle S)
      → s.saving ≡ p
      → Change st (book_of s) (book_of (completed p s))
  completed-Change none s e = stays
  completed-Change (some (removal id default_id)) s e = next (completes e) (
      same_book st (
        ap (λ m. record (book_of s) { connections = m; default_id = default_id; saving = none })
          (entries-erase id s.connections)))
  completed-Change (some (preference id)) s e = completes e
  completed-Change (some (addition default_id)) s e = added-Change default_id s.candidate s refl e

  pub complete-Change : (s : Lifecycle S) → Change st (book_of s) (book_of (complete s))
  unfolding complete
  complete-Change s = completed-Change s.saving s refl
