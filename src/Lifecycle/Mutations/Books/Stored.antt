-- ===== src/Lifecycle/Mutations/Books/Stored.antt =====
-- What plugin/worker-lifecycle/worker-lifecycle.ts has stored, over every sequence of events.
use bb_shared.Base.{
  ℕ, ◌≡◌, refl, sym, subst, ap, ◌∙◌, Bool, true, false, List, [], ◌∷◌, ◌++◌, map, Option, none,
  some, Text, text_eq, values, erase, arith,
}
use bb_shared.Base.Json.{Json}
use bb_shared.TokenStore.{or_else}
use bb_shared.Connections.{
  ConnectionRecord, Snapshot, Urls, all_distinct, ids, is_consistent, is_snapshot,
}
use bb_shared.Lifecycle.Mutations.{RecordStore, Lifecycle, fresh, prune, pruned, Commit, addition}
use bb_shared.Lifecycle.Mutations.Steps.{Event, run}
use bb_shared.Lifecycle.Mutations.Books.{
  Book, entries, book_of, enter_all, Change, stays, is_unreadable, loads, begins, gives_up, adds,
  removes, prefers, next, aborts, completes, abandons, commit, entered,
}
use bb_shared.Lifecycle.Mutations.Books.Refinement.{step-Change}
use bb_shared.Lifecycle.Mutations.Books.Keys.{
  AreKeyed, values-insert, enter_all-AreKeyed, values-enter_all,
}
use bb_shared.Lifecycle.Mutations.Books.Commits.{commit-AreKeyed, commit-rest, commit-aborted}
use bb_shared.Lifecycle.Mutations.Books.Claims.{
  IsLawful, claimless, claimless-prune, IsStored, same-IsStored, IsStored-consistent,
}

-- What holds of the books at every time.
pub record IsKept {S C : Type 0} (u : Urls) (st : RecordStore S C) (b : Book S) : Type 0 where
  pub keyed : AreKeyed b.connections
  pub before :
      b.initialization ≡ none → (b.connections ≡ []) × ((b.candidate ≡ none) × (b.saving ≡ none))
  pub whole :
      b.initialization ≡ some true
      → is_consistent (record { default_id = b.default_id; connections = values b.connections })
        ≡ true
  pub after : b.initialization ≡ some true → b.saving ≡ none → b.aborted ≡ false → IsStored u st b
  pub pending :
      (p : Commit) → b.initialization ≡ some true → b.saving ≡ some p → IsStored u st (commit p b)

module _ {S C : Type 0} (u : Urls) (st : RecordStore S C) (l : IsLawful u st) where
  -- The books after a save.
  pruned-IsStored :
      (c : C) (now : ℕ) (b : Book S) (store : S) (rs : List ConnectionRecord)
      → values b.connections ≡ rs
      → b.store ≡ store
      → (before : S) → st.save c before (pruned now b.default_id rs) ≡ some store
      → IsStored u st b
  pruned-IsStored c now b store rs e f before saved =
      let (valid, again) = l.saves_valid c before (pruned now b.default_id rs) store saved in
      record {
        snapshot = pruned now b.default_id rs;
        loaded_again =
            subst (λ s. st.load s ≡ (some (pruned now b.default_id rs), s)) (sym f) again;
        valid = valid;
        same_default = refl;
        same_records = claimless-prune now rs ∙ ap claimless (sym e);
      }

  consistent_ids :
      (d : Option Text) (rs : List ConnectionRecord)
      → is_snapshot u (record { default_id = d; connections = rs }) ≡ true
      → all_distinct (ids rs) ≡ true
  unfolding is_consistent
  consistent_ids d rs h = ground arith

  ids-prune : (now : ℕ) (rs : List ConnectionRecord) → ids (map (prune now) rs) ≡ ids rs
  ids-prune now [] = refl
  ids-prune now (r ∷ rs) = ap (λ t. r.id ∷ t) (ids-prune now rs)

  -- What was loaded into empty books.
  loads-IsKept :
      (b : Book S) (snapshot : Snapshot) (store : S)
      → b.initialization ≡ none
      → st.load b.store ≡ (some snapshot, store)
      → IsKept u st b
      → IsKept u st (record b {
        initialization = some true;
        store = store;
        default_id = snapshot.default_id;
        connections = enter_all snapshot.connections b.connections;
      })
  loads-IsKept b snapshot store i e k =
      let (valid, again) = l.loads_valid b.store snapshot store e in
      let front : values b.connections ≡ [] = ap values (k.before i).0 in
      let distinct =
        subst (λ t. all_distinct (ids (t ++ snapshot.connections)) ≡ true) (sym front)
          (consistent_ids snapshot.default_id snapshot.connections valid) in
      let entered_all =
        values-enter_all snapshot.connections b.connections k.keyed distinct
        ∙ ap (λ t. t ++ snapshot.connections) front in
      let held : IsStored u st (record b {
        initialization = some true;
        store = store;
        default_id = snapshot.default_id;
        connections = enter_all snapshot.connections b.connections;
      }) =
        record {
          snapshot = snapshot;
          loaded_again = again;
          valid = valid;
          same_default = refl;
          same_records = ap claimless (sym entered_all);
        } in
      record {
        keyed = enter_all-AreKeyed snapshot.connections b.connections k.keyed;
        before = λ f. absurd cc;
        whole = λ f. IsStored-consistent u st _ held;
        after = λ f g h. held;
        pending = λ p f g. absurd (ground (arith, g, (k.before i).1.1));
      }

  -- The books while a save is under way; `p` is what it is for.
  saves-IsKept :
      (b : Book S) (store : S) (p : Commit)
      → (b.initialization ≡ none → b.candidate ≡ none → ⊥)
      → IsStored u st (commit p (record b { store = store; saving = some p }))
      → IsKept u st b
      → IsKept u st (record b { store = store; saving = some p })
  saves-IsKept b store p started held k = record {
    keyed = k.keyed;
    before = λ f. absurd (started f (k.before f).1.0);
    whole = k.whole;
    after = λ f g h. absurd cc;
    pending = λ q f g.
        let alike : p ≡ q = cc in
        subst (λ x. IsStored u st (commit x (record b { store = store; saving = some p }))) alike
          held;
  }

  adds-IsStored :
      (b : Book S) (store : S) (c : C) (now : ℕ) (r : ConnectionRecord)
      → b.candidate ≡ some r
      → st.save c b.store
          (pruned now (some (or_else b.default_id r.id)) (values b.connections ++ r ∷ []))
        ≡ some store
      → IsKept u st b
      → IsStored u st (
          commit
            (addition (or_else b.default_id r.id))
            (record b { store = store; saving = some (addition (or_else b.default_id r.id)) }))
  adds-IsStored b store c now r p saved k =
      let (valid, again) = l.saves_valid c b.store _ store saved in
      let default_id = or_else b.default_id r.id in
      let distinct =
        subst (λ ks. all_distinct ks ≡ true) (ids-prune now (values b.connections ++ r ∷ []))
          (consistent_ids (some default_id) (map (prune now) (values b.connections ++ r ∷ []))
            valid) in
      subst (λ o. IsStored u st (entered default_id o (record b { store = store; saving = none })))
        (sym p)
        (pruned-IsStored c now _ store (values b.connections ++ r ∷ [])
          (values-insert r b.connections [] k.keyed distinct) refl b.store saved)

  completes-IsKept :
      (b : Book S) (p : Commit) → b.saving ≡ some p → IsKept u st b → IsKept u st (commit p b)
  completes-IsKept b p e k =
      let (same_state, at_rest) = commit-rest p b in
      record {
        keyed = commit-AreKeyed p b k.keyed;
        before = λ f. absurd (ground (arith, e, (k.before (sym same_state ∙ f)).1.1));
        whole = λ f. IsStored-consistent u st _ (k.pending p (sym same_state ∙ f) e);
        after = λ f g h. k.pending p (sym same_state ∙ f) e;
        pending = λ q f g. absurd (ground (arith, at_rest, g));
      }

  aborts-IsKept : (b : Book S) → IsKept u st b → IsKept u st (record b { aborted = true })
  aborts-IsKept b k = record {
    keyed = k.keyed;
    before = k.before;
    whole = k.whole;
    after = λ f g h. absurd cc;
    pending = λ p f g.
        subst (λ x. IsStored u st x) (sym (commit-aborted p b))
          (same-IsStored u st (commit p b) _ refl refl refl (k.pending p f g));
  }

  -- Another candidate, where no save is under way.
  beside-IsKept :
      (b : Book S) (r : Option ConnectionRecord)
      → b.saving ≡ none
      → (b.initialization ≡ none → r ≡ none)
      → IsKept u st b
      → IsKept u st (record b { candidate = r })
  beside-IsKept b r at_rest h k = record {
    keyed = k.keyed;
    before = λ f. ((k.before f).0, (h f, at_rest));
    whole = k.whole;
    after = λ f g h2. same-IsStored u st b _ refl refl refl (k.after f g h2);
    pending = λ p f g. absurd (ground (arith, at_rest, g));
  }

  pub Change-IsKept : {a b : Book S} → Change st a b → IsKept u st a → IsKept u st b
  Change-IsKept stays k = k
  Change-IsKept (is_unreadable i e) k = record {
    keyed = k.keyed;
    before = λ f. absurd cc;
    whole = λ f. absurd cc;
    after = λ f g h. absurd cc;
    pending = λ p f g. absurd cc;
  }
  Change-IsKept (loads {b} {snapshot} {store} i e) k = loads-IsKept b snapshot store i e k
  Change-IsKept (aborts {b}) k = aborts-IsKept b k
  Change-IsKept (begins {b} r i n rest) k =
      beside-IsKept b (some r) rest (λ f. absurd (ground (arith, i, f))) k
  Change-IsKept (gives_up {b} rest) k = beside-IsKept b none rest (λ f. refl) k
  Change-IsKept (adds {b} {store} c now r p rest saved) k =
      saves-IsKept b store _ (λ f g. ground (arith, p, g)) (adds-IsStored b store c now r p saved k)
        k
  Change-IsKept (removes {b} {store} c now id i rest saved) k =
      saves-IsKept b store _ (λ f g. ground (arith, i, f))
        (pruned-IsStored c now _ store (values (erase id b.connections)) refl refl b.store saved) k
  Change-IsKept (prefers {b} {store} c now id i rest h saved) k =
      saves-IsKept b store _ (λ f g. ground (arith, i, f))
        (pruned-IsStored c now _ store (values b.connections) refl refl b.store saved) k
  Change-IsKept (completes {b} {p} e) k = completes-IsKept b p e k
  Change-IsKept (abandons {b} a e) k = record {
    keyed = k.keyed;
    before = λ f. ((k.before f).0, (refl, refl));
    whole = k.whole;
    after = λ f g h. absurd (ground (arith, a, h));
    pending = λ p f g. absurd cc;
  }
  Change-IsKept (next p q) k = Change-IsKept q (Change-IsKept p k)

  module _ (protocol : Text) (timeout : ℕ) (verify : Text → Json → Bool) where
    run-IsKept :
        (es : List (Event C)) (s : Lifecycle S)
        → IsKept u st (book_of s)
        → IsKept u st (book_of (run st u protocol timeout verify es s))
    unfolding run
    run-IsKept [] s k = k
    run-IsKept (e ∷ es) s k =
        run-IsKept es _ (Change-IsKept (step-Change st u protocol timeout verify e s) k)

fresh-IsKept :
    {S C : Type 0} (u : Urls) (st : RecordStore S C) (store : S)
    → IsKept u st (book_of (fresh store))
unfolding entries
fresh-IsKept u st store = record {
  keyed = tt;
  before = λ e. (refl, (refl, refl));
  whole = λ e. absurd cc;
  after = λ e f g. absurd cc;
  pending = λ p e f. absurd cc;
}

pub run_fresh-IsKept :
    {S C : Type 0} (u : Urls) (st : RecordStore S C) (protocol : Text) (timeout : ℕ)
    (verify : Text → Json → Bool) (es : List (Event C)) (store : S)
    → IsLawful u st
    → IsKept u st (book_of (run st u protocol timeout verify es (fresh store)))
run_fresh-IsKept u st protocol timeout verify es store l =
    run-IsKept u st l protocol timeout verify es (fresh store) (fresh-IsKept u st store)
