-- ===== src/Lifecycle/Mutations/Books/Moves.antt =====
-- What plugin/worker-lifecycle/worker-lifecycle.ts observes, and how its calls begin, on its books.
use mathlib.Core.Logic.{inl, inr}
use bb_shared.Base.{
  ◌≡◌, refl, sym, subst, ap, ◌∙◌, Bool, true, false, ◌||◌, Option, none, some, Text, same, text_eq,
  Dict, is_some, arith, Bool-cases, if◌then◌else◌,
}
use bb_shared.Connections.{Snapshot}
use bb_shared.Lifecycle.{Runtime, stop_tunnel}
use bb_shared.Lifecycle.Mutations.{RecordStore, Registration, Lifecycle, each, on_runtime, stop}
use bb_shared.Lifecycle.Mutations.Steps.{
  Target, connection, candidate, update, on_target, loaded, started, initialize, ready_for, mutate,
}
use bb_shared.Lifecycle.Mutations.Books.{
  aborts, Book, entries, candidate_record, book_of, Change, stays, is_unreadable, loads, next,
}
use bb_shared.Lifecycle.Mutations.Books.Entries.{
  Keeps, stop_tunnel-Keeps, entries-each, entries-connect_all,
}

module _ {S C : Type 0} (st : RecordStore S C) where
  pub same_book : {a b : Book S} → b ≡ a → Change st a b
  same_book {a} e = subst (λ x. Change st a x) (sym e) stays

  pub pick-Change :
      (a : Book S) (b : Bool) (s t : Lifecycle S)
      → (b ≡ true → Change st a (book_of s))
      → (b ≡ false → Change st a (book_of t))
      → Change st a (book_of (if b then s else t))
  pick-Change a true s t p q = p refl
  pick-Change a false s t p q = q refl

  update-entries :
      (id : Text) (f : Runtime → Runtime) (m : Dict Text Runtime)
      → Keeps f
      → entries (update id f m) ≡ entries m
  unfolding update Keeps
  update-entries id f m h =
      entries-each (λ k r. if same k id then f r else r) m
        (λ k r. elim (Bool-cases (same k id)) [ inl e ↦ rw e (h r) | inr e ↦ rw e refl ])

  on_runtime-candidate_record :
      (f : Runtime → Runtime) (g : Option Registration)
      → Keeps f
      → candidate_record (on_runtime f g) ≡ candidate_record g
  unfolding Keeps
  on_runtime-candidate_record f none h = refl
  on_runtime-candidate_record f (some g) h = ap some (h g.runtime)

  pub on_target-Change :
      (at : Target) (f : Runtime → Runtime) (s : Lifecycle S)
      → Keeps f
      → Change st (book_of s) (book_of (on_target at f s))
  on_target-Change (connection id) f s h =
      same_book
        (ap (λ m. record (book_of s) { connections = m }) (update-entries id f s.connections h))
  on_target-Change candidate f s h =
      same_book (
        ap (λ r. record (book_of s) { candidate = r })
          (on_runtime-candidate_record f s.candidate h))

  each-Change :
      (f : Text → Runtime → Runtime) (g : Runtime → Runtime) (s : Lifecycle S)
      → ((k : Text) → Keeps (f k))
      → Keeps g
      → Change st (book_of s) (record (book_of s) {
        connections = entries (each f s.connections);
        candidate = candidate_record (on_runtime g s.candidate);
      })
  each-Change f g s h k = same_book (
      ap
        (λ m. record (book_of s) {
          connections = m;
          candidate = candidate_record (on_runtime g s.candidate);
        })
        (entries-each f s.connections h)
      ∙ ap (λ r. record (book_of s) { candidate = r })
          (on_runtime-candidate_record g s.candidate k))

  pub stop-Change : (s : Lifecycle S) → Change st (book_of s) (book_of (stop s))
  unfolding stop
  stop-Change s =
      pick-Change (book_of s) s.aborted s _ (λ e. stays)
        (λ e. next aborts (
          each-Change (λ _. stop_tunnel) stop_tunnel (record s { aborted = true })
            (λ k. stop_tunnel-Keeps) stop_tunnel-Keeps))

  loaded-Change :
      (o : Option Snapshot × S) (s : Lifecycle S)
      → s.initialization ≡ none
      → st.load s.store ≡ o
      → Change st (book_of s) (book_of (loaded o s))
  loaded-Change (none, store) s i e = is_unreadable i e
  loaded-Change (some snapshot, store) s i e = next (loads i e) (
      same_book (
        ap (λ m. record (book_of (loaded (some snapshot, store) s)) { connections = m })
          (entries-connect_all s.aborted snapshot.connections s.connections)))

  started-Change :
      (i : Option Bool) (s : Lifecycle S)
      → s.initialization ≡ i
      → Change st (book_of s) (book_of (started st i s))
  started-Change (some done) s e = stays
  started-Change none s e = loaded-Change (st.load s.store) s e refl

  pub initialize-Change : (s : Lifecycle S) → Change st (book_of s) (book_of (initialize st s))
  unfolding initialize
  initialize-Change s = started-Change s.initialization s refl

  -- What an operation may count on, once `mutate` lets it run.
  pub record IsIdle (s : Lifecycle S) : Type 0 where
    pub initialized : s.initialization ≡ some true
    pub running : s.aborted ≡ false
    pub alone : s.candidate ≡ none
    pub at_rest : s.saving ≡ none

  ready_for-Change :
      (i : Option Bool) (operation : Lifecycle S → Lifecycle S) (s : Lifecycle S)
      → s.initialization ≡ i
      → ((t : Lifecycle S) → IsIdle t → Change st (book_of t) (book_of (operation t)))
      → Change st (book_of s) (book_of (ready_for st i operation s))
  ready_for-Change none operation s e h = stays
  ready_for-Change (some false) operation s e h = stays
  ready_for-Change (some true) operation s e h =
      pick-Change (book_of s) s.aborted _ _ (λ a. stays)
        (λ a.
          pick-Change (book_of s) (is_some s.candidate || is_some s.saving) s _ (λ b. stays)
            (λ b. h s (record {
              initialized = e;
              running = a;
              alone = ground arith;
              at_rest = ground arith;
            })))

  pub mutate-Change :
      (operation : Lifecycle S → Lifecycle S) (s : Lifecycle S)
      → ((t : Lifecycle S) → IsIdle t → Change st (book_of t) (book_of (operation t)))
      → Change st (book_of s) (book_of (mutate st operation s))
  unfolding mutate
  mutate-Change operation s h =
      next (initialize-Change s)
        (ready_for-Change (initialize st s).initialization operation (initialize st s) refl h)
