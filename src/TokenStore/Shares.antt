-- ===== src/TokenStore/Shares.antt =====
-- The share list of one token (plugin/lib/token-store.ts), under the edits of the store.
use bb_shared.Base.{
  ◌≡◌, refl, List, [], ◌∷◌, ◌++◌, false, some, Text, any, same, same_iff, inl, inr, arith,
  Option-cases,
}
use bb_shared.TokenStore.{Perm, Share, has_thread, remove_thread, set_perm}

-- A token shares a thread once.
abbrev pub HasDistinctThreads : List Share → Type 0
HasDistinctThreads [] = Unit
HasDistinctThreads (s ∷ ss) = (any (has_thread s.thread_id) ss ≡ false) × HasDistinctThreads ss

any-snoc :
    (id : Text) (ss : List Share) (s : Share)
    → any (has_thread id) ss ≡ false
    → same s.thread_id id ≡ false
    → any (has_thread id) (ss ++ s ∷ []) ≡ false
any-snoc id [] s h k = ground arith
any-snoc id (x ∷ ss) s h k = ground (arith, any-snoc id ss s)

pub snoc-HasDistinctThreads :
    (ss : List Share) (s : Share)
    → any (has_thread s.thread_id) ss ≡ false
    → HasDistinctThreads ss
    → HasDistinctThreads (ss ++ s ∷ [])
snoc-HasDistinctThreads [] s h d = (refl, tt)
snoc-HasDistinctThreads (x ∷ ss) s h (fresh, d) = (
  any-snoc x.thread_id ss s fresh
      (ground (arith, same_iff s.thread_id x.thread_id, same_iff x.thread_id s.thread_id)),
  snoc-HasDistinctThreads ss s (ground arith) d,
)

any-remove_thread :
    (id thread_id : Text) (ss : List Share) {kept : List Share}
    → remove_thread thread_id ss ≡ some kept
    → any (has_thread id) ss ≡ false
    → any (has_thread id) kept ≡ false
unfolding remove_thread
any-remove_thread id thread_id [] e h = cc
any-remove_thread id thread_id (x ∷ ss) {kept} e h =
    elim (Option-cases (remove_thread thread_id ss)) [
      | inl missing ↦ ground arith
      | inr (rest, found) ↦ ground (arith, any-remove_thread id thread_id ss {kept = rest})
    ]

pub remove_thread-HasDistinctThreads :
    (thread_id : Text) (ss : List Share) {kept : List Share}
    → remove_thread thread_id ss ≡ some kept
    → HasDistinctThreads ss
    → HasDistinctThreads kept
unfolding remove_thread
remove_thread-HasDistinctThreads thread_id [] e d = cc
remove_thread-HasDistinctThreads thread_id (x ∷ ss) {kept} e d =
    elim (Option-cases (remove_thread thread_id ss)) [
      | inl missing ↦ ground arith
      | inr (rest, found) ↦ ground (
        arith,
        any-remove_thread x.thread_id thread_id ss {kept = rest},
        remove_thread-HasDistinctThreads thread_id ss {kept = rest},
      )
    ]

pub any-set_perm :
    (id thread_id : Text) (perm : Perm) (ss : List Share) {changed : List Share}
    → set_perm thread_id perm ss ≡ some changed
    → any (has_thread id) changed ≡ any (has_thread id) ss
unfolding set_perm
any-set_perm id thread_id perm [] e = cc
any-set_perm id thread_id perm (x ∷ ss) {changed} e =
    elim (Option-cases (set_perm thread_id perm ss)) [
      | inl missing ↦ ground arith
      | inr (rest, found) ↦ ground (arith, any-set_perm id thread_id perm ss {changed = rest})
    ]

pub set_perm-HasDistinctThreads :
    (thread_id : Text) (perm : Perm) (ss : List Share) {changed : List Share}
    → set_perm thread_id perm ss ≡ some changed
    → HasDistinctThreads ss
    → HasDistinctThreads changed
unfolding set_perm
set_perm-HasDistinctThreads thread_id perm [] e d = cc
set_perm-HasDistinctThreads thread_id perm (x ∷ ss) {changed} e d =
    elim (Option-cases (set_perm thread_id perm ss)) [
      | inl missing ↦ ground arith
      | inr (rest, found) ↦ ground (
        arith,
        any-set_perm x.thread_id thread_id perm ss {changed = rest},
        set_perm-HasDistinctThreads thread_id perm ss {changed = rest},
      )
    ]
