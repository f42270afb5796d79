-- ===== src/TokenStore/Errors.antt =====
-- The errors of the store of plugin/lib/token-store.ts.
use bb_shared.Base.{
  ℕ, ◌≡◌, ◌≢◌, ◌↔◌, List, [], ◌∷◌, Option, none, Text, text_eq, lookup, inl, inr, arith,
  Option-cases,
}
use bb_shared.TokenStore.{
  Perm, Share, AddShareInput, Tokens, err, token_not_found, share_not_found, duplicate_share,
  add_share, remove_thread, remove_share, set_perm, update_share,
}
use bb_shared.TokenStore.Grants.{perm_of, perm_of-absent, perm_of-present, grants}

-- When the calls fail: on an unknown token, and otherwise by what the table holds.
remove_thread_iff :
    (id : Text) (ss : List Share) → (remove_thread id ss ≡ none) ↔ (perm_of id ss ≡ none)
unfolding remove_thread perm_of
remove_thread_iff id [] = ground arith
remove_thread_iff id (s ∷ ss) = ground (arith, remove_thread_iff id ss)

set_perm_iff :
    (id : Text) (p : Perm) (ss : List Share) → (set_perm id p ss ≡ none) ↔ (perm_of id ss ≡ none)
unfolding set_perm perm_of
set_perm_iff id p [] = ground arith
set_perm_iff id p (s ∷ ss) = ground (arith, set_perm_iff id p ss)

-- Each share call names the first thing that is wrong: the token is unknown, or the thread is
-- already shared (for `addShare`), or it is not shared (for `removeShare` and `updateShare`).
pub share_call_errors :
    (now : ℕ) (tokens : Tokens) (id : Text) (share : AddShareInput) (now_ms : Option ℕ)
    → let thread = share.thread_id in
      ((add_share now tokens id share now_ms ≡ err (token_not_found id))
        ↔ (lookup id tokens ≡ none))
      × ((add_share now tokens id share now_ms ≡ err (duplicate_share id thread))
          ↔ (grants tokens id thread ≢ none))
      × ((remove_share tokens id thread ≡ err (token_not_found id)) ↔ (lookup id tokens ≡ none))
      × ((remove_share tokens id thread ≡ err (share_not_found id thread))
          ↔ ((lookup id tokens ≢ none) × (grants tokens id thread ≡ none)))
      × ((update_share tokens id thread share.perm ≡ err (token_not_found id))
          ↔ (lookup id tokens ≡ none))
      × ((update_share tokens id thread share.perm ≡ err (share_not_found id thread))
          ↔ ((lookup id tokens ≢ none) × (grants tokens id thread ≡ none)))
unfolding add_share remove_share update_share
share_call_errors now tokens id share now_ms = elim (Option-cases (lookup id tokens)) [
  | inl missing ↦ ground arith
  | inr (t, found) ↦ ground (
    arith,
    perm_of-absent share.thread_id t.shares,
    perm_of-present share.thread_id t.shares,
    remove_thread_iff share.thread_id t.shares,
    set_perm_iff share.thread_id share.perm t.shares,
  )
]
