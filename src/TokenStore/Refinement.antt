-- ===== src/TokenStore/Refinement.antt =====
-- The calls of the store of plugin/lib/token-store.ts implement the edits of the table.
use bb_shared.Base.{
  ℕ, ◌≡◌, refl, sym, subst, [], ◌∷◌, ◌++◌, Option, none, some, Text, text_eq, any, same_iff, lookup,
  insert, erase, lookup-erase, inl, inr, arith, Bool-cases, Option-cases,
}
use bb_shared.TokenStore.{
  Perm, Token, MintResult, AddShareInput, Tokens, ok, has_thread, Draws, rename_token, delete_token,
  add_share, added_share, remove_thread, remove_share, set_perm, update_share, mint_token,
}
use bb_shared.TokenStore.Invariant.{
  IsValid, lookup-IsSound, rename_token-IsValid, delete_token-IsValid, add_share-IsValid,
  remove_share-IsValid, update_share-IsValid,
}
use bb_shared.TokenStore.Minting.{mint_token-IsMinted, mint_token-IsValid}
use bb_shared.TokenStore.Grants.{
  perm_of, perm_of-snoc, perm_of-remove_thread, perm_of-set_perm, grants, grants-insert, Grants,
  Edit, revoke, put, apply, Call, mints, renames, deletes, adds, removes, updates,
}

-- Two tables that agree everywhere.
abbrev Agree : Grants → Grants → Type 0
Agree g h = (x y : Text) → g x y ≡ h x y

rename_token-Agree :
    (tokens : Tokens) (id label : Text) {after : Tokens}
    → rename_token tokens id label ≡ ok after
    → Agree (grants after) (grants tokens)
unfolding rename_token
rename_token-Agree tokens id label {after} e x y = elim (Option-cases (lookup id tokens)) [
  | inl missing ↦ ground arith
  | inr (t, found) ↦
      let made : insert id (record t { label = label }) tokens ≡ after = ground arith in
      rw (← made)
        (ground (arith, grants-insert id (record t { label = label }) tokens x y, same_iff id x))
]

delete_token-Agree :
    (tokens : Tokens) (id : Text) {after : Tokens}
    → delete_token tokens id ≡ ok after
    → Agree (grants after) (apply (revoke id) (grants tokens))
unfolding delete_token
delete_token-Agree tokens id {after} e x y = elim (Option-cases (lookup id tokens)) [
  | inl missing ↦ ground arith
  | inr (t, found) ↦
      let made : erase id tokens ≡ after = ground arith in
      rw (← made) (ground (arith, lookup-erase id x tokens))
]

add_share-Agree :
    (now : ℕ) (tokens : Tokens) (id : Text) (share : AddShareInput) (now_ms : Option ℕ)
    {after : Tokens}
    → add_share now tokens id share now_ms ≡ ok after
    → Agree (grants after) (apply (put id share.thread_id (some share.perm)) (grants tokens))
unfolding add_share
add_share-Agree now tokens id share now_ms {after} e x y = elim (Option-cases (lookup id tokens)) [
  | inl missing ↦ ground arith
  | inr (t, found) ↦ elim (Bool-cases (any (has_thread share.thread_id) t.shares)) [
    | inl twice ↦ ground arith
    | inr fresh ↦
        let added = added_share now share now_ms in
        let made : insert id (record t { shares = t.shares ++ added ∷ [] }) tokens ≡ after =
          ground arith in
        rw (← made) (
          ground (
            arith,
            grants-insert id (record t { shares = t.shares ++ added ∷ [] }) tokens x y,
            perm_of-snoc y t.shares added fresh,
            same_iff id x,
          ))
  ]
]

remove_share-Agree :
    (tokens : Tokens) (id thread_id : Text) {after : Tokens}
    → IsValid tokens
    → remove_share tokens id thread_id ≡ ok after
    → Agree (grants after) (apply (put id thread_id none) (grants tokens))
unfolding remove_share
remove_share-Agree tokens id thread_id {after} v e x y = elim (Option-cases (lookup id tokens)) [
  | inl missing ↦ ground arith
  | inr (t, found) ↦ elim (Option-cases (remove_thread thread_id t.shares)) [
    | inl absent ↦ ground arith
    | inr (kept, removed) ↦
        let sound = lookup-IsSound id t tokens v found in
        let made : insert id (record t { shares = kept }) tokens ≡ after = ground arith in
        rw (← made) (
          ground (
            arith,
            grants-insert id (record t { shares = kept }) tokens x y,
            perm_of-remove_thread y thread_id t.shares {kept = kept} sound.1 removed,
            same_iff id x,
          ))
  ]
]

update_share-Agree :
    (tokens : Tokens) (id thread_id : Text) (perm : Perm) {after : Tokens}
    → update_share tokens id thread_id perm ≡ ok after
    → Agree (grants after) (apply (put id thread_id (some perm)) (grants tokens))
unfolding update_share
update_share-Agree tokens id thread_id perm {after} e x y = elim (Option-cases (lookup id tokens)) [
  | inl missing ↦ ground arith
  | inr (t, found) ↦ elim (Option-cases (set_perm thread_id perm t.shares)) [
    | inl absent ↦ ground arith
    | inr (changed, written) ↦
        let made : insert id (record t { shares = changed }) tokens ≡ after = ground arith in
        rw (← made) (
          ground (
            arith,
            grants-insert id (record t { shares = changed }) tokens x y,
            perm_of-set_perm y thread_id perm t.shares {changed = changed} written,
            same_iff id x,
          ))
  ]
]

module _ (hash_token : Text → Text) where
  mint_token-Agree :
      (now : ℕ) (tokens : Tokens) (label : Option Text) (now_ms : Option ℕ) (draws : Draws)
      (minted : MintResult) {after : Tokens}
      → mint_token hash_token now tokens label now_ms draws ≡ some (minted, after)
      → Agree (grants after) (grants tokens)
  unfolding perm_of
  mint_token-Agree now tokens label now_ms draws minted {after} e x y =
      let m =
        mint_token-IsMinted hash_token now tokens label now_ms draws {minted = minted}
          {after = after} e in
      let none_shared : perm_of y minted.token.shares ≡ none =
        subst (λ (t : Token). perm_of y t.shares ≡ none) (sym m.made) refl in
      rw m.stored (
        ground (
          arith,
          grants-insert minted.token.id minted.token tokens x y,
          none_shared,
          m.absent,
          same_iff minted.token.id x,
        ))

  -- Every successful call of the store on a well-formed state leaves a well-formed state, and
  -- changes the table of permissions as its edit says and nowhere else.
  pub Call-refines :
      {edit : Edit} {tokens after : Tokens}
      → IsValid tokens
      → Call hash_token edit tokens after
      → IsValid after × ((x y : Text) → grants after x y ≡ apply edit (grants tokens) x y)
  Call-refines {after = a} v (mints {tokens = m} now label now_ms draws minted e) = (
    mint_token-IsValid hash_token now m label now_ms draws {minted = minted} {after = a} v e,
    mint_token-Agree now m label now_ms draws minted {after = a} e,
  )
  Call-refines {after = a} v (renames {tokens = m} id label e) =
      (rename_token-IsValid m id label {after = a} v e, rename_token-Agree m id label {after = a} e)
  Call-refines {after = a} v (deletes {tokens = m} id e) =
      (delete_token-IsValid m id {after = a} v e, delete_token-Agree m id {after = a} e)
  Call-refines {after = a} v (adds {tokens = m} now id share now_ms e) = (
    add_share-IsValid now m id share now_ms {after = a} v e,
    add_share-Agree now m id share now_ms {after = a} e,
  )
  Call-refines {after = a} v (removes {tokens = m} id thread_id e) = (
    remove_share-IsValid m id thread_id {after = a} v e,
    remove_share-Agree m id thread_id {after = a} v e,
  )
  Call-refines {after = a} v (updates {tokens = m} id thread_id perm e) = (
    update_share-IsValid m id thread_id perm {after = a} v e,
    update_share-Agree m id thread_id perm {after = a} e,
  )
