-- ===== src/TokenStore/Invariant.antt =====
-- The well-formed states of `InMemoryStore` (plugin/lib/token-store.ts), under every operation.
use bb_shared.Base.{
  ℕ, ◌≡◌, refl, List, [], ◌∷◌, ◌++◌, Option, some, Text, text_eq, any, All, lookup, insert, erase,
  has, IsDistinct, Entries, insert-IsDistinct, erase-IsDistinct, insert-Entries, erase-Entries,
  lookup-Entries, inl, inr, arith, Bool-cases, Option-cases,
}
use bb_shared.TokenStore.{
  Perm, Token, AddShareInput, TokenSnapshot, Tokens, ok, has_thread, rename_token, delete_token,
  add_share, remove_thread, remove_share, set_perm, update_share, set_all, restore_tokens,
  added_share, init,
}
use bb_shared.TokenStore.Shares.{
  HasDistinctThreads, snoc-HasDistinctThreads, remove_thread-HasDistinctThreads,
  set_perm-HasDistinctThreads,
}

abbrev pub IsSound : Text → Token → Type 0
IsSound id t = (t.id ≡ id) × HasDistinctThreads t.shares

pub record IsValid (tokens : Tokens) : Type 0 where
  pub distinct : IsDistinct tokens
  pub sound : Entries IsSound tokens

pub empty-IsValid : IsValid []
empty-IsValid = record { distinct = tt; sound = tt }

pub insert-IsValid :
    (id : Text) (t : Token) (tokens : Tokens)
    → IsSound id t
    → IsValid tokens
    → IsValid (insert id t tokens)
insert-IsValid id t tokens h v = record {
  distinct = insert-IsDistinct id t tokens v.distinct;
  sound = insert-Entries IsSound id t tokens h v.sound;
}

pub lookup-IsSound :
    (id : Text) (t : Token) (tokens : Tokens)
    → IsValid tokens
    → lookup id tokens ≡ some t
    → IsSound id t
lookup-IsSound id t tokens v e = lookup-Entries IsSound id {v = t} tokens v.sound e

-- The operations.
pub rename_token-IsValid :
    (tokens : Tokens) (id label : Text) {after : Tokens}
    → IsValid tokens
    → rename_token tokens id label ≡ ok after
    → IsValid after
unfolding rename_token
rename_token-IsValid tokens id label {after} v e = elim (Option-cases (lookup id tokens)) [
  | inl missing ↦ ground arith
  | inr (t, found) ↦
      let made : insert id (record t { label = label }) tokens ≡ after = ground arith in
      rw (← made) (insert-IsValid id _ tokens (lookup-IsSound id t tokens v found) v)
]

pub delete_token-IsValid :
    (tokens : Tokens) (id : Text) {after : Tokens}
    → IsValid tokens
    → delete_token tokens id ≡ ok after
    → IsValid after
unfolding delete_token
delete_token-IsValid tokens id {after} v e = elim (Bool-cases (has id tokens)) [
  | inl found ↦
      let made : erase id tokens ≡ after = ground arith in
      rw (← made) (record {
        distinct = erase-IsDistinct id tokens v.distinct;
        sound = erase-Entries IsSound id tokens v.sound;
      })
  | inr missing ↦ ground arith
]

pub add_share-IsValid :
    (now : ℕ) (tokens : Tokens) (id : Text) (share : AddShareInput) (now_ms : Option ℕ)
    {after : Tokens}
    → IsValid tokens
    → add_share now tokens id share now_ms ≡ ok after
    → IsValid after
unfolding add_share
add_share-IsValid now tokens id share now_ms {after} v e = elim (Option-cases (lookup id tokens)) [
  | inl missing ↦ ground arith
  | inr (t, found) ↦ elim (Bool-cases (any (has_thread share.thread_id) t.shares)) [
    | inl twice ↦ ground arith
    | inr fresh ↦
        let sound = lookup-IsSound id t tokens v found in
        let added = added_share now share now_ms in
        let made : insert id (record t { shares = t.shares ++ added ∷ [] }) tokens ≡ after =
          ground arith in
        rw (← made) (
          insert-IsValid id _ tokens (sound.0, snoc-HasDistinctThreads t.shares added fresh sound.1)
            v)
  ]
]

pub remove_share-IsValid :
    (tokens : Tokens) (id thread_id : Text) {after : Tokens}
    → IsValid tokens
    → remove_share tokens id thread_id ≡ ok after
    → IsValid after
unfolding remove_share
remove_share-IsValid tokens id thread_id {after} v e = elim (Option-cases (lookup id tokens)) [
  | inl missing ↦ ground arith
  | inr (t, found) ↦ elim (Option-cases (remove_thread thread_id t.shares)) [
    | inl absent ↦ ground arith
    | inr (kept, removed) ↦
        let sound = lookup-IsSound id t tokens v found in
        let made : insert id (record t { shares = kept }) tokens ≡ after = ground arith in
        rw (← made) (
          insert-IsValid id _ tokens
            (
              sound.0,
              remove_thread-HasDistinctThreads thread_id t.shares {kept = kept} removed sound.1,
            )
            v)
  ]
]

pub update_share-IsValid :
    (tokens : Tokens) (id thread_id : Text) (perm : Perm) {after : Tokens}
    → IsValid tokens
    → update_share tokens id thread_id perm ≡ ok after
    → IsValid after
unfolding update_share
update_share-IsValid tokens id thread_id perm {after} v e = elim (Option-cases (lookup id tokens)) [
  | inl missing ↦ ground arith
  | inr (t, found) ↦ elim (Option-cases (set_perm thread_id perm t.shares)) [
    | inl absent ↦ ground arith
    | inr (changed, written) ↦
        let sound = lookup-IsSound id t tokens v found in
        let made : insert id (record t { shares = changed }) tokens ≡ after = ground arith in
        rw (← made) (
          insert-IsValid id _ tokens
            (
              sound.0,
              set_perm-HasDistinctThreads thread_id perm t.shares {changed = changed} written
                  sound.1,
            )
            v)
  ]
]

set_all-IsValid :
    (ts : List Token) (tokens : Tokens)
    → All (λ t. HasDistinctThreads t.shares) ts
    → IsValid tokens
    → IsValid (set_all tokens ts)
unfolding set_all
set_all-IsValid [] tokens h v = v
set_all-IsValid (t ∷ ts) tokens (d, h) v =
    set_all-IsValid ts (insert t.id t tokens) h (insert-IsValid t.id t tokens (refl, d) v)

-- A restored list need not name its tokens apart: the last one of an id wins.
pub restore_tokens-IsValid :
    (tokens : Tokens) (ts : List Token)
    → All (λ t. HasDistinctThreads t.shares) ts
    → IsValid (restore_tokens tokens ts)
unfolding restore_tokens
restore_tokens-IsValid tokens ts h = set_all-IsValid ts [] h empty-IsValid

module _ (hash_token : Text → Text) where
  init-IsValid :
      (saved : List TokenSnapshot) (tokens : Tokens)
      → All (λ s. HasDistinctThreads s.shares) saved
      → IsValid tokens
      → IsValid (init hash_token tokens saved)
  unfolding init
  init-IsValid [] tokens h v = v
  init-IsValid (s ∷ ss) tokens (d, h) v =
      init-IsValid ss (insert s.id _ tokens) h (insert-IsValid s.id _ tokens (refl, d) v)
