-- ===== src/Sharing/Rollback.antt =====
-- A call of plugin/server.ts that fails leaves everything as it was.
use bb_shared.Base.{
  false, ℕ, ◌≡◌, refl, sym, ap, ◌∙◌, ◌⊎◌, [], ◌∷◌, ◌++◌, Bool, Option, none, some, Text, text_eq,
  lookup, insert, values, fill, fill-nil, IsDistinct, Entries, inl, inr, arith, Option-cases,
}
use bb_shared.TokenStore.{
  Token, MintResult, AddShareInput, StoreError, Result, Tokens, Draws, list_tokens, set_all,
  restore_tokens, add_share, added_share, mint_token, rename_token, delete_token, remove_share,
  update_share,
}
use bb_shared.TokenStore.Invariant.{IsValid, IsSound}
use bb_shared.TokenStore.Minting.{mint_token-IsMinted}
use bb_shared.Base.{lookup-insert_self}
use bb_shared.DeviceKey.{Bytes, Crypto}
use bb_shared.ShareState.{JsonCodec}
use bb_shared.Sharing.{
  Sharing, Failure, store_error, missing_bearer, not_saved, no_draws, Reply, done, failed, Request,
  mint_request, rename_request, delete_request, add_request, remove_request, update_request,
  stored_call, operate, persist_shares, roll_back, settle, mutate_shares, rpc, answered,
}

set_all-values : (m acc : Tokens) → Entries IsSound m → set_all acc (values m) ≡ fill acc m
unfolding set_all fill
set_all-values [] acc h = refl
set_all-values ((k, t) ∷ m) acc ((e, d), h) =
    ap (λ i. set_all (insert i t acc) (values m)) e ∙ set_all-values m (insert k t acc) h

-- The tokens that were listed are restored as they were.
pub restore_tokens-list_tokens :
    (now tokens : Tokens) → IsValid tokens → restore_tokens now (list_tokens tokens) ≡ tokens
unfolding restore_tokens list_tokens
restore_tokens-list_tokens now tokens v =
    set_all-values tokens [] v.sound ∙ fill-nil tokens v.distinct

-- A well-formed state: the store, and each bearer once.
pub record IsWellFormed (s : Sharing) : Type 0 where
  pub tokens_valid : IsValid s.tokens
  pub bearers_distinct : IsDistinct s.raw_tokens

roll_back_lem :
    (c : Crypto) (k : JsonCodec) (key : Bytes) (nonces : ℕ → Bytes) (works : Bool)
    (prior s : Sharing)
    → IsWellFormed prior
    → s.stored ≡ prior.stored
    → roll_back c k key nonces works prior s ≡ prior
roll_back_lem c k key nonces works prior s w e = rw (
  restore_tokens-list_tokens s.tokens prior.tokens w.tokens_valid,
  fill-nil prior.raw_tokens w.bearers_distinct,
  e,
)

-- A thread can always be added to a token that was just minted.
add_share-minted :
    (hash_token : Text → Text) (now : ℕ) (tokens : Tokens) (label : Option Text) (draws : Draws)
    (share : AddShareInput) {m : MintResult} {after : Tokens}
    → mint_token hash_token now tokens label none draws ≡ some (m, after)
    → (more : Tokens) × (add_share now after m.token.id share none ≡ Result.ok more)
unfolding add_share
add_share-minted hash_token now tokens label draws share {m} {after} e =
    let i =
      mint_token-IsMinted hash_token now tokens label none draws {minted = m} {after = after} e in
    let found : lookup m.token.id after ≡ some m.token =
      ap (lookup m.token.id) i.stored ∙ lookup-insert_self m.token.id m.token tokens in
    let unshared : m.token.shares ≡ [] = ap (λ (t : Token). t.shares) i.made in
    (
      insert m.token.id
          (record m.token { shares = m.token.shares ++ added_share now share none ∷ [] }) after,
      ground (arith, found, unshared),
    )

pub Result-cases {ℓ} :
    {A : Type ℓ} (o : Result A)
    → ((e : StoreError) × (o ≡ Result.err e)) ⊎ ((a : A) × (o ≡ Result.ok a))
Result-cases (Result.err e) = inl (e, refl)
Result-cases (Result.ok a) = inr (a, refl)

module _ (hash_token : Text → Text) (now : ℕ) (draws : Draws) where
  stored_call-failed :
      (s : Sharing) (o : Result Tokens) (why : Failure) (after : Sharing)
      → stored_call s o ≡ (failed why, after)
      → after ≡ s
  stored_call-failed s (Result.ok tokens) why after e = absurd (ground (arith, e))
  stored_call-failed s (Result.err error) why after e = ground arith

  stored_call-stored : (s : Sharing) (o : Result Tokens) → (stored_call s o).1.stored ≡ s.stored
  stored_call-stored s (Result.ok tokens) = refl
  stored_call-stored s (Result.err error) = refl

  mint-failed :
      (s : Sharing) (label : Option Text) (first_thread : Option AddShareInput) (why : Failure)
      (after : Sharing)
      → operate hash_token now draws (mint_request label first_thread) s ≡ (failed why, after)
      → after ≡ s
  unfolding operate
  mint-failed s label first_thread why after e =
      elim (Option-cases (mint_token hash_token now s.tokens label none draws)) [
        | inl spent ↦ ground (arith, spent)
        | inr ((m, tokens), made) ↦ elim (Option-cases first_thread) [
          | inl alone ↦ absurd (ground (arith, made, alone))
          | inr (share, given) ↦
              let (more, added) =
                add_share-minted hash_token now s.tokens label draws share {m = m} {after = tokens}
                  made in
              absurd (ground (arith, made, given, added))
        ]
      ]

  mint-stored :
      (s : Sharing) (label : Option Text) (first_thread : Option AddShareInput)
      → (operate hash_token now draws (mint_request label first_thread) s).1.stored ≡ s.stored
  unfolding operate
  mint-stored s label first_thread = ground arith

  operate-failed :
      (q : Request) (s : Sharing) (why : Failure) (after : Sharing)
      → operate hash_token now draws q s ≡ (failed why, after)
      → after ≡ s
  unfolding operate
  operate-failed (mint_request label first_thread) s why after e =
      mint-failed s label first_thread why after e
  operate-failed (rename_request id label) s why after e =
      stored_call-failed s (rename_token s.tokens id label) why after e
  operate-failed (delete_request id) s why after e =
      elim (Result-cases (delete_token s.tokens id)) [
        | inl (error, bad) ↦ ground (arith, bad)
        | inr (tokens, good) ↦ absurd (ground (arith, good))
      ]
  operate-failed (add_request id share) s why after e =
      stored_call-failed s (add_share now s.tokens id share none) why after e
  operate-failed (remove_request id thread_id) s why after e =
      stored_call-failed s (remove_share s.tokens id thread_id) why after e
  operate-failed (update_request id thread_id perm) s why after e =
      stored_call-failed s (update_share s.tokens id thread_id perm) why after e

  pub operate-stored :
      (q : Request) (s : Sharing) → (operate hash_token now draws q s).1.stored ≡ s.stored
  unfolding operate
  operate-stored (mint_request label first_thread) s = mint-stored s label first_thread
  operate-stored (rename_request id label) s = stored_call-stored s (rename_token s.tokens id label)
  operate-stored (delete_request id) s = ground arith
  operate-stored (add_request id share) s =
      stored_call-stored s (add_share now s.tokens id share none)
  operate-stored (remove_request id thread_id) s =
      stored_call-stored s (remove_share s.tokens id thread_id)
  operate-stored (update_request id thread_id perm) s =
      stored_call-stored s (update_share s.tokens id thread_id perm)

pub Reply-cases {ℓ} :
    {A : Type ℓ} (o : Reply A) → ((e : Failure) × (o ≡ failed e)) ⊎ ((a : A) × (o ≡ done a))
Reply-cases (failed e) = inl (e, refl)
Reply-cases (done a) = inr (a, refl)

settle-failed :
    (c : Crypto) (k : JsonCodec) (key : Bytes) (nonces : ℕ → Bytes) (works : Bool)
    (prior s : Sharing) (r : Reply (Option Token)) (why : Failure) (after : Sharing)
    → IsWellFormed prior
    → s.stored ≡ prior.stored
    → ((error : Failure) → r ≡ failed error → s ≡ prior)
    → settle c k key nonces works prior (r, s) ≡ (failed why, after)
    → after ≡ prior
settle-failed c k key nonces works prior s (failed error) why after w stored undone e =
    let kept : s ≡ after = ground arith in sym kept ∙ undone error refl
settle-failed c k key nonces works prior s (done value) why after w stored undone e =
    elim (Reply-cases (persist_shares c k key nonces works s)) [
      | inl (error, bad) ↦
          let back : roll_back c k key nonces works prior s ≡ after = ground (arith, bad) in
          sym back ∙ roll_back_lem c k key nonces works prior s w stored
      | inr (saved_state, good) ↦ absurd (ground (arith, good))
    ]

mutate_shares-failed :
    (c : Crypto) (k : JsonCodec) (key : Bytes) (nonces : ℕ → Bytes) (works : Bool)
    (hash_token : Text → Text) (now : ℕ) (draws : Draws) (q : Request) (s : Sharing) (why : Failure)
    (after : Sharing)
    → IsWellFormed s
    → mutate_shares c k key nonces works hash_token now draws q s ≡ (failed why, after)
    → after ≡ s
unfolding mutate_shares
mutate_shares-failed c k key nonces works hash_token now draws q s why after w e =
    settle-failed c k key nonces works s (operate hash_token now draws q s).1
      (operate hash_token now draws q s).0 why after w (operate-stored hash_token now draws q s)
      (λ error bad.
        operate-failed hash_token now draws q s error (operate hash_token now draws q s).1
          (ground (arith, bad)))
      e

answered-unchanged :
    (c : Crypto) (k : JsonCodec) (key : Bytes) (nonces : ℕ → Bytes) (works : Bool) (s : Sharing)
    (o : Reply (Option Token) × Sharing)
    → ((why : Failure) (after : Sharing) → o ≡ (failed why, after) → after ≡ s)
    → (answered c k key nonces works o).0.announced ≡ false
    → ((why : Failure) × ((answered c k key nonces works o).0.answer ≡ failed why))
      × ((answered c k key nonces works o).1 ≡ s)
answered-unchanged c k key nonces works s (done value, after) h e = absurd (ground (arith, e))
answered-unchanged c k key nonces works s (failed (store_error error), after) h e =
    ((store_error error, refl), h (store_error error) after refl)
answered-unchanged c k key nonces works s (failed missing_bearer, after) h e =
    ((missing_bearer, refl), h missing_bearer after refl)
answered-unchanged c k key nonces works s (failed (not_saved why), after) h e =
    ((not_saved why, refl), h (not_saved why) after refl)
answered-unchanged c k key nonces works s (failed no_draws, after) h e =
    ((no_draws, refl), h no_draws after refl)

-- A call that does not announce a change to the open sockets, because the store refused it or the
-- record could not be written, gives an error and leaves the tokens, the bearers and the record as they
-- were. The state before the call is well formed.
pub rpc-unchanged :
    (c : Crypto) (k : JsonCodec) (key : Bytes) (nonces : ℕ → Bytes) (works : Bool)
    (hash_token : Text → Text) (now : ℕ) (draws : Draws) (q : Request) (s : Sharing)
    → IsWellFormed s
    → (rpc c k key nonces works hash_token now draws q s).0.announced ≡ false
    → ((why : Failure) × ((rpc c k key nonces works hash_token now draws q s).0.answer
          ≡ failed why))
      × ((rpc c k key nonces works hash_token now draws q s).1 ≡ s)
unfolding rpc
rpc-unchanged c k key nonces works hash_token now draws q s w e =
    answered-unchanged c k key nonces works s
      (mutate_shares c k key nonces works hash_token now draws q s)
      (λ why after. mutate_shares-failed c k key nonces works hash_token now draws q s why after w)
      e
