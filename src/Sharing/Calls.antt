-- ===== src/Sharing/Calls.antt =====
-- What a call of plugin/server.ts leaves behind when it succeeds.
use bb_shared.Base.{
  ℕ, ◌≡◌, refl, List, Bool, Option, none, some, Text, text_eq, insert, insert-IsDistinct,
  erase-IsDistinct, inl, inr, arith, Option-cases,
}
use bb_shared.TokenStore.{
  Token, MintResult, AddShareInput, TokenSnapshot, Result, Tokens, Draws, list_tokens, add_share,
  mint_token, rename_token, delete_token, remove_share, update_share,
}
use bb_shared.TokenStore.Invariant.{
  IsValid, rename_token-IsValid, delete_token-IsValid, add_share-IsValid, remove_share-IsValid,
  update_share-IsValid,
}
use bb_shared.TokenStore.Minting.{mint_token-IsValid}
use bb_shared.DeviceKey.{Bytes, Crypto}
use bb_shared.ShareState.{JsonCodec, saved, save}
use bb_shared.Sharing.{
  Sharing, done, Request, mint_request, rename_request, delete_request, add_request, remove_request,
  update_request, stored_call, first_shared, deleted, with_first_thread, minted, operate, snapshot,
  persist_shares, mutate_shares,
}
use bb_shared.Sharing.Rollback.{IsWellFormed, Reply-cases}

module _ (hash_token : Text → Text) (now : ℕ) (draws : Draws) where
  stored_call-IsWellFormed :
      (s : Sharing) (o : Result Tokens)
      → IsWellFormed s
      → ((tokens : Tokens) → o ≡ Result.ok tokens → IsValid tokens)
      → IsWellFormed (stored_call s o).1
  stored_call-IsWellFormed s (Result.ok tokens) w h = record {
    tokens_valid = h tokens refl;
    bearers_distinct = w.bearers_distinct;
  }
  stored_call-IsWellFormed s (Result.err error) w h = w

  first_shared-IsWellFormed :
      (s : Sharing) (t : Token) (o : Result Tokens)
      → IsWellFormed s
      → ((tokens : Tokens) → o ≡ Result.ok tokens → IsValid tokens)
      → IsWellFormed (first_shared s t o).1
  first_shared-IsWellFormed s t (Result.ok tokens) w h = record {
    tokens_valid = h tokens refl;
    bearers_distinct = w.bearers_distinct;
  }
  first_shared-IsWellFormed s t (Result.err error) w h = w

  with_first_thread-IsWellFormed :
      (s : Sharing) (t : Token) (first_thread : Option AddShareInput)
      → IsWellFormed s
      → IsWellFormed (with_first_thread hash_token now draws s t first_thread).1
  with_first_thread-IsWellFormed s t none w = w
  with_first_thread-IsWellFormed s t (some share) w =
      first_shared-IsWellFormed s t (add_share now s.tokens t.id share none) w
        (λ a e. add_share-IsValid now s.tokens t.id share none {after = a} w.tokens_valid e)

  deleted-IsWellFormed :
      (s : Sharing) (id : Text) (o : Result Tokens)
      → IsWellFormed s
      → ((tokens : Tokens) → o ≡ Result.ok tokens → IsValid tokens)
      → IsWellFormed (deleted s id o).1
  deleted-IsWellFormed s id (Result.ok tokens) w h = record {
    tokens_valid = h tokens refl;
    bearers_distinct = erase-IsDistinct id s.raw_tokens w.bearers_distinct;
  }
  deleted-IsWellFormed s id (Result.err error) w h = w

  minted-IsWellFormed :
      (s : Sharing) (first_thread : Option AddShareInput) (o : Option (MintResult × Tokens))
      → IsWellFormed s
      → ((m : MintResult) (tokens : Tokens) → o ≡ some (m, tokens) → IsValid tokens)
      → IsWellFormed (minted hash_token now draws s first_thread o).1
  minted-IsWellFormed s first_thread none w h = w
  minted-IsWellFormed s first_thread (some (m, tokens)) w h =
      with_first_thread-IsWellFormed
        (record s { tokens = tokens; raw_tokens = insert m.token.id m.raw_token s.raw_tokens })
        m.token first_thread
        (record {
          tokens_valid = h m tokens refl;
          bearers_distinct =
              insert-IsDistinct m.token.id m.raw_token s.raw_tokens w.bearers_distinct;
        })

  pub operate-IsWellFormed :
      (q : Request) (s : Sharing)
      → IsWellFormed s
      → IsWellFormed (operate hash_token now draws q s).1
  unfolding operate
  operate-IsWellFormed (mint_request label first_thread) s w =
      minted-IsWellFormed s first_thread (mint_token hash_token now s.tokens label none draws) w
        (λ m a e.
          mint_token-IsValid hash_token now s.tokens label none draws {minted = m} {after = a}
            w.tokens_valid e)
  operate-IsWellFormed (rename_request id label) s w =
      stored_call-IsWellFormed s (rename_token s.tokens id label) w
        (λ a e. rename_token-IsValid s.tokens id label {after = a} w.tokens_valid e)
  operate-IsWellFormed (delete_request id) s w =
      deleted-IsWellFormed s id (delete_token s.tokens id) w
        (λ a e. delete_token-IsValid s.tokens id {after = a} w.tokens_valid e)
  operate-IsWellFormed (add_request id share) s w =
      stored_call-IsWellFormed s (add_share now s.tokens id share none) w
        (λ a e. add_share-IsValid now s.tokens id share none {after = a} w.tokens_valid e)
  operate-IsWellFormed (remove_request id thread_id) s w =
      stored_call-IsWellFormed s (remove_share s.tokens id thread_id) w
        (λ a e. remove_share-IsValid s.tokens id thread_id {after = a} w.tokens_valid e)
  operate-IsWellFormed (update_request id thread_id perm) s w =
      stored_call-IsWellFormed s (update_share s.tokens id thread_id perm) w
        (λ a e. update_share-IsValid s.tokens id thread_id perm {after = a} w.tokens_valid e)

module _ (c : Crypto) (k : JsonCodec) (key : Bytes) (nonces : ℕ → Bytes) (works : Bool) where
  -- What is in the record after a call that succeeded.
  pub record IsPersisted (s after : Sharing) : Type 0 where
    pub tokens : List TokenSnapshot
    pub listed : snapshot s.raw_tokens (list_tokens s.tokens) ≡ some tokens
    pub written : save c k key nonces works s.stored tokens ≡ saved after.stored
    pub unchanged : after ≡ record s { stored = after.stored }

  persist_shares-IsPersisted :
      (s after : Sharing) → persist_shares c k key nonces works s ≡ done after → IsPersisted s after
  unfolding persist_shares
  persist_shares-IsPersisted s after e =
      elim (Option-cases (snapshot s.raw_tokens (list_tokens s.tokens))) [
        | inl missing ↦ absurd (ground (arith, missing))
        | inr (ts, listed) ↦ record {
          tokens = ts;
          listed = listed;
          written = ground (arith, listed);
          unchanged = ground (arith, listed);
        }
      ]

  pub mutate_shares-IsPersisted :
      (hash_token : Text → Text) (now : ℕ) (draws : Draws) (q : Request) (s : Sharing)
      (value : Option Token) (after : Sharing)
      → mutate_shares c k key nonces works hash_token now draws q s ≡ (done value, after)
      → IsPersisted (operate hash_token now draws q s).1 after
  unfolding mutate_shares
  mutate_shares-IsPersisted hash_token now draws q s value after e =
      elim (Reply-cases (operate hash_token now draws q s).0) [
        | inl (error, bad) ↦ absurd (ground (arith, bad))
        | inr (v, good) ↦
            elim (Reply-cases
              (persist_shares c k key nonces works (operate hash_token now draws q s).1)) [
                | inl (error, bad) ↦ absurd (ground (arith, good, bad))
                | inr (next, written) ↦
                    persist_shares-IsPersisted (operate hash_token now draws q s).1 after
                      (ground (arith, good, written))
              ]
      ]
