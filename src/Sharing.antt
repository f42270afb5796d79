-- ===== src/Sharing.antt =====
-- plugin/server.ts: the calls of the owner that change the shared links, each made durable before it
-- is reported.
-- Calls run one after another (`shareMutationQueue`). The clock, the random draws and the outcome of
-- `kv.set` are arguments of a call.
pub mod Rollback
pub mod Calls
pub mod Restart
use bb_shared.Base.{
  ℕ, List, [], ◌∷◌, ◌++◌, Bool, true, false, Option, none, some, Text, text_eq, codes, Dict, lookup,
  insert, erase, values, fill, if◌then◌else◌,
}
use bb_shared.TokenStore.{
  Perm, Share, Token, MintResult, AddShareInput, TokenSnapshot, StoreError, token_not_found,
  share_not_found, duplicate_share, Result, Tokens, Draws, or_else, list_tokens, get_token, init,
  mint_token, rename_token, delete_token, add_share, remove_share, update_share, restore_tokens,
}
use bb_shared.DeviceKey.{Bytes, Crypto}
use bb_shared.ShareState.{JsonCodec, ShareRecord, Saved, saved, save, load}

-- `store`, `rawTokenById` and `shareState`.
pub record Sharing : Type 0 where
  pub tokens : Tokens
  pub raw_tokens : Dict Text Text
  pub stored : ShareRecord

pub data Failure : Type 0 where
  store_error : (error : StoreError) → Failure
  missing_bearer : Failure
  not_saved : (why : Saved) → Failure
  no_draws : Failure

pub data Reply {ℓ} (A : Type ℓ) : Type ℓ where
  done : A → Reply A
  failed : Failure → Reply A

-- `mapStoreError`, for the errors of the store.
unfoldable pub map_store_error : StoreError → Text
map_store_error (token_not_found id) =
    codes "Token not found (" ++ (id ++ codes "). It may have been deleted.")
map_store_error (share_not_found id thread_id) = codes "Thread is not shared on this token."
map_store_error (duplicate_share id thread_id) = codes "Thread is already shared on this token."

-- What a handler gives: its result, whether `emitTokensChanged` ran, and the message of an error that
-- `mapStoreError` replaces. The titles and addresses that are added to a token are not modelled.
pub record RpcReply : Type 0 where
  pub answer : Reply (Option Token)
  pub announced : Bool
  pub message : Option Text

abbrev with_bearer : Token → Text → TokenSnapshot
with_bearer t raw = record {
  id = t.id;
  label = t.label;
  shares = t.shares;
  created_at = t.created_at;
  raw_token = raw;
}

-- The map of `persistShares`; `none` where a bearer is missing.
unfoldable pub snapshot : Dict Text Text → List Token → Option (List TokenSnapshot)
snapshot raws [] = some []
snapshot raws (t ∷ ts) =
    let rest = snapshot raws ts in
    elim (lookup t.id raws) [
      | none ↦ none
      | some raw ↦ elim rest [
        | none ↦ none
        | some saved_tokens ↦ some (with_bearer t raw ∷ saved_tokens)
      ]
    ]

pub data Request : Type 0 where
  mint_request : (label : Option Text) (first_thread : Option AddShareInput) → Request
  rename_request : (id label : Text) → Request
  delete_request : (id : Text) → Request
  add_request : (id : Text) (share : AddShareInput) → Request
  remove_request : (id thread_id : Text) → Request
  update_request : (id thread_id : Text) (perm : Perm) → Request

-- A call of the store that gives no value.
abbrev pub stored_call : Sharing → Result Tokens → Reply (Option Token) × Sharing
stored_call s (Result.ok after) = (done none, record s { tokens = after })
stored_call s (Result.err e) = (failed (store_error e), s)

abbrev pub first_shared : Sharing → Token → Result Tokens → Reply (Option Token) × Sharing
first_shared s token (Result.ok after) =
    (done (some (or_else (get_token after token.id) token)), record s { tokens = after })
first_shared s token (Result.err e) = (failed (store_error e), s)

abbrev pub deleted : Sharing → Text → Result Tokens → Reply (Option Token) × Sharing
deleted s id (Result.ok after) =
    (done none, record s { tokens = after; raw_tokens = erase id s.raw_tokens })
deleted s id (Result.err e) = (failed (store_error e), s)

module _ (hash_token : Text → Text) (now : ℕ) (draws : Draws) where
  abbrev with_first_thread : Sharing → Token → Option AddShareInput → Reply (Option Token) × Sharing
  with_first_thread s token none = (done (some token), s)
  with_first_thread s token (some share) =
      first_shared s token (add_share now s.tokens token.id share none)

  abbrev minted :
      Sharing → Option AddShareInput → Option (MintResult × Tokens) → Reply (Option Token) × Sharing
  minted s first_thread none = (failed no_draws, s)
  minted s first_thread (some (m, after)) =
      with_first_thread
        (record s { tokens = after; raw_tokens = insert m.token.id m.raw_token s.raw_tokens })
        m.token first_thread

  -- The `operation` of a call.
  unfoldable pub operate : Request → Sharing → Reply (Option Token) × Sharing
  operate (mint_request label first_thread) s =
      minted s first_thread (mint_token hash_token now s.tokens label none draws)
  operate (rename_request id label) s = stored_call s (rename_token s.tokens id label)
  operate (delete_request id) s = deleted s id (delete_token s.tokens id)
  operate (add_request id share) s = stored_call s (add_share now s.tokens id share none)
  operate (remove_request id thread_id) s = stored_call s (remove_share s.tokens id thread_id)
  operate (update_request id thread_id perm) s =
      stored_call s (update_share s.tokens id thread_id perm)

module _ (c : Crypto) (k : JsonCodec) (key : Bytes) (nonces : ℕ → Bytes) (works : Bool) where
  abbrev kept : Sharing → Saved → Reply (Sharing)
  kept s (saved after) = done (record s { stored = after })
  kept s why = failed (not_saved why)

  unfoldable pub persist_shares : Sharing → Reply Sharing
  persist_shares s = elim (snapshot s.raw_tokens (list_tokens s.tokens)) [
    | none ↦ failed missing_bearer
    | some ts ↦ kept s (save c k key nonces works s.stored ts)
  ]

  -- The state after a failed write, from the state before the call: both maps are cleared, and set
  -- in order.
  abbrev pub roll_back : Sharing → Sharing → Sharing
  roll_back prior s = record s {
    tokens = restore_tokens s.tokens (list_tokens prior.tokens);
    raw_tokens = fill [] prior.raw_tokens;
  }

  abbrev settle : Sharing → Reply (Option Token) × Sharing → Reply (Option Token) × Sharing
  settle prior (failed why, s) = (failed why, s)
  settle prior (done value, s) = elim (persist_shares s) [
    | failed why ↦ (failed why, roll_back prior s)
    | done after ↦ (done value, after)
  ]

  -- `mutateShares`.
  unfoldable pub mutate_shares :
      (Text → Text) → ℕ → Draws → Request → Sharing → Reply (Option Token) × Sharing
  mutate_shares hash_token now draws q s = settle s (operate hash_token now draws q s)

  abbrev answered : Reply (Option Token) × Sharing → RpcReply × Sharing
  answered (done value, s) = (record { answer = done value; announced = true; message = none }, s)
  answered (failed (store_error e), s) = (
    record {
      answer = failed (store_error e);
      announced = false;
      message = some (map_store_error e);
    },
    s,
  )
  answered (failed why, s) = (record { answer = failed why; announced = false; message = none }, s)

  -- A handler of the contract.
  unfoldable pub rpc : (Text → Text) → ℕ → Draws → Request → Sharing → RpcReply × Sharing
  rpc hash_token now draws q s = answered (mutate_shares hash_token now draws q s)

  -- The start of the plugin: the record is loaded, and the store and the bearers are filled.
  abbrev bearers : Dict Text Text → List TokenSnapshot → Dict Text Text
  bearers m [] = m
  bearers m (t ∷ ts) = bearers (insert t.id t.raw_token m) ts

  unfoldable pub start : (Text → Text) → ShareRecord → Sharing
  start hash_token r =
      let loaded = load c k key nonces works r in
      record {
        tokens = init hash_token [] loaded.0;
        raw_tokens = bearers [] loaded.0;
        stored = loaded.1;
      }
