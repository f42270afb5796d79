-- ===== src/TokenStore.antt =====
-- plugin/lib/token-store.ts: tokens, their shares, and `InMemoryStore`.
-- The random sources and the clock enter as arguments. `hash_token` is `hashToken` under the
-- process's HMAC key. `cloneToken` and object spreads copy values, and a value is its own copy here.
pub mod Labels
pub mod Shares
pub mod Invariant
pub mod Minting
pub mod Grants
pub mod Refinement
pub mod Errors
pub mod Bearers
use Labels.{pick_unique_label}
use bb_shared.Base.{
  ℕ, zero, suc, ◌+◌, ◌≡◌, List, [], ◌∷◌, ◌++◌, Bool, true, false, ◌&&◌, map, Option, none, some,
  Text, text_eq, Dict, length, find?, any, same, lookup, insert, erase, has, values, if◌then◌else◌,
  ◌==◌,
}

pub data Perm : Type 0 where
  read write : Perm

pub record Share : Type 0 where
  pub thread_id : Text
  pub project_id : Text
  pub perm : Perm
  pub added_at : ℕ

pub record Token : Type 0 where
  pub id : Text
  pub hash : Text
  pub label : Text
  pub shares : List Share
  pub created_at : ℕ

pub record MintResult : Type 0 where
  pub token : Token
  pub raw_token : Text

pub record AddShareInput : Type 0 where
  pub thread_id : Text
  pub project_id : Text
  pub perm : Perm

pub record TokenSnapshot : Type 0 where
  pub id : Text
  pub label : Text
  pub shares : List Share
  pub created_at : ℕ
  pub raw_token : Text

pub data StoreError : Type 0 where
  token_not_found : Text → StoreError
  share_not_found : Text → Text → StoreError
  duplicate_share : Text → Text → StoreError

pub data Result {ℓ} (A : Type ℓ) : Type ℓ where
  ok : A → Result A
  err : StoreError → Result A

infixl 5 ◌>>=◌
abbrev pub ◌>>=◌ {ℓ κ} : {A : Type ℓ} {B : Type κ} → Result A → (A → Result B) → Result B
ok a >>= f = f a
err e >>= f = err e

abbrev pub or_throw {ℓ} : {A : Type ℓ} → Option A → StoreError → Result A
or_throw none e = err e
or_throw (some a) e = ok a

-- The field `tokens`.
abbrev pub Tokens : Type 0
Tokens = Dict Text Token

-- `a ?? b`.
abbrev pub or_else {ℓ} : {A : Type ℓ} → Option A → A → A
or_else none b = b
or_else (some a) b = a

-- `hashesEqual`: the length guard, then the comparison of all bytes.
unfoldable pub hashes_equal : Text → Text → Bool
hashes_equal a b = (length a == length b) && same a b

abbrev pub has_thread : Text → Share → Bool
has_thread thread_id s = same s.thread_id thread_id

unfoldable pub list_tokens : Tokens → List Token
list_tokens tokens = values tokens

unfoldable pub get_token : Tokens → Text → Option Token
get_token tokens id = lookup id tokens

-- `while (this.tokens.has(id)) id = generateTokenId()` over the ids that are drawn from the `k`th
-- on; `none` when `fuel` draws were all in use.
pub fresh_id : ℕ → Tokens → (ℕ → Text) → ℕ → Option Text
fresh_id zero tokens ids k = none
fresh_id (suc fuel) tokens ids k =
    let rest = fresh_id fuel tokens ids (suc k) in if has (ids k) tokens then rest else some (ids k)

-- What the random sources give during one call.
pub record Draws : Type 0 where
  pub raw_token : Text
  pub ids : ℕ → Text
  pub rng : ℕ → ℕ
  pub fuel : ℕ

unfoldable pub rename_token : Tokens → Text → Text → Result Tokens
rename_token tokens id label = do
  t ← or_throw (lookup id tokens) (token_not_found id)
  ok (insert id (record t { label = label }) tokens)

unfoldable pub delete_token : Tokens → Text → Result Tokens
delete_token tokens id = if has id tokens then ok (erase id tokens) else err (token_not_found id)

abbrev pub added_share : ℕ → AddShareInput → Option ℕ → Share
added_share now share now_ms = record {
  thread_id = share.thread_id;
  project_id = share.project_id;
  perm = share.perm;
  added_at = or_else now_ms now;
}

unfoldable pub add_share : ℕ → Tokens → Text → AddShareInput → Option ℕ → Result Tokens
add_share now tokens token_id share now_ms = do
  t ← or_throw (lookup token_id tokens) (token_not_found token_id)
  if any (has_thread share.thread_id) t.shares
      then err (duplicate_share token_id share.thread_id)
      else ok (
          insert token_id (record t { shares = t.shares ++ added_share now share now_ms ∷ [] })
            tokens)

-- `findIndex` and `splice(idx, 1)`: without the first share of the thread; `none` for index -1.
pub remove_thread : Text → List Share → Option (List Share)
remove_thread thread_id [] = none
remove_thread thread_id (s ∷ ss) =
    let rest = remove_thread thread_id ss in
    if has_thread thread_id s
    then some ss
    else elim rest [ none ↦ none | some kept ↦ some (s ∷ kept) ]

unfoldable pub remove_share : Tokens → Text → Text → Result Tokens
unfolding remove_thread
remove_share tokens token_id thread_id = do
  t ← or_throw (lookup token_id tokens) (token_not_found token_id)
  kept ← or_throw (remove_thread thread_id t.shares) (share_not_found token_id thread_id)
  ok (insert token_id (record t { shares = kept }) tokens)

-- `find` and the assignment to the share that it gives.
pub set_perm : Text → Perm → List Share → Option (List Share)
set_perm thread_id perm [] = none
set_perm thread_id perm (s ∷ ss) =
    let rest = set_perm thread_id perm ss in
    if has_thread thread_id s
    then some (record s { perm = perm } ∷ ss)
    else elim rest [ none ↦ none | some kept ↦ some (s ∷ kept) ]

unfoldable pub update_share : Tokens → Text → Text → Perm → Result Tokens
unfolding set_perm
update_share tokens token_id thread_id perm = do
  t ← or_throw (lookup token_id tokens) (token_not_found token_id)
  changed ← or_throw (set_perm thread_id perm t.shares) (share_not_found token_id thread_id)
  ok (insert token_id (record t { shares = changed }) tokens)

unfoldable pub set_all : Tokens → List Token → Tokens
set_all tokens [] = tokens
set_all tokens (t ∷ ts) = set_all (insert t.id t tokens) ts

-- `clear`, then `set` in order.
unfoldable pub restore_tokens : Tokens → List Token → Tokens
unfolding set_all
restore_tokens tokens saved = set_all [] saved

-- A label that the caller gives is not checked against the taken ones.
unfoldable pub choose_label : Option Text → Tokens → (ℕ → ℕ) → Option Text
choose_label (some given) tokens rng = some given
choose_label none tokens rng = pick_unique_label (map (λ (t : Token). t.label) (values tokens)) rng

-- The loop of `findByRawToken`.
unfoldable pub find_by_hash : Text → List Token → Option Token
unfolding hashes_equal
find_by_hash hash ts = find? (λ t. hashes_equal t.hash hash) ts

module _ (hash_token : Text → Text) where
  abbrev pub open_snapshot : TokenSnapshot → Token
  open_snapshot saved = record {
    id = saved.id;
    hash = hash_token saved.raw_token;
    label = saved.label;
    shares = saved.shares;
    created_at = saved.created_at;
  }

  -- The constructor's loop over `initialTokens`.
  unfoldable pub init : Tokens → List TokenSnapshot → Tokens
  init tokens [] = tokens
  init tokens (saved ∷ more) = init (insert saved.id (open_snapshot saved) tokens) more

  unfoldable pub find_by_raw_token : Tokens → Text → Option Token
  unfolding find_by_hash
  find_by_raw_token tokens raw_token = find_by_hash (hash_token raw_token) (values tokens)

  abbrev pub fresh_token : Text → Text → ℕ → Text → Token
  fresh_token id label created_at raw_token = record {
    id = id;
    hash = hash_token raw_token;
    label = label;
    shares = [];
    created_at = created_at;
  }

  -- `none` when a loop ran out of fuel.
  unfoldable pub mint_token :
      ℕ → Tokens → Option Text → Option ℕ → Draws → Option (MintResult × Tokens)
  unfolding fresh_id
  mint_token now tokens label now_ms draws = elim (choose_label label tokens draws.rng) [
    | none ↦ none
    | some chosen ↦ elim (fresh_id draws.fuel tokens draws.ids 0) [
      | none ↦ none
      | some id ↦
          let token = fresh_token id chosen (or_else now_ms now) draws.raw_token in
          some (record { token = token; raw_token = draws.raw_token }, insert id token tokens)
    ]
  ]
