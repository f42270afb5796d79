-- ===== src/ShareState/Schema.antt =====
-- The schemas of plugin/lib/share-state-record.ts, on what the program writes.
use bb_shared.Base.{
  ℕ, ◌≡◌, refl, List, [], ◌∷◌, Bool, ◌&&◌, all, none, some, same, arith, if◌then◌else◌,
}
use bb_shared.Base.Json.{get_field}
use bb_shared.TokenStore.{Perm, read, write, Share, TokenSnapshot}
use bb_shared.ShareState.{
  JsonCodec, is_filled, is_prefixed, is_label, perm_text, perm_of_text, share_json, read_share,
  shares_json, read_shares, token_json, read_token, tokens_json, read_tokens, state_json,
  read_state, no_repeats, valid_state,
}

-- What the schemas ask of a share, of a token and of the whole state.
abbrev pub is_storable_share : Share → Bool
is_storable_share s = is_filled s.thread_id && is_filled s.project_id

abbrev pub is_storable_token : TokenSnapshot → Bool
is_storable_token t =
    is_prefixed 12 t.id
    && (is_label t.label && (all is_storable_share t.shares && is_prefixed 43 t.raw_token))

abbrev pub is_storable : List TokenSnapshot → Bool
is_storable ts = all is_storable_token ts && no_repeats [] ts

perm_of-perm_text : (p : Perm) → perm_of_text (perm_text p) ≡ some p
unfolding same
perm_of-perm_text read = refl
perm_of-perm_text write = refl

module _ (k : JsonCodec) (numbers : (n : ℕ) → k.read_number (k.print_number n) ≡ some n) where
  read_share-share_json :
      (s : Share) → read_share k (share_json k s) ≡ (if is_storable_share s then some s else none)
  unfolding read_share get_field same
  read_share-share_json s = ground (arith, perm_of-perm_text s.perm, numbers s.added_at)

  read_shares-shares_json :
      (ss : List Share)
      → read_shares k (shares_json k ss) ≡ (if all is_storable_share ss then some ss else none)
  unfolding read_shares shares_json
  read_shares-shares_json [] = refl
  read_shares-shares_json (s ∷ ss) =
      ground (arith, read_share-share_json s, read_shares-shares_json ss)

  read_token-token_json :
      (t : TokenSnapshot)
      → read_token k (token_json k t) ≡ (if is_storable_token t then some t else none)
  unfolding read_token get_field same
  read_token-token_json t = ground (arith, read_shares-shares_json t.shares, numbers t.created_at)

  read_tokens-tokens_json :
      (ts : List TokenSnapshot)
      → read_tokens k (tokens_json k ts) ≡ (if all is_storable_token ts then some ts else none)
  unfolding read_tokens tokens_json
  read_tokens-tokens_json [] = refl
  read_tokens-tokens_json (t ∷ ts) =
      ground (arith, read_token-token_json t, read_tokens-tokens_json ts)

-- The state that the program writes is read back exactly if it is storable: ids and bearers of the
-- right form, labels of 1 to 64 units, no empty thread or project id, no id twice, and no thread twice
-- on a token.
pub valid_state-state_json :
    (k : JsonCodec) (ts : List TokenSnapshot)
    → ((n : ℕ) → k.read_number (k.print_number n) ≡ some n)
    → valid_state k (state_json k ts) ≡ (if is_storable ts then some ts else none)
unfolding valid_state read_state get_field same
valid_state-state_json k ts numbers = ground (arith, read_tokens-tokens_json k numbers ts)
