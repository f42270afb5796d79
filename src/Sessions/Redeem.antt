-- ===== src/Sessions/Redeem.antt =====
-- `redeem` of plugin/guest-gateway/sessions.ts: an invitation joins a browser session.
use bb_shared.Base.{
  ℕ, ◌+◌, ◌*◌, ◌≤◌, ◌<◌, ◌≡◌, ◌≢◌, sym, ◌∙◌, ap, subst, inl, inr, Bool, List, [], ◌∷◌, ◌++◌, Option,
  none, some, Text, text_eq, same_iff, lookup, insert, erase, insert_new, lookup-erase_self, values,
  length, IsDistinct, Entries, lookup-Entries, arith, Option-cases,
}
use bb_shared.TokenStore.{Token, Tokens, find_by_raw_token}
use bb_shared.TokenStore.Grants.{perm_of, grants, token_perm}
use bb_shared.TokenStore.Invariant.{IsValid}
use bb_shared.TokenStore.Bearers.{find_by_raw_token_sound}
use bb_shared.Sessions.{
  Session, Rows, session_of, valid_grants, live_prior, live_rows, id_or, grants_of, renew, ttl,
  evict, resolve, redeem, redeemed,
}
use bb_shared.Sessions.Strongest.{strongest, stronger}
use bb_shared.Sessions.Resolve.{guest_perm, session_perm, resolve-session_perm}
use bb_shared.Sessions.Union.{strongest-valid_grants}
use bb_shared.Sessions.Eviction.{length-evict, size-evict, lookup-evict_last}

-- The rows of sessions, well formed: each under its own id, which is not empty.
pub record AreSessions (rows : Rows) : Type 0 where
  pub distinct : IsDistinct rows
  pub keyed : Entries (λ k row. (row.id ≡ k) × (k ≢ [])) rows

module _ (json_size : List Session → ℕ) (hash_token : Text → Text) (now : ℕ) (tokens : Tokens)
    (rows : Rows) (raw : Text) (prior_id : Option Text) (fresh : Text) where
  abbrev prior : Option Session
  prior = live_prior now rows prior_id

  -- What a redemption that gave an id has done.
  pub record IsRedeemed (id : Text) (after : Rows) : Type 0 where
    pub token : Token
    found : find_by_raw_token hash_token tokens raw ≡ some token
    shared : token.shares ≢ []
    pub named : id ≡ id_or prior fresh
    pub bounded : length (valid_grants tokens (grants_of prior) token.id) ≤ 128
    pub kept :
        after ≡ evict json_size (renew now rows id (valid_grants tokens (grants_of prior) token.id))

  pub redeem-IsRedeemed :
      (stored : Bool) {id : Text} {after : Rows}
      → redeem json_size hash_token now tokens rows raw prior_id fresh stored ≡ redeemed id after
      → IsRedeemed id after
  unfolding redeem
  redeem-IsRedeemed stored {id} {after} e =
      elim (Option-cases (find_by_raw_token hash_token tokens raw)) [
        | inl missing ↦ ground arith
        | inr (token, found) ↦ record {
          token = token;
          found = found;
          shared = ground arith;
          named = ground arith;
          bounded = ground arith;
          kept = ground arith;
        }
      ]

-- The session that was presented, as far as it is live.
live_prior-perm :
    (now : ℕ) (tokens : Tokens) (rows : Rows) (id : Option Text) (x : Text)
    → session_perm now tokens (session_of rows id) x
      ≡ strongest tokens (grants_of (live_prior now rows id)) x
unfolding live_prior strongest
live_prior-perm now tokens rows id x = elim (Option-cases (session_of rows id)) [
  | inl missing ↦ ground (arith, missing)
  | inr (session, found) ↦ ground (arith, found)
]

live_prior-id :
    (now : ℕ) (rows : Rows) (id : Option Text) (fresh : Text)
    → AreSessions rows
    → fresh ≢ []
    → id_or (live_prior now rows id) fresh ≢ []
unfolding live_prior session_of
live_prior-id now rows none fresh v h = h
live_prior-id now rows (some id) fresh v h = elim (Option-cases (lookup id rows)) [
  | inl missing ↦ ground (arith, missing)
  | inr (session, found) ↦
      let (same_id, filled) =
        lookup-Entries (λ k (row : Session). (row.id ≡ k) × (k ≢ [])) id {v = session} rows v.keyed
          found in
      ground (arith, found, same_id)
]

live_session_perm :
    (now : ℕ) (tokens : Tokens) (rows : Rows) (id : Text) (row : Session) (x : Text)
    → id ≢ []
    → lookup id rows ≡ some row
    → now < row.expires
    → session_perm now tokens (session_of rows (some id)) x ≡ strongest tokens row.grants x
unfolding session_of
live_session_perm now tokens rows id row x filled found live =
    ground (arith, same_iff id [], found, live)

-- The row that a redemption of the token writes.
abbrev pub renewed : ℕ → Tokens → Text → Option Session → Token → Session
renewed now tokens id prior token = record {
  id = id;
  grants = valid_grants tokens (grants_of prior) token.id;
  expires = now + ttl;
}

-- A successful redemption stores the session under the id that it returns, renewed for thirty days
-- and with at most 128 grants, and the stored rows are within both limits. On every thread the
-- session then gives the stronger of what it gave before and what the invitation's token gives.
-- The tokens and the rows are well formed, the fresh id is not empty, and the printed JSON is
-- within its limit both for no rows and for the renewed row alone.
pub redeem-union :
    (json_size : List Session → ℕ) (hash_token : Text → Text) (now : ℕ) (tokens : Tokens)
    (rows : Rows) (raw : Text) (prior_id : Option Text) (fresh : Text) (stored : Bool) (id : Text)
    (after : Rows)
    → IsValid tokens
    → AreSessions rows
    → fresh ≢ []
    → json_size [] ≤ 160 * 1024
    → ((token : Token)
        → find_by_raw_token hash_token tokens raw ≡ some token
        → json_size (renewed now tokens id (live_prior now rows prior_id) token ∷ []) ≤ 160 * 1024)
    → redeem json_size hash_token now tokens rows raw prior_id fresh stored ≡ redeemed id after
    → (token : Token) × (find_by_raw_token hash_token tokens raw ≡ some token)
      × (lookup id after ≡ some (renewed now tokens id (live_prior now rows prior_id) token))
      × (length (renewed now tokens id (live_prior now rows prior_id) token).grants ≤ 128)
      × (length after ≤ 2048)
      × (json_size (values after) ≤ 160 * 1024)
      × ((x : Text)
          → guest_perm (resolve now tokens after (some id)) x
            ≡ stronger
                (session_perm now tokens (session_of rows prior_id) x)
                (perm_of x token.shares))
unfolding renew
redeem-union json_size hash_token now tokens rows raw prior_id fresh stored id after v w h none_fits
      fits e =
    let r =
      redeem-IsRedeemed json_size hash_token now tokens rows raw prior_id fresh stored {id = id}
        {after = after} e in
    let prior = live_prior now rows prior_id in
    let row = renewed now tokens id prior r.token in
    let others = erase id (live_rows now rows) in
    let absent = lookup-erase_self id (live_rows now rows) in
    let appended : insert id row others ≡ others ++ (id, row) ∷ [] =
      insert_new id row others absent in
    let written : after ≡ evict json_size (others ++ (id, row) ∷ []) =
      r.kept ∙ ap (evict json_size) appended in
    let stored_row : lookup id after ≡ some row =
      ap (lookup id) written
      ∙ lookup-evict_last json_size others id row absent (fits r.token r.found) in
    let few = length-evict json_size (others ++ (id, row) ∷ []) in
    let small = size-evict json_size (others ++ (id, row) ∷ []) none_fits in
    let filled : id ≢ [] =
      λ empty. live_prior-id now rows prior_id fresh w h (sym r.named ∙ empty) in
    (
      r.token,
      r.found,
      stored_row,
      r.bounded,
      subst (λ m. length m ≤ 2048) (sym written) few,
      subst (λ m. json_size (values m) ≤ 160 * 1024) (sym written) small,
      λ x.
          resolve-session_perm now tokens after (some id) x v
          ∙ (live_session_perm now tokens after id row x filled stored_row (omega arith)
              ∙ (strongest-valid_grants tokens (grants_of prior) r.token.id x
                  ∙ (ap (λ p. stronger p (grants tokens r.token.id x))
                        (sym (live_prior-perm now tokens rows prior_id x))
                      ∙ ap
                          (λ o.
                            stronger (session_perm now tokens (session_of rows prior_id) x)
                              (token_perm x o))
                          (find_by_raw_token_sound hash_token tokens raw {t = r.token} v
                            r.found).0))),
    )
