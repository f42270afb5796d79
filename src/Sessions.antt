-- ===== src/Sessions.antt =====
-- plugin/guest-gateway/sessions.ts: the browser sessions of guests.
-- Times are milliseconds; one call reads the clock once. Redemptions run one after another (the
-- `queue`). The size of the stored JSON and the fresh session id are arguments, and so is whether
-- the encrypted write succeeded.
pub mod Strongest
pub mod Resolve
pub mod Eviction
pub mod Union
pub mod Redeem
pub mod Storable
pub mod Reload
use bb_shared.Base.{
  ℕ, ◌+◌, ◌*◌, Bool, true, false, ◌&&◌, ◌||◌, not, List, [], ◌∷◌, ◌++◌, map, Option, none, some,
  Text, text_eq, codes, same, is_one_of, starts_with, split, trim, is_base64url, all, filter,
  length, drop, Dict, lookup, insert, erase, values, is_some, if◌then◌else◌, ltb, leb, ◌==◌,
}
use bb_shared.TokenStore.{
  Perm, read, write, Share, Token, Tokens, get_token, find_by_raw_token, or_else,
}

abbrev ttl : ℕ
ttl = 30 * 24 * 60 * 60 * 1000

abbrev cookie_name : Text
cookie_name = codes "__Host-bb-shared-session"

pub record Session : Type 0 where
  pub id : Text
  pub grants : List Text
  pub expires : ℕ

abbrev pub Rows : Type 0
Rows = Dict Text Session

-- `/^[A-Za-z0-9_-]{43}$/`.
pub is_session_id : Text → Bool
is_session_id id = (length id == 43) && all is_base64url id

-- The zod schema, and the expiry filter of `load`; `none` when the schema refuses the rows.
abbrev pub is_row : Session → Bool
is_row row = is_session_id row.id && leb (length row.grants) 128

pub insert_rows : Rows → List Session → Rows
insert_rows m [] = m
insert_rows m (row ∷ rows) = insert_rows (insert row.id row m) rows

unfoldable pub load : ℕ → List Session → Option Rows
unfolding is_session_id insert_rows
load now rows =
    if all is_row rows && leb (length rows) 2048
    then some (insert_rows [] (filter (λ row. ltb now row.expires) rows))
    else none

-- The value of the one session cookie; `none` when there is none, or more than one.
abbrev only_id : List Text → Option Text
only_id (pair ∷ []) =
    let id = drop (length cookie_name + 1) pair in if is_session_id id then some id else none
only_id _ = none

unfoldable pub cookie_id : Option Text → Option Text
unfolding is_session_id
cookie_id cookie = only_id (
    filter (λ v. starts_with v (cookie_name ++ codes "="))
      (map trim (split b';' (or_else cookie []))))

-- `id ? this.sessions.get(id) : undefined`.
unfoldable pub session_of : Rows → Option Text → Option Session
session_of rows none = none
session_of rows (some id) = if same id [] then none else lookup id rows

abbrev pub is_write : Perm → Bool
is_write write = true
is_write read = false

-- The loop of `resolve`: a share is kept if it is the first of its thread, or a write grant.
unfoldable pub collect_share : Dict Text Share → Share → Dict Text Share
collect_share m s =
    if not (is_some (lookup s.thread_id m)) || is_write s.perm then insert s.thread_id s m else m

unfoldable pub collect_shares : Dict Text Share → List Share → Dict Text Share
collect_shares m [] = m
collect_shares m (s ∷ ss) = collect_shares (collect_share m s) ss

-- `token?.shares ?? []`.
abbrev pub shares_of : Option Token → List Share
shares_of none = []
shares_of (some t) = t.shares

unfoldable pub collect_grants : Tokens → Dict Text Share → List Text → Dict Text Share
collect_grants tokens m [] = m
collect_grants tokens m (g ∷ gs) =
    collect_grants tokens (collect_shares m (shares_of (get_token tokens g))) gs

abbrev pub guest_token : Session → Dict Text Share → Token
guest_token session shares = record {
  id = session.id;
  hash = [];
  label = codes "Guest session";
  shares = values shares;
  created_at = 0;
}

abbrev pub token_of : Session → Dict Text Share → Option Token
token_of session [] = none
token_of session (e ∷ m) = some (guest_token session (e ∷ m))

unfoldable pub resolve : ℕ → Tokens → Rows → Option Text → Option Token
resolve now tokens rows id = elim (session_of rows id) [
  | none ↦ none
  | some session ↦
      if leb session.expires now
      then none
      else token_of session (collect_grants tokens [] session.grants)
]

-- What `redeem` ends with: `null`, one of two errors, or an id and the new rows.
pub data Redeemed : Type 0 where
  refused : Redeemed
  limit_reached : Redeemed
  not_stored : Redeemed
  redeemed : (id : Text) (rows : Rows) → Redeemed

abbrev pub is_live : ℕ → Session → Bool
is_live now row = ltb now row.expires

-- `prior && prior.expires > Date.now()`.
unfoldable pub live_prior : ℕ → Rows → Option Text → Option Session
live_prior now rows prior_id = elim (session_of rows prior_id) [
  | none ↦ none
  | some prior ↦ if is_live now prior then some prior else none
]

abbrev pub grants_of : Option Session → List Text
grants_of none = []
grants_of (some prior) = prior.grants

-- The grants whose tokens still exist, with the redeemed one.
unfoldable pub valid_grants : Tokens → List Text → Text → List Text
valid_grants tokens grants id =
    let valid = filter (λ g. is_some (get_token tokens g)) grants in
    if is_one_of id valid then valid else valid ++ id ∷ []

abbrev pub id_or : Option Session → Text → Text
id_or none fresh = fresh
id_or (some prior) fresh = prior.id

unfoldable pub live_rows : ℕ → Rows → Rows
live_rows now rows = filter (λ e. is_live now e.1) rows

-- The rows with the renewed session at their end.
unfoldable pub renew : ℕ → Rows → Text → List Text → Rows
renew now rows id grants =
    insert id (record { id = id; grants = grants; expires = now + ttl })
      (erase id (live_rows now rows))

module _ (json_size : List Session → ℕ) where
  abbrev pub is_over : Rows → Bool
  is_over rows = ltb 2048 (length rows) || ltb (160 * 1024) (json_size (values rows))

  -- `while (...) next.delete(next.keys().next().value!)`.
  unfoldable pub evict : Rows → Rows
  evict [] = []
  evict (e ∷ rows) = let rest = evict rows in if is_over (e ∷ rows) then rest else e ∷ rows

  pub redeem_token : ℕ → Tokens → Rows → Option Session → Text → Bool → Token → Redeemed
  redeem_token now tokens rows prior fresh stored token =
      let grants = valid_grants tokens (grants_of prior) token.id in
      if ltb 128 (length grants)
      then limit_reached
      else let id = id_or prior fresh in
        if stored then redeemed id (evict (renew now rows id grants)) else not_stored

  unfoldable pub redeem :
      (Text → Text) → ℕ → Tokens → Rows → Text → Option Text → Text → Bool → Redeemed
  unfolding redeem_token
  redeem hash_token now tokens rows raw prior_id fresh stored =
      elim (find_by_raw_token hash_token tokens raw) [
        | none ↦ refused
        | some token ↦
            if length token.shares == 0
            then refused
            else redeem_token now tokens rows (live_prior now rows prior_id) fresh stored token
      ]

-- A call of `redeem`, with what it finds when it runs.
pub record Redemption : Type 0 where
  pub now : ℕ
  pub tokens : Tokens
  pub raw : Text
  pub prior_id : Option Text
  pub fresh : Text
  pub stored : Bool

-- `this.sessions` after a redemption, and what is stored of it.
abbrev pub sessions_after : Rows → Redeemed → Rows
sessions_after rows (redeemed id next) = next
sessions_after rows _ = rows

unfoldable pub redeem_all : (List Session → ℕ) → (Text → Text) → List Redemption → Rows → Rows
redeem_all json_size hash_token [] rows = rows
redeem_all json_size hash_token (r ∷ rs) rows = redeem_all json_size hash_token rs (
    sessions_after rows
      (redeem json_size hash_token r.now r.tokens rows r.raw r.prior_id r.fresh r.stored))
