-- ===== src/Connections.antt =====
-- plugin/worker-lifecycle/worker-record.ts: the addresses of relays, and the encrypted record of the
-- connections to them.
-- `new URL`, `z.string().url()` and the JSON functions are records of functions. A time is a natural
-- number of milliseconds. Whether `kv.set` works is an argument.
pub mod Schema
pub mod Laws
pub mod Valid
use bb_shared.Base.{
  ℕ, Bool, true, false, ◌&&◌, ◌||◌, not, List, [], ◌∷◌, ◌++◌, any, all, map, Option, none, some,
  Text, codes, same, is_one_of, is_base64url, trim, length, if◌then◌else◌, leb, ◌==◌,
}
use bb_shared.Base.Json.{
  Json, null, num, str, arr, obj, Items, nil, cons, Fields, field, end, property, get_field,
}
use bb_shared.Gateway.Requests.{contains}
use bb_shared.DeviceKey.{Bytes, Crypto, Outcome, encrypt_record, decrypt_record}
use bb_shared.ShareState.{
  JsonCodec, chain, check, has_only, text_at, items_at, number_at, is_filled, is_version_one,
  payload_path,
}

pub record Claim : Type 0 where
  pub url : Text
  pub expires_at : Option ℕ

pub record ConnectionRecord : Type 0 where
  pub id : Text
  pub relay_id : Text
  pub url : Text
  pub tunnel_secret : Text
  pub claim : Option Claim
  pub created_at : ℕ

pub record Snapshot : Type 0 where
  pub default_id : Option Text
  pub connections : List ConnectionRecord

-- A parsed address, and the functions of the runtime; `parse_url` gives `none` where `new URL` throws.
pub record Address : Type 0 where
  pub protocol : Text
  pub username : Text
  pub password : Text
  pub pathname : Text
  pub search : Text
  pub hash : Text
  pub origin : Text

pub record Urls : Type 0 where
  pub parse_url : Text → Option Address
  pub is_url : Text → Bool

-- An HTTPS origin, and nothing besides.
abbrev is_origin : Address → Bool
is_origin a =
    same a.protocol (codes "https:")
    && (not (is_filled a.username)
        && (not (is_filled a.password)
            && (same a.pathname (codes "/")
                && (not (is_filled a.search) && not (is_filled a.hash)))))

-- `none` where it throws.
unfoldable pub normalize_connection_url : Urls → Text → Option Text
normalize_connection_url u value =
    let input = trim value in
    chain (u.parse_url (if contains (codes "://") input then input else codes "https://" ++ input))
      (λ a. if is_origin a then some a.origin else none)

unfoldable pub is_canonical : Urls → Text → Bool
is_canonical u url = elim (normalize_connection_url u url) [
  | none ↦ false
  | some origin ↦ same origin url
]

-- `/^[A-Za-z0-9_-]{32,256}$/`.
unfoldable pub is_tunnel_secret : Text → Bool
is_tunnel_secret s = leb 32 (length s) && (leb (length s) 256 && all is_base64url s)

abbrev pub is_relay_id : Text → Bool
is_relay_id s = leb 1 (length s) && leb (length s) 128

-- `new Set(keys).size === keys.length`.
unfoldable pub all_distinct : List Text → Bool
all_distinct [] = true
all_distinct (k ∷ ks) = not (is_one_of k ks) && all_distinct ks

abbrev pub ids : List ConnectionRecord → List Text
ids rs = map (λ (r : ConnectionRecord). r.id) rs

abbrev pub relay_ids : List ConnectionRecord → List Text
relay_ids rs = map (λ (r : ConnectionRecord). r.relay_id) rs

abbrev pub urls : List ConnectionRecord → List Text
urls rs = map (λ (r : ConnectionRecord). r.url) rs

abbrev pub has_default : Option Text → List Text → Bool
has_default none [] = true
has_default none (k ∷ ks) = false
has_default (some id) ks = is_one_of id ks

-- The refinement of `snapshotSchema`, and its bound.
unfoldable pub is_consistent : Snapshot → Bool
is_consistent s =
    leb (length s.connections) 16
    && (all_distinct (ids s.connections)
        && (all_distinct (relay_ids s.connections)
            && (all_distinct (urls s.connections) && has_default s.default_id (ids s.connections))))

module _ (u : Urls) where
  abbrev pub is_claim : Option Claim → Bool
  is_claim none = true
  is_claim (some c) = u.is_url c.url

  -- What `connectionRecordSchema` asks of the values.
  abbrev pub is_record : ConnectionRecord → Bool
  is_record r =
      is_filled r.id
      && (is_relay_id r.relay_id
          && (is_canonical u r.url && (is_tunnel_secret r.tunnel_secret && is_claim r.claim)))

  abbrev pub is_snapshot : Snapshot → Bool
  is_snapshot s = all is_record s.connections && is_consistent s

abbrev pub default_json : Option Text → Json
default_json none = null
default_json (some id) = str id

abbrev pub read_default : Option Json → Option (Option Text)
read_default (some null) = some none
read_default (some (str s)) = some (some s)
read_default _ = none

module _ (k : JsonCodec) where
  abbrev pub time_json : Option ℕ → Json
  time_json none = null
  time_json (some n) = num (k.print_number n)

  abbrev pub claim_json : Option Claim → Json
  claim_json none = null
  claim_json (some c) =
      obj (field (codes "url") (str c.url) (field (codes "expiresAt") (time_json c.expires_at) end))

  abbrev pub record_json : ConnectionRecord → Json
  record_json r = obj (
      field (codes "id") (str r.id) (
        field (codes "relayId") (str r.relay_id) (
          field (codes "url") (str r.url) (
            field (codes "tunnelSecret") (str r.tunnel_secret) (
              field (codes "claim") (claim_json r.claim)
                (field (codes "createdAt") (num (k.print_number r.created_at)) end))))))

  unfoldable pub records_json : List ConnectionRecord → Items
  records_json [] = nil
  records_json (r ∷ rs) = cons (record_json r) (records_json rs)

  abbrev pub snapshot_json : Snapshot → Json
  snapshot_json s = obj (
      field (codes "version") (num (codes "1")) (
        field (codes "defaultId") (default_json s.default_id)
          (field (codes "connections") (arr (records_json s.connections)) end)))

  abbrev pub read_time : Option Json → Option (Option ℕ)
  read_time (some null) = some none
  read_time (some (num s)) = elim (k.read_number s) [ none ↦ none | some n ↦ some (some n) ]
  read_time _ = none

module _ (u : Urls) (k : JsonCodec) where
  -- An object without `.strict()` drops its other keys.
  unfoldable pub read_claim : Option Json → Option (Option Claim)
  read_claim (some null) = some none
  read_claim (some (obj fs)) = chain (text_at (codes "url") fs) (λ url.
      chain (check (u.is_url url)) (λ _.
        chain (read_time k (get_field (codes "expiresAt") fs))
          (λ expires_at. some (some (record { url = url; expires_at = expires_at })))))
  read_claim _ = none

  -- `connectionRecordSchema`.
  unfoldable pub read_record : Json → Option ConnectionRecord
  read_record (obj fs) =
      chain
        (check (
          has_only
            (codes "id"
              ∷ codes "relayId"
              ∷ codes "url"
              ∷ codes "tunnelSecret"
              ∷ codes "claim"
              ∷ codes "createdAt"
              ∷ [])
            fs))
        (λ _. chain (text_at (codes "id") fs) (λ id. chain (check (is_filled id)) (λ _.
          chain (text_at (codes "relayId") fs) (λ relay_id.
            chain (check (is_relay_id relay_id)) (λ _. chain (text_at (codes "url") fs) (λ url.
              chain (check (is_canonical u url)) (λ _.
                chain (text_at (codes "tunnelSecret") fs) (λ tunnel_secret.
                  chain (check (is_tunnel_secret tunnel_secret)) (λ _.
                    chain (read_claim (get_field (codes "claim") fs)) (λ claim.
                      chain (number_at k (codes "createdAt") fs) (λ created_at. some (record {
                        id = id;
                        relay_id = relay_id;
                        url = url;
                        tunnel_secret = tunnel_secret;
                        claim = claim;
                        created_at = created_at;
                      }))))))))))))
  read_record _ = none

  unfoldable pub read_records : Items → Option (List ConnectionRecord)
  read_records nil = some []
  read_records (cons v vs) =
      let rest = read_records vs in chain (read_record v) (λ r. chain rest (λ rs. some (r ∷ rs)))

  -- `snapshotSchema.parse`.
  unfoldable pub read_snapshot : Json → Option Snapshot
  read_snapshot (obj fs) =
      chain (check (has_only (codes "version" ∷ codes "defaultId" ∷ codes "connections" ∷ []) fs))
        (λ _. chain (check (is_version_one k (get_field (codes "version") fs))) (λ _.
          chain (read_default (get_field (codes "defaultId") fs)) (λ default_id.
            chain (chain (items_at (codes "connections") fs) read_records) (λ connections.
              let s : Snapshot = record { default_id = default_id; connections = connections } in
              if is_consistent s then some s else none))))
  read_snapshot _ = none

-- `ConnectionRecordStore`: the record in `kv`, and `unreadable`.
pub record ConnectionStore : Type 0 where
  pub kv : Option Json
  pub unreadable : Bool

abbrev pub no_connections : Snapshot
no_connections = record { default_id = none; connections = [] }

module _ (u : Urls) (c : Crypto) (k : JsonCodec) (key : Bytes) where
  -- The snapshot of a decrypted record.
  abbrev pub snapshot_of : Json → Option Snapshot
  snapshot_of v =
      chain (elim (property (codes "payload") v) [ some (str s) ↦ some s | _ ↦ none ])
        (λ payload. chain (k.parse payload) (read_snapshot u k))

  abbrev pub decrypted_snapshot : Outcome (Json × Bool) → Option Snapshot
  decrypted_snapshot (Outcome.err e) = none
  decrypted_snapshot (Outcome.ok plain) = snapshot_of plain.0

  abbrev pub loaded : ConnectionStore → Option Snapshot → Option Snapshot × ConnectionStore
  loaded s none = (none, record s { unreadable = true })
  loaded s (some snapshot) = (some snapshot, s)

  abbrev pub load_raw : ConnectionStore → Option Json → Option Snapshot × ConnectionStore
  load_raw s none = (some no_connections, s)
  load_raw s (some null) = (some no_connections, s)
  load_raw s (some raw) =
      loaded s (decrypted_snapshot (decrypt_record c key raw false payload_path))

  -- `none` where it throws.
  unfoldable pub load : ConnectionStore → Option Snapshot × ConnectionStore
  load s = load_raw s s.kv

  abbrev pub payload_record : Snapshot → Json
  payload_record s = obj (field (codes "payload") (str (k.stringify (snapshot_json k s))) end)

  abbrev pub written : Bool → ConnectionStore → Outcome Json → Option ConnectionStore
  written works s (Outcome.err e) = none
  written works s (Outcome.ok sealed) = if works then some (record s { kv = some sealed }) else none

  -- `none` where it throws.
  unfoldable pub save : (ℕ → Bytes) → Bool → ConnectionStore → Snapshot → Option ConnectionStore
  save nonces works s snapshot =
      if s.unreadable
      then none
      else chain (read_snapshot u k (snapshot_json k snapshot)) (λ valid.
        written works s (encrypt_record c key nonces 0 (payload_record valid) payload_path))
