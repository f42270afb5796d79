-- ===== src/ShareState.antt =====
-- plugin/lib/share-state-record.ts: the encrypted record of the shared links.
-- A timestamp is a natural number of milliseconds. `JSON.parse`, `JSON.stringify` and the numbers'
-- texts are a record of functions, and so are the cipher and the codecs. Whether `kv.set` works is an
-- argument of each call. The key is the one that the provider gives.
pub mod Schema
pub mod Laws
use bb_shared.Base.{
  ℕ, Bool, true, false, ◌&&◌, ◌||◌, not, List, [], ◌∷◌, any, all, Option, none, some, Text, codes,
  same, is_one_of, is_base64url, starts_with, drop, length, if◌then◌else◌, leb, ltb, ◌==◌,
}
use bb_shared.Base.Json.{
  Json, null, bool, num, str, arr, obj, Items, nil, cons, Fields, field, end, property, get_field,
}
use bb_shared.TokenStore.{Perm, read, write, Share, TokenSnapshot, has_thread}
use bb_shared.DeviceKey.{Bytes, Crypto, SecretError, Outcome, encrypt_record, decrypt_record}

-- The JSON functions of the runtime. `read_number` gives `none` for what is not finite.
pub record JsonCodec : Type 0 where
  pub parse : Text → Option Json
  pub stringify : Json → Text
  pub print_number : ℕ → Text
  pub read_number : Text → Option ℕ

-- `.strict()`: no other key.
abbrev pub has_only : List Text → Fields → Bool
has_only keys end = true
has_only keys (field k v fs) = is_one_of k keys && has_only keys fs

abbrev pub chain {ℓ κ} : {A : Type ℓ} {B : Type κ} → Option A → (A → Option B) → Option B
chain none f = none
chain (some a) f = f a

abbrev pub check : Bool → Option (Unit {0})
check true = some tt
check false = none

abbrev pub text_at : Text → Fields → Option Text
text_at key fs = elim (get_field key fs) [ some (str s) ↦ some s | _ ↦ none ]

abbrev pub items_at : Text → Fields → Option Items
items_at key fs = elim (get_field key fs) [ some (arr vs) ↦ some vs | _ ↦ none ]

abbrev pub perm_text : Perm → Text
perm_text read = codes "read"
perm_text write = codes "write"

abbrev pub perm_of_text : Text → Option Perm
perm_of_text s =
    if same s (codes "read") then some read else if same s (codes "write") then some write else none

abbrev pub is_filled : Text → Bool
is_filled [] = false
is_filled (c ∷ s) = true

-- `/^bbsh_[A-Za-z0-9_-]{N}$/`.
unfoldable pub is_prefixed : ℕ → Text → Bool
is_prefixed n s =
    starts_with s (codes "bbsh_") && (length (drop 5 s) == n && all is_base64url (drop 5 s))

abbrev pub is_label : Text → Bool
is_label s = leb 1 (length s) && leb (length s) 64

module _ (k : JsonCodec) where
  abbrev pub number_at : Text → Fields → Option ℕ
  number_at key fs = elim (get_field key fs) [ some (num s) ↦ k.read_number s | _ ↦ none ]

  abbrev pub share_json : Share → Json
  share_json s = obj (
      field (codes "thread_id") (str s.thread_id) (
        field (codes "project_id") (str s.project_id) (
          field (codes "perm") (str (perm_text s.perm))
            (field (codes "added_at") (num (k.print_number s.added_at)) end))))

  -- `shareSchema`.
  unfoldable pub read_share : Json → Option Share
  read_share (obj fs) =
      chain
        (check (
          has_only (codes "thread_id" ∷ codes "project_id" ∷ codes "perm" ∷ codes "added_at" ∷ [])
            fs))
        (λ _. chain (text_at (codes "thread_id") fs) (λ thread_id.
          chain (check (is_filled thread_id)) (λ _.
            chain (text_at (codes "project_id") fs) (λ project_id.
              chain (check (is_filled project_id)) (λ _.
                chain (chain (text_at (codes "perm") fs) perm_of_text) (λ perm.
                  chain (number_at (codes "added_at") fs) (λ added_at. some (record {
                    thread_id = thread_id;
                    project_id = project_id;
                    perm = perm;
                    added_at = added_at;
                  }))))))))
  read_share _ = none

  unfoldable pub shares_json : List Share → Items
  shares_json [] = nil
  shares_json (s ∷ ss) = cons (share_json s) (shares_json ss)

  unfoldable pub read_shares : Items → Option (List Share)
  read_shares nil = some []
  read_shares (cons v vs) =
      let rest = read_shares vs in chain (read_share v) (λ s. chain rest (λ ss. some (s ∷ ss)))

  abbrev pub token_json : TokenSnapshot → Json
  token_json t = obj (
      field (codes "id") (str t.id) (
        field (codes "label") (str t.label) (
          field (codes "shares") (arr (shares_json t.shares)) (
            field (codes "created_at") (num (k.print_number t.created_at))
              (field (codes "rawToken") (str t.raw_token) end)))))

  unfoldable pub read_token : Json → Option TokenSnapshot
  read_token (obj fs) =
      chain
        (check (
          has_only
            (codes "id"
              ∷ codes "label"
              ∷ codes "shares"
              ∷ codes "created_at"
              ∷ codes "rawToken"
              ∷ [])
            fs))
        (λ _. chain (text_at (codes "id") fs) (λ id. chain (check (is_prefixed 12 id)) (λ _.
          chain (text_at (codes "label") fs) (λ label. chain (check (is_label label)) (λ _.
            chain (chain (items_at (codes "shares") fs) read_shares) (λ shares.
              chain (number_at (codes "created_at") fs) (λ created_at.
                chain (text_at (codes "rawToken") fs) (λ raw_token.
                  chain (check (is_prefixed 43 raw_token)) (λ _. some (record {
                    id = id;
                    label = label;
                    shares = shares;
                    created_at = created_at;
                    raw_token = raw_token;
                  }))))))))))
  read_token _ = none

  unfoldable pub tokens_json : List TokenSnapshot → Items
  tokens_json [] = nil
  tokens_json (t ∷ ts) = cons (token_json t) (tokens_json ts)

  unfoldable pub read_tokens : Items → Option (List TokenSnapshot)
  read_tokens nil = some []
  read_tokens (cons v vs) =
      let rest = read_tokens vs in chain (read_token v) (λ t. chain rest (λ ts. some (t ∷ ts)))

  -- `{ version: STATE_VERSION, tokens }`.
  abbrev pub state_json : List TokenSnapshot → Json
  state_json ts = obj (
      field (codes "version") (num (codes "1")) (field (codes "tokens") (arr (tokens_json ts)) end))

  abbrev pub is_version_one : Option Json → Bool
  is_version_one (some (num s)) = same s (codes "1")
  is_version_one _ = false

  -- `stateSchema`.
  unfoldable pub read_state : Json → Option (List TokenSnapshot)
  read_state (obj fs) = chain (check (has_only (codes "version" ∷ codes "tokens" ∷ []) fs)) (λ _.
      chain (check (is_version_one (get_field (codes "version") fs)))
        (λ _. chain (items_at (codes "tokens") fs) read_tokens))
  read_state _ = none

-- A thread that two shares have.
unfoldable pub has_repeat : List Share → Bool
has_repeat [] = false
has_repeat (s ∷ ss) = any (has_thread s.thread_id) ss || has_repeat ss

-- The loop over the tokens, with the ids seen.
unfoldable pub no_repeats : List Text → List TokenSnapshot → Bool
no_repeats seen [] = true
no_repeats seen (t ∷ ts) =
    let rest = no_repeats (t.id ∷ seen) ts in
    if is_one_of t.id seen then false else if has_repeat t.shares then false else rest

unfoldable pub valid_state : JsonCodec → Json → Option (List TokenSnapshot)
valid_state k v = chain (read_state k v) (λ ts. if no_repeats [] ts then some ts else none)

-- `ShareStateRecordStore`: the record in `kv`, and `recoveryRequired`.
pub record ShareRecord : Type 0 where
  pub kv : Option Json
  pub recovery : Bool

pub data Saved : Type 0 where
  saved : (after : ShareRecord) → Saved
  needs_recovery : Saved
  invalid_state : Saved
  not_encrypted : (error : SecretError) → Saved
  not_written : Saved

abbrev pub payload_path : List Text
payload_path = codes "payload" ∷ []

module _ (k : JsonCodec) where
  abbrev pub plain_record : List TokenSnapshot → Json
  plain_record ts = obj (
      field (codes "version") (num (codes "1"))
        (field (codes "payload") (str (k.stringify (state_json k ts))) end))

  -- The tokens of a decrypted record.
  abbrev pub tokens_of : Json → Option (List TokenSnapshot)
  tokens_of v =
      chain (elim (property (codes "payload") v) [ some (str s) ↦ some s | _ ↦ none ])
        (λ payload. chain (k.parse payload) (valid_state k))

module _ (c : Crypto) (k : JsonCodec) (key : Bytes) (nonces : ℕ → Bytes) where
  abbrev write_record : Bool → ShareRecord → Outcome Json → Saved
  write_record works r (Outcome.err e) = not_encrypted e
  write_record works r (Outcome.ok sealed) =
      if works then saved (record r { kv = some sealed }) else not_written

  unfoldable pub save : Bool → ShareRecord → List TokenSnapshot → Saved
  save works r ts = if r.recovery then needs_recovery else elim (valid_state k (state_json k ts)) [
    | none ↦ invalid_state
    | some validated ↦
        write_record works r (encrypt_record c key nonces 0 (plain_record k validated) payload_path)
  ]

  abbrev unreadable : ShareRecord → List TokenSnapshot × ShareRecord
  unreadable r = ([], record r { recovery = true })

  abbrev pub migrate : ShareRecord → List TokenSnapshot → Saved → List TokenSnapshot × ShareRecord
  migrate r ts (saved after) = (ts, after)
  migrate r ts _ = unreadable r

  abbrev pub decoded : Bool → ShareRecord → Outcome (Json × Bool) → List TokenSnapshot × ShareRecord
  decoded works r (Outcome.err e) = unreadable r
  decoded works r (Outcome.ok plain) = elim (tokens_of k plain.0) [
    | none ↦ unreadable r
    | some ts ↦ if plain.1 then migrate r ts (save works r ts) else (ts, r)
  ]

  abbrev pub load_value : Bool → ShareRecord → Option Json → List TokenSnapshot × ShareRecord
  load_value works r none = ([], r)
  load_value works r (some null) = ([], r)
  load_value works r (some raw) = decoded works r (decrypt_record c key raw false payload_path)

  unfoldable pub load : Bool → ShareRecord → List TokenSnapshot × ShareRecord
  load works r = load_value works (record r { recovery = false }) r.kv
