-- ===== src/ShareState/Laws.antt =====
-- Saving and loading of plugin/lib/share-state-record.ts.
use bb_shared.Base.{
  ◌≢◌, ap, sym, ◌∙◌, ℕ, ◌≡◌, refl, subst, ◌⊎◌, List, [], Bool, true, false, none, some, codes, same,
  length, split, inl, inr, arith,
}
use bb_shared.Base.Json.{Json, null, str, get_field}
use bb_shared.TokenStore.{TokenSnapshot}
use bb_shared.DeviceKey.{
  Bytes, Crypto, SecretError, Outcome, ok, err, encrypt_record, decrypt_record, decrypt_field,
  get_by_path, segments,
}
use bb_shared.DeviceKey.RoundTrip.{IsLawful, decrypt_record-encrypted}
use bb_shared.ShareState.{
  JsonCodec, ShareRecord, Saved, saved, needs_recovery, invalid_state, not_encrypted, not_written,
  state_json, valid_state, plain_record, payload_path, tokens_of, load_value, migrate, decoded,
  save, load,
}
use bb_shared.ShareState.Schema.{is_storable, valid_state-state_json}

-- What the runtime does with the tokens that are saved: their JSON is read back, and UTF-8 carries it.
pub record IsReadable (c : Crypto) (k : JsonCodec) (ts : List TokenSnapshot) : Type 0 where
  pub numbers : (n : ℕ) → k.read_number (k.print_number n) ≡ some n
  pub parsed : k.parse (k.stringify (state_json k ts)) ≡ some (state_json k ts)
  pub carried :
      c.from_utf8 (c.to_utf8 (k.stringify (state_json k ts))) ≡ k.stringify (state_json k ts)

payload-plain_record :
    (k : JsonCodec) (ts : List TokenSnapshot)
    → get_by_path (segments (codes "payload")) (plain_record k ts)
      ≡ some (str (k.stringify (state_json k ts)))
unfolding get_by_path get_field same split
payload-plain_record k ts = refl

tokens_of-plain_record :
    (c : Crypto) (k : JsonCodec) (ts : List TokenSnapshot)
    → IsReadable c k ts
    → is_storable ts ≡ true
    → tokens_of k (plain_record k ts) ≡ some ts
unfolding get_field same
tokens_of-plain_record c k ts r h = ground (arith, r.parsed, valid_state-state_json k ts r.numbers)

pub Outcome-cases {ℓ} :
    {A : Type ℓ} (o : Outcome A) → ((e : SecretError) × (o ≡ err e)) ⊎ ((a : A) × (o ≡ ok a))
Outcome-cases (err e) = inl (e, refl)
Outcome-cases (ok a) = inr (a, refl)

-- What a save that succeeded did.
pub record IsSaved (c : Crypto) (k : JsonCodec) (key : Bytes) (nonces : ℕ → Bytes) (r : ShareRecord)
    (ts : List TokenSnapshot) (after : ShareRecord) : Type 0 where
  pub sealed : Json
  pub usable : r.recovery ≡ false
  pub storable : is_storable ts ≡ true
  pub encrypted : encrypt_record c key nonces 0 (plain_record k ts) payload_path ≡ ok sealed
  pub written : after ≡ record r { kv = some sealed }

pub save-IsSaved :
    (c : Crypto) (k : JsonCodec) (key : Bytes) (nonces : ℕ → Bytes) (works : Bool) (r : ShareRecord)
    (ts : List TokenSnapshot) {after : ShareRecord}
    → ((n : ℕ) → k.read_number (k.print_number n) ≡ some n)
    → save c k key nonces works r ts ≡ saved after
    → IsSaved c k key nonces r ts after
unfolding save
save-IsSaved c k key nonces works r ts {after} numbers e =
    let usable : r.recovery ≡ false = ground arith in
    let storable : is_storable ts ≡ true = ground (arith, valid_state-state_json k ts numbers) in
    let valid : valid_state k (state_json k ts) ≡ some ts =
      ground (arith, valid_state-state_json k ts numbers, storable) in
    elim (Outcome-cases (encrypt_record c key nonces 0 (plain_record k ts) payload_path)) [
      | inl (error, failed) ↦ absurd (ground (arith, usable, valid, failed))
      | inr (sealed, done) ↦ record {
        sealed = sealed;
        usable = usable;
        storable = storable;
        encrypted = done;
        written = ground (arith, usable, valid, done);
      }
    ]

module _ (c : Crypto) (k : JsonCodec) (key : Bytes) (nonces : ℕ → Bytes) (works : Bool) where
  load_value-decrypted :
      (r : ShareRecord) (raw : Json) (ts : List TokenSnapshot)
      → decrypt_record c key raw false payload_path ≡ ok (plain_record k ts, false)
      → tokens_of k (plain_record k ts) ≡ some ts
      → load_value c k key nonces works r (some raw) ≡ (ts, r)
  unfolding decrypt_record decrypt_field get_by_path split
  load_value-decrypted r null ts d t = cc
  load_value-decrypted r _ ts d t = ground (arith, d, t)

sealed_record :
    (c : Crypto) (k : JsonCodec) (key : Bytes) (nonces : ℕ → Bytes) (ts : List TokenSnapshot)
    (sealed : Json)
    → IsLawful c
    → IsReadable c k ts
    → length key ≡ 32
    → length (nonces 0) ≡ 12
    → encrypt_record c key nonces 0 (plain_record k ts) payload_path ≡ ok sealed
    → decrypt_record c key sealed false payload_path ≡ ok (plain_record k ts, false)
sealed_record c k key nonces ts sealed l r n m e =
    decrypt_record-encrypted c key nonces (codes "payload") (k.stringify (state_json k ts))
      (plain_record k ts) sealed l n m r.carried (payload-plain_record k ts) e

-- After a save that succeeded, a load under the same key gives exactly the tokens that were saved,
-- and changes nothing. The runtime's JSON, UTF-8 and cipher are read back, the key has 32 bytes and the
-- nonce 12.
pub load-save :
    (c : Crypto) (k : JsonCodec) (key : Bytes) (nonces : ℕ → Bytes) (works again : Bool)
    (r : ShareRecord) (ts : List TokenSnapshot) (after : ShareRecord)
    → IsLawful c
    → IsReadable c k ts
    → length key ≡ 32
    → length (nonces 0) ≡ 12
    → save c k key nonces works r ts ≡ saved after
    → load c k key nonces again after ≡ (ts, after)
unfolding load
load-save c k key nonces works again r ts after l readable n m e =
    let s = save-IsSaved c k key nonces works r ts {after = after} readable.numbers e in
    let plain = sealed_record c k key nonces ts s.sealed l readable n m s.encrypted in
    let found = tokens_of-plain_record c k ts readable s.storable in
    let kept : ShareRecord = record { kv = some s.sealed; recovery = false } in
    let written : kept ≡ after = ground (arith, s.written, s.usable) in
    let done = load_value-decrypted c k key nonces again kept s.sealed ts plain found in
    subst (λ x. load c k key nonces again x ≡ (ts, x)) written done

-- What of a stored value, not `null`, cannot be read: it does not decrypt; or what it decrypts to has no text as its
-- payload, or the text is no JSON, or that is no valid state; or it was not encrypted, and saving it anew fails.
pub data IsUnreadable (c : Crypto) (k : JsonCodec) (key : Bytes) (nonces : ℕ → Bytes) (works : Bool)
    (raw : Json) : Type 0 where
  not_decrypted :
      (e : SecretError)
      → decrypt_record c key raw false payload_path ≡ err e
      → IsUnreadable c k key nonces works raw
  no_state :
      (plain : Json) (migrated : Bool)
      → decrypt_record c key raw false payload_path ≡ ok (plain, migrated)
      → tokens_of k plain ≡ none
      → IsUnreadable c k key nonces works raw
  unmigratable :
      (plain : Json) (ts : List TokenSnapshot)
      → decrypt_record c key raw false payload_path ≡ ok (plain, true)
      → tokens_of k plain ≡ some ts
      → ((after : ShareRecord)
          → save c k key nonces works (record { kv = some raw; recovery = false }) ts ≢ saved after)
      → IsUnreadable c k key nonces works raw

module _ (c : Crypto) (k : JsonCodec) (key : Bytes) (nonces : ℕ → Bytes) (works : Bool) where
  migrate-unsaved :
      (r : ShareRecord) (ts : List TokenSnapshot) (s : Saved)
      → ((after : ShareRecord) → s ≢ saved after)
      → migrate c k key nonces r ts s ≡ ([], record r { recovery = true })
  migrate-unsaved r ts (saved after) h = absurd (h after refl)
  migrate-unsaved r ts needs_recovery h = refl
  migrate-unsaved r ts invalid_state h = refl
  migrate-unsaved r ts (not_encrypted error) h = refl
  migrate-unsaved r ts not_written h = refl

  load_value-raw :
      (r : ShareRecord) (raw : Json)
      → raw ≢ null
      → load_value c k key nonces works r (some raw)
        ≡ decoded c k key nonces works r (decrypt_record c key raw false payload_path)
  load_value-raw r null h = absurd (h refl)
  load_value-raw r _ h = refl

  decoded-unreadable :
      (raw : Json)
      → IsUnreadable c k key nonces works raw
      → let r : ShareRecord = record { kv = some raw; recovery = false } in
        decoded c k key nonces works r (decrypt_record c key raw false payload_path)
        ≡ ([], record { kv = some raw; recovery = true })
  decoded-unreadable raw (not_decrypted e p) = rw p refl
  decoded-unreadable raw (no_state plain migrated p q) = rw p (ground (arith, q))
  decoded-unreadable raw (unmigratable plain ts p q h) = rw p (
      ground (
        arith,
        q,
        migrate-unsaved (record { kv = some raw; recovery = false }) ts
            (save c k key nonces works (record { kv = some raw; recovery = false }) ts) h,
      ))

-- A stored value other than `null` that cannot be read, because it does not decrypt, or holds no valid state, or
-- was not encrypted and cannot be saved anew, is kept: the load gives no tokens and leaves it as it was, whatever
-- the flag of an earlier load, and every save after it is refused.
pub load-unreadable :
    (c : Crypto) (k : JsonCodec) (key : Bytes) (nonces : ℕ → Bytes) (works : Bool) (r : ShareRecord)
    (raw : Json) (again : Bool) (ts : List TokenSnapshot)
    → r.kv ≡ some raw
    → raw ≢ null
    → IsUnreadable c k key nonces works raw
    → ((load c k key nonces works r).0 ≡ [])
      × ((load c k key nonces works r).1.kv ≡ r.kv)
      × (save c k key nonces again (load c k key nonces works r).1 ts ≡ needs_recovery)
unfolding load save
load-unreadable c k key nonces works r raw again ts held filled h =
    let loaded : load c k key nonces works r ≡ ([], record { kv = some raw; recovery = true }) =
      ap (λ v. load_value c k key nonces works (record { kv = v; recovery = false }) v) held
      ∙ (load_value-raw c k key nonces works (record { kv = some raw; recovery = false }) raw filled
          ∙ decoded-unreadable c k key nonces works raw h) in
    rw loaded (refl, sym held, refl)
