-- ===== src/Connections/Laws.antt =====
-- Saving and loading of plugin/worker-lifecycle/worker-record.ts.
use bb_shared.Base.{
  ℕ, ◌≡◌, refl, sym, subst, Bool, true, false, some, codes, same, length, split, inl, inr, arith,
}
use bb_shared.Base.Json.{Json, null, str, get_field}
use bb_shared.DeviceKey.{
  Bytes, Crypto, ok, encrypt_record, decrypt_record, decrypt_field, get_by_path, segments,
}
use bb_shared.DeviceKey.RoundTrip.{IsLawful, decrypt_record-encrypted}
use bb_shared.ShareState.{JsonCodec, payload_path}
use bb_shared.ShareState.Laws.{Outcome-cases}
use bb_shared.Connections.{
  Snapshot, Urls, is_snapshot, snapshot_json, read_snapshot, ConnectionStore, snapshot_of, load_raw,
  load, payload_record, save,
}
use bb_shared.Connections.Schema.{read_snapshot-snapshot_json}

-- What the runtime does with a snapshot that is saved: its JSON is read back, and UTF-8 carries it.
pub record IsReadable (c : Crypto) (k : JsonCodec) (s : Snapshot) : Type 0 where
  pub numbers : (n : ℕ) → k.read_number (k.print_number n) ≡ some n
  pub parsed : k.parse (k.stringify (snapshot_json k s)) ≡ some (snapshot_json k s)
  pub carried :
      c.from_utf8 (c.to_utf8 (k.stringify (snapshot_json k s))) ≡ k.stringify (snapshot_json k s)

payload-payload_record :
    (u : Urls) (c : Crypto) (k : JsonCodec) (key : Bytes) (s : Snapshot)
    → get_by_path (segments (codes "payload")) (payload_record u c k key s)
      ≡ some (str (k.stringify (snapshot_json k s)))
unfolding get_by_path get_field same split
payload-payload_record u c k key s = refl

module _ (u : Urls) (c : Crypto) (k : JsonCodec) (key : Bytes) where
  snapshot_of-payload_record :
      (s : Snapshot)
      → IsReadable c k s
      → is_snapshot u s ≡ true
      → snapshot_of u c k key (payload_record u c k key s) ≡ some s
  unfolding get_field same
  snapshot_of-payload_record s r h =
      ground (arith, r.parsed, read_snapshot-snapshot_json u k s r.numbers)

  load_raw-decrypted :
      (store : ConnectionStore) (raw : Json) (s : Snapshot)
      → decrypt_record c key raw false payload_path ≡ ok (payload_record u c k key s, false)
      → snapshot_of u c k key (payload_record u c k key s) ≡ some s
      → load_raw u c k key store (some raw) ≡ (some s, store)
  unfolding decrypt_record decrypt_field get_by_path split
  load_raw-decrypted store null s d t = cc
  load_raw-decrypted store _ s d t = ground (arith, d, t)

  -- What a save that succeeded did.
  pub record IsSaved (nonces : ℕ → Bytes) (store : ConnectionStore) (s : Snapshot)
      (after : ConnectionStore) : Type 0 where
    pub sealed : Json
    pub usable : store.unreadable ≡ false
    pub valid : is_snapshot u s ≡ true
    pub encrypted :
        encrypt_record c key nonces 0 (payload_record u c k key s) payload_path ≡ ok sealed
    pub stored : after ≡ record store { kv = some sealed }

  pub save-IsSaved :
      (nonces : ℕ → Bytes) (works : Bool) (store : ConnectionStore) (s : Snapshot)
      (after : ConnectionStore)
      → ((n : ℕ) → k.read_number (k.print_number n) ≡ some n)
      → save u c k key nonces works store s ≡ some after
      → IsSaved nonces store s after
  unfolding save
  save-IsSaved nonces works store s after numbers e =
      let usable : store.unreadable ≡ false = ground arith in
      let valid : is_snapshot u s ≡ true =
        ground (arith, read_snapshot-snapshot_json u k s numbers) in
      let checked : read_snapshot u k (snapshot_json k s) ≡ some s =
        ground (arith, read_snapshot-snapshot_json u k s numbers, valid) in
      elim (Outcome-cases
        (encrypt_record c key nonces 0 (payload_record u c k key s) payload_path)) [
          | inl (error, failed) ↦ absurd (ground (arith, usable, checked, failed))
          | inr (sealed, done) ↦ record {
            sealed = sealed;
            usable = usable;
            valid = valid;
            encrypted = done;
            stored = ground (arith, usable, checked, done);
          }
        ]

  -- After a save that succeeded, a load under the same key gives the snapshot that was saved. The runtime's
  -- JSON, UTF-8 and cipher are read back, the key has 32 bytes and the nonce 12.
  pub load-save :
      (nonces : ℕ → Bytes) (works : Bool) (store : ConnectionStore) (s : Snapshot)
      (after : ConnectionStore)
      → IsLawful c
      → IsReadable c k s
      → length key ≡ 32
      → length (nonces 0) ≡ 12
      → save u c k key nonces works store s ≡ some after
      → load u c k key after ≡ (some s, after)
  unfolding load
  load-save nonces works store s after l r n m e =
      let i = save-IsSaved nonces works store s after r.numbers e in
      let plain =
        decrypt_record-encrypted c key nonces (codes "payload") (k.stringify (snapshot_json k s))
          (payload_record u c k key s) i.sealed l n m r.carried (payload-payload_record u c k key s)
          i.encrypted in
      let kept : ConnectionStore = record store { kv = some i.sealed } in
      let done : load_raw u c k key kept (some i.sealed) ≡ (some s, kept) =
        load_raw-decrypted kept i.sealed s plain (snapshot_of-payload_record s r i.valid) in
      subst (λ x. load u c k key x ≡ (some s, x)) (sym i.stored) done
