-- ===== src/Connections/Valid.antt =====
-- What plugin/worker-lifecycle/worker-record.ts loads meets its schemas.
use bb_shared.Base.{
  and5, ◌≡◌, refl, subst, ap, Bool, true, false, List, [], ◌∷◌, all, Option, none, some, codes,
  if◌then◌else◌,
}
use bb_shared.Base.Json.{Json, null, obj, Items, nil, cons, get_field}
use bb_shared.DeviceKey.{decrypt_record, Bytes, Crypto, Outcome}
use bb_shared.ShareState.{
  JsonCodec, chain, check, has_only, text_at, number_at, items_at, is_filled, is_version_one,
  payload_path,
}
use bb_shared.Connections.{
  Claim, ConnectionRecord, Snapshot, Urls, is_claim, is_record, is_snapshot, is_consistent,
  is_canonical, is_relay_id, is_tunnel_secret, read_claim, read_record, read_records, read_snapshot,
  read_time, read_default, ConnectionStore, no_connections, snapshot_of, decrypted_snapshot, loaded,
  load_raw, load, all_distinct,
}

-- What follows where both succeed.
chain-some {ℓ κ ι} :
    {A : Type ℓ} {B : Type κ} (G : Type ι) (o : Option A) (f : A → Option B) (b : B)
    → ((a : A) → o ≡ some a → f a ≡ some b → G)
    → chain o f ≡ some b
    → G
chain-some G none f b h e = absurd cc
chain-some G (some a) f b h e = h a refl e

check-some : (b : Bool) (t : Unit) → check b ≡ some t → b ≡ true
check-some true t e = refl
check-some false t e = absurd cc

module _ (u : Urls) (k : JsonCodec) where
  read_claim-valid :
      (v : Option Json) (claim : Option Claim)
      → read_claim u k v ≡ some claim
      → is_claim u claim ≡ true
  unfolding read_claim
  read_claim-valid none claim e = absurd cc
  read_claim-valid (some null) claim e =
      let alike : none ≡ claim = cc in subst (λ o. is_claim u o ≡ true) alike refl
  read_claim-valid (some (obj fs)) claim e =
      chain-some _ (text_at (codes "url") fs) _ claim
        (λ url h1. chain-some _ (check (u.is_url url)) _ claim (λ t h2.
          chain-some _ (read_time k (get_field (codes "expiresAt") fs)) _ claim (λ at h3 last.
            let made : Claim = record { url = url; expires_at = at } in
            let alike : some made ≡ claim = cc in
            subst (λ o. is_claim u o ≡ true) alike (check-some (u.is_url url) t h2))))
        e
  read_claim-valid (some _) claim e = absurd cc

  read_record-valid :
      (v : Json) (r : ConnectionRecord) → read_record u k v ≡ some r → is_record u r ≡ true
  unfolding read_record
  read_record-valid (obj fs) r e =
      chain-some _
        (check (
          has_only
            (codes "id"
              ∷ codes "relayId"
              ∷ codes "url"
              ∷ codes "tunnelSecret"
              ∷ codes "claim"
              ∷ codes "createdAt"
              ∷ [])
            fs))
        _ r
        (λ t0 h0. chain-some _ (text_at (codes "id") fs) _ r (λ id h1.
          chain-some _ (check (is_filled id)) _ r (λ t2 h2.
            chain-some _ (text_at (codes "relayId") fs) _ r (λ relay_id h3.
              chain-some _ (check (is_relay_id relay_id)) _ r (λ t4 h4.
                chain-some _ (text_at (codes "url") fs) _ r (λ url h5.
                  chain-some _ (check (is_canonical u url)) _ r (λ t6 h6.
                    chain-some _ (text_at (codes "tunnelSecret") fs) _ r (λ secret h7.
                      chain-some _ (check (is_tunnel_secret secret)) _ r (λ t8 h8.
                        chain-some _ (read_claim u k (get_field (codes "claim") fs)) _ r
                          (λ claim h9.
                            chain-some _ (number_at k (codes "createdAt") fs) _ r (λ at h10 last.
                              let made : ConnectionRecord = record {
                                id = id;
                                relay_id = relay_id;
                                url = url;
                                tunnel_secret = secret;
                                claim = claim;
                                created_at = at;
                              } in
                              let alike : made ≡ r = cc in
                              subst (λ x. is_record u x ≡ true) alike
                                (and5 _ _ _ _ _ (check-some (is_filled id) t2 h2)
                                  (check-some (is_relay_id relay_id) t4 h4)
                                  (check-some (is_canonical u url) t6 h6)
                                  (check-some (is_tunnel_secret secret) t8 h8)
                                  (read_claim-valid (get_field (codes "claim") fs) claim
                                    h9)))))))))))))
        e
  read_record-valid _ r e = absurd cc

  read_records-valid :
      (vs : Items) (rs : List ConnectionRecord)
      → read_records u k vs ≡ some rs
      → all (is_record u) rs ≡ true
  unfolding read_records
  read_records-valid nil rs e =
      let alike : [] ≡ rs = cc in subst (λ t. all (is_record u) t ≡ true) alike refl
  read_records-valid (cons v vs) rs e =
      chain-some _ (read_record u k v) _ rs
        (λ r h1. chain-some _ (read_records u k vs) _ rs (λ more h2 last.
          let alike : r ∷ more ≡ rs = cc in
          subst (λ t. all (is_record u) t ≡ true) alike
            (rw (read_record-valid v r h1) (read_records-valid vs more h2))))
        e

  kept-valid :
      (b : Bool) (s t : Snapshot) → (if b then some s else none) ≡ some t → (b ≡ true) × (s ≡ t)
  kept-valid true s t e = let alike : s ≡ t = cc in (refl, alike)
  kept-valid false s t e = absurd cc

  -- A snapshot that is read meets the schemas, of whatever JSON.
  pub read_snapshot-valid :
      (v : Json) (s : Snapshot) → read_snapshot u k v ≡ some s → is_snapshot u s ≡ true
  unfolding read_snapshot
  read_snapshot-valid (obj fs) s e =
      chain-some _
        (check (has_only (codes "version" ∷ codes "defaultId" ∷ codes "connections" ∷ []) fs)) _ s
        (λ t0 h0.
          chain-some _ (check (is_version_one k (get_field (codes "version") fs))) _ s (λ t1 h1.
            chain-some _ (read_default (get_field (codes "defaultId") fs)) _ s (λ default_id h2.
              chain-some _ (chain (items_at (codes "connections") fs) (read_records u k)) _ s
                (λ connections h3 last.
                  let made : Snapshot = record {
                    default_id = default_id;
                    connections = connections;
                  } in
                  let (consistent, alike) = kept-valid (is_consistent made) made s last in
                  let valid : all (is_record u) connections ≡ true =
                    chain-some _ (items_at (codes "connections") fs) (read_records u k) connections
                      (λ vs h4 h5. read_records-valid vs connections h5) h3 in
                  subst (λ x. is_snapshot u x ≡ true) alike (rw valid consistent)))))
        e
  read_snapshot-valid _ s e = absurd cc

  module _ (c : Crypto) (key : Bytes) where
    snapshot_of-valid :
        (v : Json) (s : Snapshot) → snapshot_of u c k key v ≡ some s → is_snapshot u s ≡ true
    snapshot_of-valid v s e =
        chain-some _ _ _ s
          (λ payload h1.
            chain-some _ (k.parse payload) (read_snapshot u k) s
              (λ w h2 h3. read_snapshot-valid w s h3))
          e

    decrypted_snapshot-valid :
        (o : Outcome (Json × Bool)) (s : Snapshot)
        → decrypted_snapshot u c k key o ≡ some s
        → is_snapshot u s ≡ true
    decrypted_snapshot-valid (Outcome.err x) s e = absurd cc
    decrypted_snapshot-valid (Outcome.ok plain) s e = snapshot_of-valid plain.0 s e

    -- What a load gives meets the schemas, and leaves the store as it was.
    IsFound : ConnectionStore → Snapshot → ConnectionStore → Type 0
    IsFound store s after = (is_snapshot u s ≡ true) × (store ≡ after)

    loaded-IsFound :
        (store after : ConnectionStore) (o : Option Snapshot) (s : Snapshot)
        → ((t : Snapshot) → o ≡ some t → is_snapshot u t ≡ true)
        → loaded u c k key store o ≡ (some s, after)
        → IsFound store s after
    unfolding IsFound
    loaded-IsFound store after none s h e = absurd cc
    loaded-IsFound store after (some t) s h e =
        let alike : t ≡ s = cc in
        let same_store : store ≡ after = ap (λ x. x.1) e in
        (subst (λ x. is_snapshot u x ≡ true) alike (h t refl), same_store)

    empty-IsFound :
        (store after : ConnectionStore) (s : Snapshot)
        → load_raw u c k key store none ≡ (some s, after)
        → IsFound store s after
    unfolding IsFound is_consistent all_distinct
    empty-IsFound store after s e =
        let alike : no_connections ≡ s = cc in
        let same_store : store ≡ after = ap (λ x. x.1) e in
        (subst (λ x. is_snapshot u x ≡ true) alike refl, same_store)

    load_raw-IsFound :
        (store after : ConnectionStore) (raw : Option Json) (s : Snapshot)
        → load_raw u c k key store raw ≡ (some s, after)
        → IsFound store s after
    load_raw-IsFound store after none s e = empty-IsFound store after s e
    load_raw-IsFound store after (some null) s e = empty-IsFound store after s e
    load_raw-IsFound store after (some raw) s e =
        loaded-IsFound store after _ s
          (decrypted_snapshot-valid (decrypt_record c key raw false payload_path)) e

    -- What is loaded meets the schemas, and is what a second load gives.
    pub load-valid :
        (store after : ConnectionStore) (s : Snapshot)
        → load u c k key store ≡ (some s, after)
        → (is_snapshot u s ≡ true) × (load u c k key after ≡ (some s, after))
    unfolding load IsFound
    load-valid store after s e =
        let (valid, same_store) = load_raw-IsFound store after store.kv s e in
        (valid, subst (λ x. load u c k key x ≡ (some s, after)) same_store e)
