-- ===== src/Lifecycle/Mutations/Books/Claims.antt =====
-- The records of plugin/worker-lifecycle/worker-lifecycle.ts without their claims, and what its store promises.
use bb_shared.Base.{
  ℕ, ◌≡◌, refl, sym, subst, ap, ◌∙◌, true, List, [], ◌∷◌, map, Option, none, some, Text, text_eq,
  values, length, arith,
}
use bb_shared.Connections.{
  ConnectionRecord, Snapshot, Urls, ids, relay_ids, urls, is_consistent, is_snapshot,
}
use bb_shared.Lifecycle.Mutations.{RecordStore, prune}
use bb_shared.Lifecycle.Mutations.Books.{Book}

-- What a store promises: what it loads meets the schemas, and is what was saved.
pub record IsLawful {S C : Type 0} (u : Urls) (st : RecordStore S C) : Type 0 where
  pub loads_valid :
      (s : S) (snapshot : Snapshot) (after : S)
      → st.load s ≡ (some snapshot, after)
      → (is_snapshot u snapshot ≡ true) × (st.load after ≡ (some snapshot, after))
  pub saves_valid :
      (c : C) (s : S) (snapshot : Snapshot) (after : S)
      → st.save c s snapshot ≡ some after
      → (is_snapshot u snapshot ≡ true) × (st.load after ≡ (some snapshot, after))

-- A record without its claim, which is not saved once it has expired.
abbrev bare : ConnectionRecord → ConnectionRecord
bare r = record r { claim = none }

abbrev pub claimless : List ConnectionRecord → List ConnectionRecord
claimless rs = map bare rs

pub claimless-prune :
    (now : ℕ) (rs : List ConnectionRecord) → claimless (map (prune now) rs) ≡ claimless rs
claimless-prune now [] = refl
claimless-prune now (r ∷ rs) = ap (λ t. bare r ∷ t) (claimless-prune now rs)

ids-claimless : (rs : List ConnectionRecord) → ids (claimless rs) ≡ ids rs
ids-claimless [] = refl
ids-claimless (r ∷ rs) = ap (λ t. r.id ∷ t) (ids-claimless rs)

relay_ids-claimless : (rs : List ConnectionRecord) → relay_ids (claimless rs) ≡ relay_ids rs
relay_ids-claimless [] = refl
relay_ids-claimless (r ∷ rs) = ap (λ t. r.relay_id ∷ t) (relay_ids-claimless rs)

urls-claimless : (rs : List ConnectionRecord) → urls (claimless rs) ≡ urls rs
urls-claimless [] = refl
urls-claimless (r ∷ rs) = ap (λ t. r.url ∷ t) (urls-claimless rs)

length-claimless : (rs : List ConnectionRecord) → length (claimless rs) ≡ length rs
length-claimless [] = refl
length-claimless (r ∷ rs) = omega (arith, length-claimless rs)

pub is_consistent-claimless :
    (d : Option Text) (rs : List ConnectionRecord)
    → is_consistent (record { default_id = d; connections = claimless rs })
      ≡ is_consistent (record { default_id = d; connections = rs })
unfolding is_consistent
is_consistent-claimless d rs =
    rw (length-claimless rs, ids-claimless rs, relay_ids-claimless rs, urls-claimless rs) refl

-- The store holds what runs: with the same default, and up to claims the same records, which fit together.
pub record IsStored {S C : Type 0} (u : Urls) (st : RecordStore S C) (b : Book S) : Type 0 where
  pub snapshot : Snapshot
  pub loaded_again : st.load b.store ≡ (some snapshot, b.store)
  pub valid : is_snapshot u snapshot ≡ true
  pub same_default : snapshot.default_id ≡ b.default_id
  pub same_records : claimless snapshot.connections ≡ claimless (values b.connections)

-- Another book with the same store, default and connections.
pub same-IsStored :
    {S C : Type 0} (u : Urls) (st : RecordStore S C) (a b : Book S)
    → a.store ≡ b.store
    → a.default_id ≡ b.default_id
    → a.connections ≡ b.connections
    → IsStored u st a
    → IsStored u st b
same-IsStored u st a b e f g h = record {
  snapshot = h.snapshot;
  loaded_again = subst (λ s. st.load s ≡ (some h.snapshot, s)) e h.loaded_again;
  valid = h.valid;
  same_default = h.same_default ∙ f;
  same_records = h.same_records ∙ ap (λ m. claimless (values m)) g;
}

-- The books that are stored fit together.
pub IsStored-consistent :
    {S C : Type 0} (u : Urls) (st : RecordStore S C) (b : Book S)
    → IsStored u st b
    → is_consistent (record { default_id = b.default_id; connections = values b.connections })
      ≡ true
IsStored-consistent u st b h =
    let saved : is_consistent h.snapshot ≡ true = ground (arith, h.valid) in
    let alike : is_consistent h.snapshot
        ≡ is_consistent (record { default_id = b.default_id; connections = values b.connections }) =
      sym (is_consistent-claimless h.snapshot.default_id h.snapshot.connections)
      ∙ ap
          (λ d.
            is_consistent
              (record { default_id = d; connections = claimless h.snapshot.connections }))
          h.same_default
      ∙ ap (λ rs. is_consistent (record { default_id = b.default_id; connections = rs }))
          h.same_records
      ∙ is_consistent-claimless b.default_id (values b.connections) in
    sym alike ∙ saved
