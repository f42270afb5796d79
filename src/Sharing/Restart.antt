-- ===== src/Sharing/Restart.antt =====
-- A restart of the plugin (plugin/server.ts): what the owner has shared survives it.
use bb_shared.Base.{
  ℕ, ◌≡◌, refl, sym, ap, subst, ◌∙◌, List, [], ◌∷◌, Bool, Option, none, some, Text, text_eq, Dict,
  lookup, insert, values, fill, fill-nil, IsDistinct, Entries, length, inl, inr, arith,
  Option-cases,
}
use bb_shared.TokenStore.{
  Token, TokenSnapshot, Tokens, Draws, list_tokens, init, open_snapshot, or_else,
}
use bb_shared.TokenStore.Invariant.{IsValid, IsSound}
use bb_shared.TokenStore.Grants.{grants}
use bb_shared.DeviceKey.{Bytes, Crypto}
use bb_shared.DeviceKey.RoundTrip.{IsLawful}
use bb_shared.ShareState.{JsonCodec, load}
use bb_shared.ShareState.Laws.{IsReadable, load-save}
use bb_shared.Sharing.{Sharing, done, Request, operate, snapshot, with_bearer, mutate_shares, start}
use bb_shared.Sharing.Rollback.{IsWellFormed}
use bb_shared.Sharing.Calls.{operate-IsWellFormed, mutate_shares-IsPersisted}

module _ (hash_token : Text → Text) (raws : Dict Text Text) where
  abbrev rehashed : Token → Token
  rehashed t = record t { hash = hash_token (or_else (lookup t.id raws) []) }

  -- The tokens under the hashes of a new process.
  abbrev rehash : Tokens → Tokens
  rehash [] = []
  rehash ((id, t) ∷ m) = (id, rehashed t) ∷ rehash m

  lookup-rehash :
      (id : Text) (m : Tokens)
      → lookup id (rehash m) ≡ (elim (lookup id m) [ none ↦ none | some t ↦ some (rehashed t) ])
  unfolding lookup
  lookup-rehash id [] = refl
  lookup-rehash id ((j, t) ∷ m) = ground (arith, lookup-rehash id m)

  rehash-IsDistinct : (m : Tokens) → IsDistinct m → IsDistinct (rehash m)
  rehash-IsDistinct [] d = tt
  rehash-IsDistinct ((id, t) ∷ m) (fresh, d) =
      (ground (arith, lookup-rehash id m, fresh), rehash-IsDistinct m d)

  rehash-IsSound : (m : Tokens) → Entries IsSound m → Entries IsSound (rehash m)
  rehash-IsSound [] h = tt
  rehash-IsSound ((id, t) ∷ m) (s, h) = (s, rehash-IsSound m h)

  grants-rehash : (m : Tokens) (x y : Text) → grants (rehash m) x y ≡ grants m x y
  grants-rehash m x y = ground (arith, lookup-rehash x m)

  -- The constructor, on the tokens of a snapshot.
  init-snapshot :
      (m acc : Tokens) (ts : List TokenSnapshot)
      → Entries IsSound m
      → snapshot raws (values m) ≡ some ts
      → init hash_token acc ts ≡ fill acc (rehash m)
  unfolding snapshot init fill
  init-snapshot [] acc ts h e =
      let nothing : [] ≡ ts = ground arith in subst (λ s. init hash_token acc s ≡ acc) nothing refl
  init-snapshot ((id, t) ∷ m) acc ts ((own, d), h) e = elim (Option-cases (lookup t.id raws)) [
    | inl missing ↦ absurd (ground (arith, missing))
    | inr (raw, found) ↦ elim (Option-cases (snapshot raws (values m))) [
      | inl partial ↦ absurd (ground (arith, found, partial))
      | inr (more, rest) ↦
          let listed : with_bearer t raw ∷ more ≡ ts = ground (arith, found, rest) in
          let opened : open_snapshot hash_token (with_bearer t raw) ≡ rehashed t =
            ground (arith, found) in
          subst (λ s. init hash_token acc s ≡ fill acc (rehash ((id, t) ∷ m))) listed
            (ap (λ u. init hash_token (insert t.id u acc) more) opened
              ∙ (ap (λ i. init hash_token (insert i (rehashed t) acc) more) own
                  ∙ init-snapshot m (insert id (rehashed t) acc) more h rest))
    ]
  ]

-- After a call that succeeded, a restarted plugin has a well-formed store with the same table of
-- permissions, under whatever key it hashes bearers. The state before the call is well formed, the
-- runtime's JSON, UTF-8 and cipher are read back, the key has 32 bytes and the nonce 12.
pub start-mutate_shares :
    (c : Crypto) (k : JsonCodec) (key : Bytes) (nonces : ℕ → Bytes) (works again : Bool)
    (hash_token rehash_token : Text → Text) (now : ℕ) (draws : Draws) (q : Request) (s : Sharing)
    (value : Option Token) (after : Sharing)
    → IsLawful c
    → length key ≡ 32
    → length (nonces 0) ≡ 12
    → IsWellFormed s
    → ((ts : List TokenSnapshot)
        → snapshot after.raw_tokens (list_tokens after.tokens) ≡ some ts
        → IsReadable c k ts)
    → mutate_shares c k key nonces works hash_token now draws q s ≡ (done value, after)
    → IsValid (start c k key nonces again rehash_token after.stored).tokens
      × ((x y : Text)
          → grants (start c k key nonces again rehash_token after.stored).tokens x y
            ≡ grants after.tokens x y)
unfolding start list_tokens
start-mutate_shares c k key nonces works again hash_token rehash_token now draws q s value after l n
      m w readable e =
    let p = mutate_shares-IsPersisted c k key nonces works hash_token now draws q s value after e in
    let next = (operate hash_token now draws q s).1 in
    let wn = operate-IsWellFormed hash_token now draws q s w in
    let tokens_kept : after.tokens ≡ next.tokens = ap (λ (x : Sharing). x.tokens) p.unchanged in
    let bearers_kept : after.raw_tokens ≡ next.raw_tokens =
      ap (λ (x : Sharing). x.raw_tokens) p.unchanged in
    let listed : snapshot after.raw_tokens (list_tokens after.tokens) ≡ some p.tokens =
      rw (tokens_kept, bearers_kept) p.listed in
    let loaded : load c k key nonces again after.stored ≡ (p.tokens, after.stored) =
      load-save c k key nonces works again next.stored p.tokens after.stored l
        (readable p.tokens listed) n m p.written in
    let filled = rehash rehash_token next.raw_tokens next.tokens in
    let distinct =
      rehash-IsDistinct rehash_token next.raw_tokens next.tokens wn.tokens_valid.distinct in
    let made : init rehash_token [] (load c k key nonces again after.stored).0 ≡ filled =
      ap (λ x. init rehash_token [] x.0) loaded
      ∙ (init-snapshot rehash_token next.raw_tokens next.tokens [] p.tokens wn.tokens_valid.sound
            p.listed
          ∙ fill-nil filled distinct) in
    (
      subst IsValid (sym made) (record {
        distinct = distinct;
        sound = rehash-IsSound rehash_token next.raw_tokens next.tokens wn.tokens_valid.sound;
      }),
      λ x y.
          ap (λ t. grants t x y) made
          ∙ (grants-rehash rehash_token next.raw_tokens next.tokens x y
              ∙ ap (λ t. grants t x y) (sym tokens_kept)),
    )
