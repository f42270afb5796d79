-- ===== src/TokenStore/Bearers.antt =====
-- `findByRawToken` of plugin/lib/token-store.ts: which bearer opens which token.
use bb_shared.Base.{
  ℕ, ◌≡◌, ◌≢◌, ◌↔◌, refl, ap, List, [], ◌∷◌, ◌++◌, true, and-eq-true_iff, Option, none, some, Text,
  text_eq, find?-eq-some, All, Entries, same, same_iff, lookup, erase, lookup-erase, lookup_of_mem,
  insert_new, values, Memᴰ, length, ==_iff, inl, inr, arith, Bool-cases, Option-cases,
}
use bb_shared.TokenStore.{
  Token, MintResult, Tokens, ok, Draws, hashes_equal, find_by_raw_token, find_by_hash, delete_token,
  mint_token,
}
use bb_shared.TokenStore.Invariant.{IsValid, IsSound}
use bb_shared.TokenStore.Minting.{mint_token-IsMinted}

pub hashes_equal_iff : (a b : Text) → (hashes_equal a b ≡ true) ↔ (a ≡ b)
unfolding hashes_equal
hashes_equal_iff a b = (
  λ h. (same_iff a b).0 ((and-eq-true_iff _ _).0 h).1,
  λ e. (and-eq-true_iff _ _).1 ((==_iff (length a) (length b)).1 (ap length e), (same_iff a b).1 e),
)

-- An entry of the map, by a value among its values.
entry_of_value :
    (tokens : Tokens) (t : Token)
    → Entries IsSound tokens
    → Memᴰ t (values tokens)
    → Memᴰ (t.id, t) tokens
entry_of_value [] t h m = elim m [ ]
entry_of_value ((id, u) ∷ tokens) t ((e, d), h) (Memᴰ.head same_token) = Memᴰ.head (ground arith)
entry_of_value ((id, u) ∷ tokens) t (s, h) (Memᴰ.tail m) = Memᴰ.tail (entry_of_value tokens t h m)

value_of_entry :
    (tokens : Tokens) (id : Text) (t : Token) → lookup id tokens ≡ some t → Memᴰ t (values tokens)
unfolding lookup
value_of_entry [] id t e = cc
value_of_entry ((j, u) ∷ tokens) id t e = elim (Bool-cases (same j id)) [
  | inl hit ↦ Memᴰ.head (ground arith)
  | inr miss ↦ Memᴰ.tail (value_of_entry tokens id t (rw miss at e))
]

find_by_hash-none :
    (hash : Text) (ts : List Token) (t : Token)
    → find_by_hash hash ts ≡ none
    → Memᴰ t ts
    → t.hash ≢ hash
unfolding find_by_hash
find_by_hash-none hash [] t e m = elim m [ ]
find_by_hash-none hash (u ∷ ts) t e (Memᴰ.head same_token) =
    ground (arith, hashes_equal_iff u.hash hash)
find_by_hash-none hash (u ∷ ts) t e (Memᴰ.tail m) = find_by_hash-none hash ts t (ground arith) m

find_by_hash-snoc :
    (hash : Text) (ts : List Token) (t : Token)
    → All (λ (u : Token). u.hash ≢ hash) ts
    → t.hash ≡ hash
    → find_by_hash hash (ts ++ t ∷ []) ≡ some t
unfolding find_by_hash
find_by_hash-snoc hash [] t h e = ground (arith, hashes_equal_iff t.hash hash)
find_by_hash-snoc hash (u ∷ ts) t (n, h) e =
    ground (arith, hashes_equal_iff u.hash hash, find_by_hash-snoc hash ts t h e)

values-snoc :
    (tokens : Tokens) (id : Text) (t : Token)
    → values (tokens ++ (id, t) ∷ []) ≡ values tokens ++ t ∷ []
values-snoc [] id t = refl
values-snoc ((j, u) ∷ tokens) id t = ap (◌∷◌ u) (values-snoc tokens id t)

delete_token-eq :
    (tokens : Tokens) (id : Text) {after : Tokens}
    → delete_token tokens id ≡ ok after
    → after ≡ erase id tokens
unfolding delete_token
delete_token-eq tokens id e = ground arith

module _ (hash_token : Text → Text) where
  -- What is found is stored under its id, and has the hash of the bearer.
  pub find_by_raw_token_sound :
      (tokens : Tokens) (raw : Text) {t : Token}
      → IsValid tokens
      → find_by_raw_token hash_token tokens raw ≡ some t
      → (lookup t.id tokens ≡ some t) × (t.hash ≡ hash_token raw)
  unfolding find_by_raw_token
  find_by_raw_token_sound tokens raw {t} v e =
      let (m, h) =
        find?-eq-some (λ (u : Token). hashes_equal u.hash (hash_token raw)) (values tokens) {x = t}
          e in
      (
        lookup_of_mem t.id t tokens v.distinct (entry_of_value tokens t v.sound m),
        (hashes_equal_iff t.hash (hash_token raw)).0 h,
      )

  -- A bearer opens nothing exactly when no stored token has its hash.
  pub find_by_raw_token-none :
      (tokens : Tokens) (raw id : Text) (t : Token)
      → find_by_raw_token hash_token tokens raw ≡ none
      → lookup id tokens ≡ some t
      → t.hash ≢ hash_token raw
  unfolding find_by_raw_token
  find_by_raw_token-none tokens raw id t e found =
      find_by_hash-none (hash_token raw) (values tokens) t e (value_of_entry tokens id t found)

  -- The bearer of a new token opens that token, if no token before it has the same hash.
  pub mint_token-find :
      (now : ℕ) (tokens : Tokens) (label : Option Text) (now_ms : Option ℕ) (draws : Draws)
      (minted : MintResult) (after : Tokens)
      → All (λ (u : Token). u.hash ≢ hash_token draws.raw_token) (values tokens)
      → mint_token hash_token now tokens label now_ms draws ≡ some (minted, after)
      → find_by_raw_token hash_token after minted.raw_token ≡ some minted.token
  unfolding find_by_raw_token
  mint_token-find now tokens label now_ms draws minted after fresh e =
      let m =
        mint_token-IsMinted hash_token now tokens label now_ms draws {minted = minted}
          {after = after} e in
      rw
        (
          m.stored,
          m.bearer,
          insert_new minted.token.id minted.token tokens m.absent,
          values-snoc tokens minted.token.id minted.token,
        )
        (find_by_hash-snoc (hash_token draws.raw_token) (values tokens) minted.token fresh
          (ap (λ (t : Token). t.hash) m.made))

  -- A bearer that opened a deleted token opens nothing any more, if no other token has its hash.
  pub delete_token-find :
      (tokens : Tokens) (raw : Text) (t : Token) (after : Tokens)
      → IsValid tokens
      → IsValid after
      → find_by_raw_token hash_token tokens raw ≡ some t
      → ((u : Token) → lookup u.id tokens ≡ some u → u.hash ≡ hash_token raw → u.id ≡ t.id)
      → delete_token tokens t.id ≡ ok after
      → find_by_raw_token hash_token after raw ≡ none
  delete_token-find tokens raw t after v w found unique e =
      elim (Option-cases (find_by_raw_token hash_token after raw)) [
        | inl gone ↦ gone
        | inr (u, still) ↦
            let (stored, hashed) = find_by_raw_token_sound after raw {t = u} w still in
            absurd (
              ground (
                arith,
                delete_token-eq tokens t.id {after = after} e,
                lookup-erase t.id u.id tokens,
                unique u,
                same_iff t.id u.id,
              ))
      ]
