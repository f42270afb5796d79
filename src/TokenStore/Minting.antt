-- ===== src/TokenStore/Minting.antt =====
-- `mintToken` of plugin/lib/token-store.ts.
use bb_shared.Base.{
  ℕ, zero, suc, ◌≡◌, refl, sym, subst, Option, none, some, Text, text_eq, lookup, insert, inl, inr,
  arith, Option-cases,
}
use bb_shared.TokenStore.{
  Token, MintResult, Tokens, Draws, fresh_id, fresh_token, choose_label, or_else, mint_token,
}
use bb_shared.TokenStore.Shares.{HasDistinctThreads}
use bb_shared.TokenStore.Invariant.{IsValid, insert-IsValid}

-- What the minting of a token did.
pub fresh_id-absent :
    (fuel : ℕ) (tokens : Tokens) (ids : ℕ → Text) (k : ℕ) {id : Text}
    → fresh_id fuel tokens ids k ≡ some id
    → lookup id tokens ≡ none
unfolding fresh_id
fresh_id-absent zero tokens ids k e = cc
fresh_id-absent (suc fuel) tokens ids k {id} e = elim (Option-cases (lookup (ids k) tokens)) [
  | inl free ↦ let this : ids k ≡ id = ground arith in rw this at free
  | inr (t, used) ↦ fresh_id-absent fuel tokens ids (suc k) {id = id} (ground arith)
]

module _ (hash_token : Text → Text) where
  pub record IsMinted (now_ms : ℕ) (draws : Draws) (tokens : Tokens) (minted : MintResult)
      (after : Tokens) : Type 0 where
    pub made :
        minted.token
        ≡ fresh_token hash_token minted.token.id minted.token.label now_ms draws.raw_token
    pub bearer : minted.raw_token ≡ draws.raw_token
    pub absent : lookup minted.token.id tokens ≡ none
    pub stored : after ≡ insert minted.token.id minted.token tokens

  pub mint_token-IsMinted :
      (now : ℕ) (tokens : Tokens) (label : Option Text) (now_ms : Option ℕ) (draws : Draws)
      {minted : MintResult} {after : Tokens}
      → mint_token hash_token now tokens label now_ms draws ≡ some (minted, after)
      → IsMinted (or_else now_ms now) draws tokens minted after
  unfolding mint_token
  mint_token-IsMinted now tokens label now_ms draws {minted} {after} e =
      elim (Option-cases (choose_label label tokens draws.rng)) [
        | inl unlabelled ↦ ground arith
        | inr (chosen, labelled) ↦ elim (Option-cases (fresh_id draws.fuel tokens draws.ids 0)) [
          | inl spent ↦ ground arith
          | inr (id, drawn) ↦
              let absent = fresh_id-absent draws.fuel tokens draws.ids 0 {id = id} drawn in
              record {
                made = ground arith;
                bearer = ground arith;
                absent = ground (arith, absent);
                stored = ground arith;
              }
        ]
      ]

  pub mint_token-IsValid :
      (now : ℕ) (tokens : Tokens) (label : Option Text) (now_ms : Option ℕ) (draws : Draws)
      {minted : MintResult} {after : Tokens}
      → IsValid tokens
      → mint_token hash_token now tokens label now_ms draws ≡ some (minted, after)
      → IsValid after
  mint_token-IsValid now tokens label now_ms draws {minted} {after} v e =
      let m =
        mint_token-IsMinted now tokens label now_ms draws {minted = minted} {after = after} e in
      rw m.stored (
        insert-IsValid minted.token.id minted.token tokens
          (refl, subst (λ (t : Token). HasDistinctThreads t.shares) (sym m.made) tt) v)
