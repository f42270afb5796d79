-- ===== src/Sessions/Eviction.antt =====
-- The bounds on the stored sessions of plugin/guest-gateway/sessions.ts.
use bb_shared.Base.{
  ℕ, ◌*◌, ◌≤◌, ◌≡◌, inl, inr, List, [], ◌∷◌, ◌++◌, none, some, Text, text_eq, same_refl, same_iff,
  lookup, values, length, IsDistinct, arith, Bool-cases,
}
use bb_shared.Sessions.{Session, Rows, is_over, evict}

lookup-snoc :
    (rows : Rows) (k : Text) (row : Session)
    → lookup k rows ≡ none
    → lookup k (rows ++ (k, row) ∷ []) ≡ some row
unfolding lookup
lookup-snoc [] k row h = ground (arith, same_refl k)
lookup-snoc ((j, r) ∷ rows) k row h = ground (arith, lookup-snoc rows k row)

module _ (json_size : List Session → ℕ) where
  -- The rows that are stored are within both limits.
  pub length-evict : (rows : Rows) → length (evict json_size rows) ≤ 2048
  unfolding evict
  length-evict [] = omega arith
  length-evict (e ∷ rows) = elim (Bool-cases (is_over json_size (e ∷ rows))) [
    | inl over ↦ rw over (length-evict rows)
    | inr fits ↦ rw fits (ground (arith, fits))
  ]

  pub size-evict :
      (rows : Rows)
      → json_size [] ≤ 160 * 1024
      → json_size (values (evict json_size rows)) ≤ 160 * 1024
  unfolding evict
  size-evict [] h = h
  size-evict (e ∷ rows) h = elim (Bool-cases (is_over json_size (e ∷ rows))) [
    | inl over ↦ rw over (size-evict rows h)
    | inr fits ↦ rw fits (ground (arith, fits))
  ]

  -- The last row stays, if it fits alone.
  pub lookup-evict_last :
      (rows : Rows) (k : Text) (row : Session)
      → lookup k rows ≡ none
      → json_size (row ∷ []) ≤ 160 * 1024
      → lookup k (evict json_size (rows ++ (k, row) ∷ [])) ≡ some row
  unfolding evict lookup
  lookup-evict_last [] k row absent h = ground (arith, same_refl k)
  lookup-evict_last (e ∷ rows) k row absent h =
      elim (Bool-cases (is_over json_size (e ∷ (rows ++ (k, row) ∷ [])))) [
        | inl over ↦ rw over (lookup-evict_last rows k row (ground arith) h)
        | inr fits ↦ rw fits (lookup-snoc (e ∷ rows) k row absent)
      ]

  -- What is found after the eviction was there before it.
  pub lookup-evict :
      (rows : Rows) (k : Text) {row : Session}
      → IsDistinct rows
      → lookup k (evict json_size rows) ≡ some row
      → lookup k rows ≡ some row
  unfolding evict lookup
  lookup-evict [] k d e = e
  lookup-evict ((j, r) ∷ rows) k {row} (fresh, d) e =
      elim (Bool-cases (is_over json_size ((j, r) ∷ rows))) [
        | inl over ↦
            let later = lookup-evict rows k {row = row} d (rw over at e) in
            ground (arith, later, same_iff j k)
        | inr fits ↦ rw fits at e
      ]
