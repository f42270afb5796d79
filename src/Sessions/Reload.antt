-- ===== src/Sessions/Reload.antt =====
-- What plugin/guest-gateway/sessions.ts stores is what it loads after a restart.
use bb_shared.Base.{
  ℕ, ◌≤◌, ◌≡◌, refl, sym, subst, inl, inr, true, List, [], ◌∷◌, Option, none, some, Text, text_eq,
  lookup, insert-IsDistinct, erase-IsDistinct, insert-Entries, erase-Entries, lookup-Entries,
  values, length, IsDistinct, Entries, All, arith, Bool-cases, Option-cases,
}
use bb_shared.Sessions.{
  Session, Rows, is_session_id, load, is_live, is_over, session_of, live_prior, live_rows, id_or,
  renew, evict, redeem, Redeemed, redeemed, Redemption, sessions_after, redeem_all,
}
use bb_shared.Sessions.Redeem.{redeem-IsRedeemed}
use bb_shared.Sessions.Eviction.{length-evict}
use bb_shared.Sessions.Storable.{
  IsRow, AreStorable, filter-IsDistinct, filter-Entries, load-AreStorable, load-values,
}

module _ (json_size : List Session → ℕ) where
  evict-Entries : (rows : Rows) → Entries IsRow rows → Entries IsRow (evict json_size rows)
  unfolding evict
  evict-Entries [] w = w
  evict-Entries (e ∷ rows) (q, w) = elim (Bool-cases (is_over json_size (e ∷ rows))) [
    | inl over ↦ rw over (evict-Entries rows w)
    | inr fits ↦ rw fits (q, w)
  ]

  evict-IsDistinct : (rows : Rows) → IsDistinct rows → IsDistinct (evict json_size rows)
  unfolding evict
  evict-IsDistinct [] d = d
  evict-IsDistinct ((k, row) ∷ rows) (fresh, d) =
      elim (Bool-cases (is_over json_size ((k, row) ∷ rows))) [
        | inl over ↦ rw over (evict-IsDistinct rows d)
        | inr fits ↦ rw fits (fresh, d)
      ]

  renew-AreStorable :
      (now : ℕ) (rows : Rows) (id : Text) (grants : List Text)
      → AreStorable rows
      → is_session_id id ≡ true
      → length grants ≤ 128
      → AreStorable (evict json_size (renew now rows id grants))
  unfolding renew live_rows IsRow
  renew-AreStorable now rows id grants s named bounded =
      let live = λ (e : Text × Session). is_live now e.1 in
      record {
        distinct = evict-IsDistinct (renew now rows id grants) (
            insert-IsDistinct id _ _
              (erase-IsDistinct id _ (filter-IsDistinct live rows s.distinct)));
        entries = evict-Entries (renew now rows id grants) (
            insert-Entries IsRow id _ _ (refl, ground arith)
              (erase-Entries IsRow id _ (filter-Entries live rows s.entries)));
        few = length-evict json_size (renew now rows id grants);
      }

-- The id that a redemption goes on with.
id_or-named :
    (now : ℕ) (rows : Rows) (id : Option Text) (fresh : Text)
    → AreStorable rows
    → is_session_id fresh ≡ true
    → is_session_id (id_or (live_prior now rows id) fresh) ≡ true
unfolding live_prior session_of IsRow
id_or-named now rows none fresh s h = h
id_or-named now rows (some id) fresh s h = elim (Option-cases (lookup id rows)) [
  | inl missing ↦ ground (arith, missing)
  | inr (session, found) ↦
      let (same_id, valid) = lookup-Entries IsRow id {v = session} rows s.entries found in
      ground (arith, found, valid)
]

-- Every fresh id has the form of a session id.
abbrev pub AreDrawn : List Redemption → Type 0
AreDrawn rs = All (λ (r : Redemption). is_session_id r.fresh ≡ true) rs

module _ (json_size : List Session → ℕ) (hash_token : Text → Text) where
  after-AreStorable :
      (r : Redemption) (rows : Rows) (o : Redeemed)
      → AreStorable rows
      → is_session_id r.fresh ≡ true
      → redeem json_size hash_token r.now r.tokens rows r.raw r.prior_id r.fresh r.stored ≡ o
      → AreStorable (sessions_after rows o)
  after-AreStorable r rows Redeemed.refused s h e = s
  after-AreStorable r rows Redeemed.limit_reached s h e = s
  after-AreStorable r rows Redeemed.not_stored s h e = s
  after-AreStorable r rows (redeemed id after) s h e =
      let d =
        redeem-IsRedeemed json_size hash_token r.now r.tokens rows r.raw r.prior_id r.fresh r.stored
          {id = id} {after = after} e in
      subst AreStorable (sym d.kept) (
        renew-AreStorable json_size r.now rows id _ s
          (subst (λ x. is_session_id x ≡ true) (sym d.named)
            (id_or-named r.now rows r.prior_id r.fresh s h))
          d.bounded)

  redeem_all-AreStorable :
      (rs : List Redemption) (rows : Rows)
      → AreDrawn rs
      → AreStorable rows
      → AreStorable (redeem_all json_size hash_token rs rows)
  unfolding redeem_all
  redeem_all-AreStorable [] rows drawn s = s
  redeem_all-AreStorable (r ∷ rs) rows (h, drawn) s =
      redeem_all-AreStorable rs _ drawn (after-AreStorable r rows _ s h refl)

-- After a load that succeeded and any redemptions, the sessions load again as a redemption stores them: the schema
-- does not refuse them, and a restarted plugin has exactly those that have not expired by then, in the same order.
-- Every fresh id is one of 43 base64url characters.
pub load-redeem_all :
    (json_size : List Session → ℕ) (hash_token : Text → Text) (started now : ℕ)
    (saved : List Session) (rows : Rows) (rs : List Redemption)
    → load started saved ≡ some rows
    → AreDrawn rs
    → load now (values (redeem_all json_size hash_token rs rows))
      ≡ some (live_rows now (redeem_all json_size hash_token rs rows))
load-redeem_all json_size hash_token started now saved rows rs e drawn =
    load-values now (redeem_all json_size hash_token rs rows) (
      redeem_all-AreStorable json_size hash_token rs rows drawn
        (load-AreStorable started saved rows e))
