-- ===== src/TokenStore/Grants.antt =====
-- What the store of plugin/lib/token-store.ts promises: a table of permissions by token and thread.
use bb_shared.Base.{
  ℕ, ◌≡◌, ◌≢◌, refl, List, [], ◌∷◌, ◌++◌, true, false, ◌&&◌, Option, none, some, Text, text_eq, any,
  same, same_iff, lookup, insert, lookup-insert, inl, inr, arith, Option-cases, if◌then◌else◌,
}
use bb_shared.TokenStore.{
  Perm, Share, Token, MintResult, AddShareInput, Tokens, ok, has_thread, Draws, rename_token,
  delete_token, add_share, remove_thread, remove_share, set_perm, update_share, mint_token,
}
use bb_shared.TokenStore.Shares.{HasDistinctThreads}

-- The permission of the first share of the thread.
unfoldable pub perm_of : Text → List Share → Option Perm
perm_of thread_id [] = none
perm_of thread_id (s ∷ ss) = if has_thread thread_id s then some s.perm else perm_of thread_id ss

abbrev pub token_perm : Text → Option Token → Option Perm
token_perm thread_id none = none
token_perm thread_id (some t) = perm_of thread_id t.shares

abbrev pub Grants : Type 0
Grants = Text → Text → Option Perm

abbrev pub grants : Tokens → Grants
grants tokens id thread_id = token_perm thread_id (lookup id tokens)

-- The edits that the owner makes, and what each does to the table.
pub data Edit : Type 0 where
  mint : Edit
  relabel : Edit
  revoke : Text → Edit
  put : Text → Text → Option Perm → Edit

abbrev pub apply : Edit → Grants → Grants
apply mint g id thread_id = g id thread_id
apply relabel g id thread_id = g id thread_id
apply (revoke id') g id thread_id = if same id' id then none else g id thread_id
apply (put id' thread_id' p) g id thread_id =
    if same id' id && same thread_id' thread_id then p else g id thread_id

-- The successful calls of the store, each with the edit that it stands for.
pub data Call (hash_token : Text → Text) : Edit → Tokens → Tokens → Type 0 where
  mints :
      {tokens after : Tokens} (now : ℕ) (label : Option Text) (now_ms : Option ℕ) (draws : Draws)
      (minted : MintResult)
      → mint_token hash_token now tokens label now_ms draws ≡ some (minted, after)
      → Call hash_token mint tokens after
  renames :
      {tokens after : Tokens} (id label : Text)
      → rename_token tokens id label ≡ ok after
      → Call hash_token relabel tokens after
  deletes :
      {tokens after : Tokens} (id : Text)
      → delete_token tokens id ≡ ok after
      → Call hash_token (revoke id) tokens after
  adds :
      {tokens after : Tokens} (now : ℕ) (id : Text) (share : AddShareInput) (now_ms : Option ℕ)
      → add_share now tokens id share now_ms ≡ ok after
      → Call hash_token (put id share.thread_id (some share.perm)) tokens after
  removes :
      {tokens after : Tokens} (id thread_id : Text)
      → remove_share tokens id thread_id ≡ ok after
      → Call hash_token (put id thread_id none) tokens after
  updates :
      {tokens after : Tokens} (id thread_id : Text) (perm : Perm)
      → update_share tokens id thread_id perm ≡ ok after
      → Call hash_token (put id thread_id (some perm)) tokens after

pub perm_of-snoc :
    (x : Text) (ss : List Share) (s : Share)
    → any (has_thread s.thread_id) ss ≡ false
    → perm_of x (ss ++ s ∷ []) ≡ (if same s.thread_id x then some s.perm else perm_of x ss)
unfolding perm_of
perm_of-snoc x [] s h = refl
perm_of-snoc x (y ∷ ss) s h = ground (
  arith,
  perm_of-snoc x ss s,
  same_iff y.thread_id x,
  same_iff s.thread_id x,
  same_iff y.thread_id s.thread_id,
)

pub perm_of-absent :
    (x : Text) (ss : List Share) → any (has_thread x) ss ≡ false → perm_of x ss ≡ none
unfolding perm_of
perm_of-absent x [] h = refl
perm_of-absent x (y ∷ ss) h = ground (arith, perm_of-absent x ss)

pub perm_of-present :
    (x : Text) (ss : List Share) → any (has_thread x) ss ≡ true → perm_of x ss ≢ none
unfolding perm_of
perm_of-present x [] h = cc
perm_of-present x (y ∷ ss) h = ground (arith, perm_of-present x ss)

pub perm_of-remove_thread :
    (x thread_id : Text) (ss : List Share) {kept : List Share}
    → HasDistinctThreads ss
    → remove_thread thread_id ss ≡ some kept
    → perm_of x kept ≡ (if same thread_id x then none else perm_of x ss)
unfolding perm_of remove_thread
perm_of-remove_thread x thread_id [] d e = cc
perm_of-remove_thread x thread_id (y ∷ ss) {kept} d e =
    elim (Option-cases (remove_thread thread_id ss)) [
      | inl missing ↦ ground (
        arith,
        same_iff y.thread_id thread_id,
        same_iff y.thread_id x,
        same_iff thread_id x,
        perm_of-absent y.thread_id ss,
      )
      | inr (rest, found) ↦ ground (
        arith,
        same_iff y.thread_id thread_id,
        same_iff y.thread_id x,
        same_iff thread_id x,
        perm_of-absent y.thread_id ss,
        perm_of-remove_thread x thread_id ss {kept = rest},
      )
    ]

pub perm_of-set_perm :
    (x thread_id : Text) (p : Perm) (ss : List Share) {changed : List Share}
    → set_perm thread_id p ss ≡ some changed
    → perm_of x changed ≡ (if same thread_id x then some p else perm_of x ss)
unfolding perm_of set_perm
perm_of-set_perm x thread_id p [] e = cc
perm_of-set_perm x thread_id p (y ∷ ss) {changed} e =
    elim (Option-cases (set_perm thread_id p ss)) [
      | inl missing ↦
          ground
            (arith, same_iff y.thread_id thread_id, same_iff y.thread_id x, same_iff thread_id x)
      | inr (rest, found) ↦ ground (
        arith,
        same_iff y.thread_id thread_id,
        same_iff y.thread_id x,
        same_iff thread_id x,
        perm_of-set_perm x thread_id p ss {changed = rest},
      )
    ]

-- A token that is replaced changes its own row only.
pub grants-insert :
    (id : Text) (t : Token) (tokens : Tokens) (x y : Text)
    → grants (insert id t tokens) x y
      ≡ (if same id x then perm_of y t.shares else grants tokens x y)
grants-insert id t tokens x y = ground (arith, lookup-insert id x t tokens)
