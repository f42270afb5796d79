-- ===== src/Tests/Guests.antt =====
-- Browser sessions.
use bb_shared.Base.{
  subst, ℕ, ◌+◌, ◌*◌, ◌≤◌, ◌≡◌, refl, List, [], ◌∷◌, true, none, some, Text, text_eq, codes, lookup,
  arith, values, length, map,
}
use bb_shared.TokenStore.{Token, get_token, find_by_raw_token}
use bb_shared.TokenStore.Grants.{perm_of}
use bb_shared.Sessions.{
  Session, Rows, session_of, collect_share, collect_shares, collect_grants, resolve, live_prior,
  valid_grants, live_rows, renew, evict, redeem, load, redeem_all, Redemption,
}
use bb_shared.Sessions.Strongest.{stronger}
use bb_shared.Sessions.Resolve.{guest_perm, session_perm, resolve-session_perm}
use bb_shared.Sessions.Reload.{load-redeem_all}
use bb_shared.Sessions.Redeem.{redeem-union, renewed, AreSessions}
use bb_shared.Tests.Data.{tag, alpha, writer, store, visit, rows}
use bb_shared.Tests.Store.{store_run, store-IsValid}

-- Every function that a call on the sessions runs.
session_run : Unit {0}
unfolding store_run get_token session_of collect_share collect_shares collect_grants resolve
    live_prior valid_grants live_rows renew evict redeem perm_of load redeem_all
session_run = tt

-- The size of the stored JSON, for texts that JSON does not escape and times of ten digits.
abbrev text_size : Text → ℕ
text_size s = 2 + length s

-- With a comma behind each but the last.
abbrev grants_size : List Text → ℕ
grants_size [] = 0
grants_size (g ∷ []) = text_size g
grants_size (g ∷ h ∷ gs) = text_size g + (1 + grants_size (h ∷ gs))

-- `{"id":ID,"grants":[GRANTS],"expires":TIME}`.
abbrev row_size : Session → ℕ
row_size row = 6 + text_size row.id + (10 + (2 + grants_size row.grants)) + (11 + 10) + 1

abbrev rows_size : List Session → ℕ
rows_size [] = 0
rows_size (row ∷ []) = row_size row
rows_size (row ∷ next ∷ more) = row_size row + (1 + rows_size (next ∷ more))

abbrev size_of : List Session → ℕ
size_of rows = 2 + rows_size rows

-- The token that the bearer opens is small enough.
small_row :
    (token : Token)
    → find_by_raw_token tag store (codes "raw_w") ≡ some token
    → size_of
        (renewed 100 store (codes "sess") (live_prior 100 rows (some (codes "sess"))) token ∷ [])
      ≤ 160 * 1024
unfolding session_run
small_row token found =
    let alike : writer ≡ token = cc in
    subst
      (λ t.
        size_of
          (renewed 100 store (codes "sess") (live_prior 100 rows (some (codes "sess"))) t ∷ [])
        ≤ 160 * 1024)
      alike (omega arith)

rows-AreSessions : AreSessions rows
unfolding session_run
rows-AreSessions = record { distinct = (refl, tt); keyed = ((refl, (λ e. cc)), tt) }

-- A revoked token of a session gives nothing, and a lapsed session is none.
resolve_tests :
    (resolve 100 store rows (some (codes "sess"))
      ≡ some (record {
        id = codes "sess";
        hash = [];
        label = codes "Guest session";
        shares = alpha ∷ [];
        created_at = 0;
      }))
    × (resolve 900 store rows (some (codes "sess")) ≡ none)
    × (resolve 100 store rows none ≡ none)
unfolding session_run
resolve_tests = (refl, refl, refl)

resolve-session_perm_example :
    guest_perm (resolve 100 store rows (some (codes "sess"))) (codes "thr_a")
    ≡ session_perm 100 store (session_of rows (some (codes "sess"))) (codes "thr_a")
resolve-session_perm_example =
    resolve-session_perm 100 store rows (some (codes "sess")) (codes "thr_a") store-IsValid

abbrev joined : Rows
joined = (codes "sess", renewed 100 store (codes "sess") (some visit) writer) ∷ []

redeem-union_example :
    (token : Token) × (find_by_raw_token tag store (codes "raw_w") ≡ some token)
    × (lookup (codes "sess") joined
        ≡ some (renewed 100 store (codes "sess") (live_prior 100 rows (some (codes "sess"))) token))
    × (length
          (renewed 100 store
            (codes "sess")
            (live_prior 100 rows (some (codes "sess")))
            token).grants
        ≤ 128)
    × (length joined ≤ 2048)
    × (size_of (values joined) ≤ 160 * 1024)
    × ((x : Text)
        → guest_perm (resolve 100 store joined (some (codes "sess"))) x
          ≡ stronger
              (session_perm 100 store (session_of rows (some (codes "sess"))) x)
              (perm_of x token.shares))
unfolding session_run
redeem-union_example =
    redeem-union size_of tag 100 store rows (codes "raw_w") (some (codes "sess")) (codes "fresh")
      true (codes "sess") joined store-IsValid rows-AreSessions (λ e. cc) (omega arith) small_row
      refl

-- Ids of 43 units.
abbrev guest_a : Text
guest_a = codes "AAAAAAAAAAAAAAAAAAAAAAAAAAAAAAAAAAAAAAAAAAA"

abbrev guest_b : Text
guest_b = codes "BBBBBBBBBBBBBBBBBBBBBBBBBBBBBBBBBBBBBBBBBBB"

abbrev saved : List Session
saved =
    record { id = guest_b; grants = []; expires = 40 }
    ∷ record { id = guest_a; grants = codes "w" ∷ []; expires = 500 }
    ∷ []

abbrev kept_rows : Rows
kept_rows = (guest_a, record { id = guest_a; grants = codes "w" ∷ []; expires = 500 }) ∷ []

-- A renewal of the session that was loaded, and a new session of someone else.
abbrev redemptions : List Redemption
redemptions =
    record {
      now = 100;
      tokens = store;
      raw = codes "raw_w";
      prior_id = some guest_a;
      fresh = guest_b;
      stored = true;
    }
    ∷ record {
      now = 200;
      tokens = store;
      raw = codes "raw_w";
      prior_id = none;
      fresh = guest_b;
      stored = true;
    }
    ∷ []

-- The first session has just expired when the plugin starts again, the second lives on.
reload_test :
    map {B = Text}
      (λ e. e.0)
      (live_rows (100 + 30 * 24 * 60 * 60 * 1000) (redeem_all size_of tag redemptions kept_rows))
    ≡ guest_b ∷ []
unfolding session_run
reload_test = refl

load-redeem_all_example :
    load (100 + 30 * 24 * 60 * 60 * 1000) (values (redeem_all size_of tag redemptions kept_rows))
    ≡ some
        (live_rows (100 + 30 * 24 * 60 * 60 * 1000) (redeem_all size_of tag redemptions kept_rows))
unfolding session_run
load-redeem_all_example =
    load-redeem_all size_of tag 50 (100 + 30 * 24 * 60 * 60 * 1000) saved kept_rows redemptions refl
      (refl, (refl, tt))
