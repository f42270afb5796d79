-- ===== src/Tests/Store.antt =====
-- Token store and authorization.
use bb_shared.Base.{
  ◌≡◌, ◌≢◌, ◌↔◌, refl, [], ◌∷◌, ◌++◌, true, false, none, some, Text, text_eq, codes, same, lookup,
  insert, erase, is_one_of, arith, starts_with, ends_with, trim, until, drop_end, split, join,
  to_upper_case, any, same_iff, same-false,
}
use bb_shared.TokenStore.{
  write, Token, Tokens, err, add_share, added_share, remove_share, update_share, mint_token,
  fresh_token, delete_token, rename_token, find_by_raw_token, choose_label, token_not_found,
  duplicate_share, share_not_found,
}
use bb_shared.TokenStore.Labels.{pick_unique_label}
use bb_shared.TokenStore.Labels.Laws.{pick_unique_label_total}
use bb_shared.TokenStore.Invariant.{IsValid}
use bb_shared.TokenStore.Grants.{grants, apply, put, adds, perm_of}
use bb_shared.TokenStore.Refinement.{Call-refines}
use bb_shared.TokenStore.Errors.{share_call_errors}
use bb_shared.TokenStore.Bearers.{find_by_raw_token_sound, mint_token-find, delete_token-find}
use bb_shared.Authz.{
  compute_authz, is_mutating_method, is_supported_method, is_read_endpoint, is_send, project_scope,
}
use bb_shared.Authz.Path.{
  classify_path, normalize_path, is_static_asset_path, thread, project, non_thread, invalid,
  is_forbidden, is_dots,
}
use bb_shared.Authz.Path.Laws.{classify_path-thread, IsThreadPath}
use bb_shared.Authz.Decision.{Permits, compute_authz_iff}
use bb_shared.Authz.Scope.{project_scope_iff, InProject}
use bb_shared.Tests.Data.{tag, alpha, gamma, reader, writer, store, draws}

-- Every function that a run of the store calls.
unfoldable pub store_run : Unit {0}
unfolding lookup insert erase same add_share remove_share update_share mint_token delete_token
    rename_token find_by_raw_token choose_label pick_unique_label perm_of
store_run = tt

path_run : Unit {0}
unfolding classify_path normalize_path is_static_asset_path same starts_with ends_with trim until
    drop_end split join
path_run = tt

authz_run : Unit {0}
unfolding path_run compute_authz is_mutating_method is_supported_method is_read_endpoint is_send
    project_scope to_upper_case
authz_run = tt

pub store-IsValid : IsValid store
unfolding store_run
store-IsValid = record {
  distinct = (refl, (refl, tt));
  sound = ((refl, (refl, tt)), ((refl, (refl, (refl, tt))), tt));
}

classify_tests :
    (classify_path (codes "/api/v1/threads/thr_1/timeline/?x=1")
      ≡ thread (codes "thr_1") (codes "/timeline"))
    × (classify_path (codes "/projects/p/threads/thr_1") ≡ thread (codes "thr_1") [])
    × (classify_path (codes " projects/p ") ≡ project (codes "p"))
    × (classify_path (codes "/favicon.ICO") ≡ non_thread)
    × (classify_path (codes "/api/v1/threads/%2e") ≡ invalid)
    × (classify_path (codes "/threads/../plugins") ≡ invalid)
    × (classify_path (codes "/system/providers/x/logo") ≡ non_thread)
    × (classify_path (codes "//") ≡ invalid)
unfolding path_run
classify_tests = (refl, refl, refl, refl, refl, refl, refl, refl)

authz_tests :
    ((compute_authz (some reader) (codes "/threads/thr_a") (codes "get")).allowed ≡ true)
    × ((compute_authz (some reader) (codes "/threads/thr_a/send") (codes "POST")).allowed ≡ false)
    × ((compute_authz (some writer) (codes "/threads/thr_b/send") (codes "POST")).allowed ≡ true)
    × ((compute_authz (some writer) (codes "/projects/proj_1") (codes "HEAD")).allowed ≡ true)
    × ((compute_authz (some writer) (codes "/ws") (codes "OPTIONS")).allowed ≡ false)
unfolding authz_run
authz_tests = (refl, refl, refl, refl, refl)

label_test : pick_unique_label (codes "brave-otter" ∷ []) (λ k. 0) ≡ some (codes "brave-otter-2")
unfolding store_run
label_test = refl

compute_authz_iff_example :
    ((compute_authz (some writer) (codes "/threads/thr_b/send") (codes "POST")).allowed ≡ true)
    ↔ Permits writer (codes "POST") (classify_path (codes "/threads/thr_b/send"))
compute_authz_iff_example = compute_authz_iff writer (codes "/threads/thr_b/send") (codes "POST")

classify_path-thread_example :
    (any is_forbidden (normalize_path (codes "/threads/thr_b/send")) ≡ false)
    × (any is_dots (split b'/' (normalize_path (codes "/threads/thr_b/send"))) ≡ false)
    × IsThreadPath (normalize_path (codes "/threads/thr_b/send")) (codes "thr_b") (codes "/send")
unfolding path_run
classify_path-thread_example =
    classify_path-thread (codes "/threads/thr_b/send") (codes "thr_b") (codes "/send") refl

project_scope_iff_case :
    (is_one_of (codes "proj_1") (project_scope writer) ≡ true)
    ↔ InProject (codes "proj_1") writer.shares
project_scope_iff_case = project_scope_iff writer (codes "proj_1")

pick_unique_label_total_example :
    (label : Text) × (pick_unique_label (codes "brave-otter" ∷ []) (λ k. 0) ≡ some label)
    × (is_one_of label (codes "brave-otter" ∷ []) ≡ false)
pick_unique_label_total_example = pick_unique_label_total (codes "brave-otter" ∷ []) (λ k. 0)

abbrev grown : Tokens
grown =
    (codes "bbsh_r", record reader { shares = alpha ∷ added_share 12 gamma none ∷ [] })
    ∷ (codes "bbsh_w", writer)
    ∷ []

Call-refines_example :
    IsValid grown
    × ((x y : Text)
        → grants grown x y
          ≡ apply (put (codes "bbsh_r") (codes "thr_c") (some write)) (grants store) x y)
unfolding store_run
Call-refines_example =
    Call-refines tag {tokens = store} {after = grown} store-IsValid
      (adds 12 (codes "bbsh_r") gamma none refl)

share_call_errors_example :
    ((add_share 12 store (codes "bbsh_r") gamma none ≡ err (token_not_found (codes "bbsh_r")))
      ↔ (lookup (codes "bbsh_r") store ≡ none))
    × ((add_share 12 store (codes "bbsh_r") gamma none
          ≡ err (duplicate_share (codes "bbsh_r") (codes "thr_c")))
        ↔ (grants store (codes "bbsh_r") (codes "thr_c") ≢ none))
    × ((remove_share store (codes "bbsh_r") (codes "thr_c")
          ≡ err (token_not_found (codes "bbsh_r")))
        ↔ (lookup (codes "bbsh_r") store ≡ none))
    × ((remove_share store (codes "bbsh_r") (codes "thr_c")
          ≡ err (share_not_found (codes "bbsh_r") (codes "thr_c")))
        ↔ ((lookup (codes "bbsh_r") store ≢ none)
            × (grants store (codes "bbsh_r") (codes "thr_c") ≡ none)))
    × ((update_share store (codes "bbsh_r") (codes "thr_c") write
          ≡ err (token_not_found (codes "bbsh_r")))
        ↔ (lookup (codes "bbsh_r") store ≡ none))
    × ((update_share store (codes "bbsh_r") (codes "thr_c") write
          ≡ err (share_not_found (codes "bbsh_r") (codes "thr_c")))
        ↔ ((lookup (codes "bbsh_r") store ≢ none)
            × (grants store (codes "bbsh_r") (codes "thr_c") ≡ none)))
share_call_errors_example = share_call_errors 12 store (codes "bbsh_r") gamma none

find_by_raw_token_sound_case :
    (lookup (codes "bbsh_w") store ≡ some writer) × (writer.hash ≡ tag (codes "raw_w"))
unfolding store_run
find_by_raw_token_sound_case =
    find_by_raw_token_sound tag store (codes "raw_w") {t = writer} store-IsValid refl

abbrev minted : Token
minted = fresh_token tag (codes "bbsh_n") (codes "calm") 20 (codes "raw_n")

mint_token-find_example :
    find_by_raw_token tag (store ++ (codes "bbsh_n", minted) ∷ []) (codes "raw_n") ≡ some minted
unfolding store_run
mint_token-find_example =
    mint_token-find tag 20 store (some (codes "calm")) none draws
      (record { token = minted; raw_token = codes "raw_n" })
      (store ++ (codes "bbsh_n", minted) ∷ [])
      (same-false reader.hash minted.hash refl, (same-false writer.hash minted.hash refl, tt)) refl

abbrev left : Tokens
left = (codes "bbsh_w", writer) ∷ []

left-IsValid : IsValid left
unfolding store_run
left-IsValid = record { distinct = (refl, tt); sound = ((refl, (refl, (refl, tt))), tt) }

-- Of the stored tokens only the reader has the reader's hash.
only_reader :
    (u : Token) → lookup u.id store ≡ some u → u.hash ≡ tag (codes "raw_r") → u.id ≡ codes "bbsh_r"
unfolding store_run
only_reader u found hashed =
    ground (arith, same_iff (codes "bbsh_r") u.id, same_iff (codes "bbsh_w") u.id)

delete_token-find_example : find_by_raw_token tag left (codes "raw_r") ≡ none
unfolding store_run
delete_token-find_example =
    delete_token-find tag store (codes "raw_r") reader left store-IsValid left-IsValid refl
      only_reader refl
