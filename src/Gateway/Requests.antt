-- ===== src/Gateway/Requests.antt =====
-- The tests on a request of plugin/guest-gateway/index.ts: targets, parameters and content types.
use bb_shared.Base.{
  ℕ, Bool, true, false, ◌&&◌, ◌||◌, not, List, [], ◌∷◌, map, any, filter, Text, codes, same,
  is_one_of, starts_with, split, drop, fold_case, leb, ◌==◌,
}

abbrev pub Params : Type 0
Params = List (Text × Text)

pub record Url : Type 0 where
  pub pathname : Text
  pub params : Params

-- `URLSearchParams`.
abbrev pub has_param : Text → Params → Bool
has_param name params = any (λ p. same p.0 name) params

abbrev pub all_params : Text → Params → List Text
all_params name params = map (λ p. p.1) (filter (λ p. same p.0 name) params)

abbrev pub delete_param : Text → Params → Params
delete_param name params = filter (λ p. not (same p.0 name)) params

-- `s.includes(part)`.
unfoldable pub contains : Text → Text → Bool
contains part [] = starts_with [] part
contains part (c ∷ s) = starts_with (c ∷ s) part || contains part s

-- `/[\\\x00-\x20]/`.
abbrev is_refused_unit : ℕ → Bool
is_refused_unit c = leb c 0x20 || c == b'\\'

abbrev pub is_escape : Text → Bool
is_escape (c ∷ a ∷ b ∷ s) =
    c == b'%'
    && is_one_of (fold_case a ∷ fold_case b ∷ [])
        (codes "2f" ∷ codes "5c" ∷ codes "2e" ∷ codes "00" ∷ [])
is_escape _ = false

-- `/%(?:2f|5c|2e|00)/i`.
unfoldable pub has_escape : Text → Bool
has_escape [] = false
has_escape (c ∷ s) = is_escape (c ∷ s) || has_escape s

unfoldable pub is_valid_target : Text → Bool
is_valid_target raw =
    starts_with raw (codes "/")
    && not (starts_with raw (codes "//"))
    && not (any is_refused_unit raw)
    && not (has_escape raw)

-- `/^application\/json(?:;|$)/i`.
unfoldable pub is_json_type : Text → Bool
is_json_type s =
    let folded = map fold_case s in
    same folded (codes "application/json") || starts_with folded (codes "application/json;")

abbrev is_word : ℕ → Bool
is_word c =
    (leb b'a' c && leb c b'z')
    || (leb b'A' c && leb c b'Z')
    || (leb b'0' c && leb c b'9')
    || c == b'_'

abbrev starts_word : Text → Bool
starts_word [] = false
starts_word (c ∷ s) = is_word c

-- `/^text\/html\b/i`.
unfoldable pub is_html : Text → Bool
is_html s = starts_with (map fold_case s) (codes "text/html") && not (starts_word (drop 9 s))

abbrev is_last : List Text → Bool
is_last [] = true
is_last ([] ∷ []) = true
is_last _ = false

abbrev is_thread_segments : List Text → Bool
is_thread_segments (a ∷ b ∷ c ∷ d ∷ e ∷ more) =
    same a []
    && (same b (codes "api")
        && (same c (codes "v1") && (same d (codes "threads") && not (same e []))))
    && is_last more
is_thread_segments _ = false

-- `/^\/api\/v1\/threads\/[^/]+\/?$/`.
unfoldable pub is_thread_page : Text → Bool
is_thread_page pathname = is_thread_segments (split b'/' pathname)

abbrev pub is_provider_page : Text → Bool
is_provider_page pathname =
    is_one_of pathname
      (codes "/api/v1/system/providers" ∷ codes "/api/v1/system/execution-options" ∷ [])
