-- ===== src/Gateway/Calls.antt =====
-- A call of the handler of plugin/guest-gateway/index.ts: the request, the runtime and the world, what goes
-- on to BB, and what the guest gets.
use bb_shared.Base.{
  ℕ, Bool, false, ◌&&◌, ◌||◌, not, List, [], ◌∷◌, ◌++◌, Option, none, some, Text, text_eq, codes,
  same, is_one_of, Dict, lookup, if◌then◌else◌, leb,
}
use bb_shared.Base.Json.{Json, str, obj, field, end}
use bb_shared.TokenStore.{read, write, Tokens, or_else}
use bb_shared.Sessions.{Session, Rows}
use bb_shared.Authz.{AuthzPerm}
use bb_shared.Responses.{trim_slashes}
use bb_shared.Gateway.Messages.{Bytes}
use bb_shared.Gateway.Requests.{
  Url, Params, delete_param, is_valid_target, is_thread_page, is_provider_page,
}

-- A request, with the headers by their lower-case names.
pub record Request : Type 0 where
  pub target : Text
  pub method : Text
  pub headers : Dict Text Text
  pub chunks : List Bytes

-- What a redirect of BB leads to.
pub record Location : Type 0 where
  pub is_own : Bool
  pub path : Text

-- The runtime. `parse_url` and `locate` give `none` where `new URL` throws.
pub record Runtime : Type 0 where
  pub parse_url : Text → Option Url
  pub print_search : Params → Text
  pub locate : Text → Option Location
  pub from_utf8 : Bytes → Text
  pub parse_json : Text → Option Json
  pub proof : Text → Text
  pub origin : Text

-- The request that BB gets, and its answer; `none` for a body that cannot be read as it is used.
pub record Upstream : Type 0 where
  pub method : Text
  pub pathname : Text
  pub params : Params
  pub headers : Dict Text Text
  pub body : Option Json

pub record Fetched : Type 0 where
  pub status : ℕ
  pub headers : Dict Text Text
  pub has_body : Bool
  pub json : Option Json
  pub html : Option Text
  pub chunks : List Bytes

pub data Content : Type 0 where
  empty : Content
  shimmed : (read_threads : List Text) (html : Text) → Content
  streamed : (chunks : List Bytes) → Content

-- What the guest gets. Headers that forbid storing and sniffing are left out.
pub data Answer : Type 0 where
  json_answer : (status : ℕ) (body : Json) → Answer
  joined : (location id : Text) → Answer
  relayed : (status : ℕ) (headers : Dict Text Text) (content : Content) → Answer

pub record Outcome : Type 0 where
  pub answer : Answer
  pub rows : Rows
  pub sent : Option Upstream

-- The world of one call.
pub record World : Type 0 where
  pub hash_token : Text → Text
  pub json_size : List Session → ℕ
  pub tokens : Tokens
  pub now : ℕ
  pub fresh : Text
  pub stored : Bool
  pub fetch : Upstream → Option Fetched

abbrev pub refusal : ℕ → Text → Answer
refusal status error = json_answer status (obj (field (codes "error") (str error) end))

abbrev pub unavailable : Answer
unavailable = refusal 502 (codes "Guest gateway unavailable")

unfoldable pub request_url : Runtime → Text → Option Url
request_url rt raw = if is_valid_target raw then rt.parse_url raw else none

-- The headers of the list that the request has.
unfoldable pub picked : List Text → Dict Text Text → Dict Text Text
picked [] headers = []
picked (name ∷ names) headers =
    let rest = picked names headers in
    elim (lookup name headers) [ none ↦ rest | some value ↦ (name, value) ∷ rest ]

-- The request by which a probe asks whether BB is there.
abbrev pub version_request : Upstream
version_request = record {
  method = codes "GET";
  pathname = codes "/api/v1/system/version";
  params = [];
  headers = [];
  body = none;
}

abbrev pub upstream_headers : Runtime → Dict Text Text → Dict Text Text
upstream_headers rt headers =
    picked (codes "accept" ∷ codes "content-type" ∷ codes "accept-language" ∷ codes "range" ∷ [])
      headers
    ++ (codes "origin", rt.origin) ∷ (codes "accept-encoding", codes "identity") ∷ []

-- The headers of the list that the answer has, and that are not empty.
unfoldable pub picked_filled : List Text → Dict Text Text → Dict Text Text
picked_filled [] headers = []
picked_filled (name ∷ names) headers =
    let rest = picked_filled names headers in
    elim (lookup name headers) [
      | none ↦ rest
      | some [] ↦ rest
      | some (c ∷ value) ↦ (name, c ∷ value) ∷ rest
    ]

abbrev pub relayed_headers : List Text
relayed_headers = codes "content-type" ∷ codes "content-range" ∷ codes "accept-ranges" ∷ []

-- `GET` and `HEAD`, as they are spelled.
abbrev pub is_plain_read : Text → Bool
is_plain_read method = is_one_of method (codes "GET" ∷ codes "HEAD" ∷ [])

abbrev pub differ : Option Text → Option Text → Bool
differ (some (c ∷ a)) (some (d ∷ b)) = not (same (c ∷ a) (d ∷ b))
differ _ _ = false

-- A write that another site may have made the browser send.
abbrev pub is_cross_site : Dict Text Text → Bool
is_cross_site headers =
    same (or_else (lookup (codes "sec-fetch-site") headers) []) (codes "cross-site")
    || differ (lookup (codes "origin") headers) (lookup (codes "x-bb-shared-public-origin") headers)

abbrev pub content_type : Dict Text Text → Text
content_type headers = or_else (lookup (codes "content-type") headers) []

-- The parameters that no guest may set.
abbrev pub kept_params : Url → Params
kept_params url =
    let params =
      if is_thread_page url.pathname
      then delete_param (codes "include") url.params
      else url.params in
    if is_provider_page (trim_slashes url.pathname)
    then delete_param (codes "environmentId") (delete_param (codes "hostId") params)
    else params

abbrev pub read_thread_ids : List AuthzPerm → List Text
read_thread_ids [] = []
read_thread_ids (p ∷ ps) =
    let rest = read_thread_ids ps in elim p.mode [ read ↦ p.thread_id ∷ rest | write ↦ rest ]

abbrev pub is_ok : ℕ → Bool
is_ok status = leb 200 status && leb status 299

abbrev pub or_unavailable {ℓ} : {A : Type ℓ} → Option A → (A → Answer) → Answer
or_unavailable none f = unavailable
or_unavailable (some a) f = f a
