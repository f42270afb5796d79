-- ===== src/Gateway.antt =====
-- plugin/guest-gateway/index.ts: the HTTP handler between the guests and the local BB server.
-- One call runs on the store and the sessions as they stand. The runtime's URLs, JSON, UTF-8 and HMAC
-- are a record of functions; what BB answers, the clock, the fresh session id and whether the
-- sessions can be written are arguments. An exception ends in the catch of `createServer`.
pub mod Calls
pub mod Messages
pub mod Requests
pub mod Readiness
pub mod Relayed
pub mod Answers
pub mod Joining
pub mod Safety
pub mod Texts
pub mod Bridge
unfoldable pub use Calls.{request_url, picked, picked_filled}
pub use Calls.{
  Request, Location, Runtime, Upstream, Fetched, Content, empty, shimmed, streamed, Answer,
  json_answer, joined, relayed, Outcome, World, refusal, unavailable, upstream_headers,
  relayed_headers, is_plain_read, is_cross_site, version_request, content_type, kept_params,
  read_thread_ids, is_ok, or_unavailable,
}
use bb_shared.Base.{
  ℕ, ◌+◌, ◌*◌, Bool, true, false, ◌&&◌, ◌||◌, not, List, [], ◌∷◌, ◌++◌, map, any, filter, Option,
  none, some, Text, text_eq, codes, same, is_one_of, is_some, starts_with, split, drop, length,
  Dict, lookup, if◌then◌else◌, ltb, leb, ◌==◌,
}
use bb_shared.Base.Json.{Json, num, str, obj, arr, nil, field, end}
use bb_shared.TokenStore.{Perm, read, write, Token, Tokens, or_else}
use bb_shared.Sessions.{
  Session, Rows, Redeemed, refused, limit_reached, not_stored, redeemed, cookie_id, resolve, redeem,
}
use bb_shared.Authz.{AuthzPerm, AuthzResult, compute_authz}
use bb_shared.Frames.{GuestScope, scope_of}
use bb_shared.Responses.{FilterMatch, reshape, constant, match_response_filter, trim_slashes}
use bb_shared.ShareState.{is_prefixed}
use Messages.{Bytes, Message, accepted, turned_away, guest_message}
use Requests.{
  Url, Params, has_param, all_params, delete_param, is_valid_target, is_thread_page,
  is_provider_page, is_json_type, is_html, contains,
}

module _ (rt : Runtime) (w : World) where
  abbrev pub passed : List AuthzPerm → Dict Text Text → Fetched → Answer
  passed perms headers f =
      if is_ok f.status && is_html (content_type f.headers)
      then or_unavailable f.html
          (λ html. relayed f.status headers (shimmed (read_thread_ids perms) html))
      else relayed f.status headers (streamed f.chunks)

  -- The answer of BB as JSON, where a filter reshapes it.
  abbrev pub projected :
      Token → List AuthzPerm → Dict Text Text → Fetched → Option FilterMatch → Answer
  projected token perms headers f (some (reshape p)) =
      if not (is_ok f.status)
      then passed perms headers f
      else if not (contains (codes "application/json") (content_type f.headers))
      then refusal 502 (codes "Unexpected BB response")
      else or_unavailable f.json (λ v. json_answer f.status (p v (scope_of token)))
  projected token perms headers f _ = passed perms headers f

  -- The answer once its redirect is known to stay.
  abbrev pub relay :
      Text → Token → List AuthzPerm → Dict Text Text → Fetched → Option FilterMatch → Answer
  relay method token perms headers f filter =
      if same method (codes "HEAD") || not f.has_body
      then relayed f.status headers empty
      else projected token perms headers f filter

  -- With the redirect of BB, which must stay on it.
  abbrev pub relocated :
      Text
      → Token
      → List AuthzPerm
      → Dict Text Text
      → Fetched
      → Option FilterMatch
      → Location
      → Answer
  relocated method token perms headers f filter l =
      if l.is_own
      then relay method token perms (headers ++ (codes "location", l.path) ∷ []) f filter
      else refusal 502 (codes "Unexpected upstream redirect")

  unfoldable pub relay_response :
      Text → Token → List AuthzPerm → Option FilterMatch → Fetched → Answer
  relay_response method token perms filter f =
      let headers = picked_filled relayed_headers f.headers in
      let location = or_else (lookup (codes "location") f.headers) [] in
      if same location []
      then relay method token perms headers f filter
      else or_unavailable (rt.locate location) (relocated method token perms headers f filter)

  abbrev pub stay : Rows → Answer → Outcome
  stay rows answer = record { answer = answer; rows = rows; sent = none }

  -- `fetch(url, init)` and what follows.
  abbrev pub send :
      Request → Url → Rows → Token → AuthzResult → Option FilterMatch → Option Json → Outcome
  send req url rows token decision filter body =
      let upstream : Upstream = record {
        method = req.method;
        pathname = url.pathname;
        params = kept_params url;
        headers = upstream_headers rt req.headers;
        body = body;
      } in
      record {
        answer =
            or_unavailable (w.fetch upstream)
              (relay_response req.method token decision.perms filter);
        rows = rows;
        sent = some upstream;
      }

  abbrev pub send_message :
      Request → Url → Rows → Token → AuthzResult → Option FilterMatch → Message → Outcome
  send_message req url rows token decision filter (turned_away status error) =
      stay rows (refusal status error)
  send_message req url rows token decision filter (accepted body) =
      send req url rows token decision filter (some body)

  abbrev pub proxy : Request → Url → Rows → Token → AuthzResult → Option FilterMatch → Outcome
  proxy req url rows token decision (some (constant v)) = stay rows (json_answer 200 v)
  proxy req url rows token decision filter =
      if is_plain_read req.method
      then send req url rows token decision filter none
      else send_message req url rows token decision filter
          (guest_message rt.from_utf8 rt.parse_json req.chunks)

  abbrev pub authorized : Request → Url → Rows → Token → AuthzResult → Outcome
  authorized req url rows token decision =
      if not decision.allowed
      then stay rows (refusal 403 (codes "This invitation does not permit that request"))
      else proxy req url rows token decision (match_response_filter (codes "GET") url.pathname)

  abbrev pub visit : Request → Url → Rows → Option Token → Outcome
  visit req url rows none =
      stay rows (refusal 401 (codes "Open a valid invitation to view shared threads"))
  visit req url rows (some token) =
      if not (is_plain_read req.method) && is_cross_site req.headers
      then stay rows (refusal 403 (codes "Cross-origin writes are not permitted"))
      else if not (is_plain_read req.method) && not (is_json_type (content_type req.headers))
      then stay rows (refusal 415 (codes "Guest messages require JSON"))
      else authorized req url rows token (compute_authz (some token) url.pathname req.method)

  abbrev pub join : Url → Rows → Redeemed → Outcome
  join url rows refused = stay rows (refusal 401 (codes "Invalid or revoked invitation"))
  join url rows (redeemed id after) =
      stay after
        (joined (url.pathname ++ rt.print_search (delete_param (codes "token") url.params)) id)
  join url rows _ = stay rows unavailable

  abbrev pub redeem_link : Request → Url → Rows → List Text → Outcome
  redeem_link req url rows (raw ∷ []) =
      if not (same req.method (codes "GET"))
      then stay rows (refusal 400 (codes "Invalid invitation redemption"))
      else if not (is_prefixed 43 raw)
      then stay rows (refusal 401 (codes "Invalid invitation"))
      else join url rows (
          redeem w.json_size w.hash_token w.now w.tokens rows raw
            (cookie_id (lookup (codes "cookie") req.headers)) w.fresh w.stored)
  redeem_link req url rows _ = stay rows (refusal 400 (codes "Invalid invitation redemption"))

  abbrev pub ready_body : Text → Json
  ready_body challenge = obj (
      field (codes "service") (str (codes "bb-shared-gateway")) (
        field (codes "version") (num (codes "1")) (
          field (codes "challenge") (str challenge)
            (field (codes "proof") (str (rt.proof challenge)) end))))

  abbrev pub probed : Text → Fetched → Answer
  probed challenge f =
      if is_ok f.status
      then json_answer 200 (ready_body challenge)
      else refusal 503 (codes "BB unavailable")

  abbrev pub probe : Text → Rows → Outcome
  probe challenge rows =
      if ltb 256 (length challenge)
      then stay rows (refusal 400 (codes "Invalid challenge"))
      else record {
        answer = or_unavailable (w.fetch version_request) (probed challenge);
        rows = rows;
        sent = some version_request;
      }

  abbrev pub first_of : List Text → Text
  first_of [] = []
  first_of (v ∷ vs) = v

  -- The handler once the target is parsed.
  unfoldable pub handle_url : Request → Rows → Url → Outcome
  handle_url req rows url =
      if same url.pathname (codes "/__bb_shared/ready") && same req.method (codes "GET")
      then probe (first_of (all_params (codes "challenge") url.params)) rows
      else if has_param (codes "token") url.params
      then redeem_link req url rows (all_params (codes "token") url.params)
      else visit req url rows
          (resolve w.now w.tokens rows (cookie_id (lookup (codes "cookie") req.headers)))

  abbrev pub handle_target : Request → Rows → Option Url → Outcome
  handle_target req rows none = stay rows (refusal 400 (codes "Invalid request target"))
  handle_target req rows (some url) = handle_url req rows url

  unfoldable pub handle : Request → Rows → Outcome
  handle req rows = handle_target req rows (request_url rt req.target)
