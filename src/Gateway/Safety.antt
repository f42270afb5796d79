-- ===== src/Gateway/Safety.antt =====
-- What plugin/guest-gateway/index.ts lets through to BB.
use bb_shared.Base.{
  ◌&&◌, sym, same, same_iff, length, ltb, ◌≡◌, refl, ◌⊎◌, inl, inr, true, false, List, [], ◌∷◌,
  Option, none, some, Text, text_eq, codes, lookup, arith, Bool-cases, Option-cases, if◌then◌else◌,
}
use bb_shared.Base.Json.{Json}
use bb_shared.TokenStore.{Token}
use bb_shared.Sessions.{Rows, cookie_id, resolve}
use bb_shared.Authz.{AuthzResult, compute_authz}
use bb_shared.Authz.Path.{classify_path}
use bb_shared.Authz.Decision.{Permits, compute_authz_iff}
use bb_shared.Responses.{FilterMatch, reshape, constant, match_response_filter}
use bb_shared.Gateway.{
  Request, Runtime, World, Upstream, request_url, is_plain_read, is_cross_site, content_type, send,
  send_message, proxy, authorized, visit, probe, first_of, version_request, redeem_link, handle_url,
  handle,
}
use bb_shared.Gateway.Messages.{Message, accepted, turned_away, guest_message}
use bb_shared.Gateway.Requests.{Url, all_params, is_json_type}

-- A write that may reach BB, with a body that was rebuilt.
pub record IsCleanWrite (rt : Runtime) (req : Request) (u : Upstream) : Type 0 where
  pub body : Json
  pub read : guest_message rt.from_utf8 rt.parse_json req.chunks ≡ accepted body
  pub rebuilt : u.body ≡ some body

pub record IsForwarded (rt : Runtime) (req : Request) (url : Url) (u : Upstream) : Type 0 where
  pub method_kept : u.method ≡ req.method
  pub path_kept : u.pathname ≡ url.pathname
  pub content :
      ((is_plain_read req.method ≡ true) × (u.body ≡ none))
      ⊎ ((is_plain_read req.method ≡ false) × IsCleanWrite rt req u)

module _ (rt : Runtime) (w : World) (req : Request) (url : Url) (rows : Rows) (token : Token) where
  send_message-sent :
      (decision : AuthzResult) (filter : Option FilterMatch) (m : Message) (u : Upstream)
      → guest_message rt.from_utf8 rt.parse_json req.chunks ≡ m
      → is_plain_read req.method ≡ false
      → (send_message rt w req url rows token decision filter m).sent ≡ some u
      → IsForwarded rt req url u
  send_message-sent decision filter (turned_away status error) u m p e = absurd cc
  send_message-sent decision filter (accepted body) u m p e = record {
    method_kept = ground (arith, e);
    path_kept = ground (arith, e);
    content = inr (p, record { body = body; read = m; rebuilt = ground (arith, e) });
  }

  unfiltered-sent :
      (decision : AuthzResult) (filter : Option FilterMatch) (u : Upstream)
      → (if is_plain_read req.method
          then send rt w req url rows token decision filter none
          else send_message rt w req url rows token decision filter
              (guest_message rt.from_utf8 rt.parse_json req.chunks)).sent
        ≡ some u
      → IsForwarded rt req url u
  unfiltered-sent decision filter u e = elim (Bool-cases (is_plain_read req.method)) [
    | inl p ↦ record {
      method_kept = ground (arith, p);
      path_kept = ground (arith, p);
      content = inl (p, ground (arith, p));
    }
    | inr p ↦
        send_message-sent decision filter (guest_message rt.from_utf8 rt.parse_json req.chunks) u
          refl p (ground (arith, p))
  ]

  proxy-sent :
      (decision : AuthzResult) (filter : Option FilterMatch) (u : Upstream)
      → (proxy rt w req url rows token decision filter).sent ≡ some u
      → IsForwarded rt req url u
  proxy-sent decision (some (constant v)) u e = absurd cc
  proxy-sent decision (some (reshape f)) u e = unfiltered-sent decision (some (reshape f)) u e
  proxy-sent decision none u e = unfiltered-sent decision none u e

  authorized-sent :
      (decision : AuthzResult) (u : Upstream)
      → (authorized rt w req url rows token decision).sent ≡ some u
      → (decision.allowed ≡ true) × IsForwarded rt req url u
  authorized-sent decision u e = elim (Bool-cases decision.allowed) [
    | inl p ↦ (
      p,
      proxy-sent decision (match_response_filter (codes "GET") url.pathname) u (ground (arith, p)),
    )
    | inr p ↦ absurd (ground (arith, p))
  ]

-- What reaches BB, and for whom.
pub record IsLent (rt : Runtime) (w : World) (req : Request) (rows : Rows) (url : Url)
    (u : Upstream) : Type 0 where
  pub token : Token
  pub resolved :
      resolve w.now w.tokens rows (cookie_id (lookup (codes "cookie") req.headers)) ≡ some token
  pub permitted : Permits token req.method (classify_path url.pathname)
  pub no_cross_site :
      (is_plain_read req.method ≡ true)
      ⊎ ((is_cross_site req.headers ≡ false) × (is_json_type (content_type req.headers) ≡ true))
  pub forwarded : IsForwarded rt req url u

visit-sent :
    (rt : Runtime) (w : World) (req : Request) (url : Url) (rows : Rows) (o : Option Token)
    (u : Upstream)
    → resolve w.now w.tokens rows (cookie_id (lookup (codes "cookie") req.headers)) ≡ o
    → (visit rt w req url rows o).sent ≡ some u
    → IsLent rt w req rows url u
visit-sent rt w req url rows none u r e = absurd cc
visit-sent rt w req url rows (some token) u r e =
    let decision = compute_authz (some token) url.pathname req.method in
    let guards : (is_plain_read req.method ≡ true)
        ⊎ ((is_cross_site req.headers ≡ false) × (is_json_type (content_type req.headers) ≡ true)) =
      ground (arith, e) in
    let (allowed, forwarded) =
      authorized-sent rt w req url rows token decision u (ground (arith, e)) in
    record {
      token = token;
      resolved = r;
      permitted = (compute_authz_iff token url.pathname req.method).0 allowed;
      no_cross_site = guards;
      forwarded = forwarded;
    }

redeem_link-sent :
    (rt : Runtime) (w : World) (req : Request) (url : Url) (rows : Rows) (raws : List Text)
    → (redeem_link rt w req url rows raws).sent ≡ none
redeem_link-sent rt w req url rows [] = refl
redeem_link-sent rt w req url rows (raw ∷ []) = ground arith
redeem_link-sent rt w req url rows (raw ∷ more ∷ raws) = refl

-- The question of a probe whether BB is there; nothing of the request goes with it.
pub record IsProbe (req : Request) (url : Url) (u : Upstream) : Type 0 where
  pub asked : url.pathname ≡ codes "/__bb_shared/ready"
  pub method_asked : req.method ≡ codes "GET"
  pub fixed : u ≡ version_request

probe-sent :
    (rt : Runtime) (w : World) (challenge : Text) (rows : Rows) (u : Upstream)
    → (probe rt w challenge rows).sent ≡ some u
    → u ≡ version_request
probe-sent rt w challenge rows u e = elim (Bool-cases (ltb 256 (length challenge))) [
  | inl long ↦ absurd (ground (arith, long))
  | inr short ↦ let fixed : version_request ≡ u = ground (arith, short) in sym fixed
]

handle_url-sent :
    (rt : Runtime) (w : World) (req : Request) (rows : Rows) (url : Url) (u : Upstream)
    → (handle_url rt w req rows url).sent ≡ some u
    → IsProbe req url u ⊎ IsLent rt w req rows url u
unfolding handle_url
handle_url-sent rt w req rows url u e =
    elim (Bool-cases
      (same url.pathname (codes "/__bb_shared/ready") && same req.method (codes "GET"))) [
        | inl asked ↦ inl (record {
          asked = (same_iff url.pathname (codes "/__bb_shared/ready")).0 (ground (arith, asked));
          method_asked = (same_iff req.method (codes "GET")).0 (ground (arith, asked));
          fixed =
              probe-sent rt w (first_of rt w (all_params (codes "challenge") url.params)) rows u
                (rw asked at e);
        })
        | inr other ↦ inr (
            visit-sent rt w req url rows
              (resolve w.now w.tokens rows (cookie_id (lookup (codes "cookie") req.headers))) u refl
              (ground (
                arith,
                other,
                redeem_link-sent rt w req url rows (all_params (codes "token") url.params),
              )))
      ]

-- What reaches BB is one of two. It is the fixed request for BB's version, if the guest's is a GET of the readiness
-- page: anyone may send that. Or it was asked for by a browser session that is live, under grants that permit
-- the method on the path; its path and method are the guest's. A write is JSON, no header tells of another site,
-- and only the body that was rebuilt from it goes on; a read has no body.
pub handle-sent :
    (rt : Runtime) (w : World) (req : Request) (rows : Rows) (u : Upstream)
    → (handle rt w req rows).sent ≡ some u
    → (url : Url) × (request_url rt req.target ≡ some url)
      × (IsProbe req url u ⊎ IsLent rt w req rows url u)
unfolding handle
handle-sent rt w req rows u e = elim (Option-cases (request_url rt req.target)) [
  | inl bad ↦ absurd (ground (arith, bad))
  | inr (url, parsed) ↦ (url, parsed, handle_url-sent rt w req rows url u (ground (arith, parsed)))
]
