-- ===== src/Gateway/Answers.antt =====
-- What a guest gets from plugin/guest-gateway/index.ts where responses.ts has a filter.
use bb_shared.Base.{
  ℕ, ◌≡◌, refl, sym, subst, ◌∙◌, inl, inr, true, false, ◌&&◌, not, List, [], ◌∷◌, Option, none,
  some, Text, text_eq, codes, same, same_iff, lookup, arith, Bool-cases, if◌then◌else◌, split,
  starts_with, drop_end,
}
use bb_shared.Base.Json.{Json}
use bb_shared.TokenStore.{Token}
use bb_shared.Sessions.{
  Rows, Redeemed, refused, redeemed, limit_reached, not_stored, redeem, cookie_id, resolve,
}
use bb_shared.Authz.{AuthzResult, compute_authz}
use bb_shared.Frames.{GuestScope, scope_of}
use bb_shared.Responses.{
  reshape, match_path, match_response_filter, filter_sidebar_bootstrap, trim_slashes,
}
use bb_shared.Responses.Sidebar.{IsScopedSidebar, filter_sidebar_bootstrap-IsScopedSidebar}
use bb_shared.Gateway.{
  Request, Runtime, World, Answer, json_answer, joined, relayed, refusal, is_ok, request_url,
  is_plain_read, is_cross_site, content_type, send, send_message, stay, proxy, authorized, visit,
  join, redeem_link, handle_url, handle_target, handle,
}
use bb_shared.ShareState.{is_prefixed}
use bb_shared.Gateway.Messages.{guest_message}
use bb_shared.Gateway.Requests.{Url, has_param, all_params, is_json_type}
use bb_shared.Gateway.Relayed.{
  IsCovered, refusal-IsCovered, branch-IsCovered, send-IsCovered, send_message-IsCovered,
}

module _ (p : Json → GuestScope → Json) (rt : Runtime) (w : World) (token : Token) where
  proxy-IsCovered :
      (req : Request) (url : Url) (rows : Rows) (decision : AuthzResult)
      → IsCovered p (some token) (proxy rt w req url rows token decision (some (reshape p))).answer
  proxy-IsCovered req url rows decision =
      branch-IsCovered p (some token) (is_plain_read req.method)
        (send rt w req url rows token decision (some (reshape p)) none)
        (send_message rt w req url rows token decision (some (reshape p))
          (guest_message rt.from_utf8 rt.parse_json req.chunks))
        (send-IsCovered p rt w token req url rows decision none)
        (send_message-IsCovered p rt w token req url rows decision
          (guest_message rt.from_utf8 rt.parse_json req.chunks) refl)

  authorized-IsCovered :
      (req : Request) (url : Url) (rows : Rows) (decision : AuthzResult)
      → match_response_filter (codes "GET") url.pathname ≡ some (reshape p)
      → IsCovered p (some token) (authorized rt w req url rows token decision).answer
  authorized-IsCovered req url rows decision m =
      branch-IsCovered p (some token) (not decision.allowed)
        (stay rt w rows (refusal 403 (codes "This invitation does not permit that request")))
        (proxy rt w req url rows token decision (match_response_filter (codes "GET") url.pathname))
        (refusal-IsCovered p (some token) 403 (codes "This invitation does not permit that request")
          refl)
        (rw m (proxy-IsCovered req url rows decision))

module _ (p : Json → GuestScope → Json) (rt : Runtime) (w : World) where
  visit-IsCovered :
      (req : Request) (url : Url) (rows : Rows) (o : Option Token)
      → match_response_filter (codes "GET") url.pathname ≡ some (reshape p)
      → IsCovered p o (visit rt w req url rows o).answer
  visit-IsCovered req url rows none m =
      refusal-IsCovered p none 401 (codes "Open a valid invitation to view shared threads") refl
  visit-IsCovered req url rows (some token) m =
      let allowed =
        authorized rt w req url rows token (compute_authz (some token) url.pathname req.method) in
      let typed = not (is_plain_read req.method) && not (is_json_type (content_type req.headers)) in
      let untyped = stay rt w rows (refusal 415 (codes "Guest messages require JSON")) in
      branch-IsCovered p (some token) (not (is_plain_read req.method) && is_cross_site req.headers)
        (stay rt w rows (refusal 403 (codes "Cross-origin writes are not permitted")))
        (if typed then untyped else allowed)
        (refusal-IsCovered p (some token) 403 (codes "Cross-origin writes are not permitted") refl)
        (branch-IsCovered p (some token) typed untyped allowed
          (refusal-IsCovered p (some token) 415 (codes "Guest messages require JSON") refl)
          (authorized-IsCovered p rt w token req url rows
            (compute_authz (some token) url.pathname req.method) m))

  join-IsCovered :
      (url : Url) (rows : Rows) (o : Option Token) (r : Redeemed)
      → IsCovered p o (join rt w url rows r).answer
  unfolding IsCovered
  join-IsCovered url rows o refused = inl refl
  join-IsCovered url rows o (redeemed id after) = tt
  join-IsCovered url rows o limit_reached = inl refl
  join-IsCovered url rows o not_stored = inl refl

  redeem_link-IsCovered :
      (req : Request) (url : Url) (rows : Rows) (o : Option Token) (raws : List Text)
      → IsCovered p o (redeem_link rt w req url rows raws).answer
  redeem_link-IsCovered req url rows o (raw ∷ []) =
      let r =
        redeem w.json_size w.hash_token w.now w.tokens rows raw
          (cookie_id (lookup (codes "cookie") req.headers)) w.fresh w.stored in
      let invalid = stay rt w rows (refusal 401 (codes "Invalid invitation")) in
      branch-IsCovered p o (not (same req.method (codes "GET")))
        (stay rt w rows (refusal 400 (codes "Invalid invitation redemption")))
        (if not (is_prefixed 43 raw) then invalid else join rt w url rows r)
        (refusal-IsCovered p o 400 (codes "Invalid invitation redemption") refl)
        (branch-IsCovered p o (not (is_prefixed 43 raw)) invalid (join rt w url rows r)
          (refusal-IsCovered p o 401 (codes "Invalid invitation") refl)
          (join-IsCovered url rows o r))
  redeem_link-IsCovered req url rows o [] =
      refusal-IsCovered p o 400 (codes "Invalid invitation redemption") refl
  redeem_link-IsCovered req url rows o (raw ∷ more ∷ raws) =
      refusal-IsCovered p o 400 (codes "Invalid invitation redemption") refl

  -- The page of the readiness probe has no filter.
  not_ready :
      (pathname : Text)
      → match_response_filter (codes "GET") pathname ≡ some (reshape p)
      → same pathname (codes "/__bb_shared/ready") ≡ false
  unfolding match_response_filter match_path split starts_with drop_end same
  not_ready pathname m = elim (Bool-cases (same pathname (codes "/__bb_shared/ready"))) [
    | inl e ↦
        let ready : pathname ≡ codes "/__bb_shared/ready" =
          (same_iff pathname (codes "/__bb_shared/ready")).0 e in
        absurd (
          subst (λ x. match_response_filter (codes "GET") x ≡ some (reshape p) → ⊥) (sym ready)
            (λ q. cc) m)
    | inr e ↦ e
  ]

  handle_url-IsCovered :
      (req : Request) (rows : Rows) (url : Url)
      → match_response_filter (codes "GET") url.pathname ≡ some (reshape p)
      → IsCovered p
          (resolve w.now w.tokens rows (cookie_id (lookup (codes "cookie") req.headers)))
          (handle_url rt w req rows url).answer
  unfolding handle_url
  handle_url-IsCovered req rows url m =
      let o = resolve w.now w.tokens rows (cookie_id (lookup (codes "cookie") req.headers)) in
      let raws = all_params (codes "token") url.params in
      rw (not_ready url.pathname m) (
        branch-IsCovered p o (has_param (codes "token") url.params)
          (redeem_link rt w req url rows raws) (visit rt w req url rows o)
          (redeem_link-IsCovered req url rows o raws) (visit-IsCovered req url rows o m))

-- On a path whose answer is reshaped, a JSON answer of success is the projection, in the scope of the live
-- session, of some JSON, and what is relayed as it came has an error's status or no content.
pub handle-IsCovered :
    (p : Json → GuestScope → Json) (rt : Runtime) (w : World) (req : Request) (rows : Rows)
    (url : Url)
    → request_url rt req.target ≡ some url
    → match_response_filter (codes "GET") url.pathname ≡ some (reshape p)
    → IsCovered p
        (resolve w.now w.tokens rows (cookie_id (lookup (codes "cookie") req.headers)))
        (handle rt w req rows).answer
unfolding handle
handle-IsCovered p rt w req rows url parsed m =
    let o = resolve w.now w.tokens rows (cookie_id (lookup (codes "cookie") req.headers)) in
    subst (λ t. IsCovered p o (handle_target rt w req rows t).answer) (sym parsed)
      (handle_url-IsCovered p rt w req rows url m)

successful_projection :
    (p : Json → GuestScope → Json) (o : Option Token) (a : Answer) (status : ℕ) (body : Json)
    → a ≡ json_answer status body
    → is_ok status ≡ true
    → IsCovered p o a
    → (token : Token) × (o ≡ some token) × ((v : Json) × (body ≡ p v (scope_of token)))
unfolding IsCovered
successful_projection p o (json_answer status' body') status body e ok (inl bad) =
    absurd (ground (arith, e))
successful_projection p o (json_answer status' body') status body e ok (inr (token, r, (v, q))) =
    let kept : body' ≡ body = ground arith in (token, r, (v, sym kept ∙ q))
successful_projection p o (joined location id) status body e ok h = absurd cc
successful_projection p o (relayed status' headers content) status body e ok h = absurd cc

-- A guest who gets the sidebar has a live session, and whatever BB answered: the sidebar has the fields `sections`,
-- `projects` and `personalProject` only; its projects are in the scope of the session, with threads in
-- scope only; its sections are those of these threads; and its personal project is the stub's or one in
-- scope, with threads in scope only.
pub handle-sidebar :
    (rt : Runtime) (w : World) (req : Request) (rows : Rows) (url : Url) (status : ℕ) (body : Json)
    → request_url rt req.target ≡ some url
    → trim_slashes url.pathname ≡ codes "/api/v1/sidebar-bootstrap"
    → (handle rt w req rows).answer ≡ json_answer status body
    → is_ok status ≡ true
    → (token : Token) × (resolve w.now w.tokens rows
          (cookie_id (lookup (codes "cookie") req.headers))
        ≡ some token)
      × IsScopedSidebar (scope_of token) body
unfolding match_response_filter match_path same
handle-sidebar rt w req rows url status body parsed path e ok =
    let m : match_response_filter (codes "GET") url.pathname
        ≡ some (reshape filter_sidebar_bootstrap) =
      rw path refl in
    let (token, r, (v, q)) =
      successful_projection filter_sidebar_bootstrap
        (resolve w.now w.tokens rows (cookie_id (lookup (codes "cookie") req.headers)))
        (handle rt w req rows).answer status body e ok
        (handle-IsCovered filter_sidebar_bootstrap rt w req rows url parsed m) in
    (
      token,
      r,
      subst (IsScopedSidebar (scope_of token)) (sym q)
          (filter_sidebar_bootstrap-IsScopedSidebar v (scope_of token)),
    )
