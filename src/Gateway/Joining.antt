-- ===== src/Gateway/Joining.antt =====
-- Which requests to plugin/guest-gateway/index.ts change the sessions.
use bb_shared.Base.{
  ltb, length, ◌≡◌, refl, sym, subst, ◌⊎◌, inl, inr, true, ◌&&◌, List, [], ◌∷◌, ◌++◌, filter,
  Option, none, some, Text, text_eq, codes, same, same_iff, lookup, arith, Bool-cases,
}
use bb_shared.TokenStore.{Token}
use bb_shared.Sessions.{
  Rows, Redeemed, refused, redeemed, limit_reached, not_stored, cookie_id, resolve, redeem,
}
use bb_shared.Authz.{AuthzResult, compute_authz}
use bb_shared.Responses.{FilterMatch, reshape, constant, match_response_filter}
use bb_shared.ShareState.{is_prefixed}
use bb_shared.Gateway.{
  probe, first_of, Request, Runtime, World, Outcome, joined, request_url, proxy, visit, join,
  redeem_link, handle_url, handle_target, handle, send_message,
}
use bb_shared.Gateway.Messages.{Message, accepted, turned_away, guest_message}
use bb_shared.Gateway.Requests.{Url, has_param, all_params, delete_param}

-- A redemption of the one token of a link, by GET, that the sessions stored.
pub record IsJoin (rt : Runtime) (w : World) (req : Request) (rows : Rows) (url : Url)
    (out : Outcome) : Type 0 where
  pub raw : Text
  pub id : Text
  pub one : all_params (codes "token") url.params ≡ raw ∷ []
  pub by_get : req.method ≡ codes "GET"
  pub formed : is_prefixed 43 raw ≡ true
  pub stored :
      redeem w.json_size w.hash_token w.now w.tokens rows raw
        (cookie_id (lookup (codes "cookie") req.headers))
        w.fresh
        w.stored
      ≡ redeemed id out.rows
  pub told :
      out.answer
      ≡ joined (url.pathname ++ rt.print_search (delete_param (codes "token") url.params)) id

-- The sessions are as they were, or changed by a join.
abbrev pub Changes : Runtime → World → Request → Rows → Url → Outcome → Type 0
Changes rt w req rows url out = (out.rows ≡ rows) ⊎ IsJoin rt w req rows url out

module _ (rt : Runtime) (w : World) (req : Request) (url : Url) (rows : Rows) where
  send_message-rows :
      (token : Token) (decision : AuthzResult) (filter : Option FilterMatch) (m : Message)
      → (send_message rt w req url rows token decision filter m).rows ≡ rows
  send_message-rows token decision filter (accepted body) = refl
  send_message-rows token decision filter (turned_away status error) = refl

  proxy-rows :
      (token : Token) (decision : AuthzResult) (filter : Option FilterMatch)
      → (proxy rt w req url rows token decision filter).rows ≡ rows
  proxy-rows token decision (some (constant v)) = refl
  proxy-rows token decision (some (reshape f)) = ground (
    arith,
    send_message-rows token decision (some (reshape f))
        (guest_message rt.from_utf8 rt.parse_json req.chunks),
  )
  proxy-rows token decision none = ground (
    arith,
    send_message-rows token decision none (guest_message rt.from_utf8 rt.parse_json req.chunks),
  )

  visit-rows : (o : Option Token) → (visit rt w req url rows o).rows ≡ rows
  visit-rows none = refl
  visit-rows (some token) = ground (
    arith,
    proxy-rows token (compute_authz (some token) url.pathname req.method)
        (match_response_filter (codes "GET") url.pathname),
  )

  join-Changes :
      (raw : Text) (r : Redeemed)
      → all_params (codes "token") url.params ≡ raw ∷ []
      → req.method ≡ codes "GET"
      → is_prefixed 43 raw ≡ true
      → redeem w.json_size w.hash_token w.now w.tokens rows raw
          (cookie_id (lookup (codes "cookie") req.headers))
          w.fresh
          w.stored
        ≡ r
      → Changes rt w req rows url (join rt w url rows r)
  join-Changes raw refused one get formed e = inl refl
  join-Changes raw limit_reached one get formed e = inl refl
  join-Changes raw not_stored one get formed e = inl refl
  join-Changes raw (redeemed id after) one get formed e = inr (record {
    raw = raw;
    id = id;
    one = one;
    by_get = get;
    formed = formed;
    stored = e;
    told = refl;
  })

  redeem_link-Changes :
      (raws : List Text)
      → all_params (codes "token") url.params ≡ raws
      → Changes rt w req rows url (redeem_link rt w req url rows raws)
  redeem_link-Changes [] e = inl refl
  redeem_link-Changes (raw ∷ more ∷ raws) e = inl refl
  redeem_link-Changes (raw ∷ []) e = elim (Bool-cases (same req.method (codes "GET"))) [
    | inr other ↦ rw other (inl refl)
    | inl get ↦ elim (Bool-cases (is_prefixed 43 raw)) [
      | inr odd ↦ rw (get, odd) (inl refl)
      | inl formed ↦
          rw (get, formed)
            (join-Changes raw
              (redeem w.json_size w.hash_token w.now w.tokens rows raw
                (cookie_id (lookup (codes "cookie") req.headers)) w.fresh w.stored)
              e ((same_iff req.method (codes "GET")).0 get) formed refl)
    ]
  ]

  probe-rows : (challenge : Text) → (probe rt w challenge rows).rows ≡ rows
  probe-rows challenge = elim (Bool-cases (ltb 256 (length challenge))) [
    | inl long ↦ rw long refl
    | inr short ↦ rw short refl
  ]

  handle_url-Changes : Changes rt w req rows url (handle_url rt w req rows url)
  unfolding handle_url
  handle_url-Changes =
      elim (Bool-cases
        (same url.pathname (codes "/__bb_shared/ready") && same req.method (codes "GET"))) [
          | inl ready ↦
              rw ready
                (inl (probe-rows (first_of rt w (all_params (codes "challenge") url.params))))
          | inr other ↦ elim (Bool-cases (has_param (codes "token") url.params)) [
            | inl link ↦
                rw (other, link) (redeem_link-Changes (all_params (codes "token") url.params) refl)
            | inr plain ↦
                rw (other, plain)
                  (inl (
                    visit-rows (
                      resolve w.now w.tokens rows
                        (cookie_id (lookup (codes "cookie") req.headers)))))
          ]
        ]

-- The sessions change only by a GET of a link with one token, of the right form, that is redeemed and
-- stored; the guest is then sent on to the link without its token, with the id of the session.
pub handle-Changes :
    (rt : Runtime) (w : World) (req : Request) (rows : Rows) (url : Url)
    → request_url rt req.target ≡ some url
    → Changes rt w req rows url (handle rt w req rows)
unfolding handle
handle-Changes rt w req rows url parsed =
    subst (λ t. Changes rt w req rows url (handle_target rt w req rows t)) (sym parsed)
      (handle_url-Changes rt w req url rows)
