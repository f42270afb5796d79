-- ===== src/Gateway/Relayed.antt =====
-- What plugin/guest-gateway/index.ts relays of an answer of BB that responses.ts reshapes.
use bb_shared.Base.{
  ℕ, ◌≡◌, refl, ◌⊎◌, inl, inr, Bool, true, false, ◌||◌, not, List, [], ◌∷◌, ◌++◌, Option, none,
  some, Text, text_eq, codes, same, lookup, Dict, arith, Bool-cases, if◌then◌else◌,
}
use bb_shared.Base.Json.{Json}
use bb_shared.TokenStore.{Token, or_else}
use bb_shared.Sessions.{Rows}
use bb_shared.Authz.{AuthzPerm, AuthzResult}
use bb_shared.Frames.{GuestScope, scope_of}
use bb_shared.Responses.{reshape}
use bb_shared.Gateway.{
  Request, Runtime, World, Fetched, Outcome, Answer, json_answer, joined, relayed, Content, empty,
  streamed, refusal, or_unavailable, is_ok, content_type, projected, relay, relay_response,
  relocated, picked_filled, relayed_headers, kept_params, upstream_headers, Location, send,
  send_message,
}
use bb_shared.Gateway.Messages.{Bytes, read_message, Message, accepted, turned_away, guest_message}
use bb_shared.Gateway.Requests.{Url, contains}

-- A JSON answer is an error, or the projection of some JSON for the session; what is relayed as it is has
-- an error's status, or no content.
unfoldable pub IsCovered : (Json → GuestScope → Json) → Option Token → Answer → Type 0
IsCovered p o (json_answer status body) =
    (is_ok status ≡ false)
    ⊎ ((token : Token) × (o ≡ some token) × ((v : Json) × (body ≡ p v (scope_of token))))
IsCovered p o (relayed status headers content) = (is_ok status ≡ false) ⊎ (content ≡ empty)
IsCovered p o (joined location id) = Unit {0}

module _ (p : Json → GuestScope → Json) (o : Option Token) where
  if-IsCovered :
      (b : Bool) (x y : Answer)
      → IsCovered p o x
      → IsCovered p o y
      → IsCovered p o (if b then x else y)
  if-IsCovered true x y h k = h
  if-IsCovered false x y h k = k

  pub refusal-IsCovered :
      (status : ℕ) (error : Text) → is_ok status ≡ false → IsCovered p o (refusal status error)
  unfolding IsCovered
  refusal-IsCovered status error h = inl h

  or_unavailable-IsCovered {ℓ} :
      {A : Type ℓ} (a : Option A) (f : A → Answer)
      → ((v : A) → IsCovered p o (f v))
      → IsCovered p o (or_unavailable a f)
  or_unavailable-IsCovered none f h = refusal-IsCovered 502 (codes "Guest gateway unavailable") refl
  or_unavailable-IsCovered (some v) f h = h v

  pub branch-IsCovered :
      (b : Bool) (x y : Outcome)
      → IsCovered p o x.answer
      → IsCovered p o y.answer
      → IsCovered p o (if b then x else y).answer
  branch-IsCovered true x y h k = h
  branch-IsCovered false x y h k = k

module _ (p : Json → GuestScope → Json) (rt : Runtime) (w : World) (token : Token) where
  relayed-IsCovered :
      (status : ℕ) (headers : Dict Text Text) (content : Content)
      → (is_ok status ≡ false) ⊎ (content ≡ empty)
      → IsCovered p (some token) (relayed status headers content)
  unfolding IsCovered
  relayed-IsCovered status headers content h = h

  json-IsCovered :
      (status : ℕ) (v : Json) → IsCovered p (some token) (json_answer status (p v (scope_of token)))
  unfolding IsCovered
  json-IsCovered status v = inr (token, refl, (v, refl))

  projected-IsCovered :
      (perms : List AuthzPerm) (headers : Dict Text Text) (f : Fetched)
      → IsCovered p (some token) (projected rt w token perms headers f (some (reshape p)))
  projected-IsCovered perms headers f = elim (Bool-cases (is_ok f.status)) [
    | inl good ↦ rw good (
        if-IsCovered p (some token)
          (not (contains (codes "application/json") (content_type f.headers)))
          (refusal 502 (codes "Unexpected BB response"))
          (or_unavailable f.json (λ v. json_answer f.status (p v (scope_of token))))
          (refusal-IsCovered p (some token) 502 (codes "Unexpected BB response") refl)
          (or_unavailable-IsCovered p (some token) f.json
            (λ v. json_answer f.status (p v (scope_of token))) (λ v. json-IsCovered f.status v)))
    | inr bad ↦ rw bad (relayed-IsCovered f.status headers (streamed f.chunks) (inl bad))
  ]

  relay-IsCovered :
      (method : Text) (perms : List AuthzPerm) (headers : Dict Text Text) (f : Fetched)
      → IsCovered p (some token) (relay rt w method token perms headers f (some (reshape p)))
  relay-IsCovered method perms headers f =
      if-IsCovered p (some token) (same method (codes "HEAD") || not f.has_body)
        (relayed f.status headers empty) (projected rt w token perms headers f (some (reshape p)))
        (relayed-IsCovered f.status headers empty (inr refl)) (projected-IsCovered perms headers f)

  relocated-IsCovered :
      (method : Text) (perms : List AuthzPerm) (headers : Dict Text Text) (f : Fetched)
      (l : Location)
      → IsCovered p (some token) (relocated rt w method token perms headers f (some (reshape p)) l)
  relocated-IsCovered method perms headers f l =
      if-IsCovered p (some token) l.is_own
        (relay rt w method token perms (headers ++ (codes "location", l.path) ∷ []) f
          (some (reshape p)))
        (refusal 502 (codes "Unexpected upstream redirect"))
        (relay-IsCovered method perms (headers ++ (codes "location", l.path) ∷ []) f)
        (refusal-IsCovered p (some token) 502 (codes "Unexpected upstream redirect") refl)

  relay_response-IsCovered :
      (method : Text) (perms : List AuthzPerm) (f : Fetched)
      → IsCovered p (some token) (relay_response rt w method token perms (some (reshape p)) f)
  unfolding relay_response
  relay_response-IsCovered method perms f =
      let headers = picked_filled relayed_headers f.headers in
      let location = or_else (lookup (codes "location") f.headers) [] in
      let filter = some (reshape p) in
      if-IsCovered p (some token) (same location [])
        (relay rt w method token perms headers f filter)
        (or_unavailable (rt.locate location) (relocated rt w method token perms headers f filter))
        (relay-IsCovered method perms headers f)
        (or_unavailable-IsCovered p (some token) (rt.locate location)
          (relocated rt w method token perms headers f filter)
          (relocated-IsCovered method perms headers f))

  pub send-IsCovered :
      (req : Request) (url : Url) (rows : Rows) (decision : AuthzResult) (body : Option Json)
      → IsCovered p
          (some token)
          (send rt w req url rows token decision (some (reshape p)) body).answer
  send-IsCovered req url rows decision body =
      or_unavailable-IsCovered p (some token)
        (w.fetch (record {
          method = req.method;
          pathname = url.pathname;
          params = kept_params url;
          headers = upstream_headers rt req.headers;
          body = body;
        }))
        (relay_response rt w req.method token decision.perms (some (reshape p)))
        (relay_response-IsCovered req.method decision.perms)

  turned_away-status :
      (chunks : List Bytes) (status : ℕ) (error : Text)
      → guest_message rt.from_utf8 rt.parse_json chunks ≡ turned_away status error
      → is_ok status ≡ false
  unfolding guest_message read_message
  turned_away-status chunks status error e = ground arith

  pub send_message-IsCovered :
      (req : Request) (url : Url) (rows : Rows) (decision : AuthzResult) (m : Message)
      → guest_message rt.from_utf8 rt.parse_json req.chunks ≡ m
      → IsCovered p
          (some token)
          (send_message rt w req url rows token decision (some (reshape p)) m).answer
  send_message-IsCovered req url rows decision (accepted body) e =
      send-IsCovered req url rows decision (some body)
  send_message-IsCovered req url rows decision (turned_away status error) e =
      refusal-IsCovered p (some token) status error (turned_away-status req.chunks status error e)
