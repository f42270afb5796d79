-- ===== src/Gateway/Readiness.antt =====
-- `verifyReadiness` of plugin/guest-gateway/index.ts, and the probe that it verifies.
use bb_shared.Base.{
  none, List, [], ◌∷◌, All, ap, ℕ, ◌≡◌, ◌↔◌, sym, subst, ◌≤◌, Bool, true, false, ◌&&◌, ◌||◌, Option,
  some, Text, codes, same, same_iff, same_refl, all, length, arith, leb, ◌==◌,
}
use bb_shared.Base.Json.{Json, num, str, property, get_field}
use bb_shared.Frames.{is_text}
use bb_shared.Sessions.{Rows}
use bb_shared.Gateway.{
  Runtime, World, Fetched, json_answer, probe, ready_body, version_request, is_ok,
}

-- `[a-f0-9]`.
abbrev is_hex : ℕ → Bool
is_hex c = (leb b'a' c && leb c b'f') || (leb b'0' c && leb c b'9')

-- `/^[a-f0-9]{64}$/`.
unfoldable pub is_proof : Text → Bool
is_proof s = length s == 64 && all is_hex s

abbrev is_one : Option Json → Bool
is_one (some (num s)) = same s (codes "1")
is_one _ = false

-- The last two conditions, and `timingSafeEqual` on texts of one length.
abbrev has_proof : Text → Option Json → Bool
has_proof expected (some (str s)) = is_proof s && same expected s
has_proof expected _ = false

unfoldable pub verify_readiness : Runtime → Text → Json → Bool
verify_readiness rt challenge v =
    is_text (codes "bb-shared-gateway") (property (codes "service") v)
    && is_one (property (codes "version") v)
    && is_text challenge (property (codes "challenge") v)
    && has_proof (rt.proof challenge) (property (codes "proof") v)

text_field : (v : Option Json) (s : Text) → (is_text s v ≡ true) ↔ (v ≡ some (str s))
text_field (some (str t)) s =
    (λ h. ap (λ x. some (str x)) ((same_iff t s).0 h), λ h. ground (arith, h, same_iff t s))
text_field none s = (λ h. cc, λ h. cc)
text_field (some _) s = (λ h. cc, λ h. cc)

one_field : (v : Option Json) → (is_one v ≡ true) ↔ (v ≡ some (num (codes "1")))
one_field (some (num t)) = (
  λ h. ap (λ x. some (num x)) ((same_iff t (codes "1")).0 h),
  λ h. ground (arith, h, same_iff t (codes "1")),
)
one_field none = (λ h. cc, λ h. cc)
one_field (some _) = (λ h. cc, λ h. cc)

proof_field :
    (v : Option Json) (s : Text) → is_proof s ≡ true → (has_proof s v ≡ true) ↔ (v ≡ some (str s))
proof_field (some (str t)) s h = (
  λ e. ap (λ x. some (str x)) (sym ((same_iff s t).0 (ground arith))),
  λ e.
      let alike : s ≡ t = ground (arith, e) in
      subst (λ x. has_proof s (some (str x)) ≡ true) alike (ground (arith, h, same_refl s)),
)
proof_field none s h = (λ e. cc, λ e. cc)
proof_field (some _) s h = (λ e. cc, λ e. cc)

verify_readiness_iff :
    (rt : Runtime) (challenge : Text) (v : Json)
    → is_proof (rt.proof challenge) ≡ true
    → (verify_readiness rt challenge v ≡ true) ↔ (
        (property (codes "service") v ≡ some (str (codes "bb-shared-gateway")))
        × (property (codes "version") v ≡ some (num (codes "1")))
        × (property (codes "challenge") v ≡ some (str challenge))
        × (property (codes "proof") v ≡ some (str (rt.proof challenge))))
unfolding verify_readiness
verify_readiness_iff rt challenge v hex = ground (
  arith,
  text_field (property (codes "service") v) (codes "bb-shared-gateway"),
  one_field (property (codes "version") v),
  text_field (property (codes "challenge") v) challenge,
  proof_field (property (codes "proof") v) (rt.proof challenge) hex,
)

-- The fields of a readiness proof.
abbrev pub ready_keys : List Text
ready_keys = codes "service" ∷ codes "version" ∷ codes "challenge" ∷ codes "proof" ∷ []

-- An answer to a challenge of at most 256 units verifies exactly if it has the service, the version, the
-- challenge and the proof that the gateway itself answers while BB is there, where the proof of the challenge is
-- a hexadecimal text of 64 units.
pub verify_readiness-probe :
    (rt : Runtime) (w : World) (rows : Rows) (challenge : Text) (f : Fetched) (status : ℕ)
    (own v : Json)
    → is_proof (rt.proof challenge) ≡ true
    → length challenge ≤ 256
    → w.fetch version_request ≡ some f
    → is_ok f.status ≡ true
    → (probe rt w challenge rows).answer ≡ json_answer status own
    → (verify_readiness rt challenge v ≡ true)
      ↔ All (λ key. property key v ≡ property key own) ready_keys
unfolding same get_field
verify_readiness-probe rt w rows challenge f status own v hex short up ok e =
    let answered : ready_body rt w challenge ≡ own = ground (arith, up, ok, short, e) in
    let (there, back) = verify_readiness_iff rt challenge v hex in
    subst
      (λ o.
        (verify_readiness rt challenge v ≡ true)
        ↔ All (λ key. property key v ≡ property key o) ready_keys)
      answered
      (
        λ h. let (a, b, c, d) = there h in (a, (b, (c, (d, tt)))),
        λ h. let (a, (b, (c, (d, _)))) = h in back (a, b, c, d),
      )
