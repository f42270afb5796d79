-- ===== src/Lifecycle/Mutations/Guards.antt =====
-- The guards of `register` of plugin/worker-lifecycle/worker-lifecycle.ts.
use mathlib.Core.Logic.{◌⊎◌, inl, inr}
use bb_shared.Base.{
  and5, ℕ, ◌≡◌, refl, sym, subst, ◌∙◌, Bool, true, false, not, ◌||◌, List, [], ◌∷◌, ◌++◌, all, map,
  Option, none, some, Text, same, same_iff, codes, is_one_of, text_eq, Dict, values, length,
  length-append, length-map, map-append, arith, Bool-cases, if◌then◌else◌, leb,
}
use bb_shared.Base.Json.{Json, str, property}
use bb_shared.TokenStore.{or_else}
use bb_shared.Connections.{
  Claim, ConnectionRecord, Urls, normalize_connection_url, is_tunnel_secret, is_relay_id,
  is_canonical, is_claim, is_record, all_distinct, ids, urls, relay_ids, has_default, is_consistent,
  is_snapshot,
}
use bb_shared.ShareState.{is_filled}
use bb_shared.Lifecycle.{Runtime, FetchResult, fetch_failed, responded}
use bb_shared.Lifecycle.Mutations.Books.Keys.{is_one_of-middle}
use bb_shared.Lifecycle.Mutations.{
  Refusal, bad_secret, too_many, url_in_use, relay_in_use, relay_id_of, no_relay, records, proceed,
  unless, identity, normalized, new_record,
}

-- What a registration has found out, where it gets as far as a record.
record IsAdmitted (u : Urls) (m : Dict Text Runtime) (now : ℕ) (id input secret : Text)
    (claim : Option Claim) (r : ConnectionRecord) : Type 0 where
  normal : normalize_connection_url u input ≡ some r.url
  has_secret : is_tunnel_secret secret ≡ true
  has_room : leb 16 (length m) ≡ false
  url_free : is_one_of r.url (urls (records m)) ≡ false
  relay_known : is_relay_id r.relay_id ≡ true
  relay_free : is_one_of r.relay_id (relay_ids (records m)) ≡ false
  made : (r.id ≡ id) × (r.tunnel_secret ≡ secret) × (r.claim ≡ claim)

-- What follows where both succeed.
proceed-inr {ℓ κ ι} :
    {A : Type ℓ} {B : Type κ} (G : Type ι) (o : Refusal ⊎ A) (f : A → Refusal ⊎ B) (b : B)
    → ((a : A) → o ≡ inr a → f a ≡ inr b → G)
    → proceed o f ≡ inr b
    → G
proceed-inr G (inl why) f b h e = absurd cc
proceed-inr G (inr a) f b h e = h a refl e

unless-inr : (b : Bool) (why : Refusal) (t : Unit) → unless b why ≡ inr t → b ≡ false
unless-inr true why t e = absurd cc
unless-inr false why t e = refl

normalized-inr : (o : Option Text) (url : Text) → normalized o ≡ inr url → o ≡ some url
normalized-inr none url e = absurd cc
normalized-inr (some v) url e = ground arith

relay_id_of-inr :
    (o : Option Json) (relay_id : Text) → relay_id_of o ≡ inr relay_id → is_relay_id relay_id ≡ true
relay_id_of-inr none relay_id e = absurd cc
relay_id_of-inr (some (str s)) relay_id e = elim (Bool-cases (is_relay_id s)) [
  | inl fits ↦
      let alike : s ≡ relay_id = ground (arith, fits) in
      subst (λ t. is_relay_id t ≡ true) alike fits
  | inr other ↦ absurd (ground (arith, other))
]
relay_id_of-inr (some _) relay_id e = absurd cc

pick-inr :
    (b : Bool) (o : Refusal ⊎ Text) (why : Refusal) (t : Text)
    → (if b then o else inl why) ≡ inr t
    → o ≡ inr t
pick-inr true o why t e = e
pick-inr false o why t e = absurd cc

identity-relay :
    (protocol : Text) (reply : FetchResult) (relay_id : Text)
    → identity protocol reply ≡ inr relay_id
    → is_relay_id relay_id ≡ true
unfolding identity
identity-relay protocol (fetch_failed message) relay_id e = absurd cc
identity-relay protocol (responded status digits body) relay_id e =
    relay_id_of-inr (property (codes "relayId") body) relay_id (pick-inr _ _ no_relay relay_id e)

new_record-IsAdmitted :
    (u : Urls) (protocol : Text) (m : Dict Text Runtime) (now : ℕ) (id input secret : Text)
    (claim : Option Claim) (reply : FetchResult) (r : ConnectionRecord)
    → new_record u protocol m now id input secret claim reply ≡ inr r
    → IsAdmitted u m now id input secret claim r
unfolding new_record
new_record-IsAdmitted u protocol m now id input secret claim reply r e =
    proceed-inr (IsAdmitted u m now id input secret claim r)
      (normalized (normalize_connection_url u input)) _ r
      (λ url a. proceed-inr _ (unless (not (is_tunnel_secret secret)) bad_secret) _ r (λ t b.
        proceed-inr _ (unless (leb 16 (length m)) too_many) _ r (λ t2 c.
          proceed-inr _ (unless (is_one_of url (urls (records m))) url_in_use) _ r (λ t3 d.
            proceed-inr _ (identity protocol reply) _ r (λ relay_id g.
              proceed-inr _ (unless (is_one_of relay_id (relay_ids (records m))) relay_in_use) _ r
                (λ t4 h last.
                  let made : ConnectionRecord = record {
                    id = id;
                    relay_id = relay_id;
                    url = url;
                    tunnel_secret = secret;
                    claim = claim;
                    created_at = now;
                  } in
                  let alike : made ≡ r = cc in
                  subst (λ x. IsAdmitted u m now id input secret claim x) alike
                    (record {
                      normal = normalized-inr (normalize_connection_url u input) url a;
                      has_secret =
                          ground (arith, unless-inr (not (is_tunnel_secret secret)) bad_secret t b);
                      has_room = unless-inr (leb 16 (length m)) too_many t2 c;
                      url_free = unless-inr (is_one_of url (urls (records m))) url_in_use t3 d;
                      relay_known = identity-relay protocol reply relay_id g;
                      relay_free =
                          unless-inr (is_one_of relay_id (relay_ids (records m))) relay_in_use t4 h;
                      made = (refl, refl, refl);
                    })))))))
      e

same_sym : (s t : Text) → same s t ≡ same t s
same_sym s t = ground (arith, same_iff s t, same_iff t s)

is_one_of-snoc :
    (j k : Text) (ks : List Text) → is_one_of j (ks ++ k ∷ []) ≡ is_one_of j ks || same j k
is_one_of-snoc j k [] = ground arith
is_one_of-snoc j k (i ∷ ks) = ground (arith, is_one_of-snoc j k ks)

all_distinct-snoc :
    (k : Text) (ks : List Text)
    → all_distinct ks ≡ true
    → is_one_of k ks ≡ false
    → all_distinct (ks ++ k ∷ []) ≡ true
unfolding all_distinct
all_distinct-snoc k [] d n = refl
all_distinct-snoc k (j ∷ ks) d n =
    ground (arith, all_distinct-snoc k ks, is_one_of-snoc j k ks, same_sym j k)

is_one_of-more :
    (d k : Text) (ks : List Text) → is_one_of d ks ≡ true → is_one_of d (ks ++ k ∷ []) ≡ true
is_one_of-more d k [] h = absurd cc
is_one_of-more d k (j ∷ ks) h = ground (arith, is_one_of-more d k ks)

has_default-more :
    (d : Option Text) (k : Text) (ks : List Text)
    → has_default d ks ≡ true
    → has_default (some (or_else d k)) (ks ++ k ∷ []) ≡ true
has_default-more none k ks h = is_one_of-middle k ks []
has_default-more (some d) k ks h = is_one_of-more d k ks h

all-more :
    (p : ConnectionRecord → Bool) (rs : List ConnectionRecord) (r : ConnectionRecord)
    → all p rs ≡ true
    → p r ≡ true
    → all p (rs ++ r ∷ []) ≡ true
all-more p [] r h k = ground arith
all-more p (x ∷ rs) r h k = ground (arith, all-more p rs r)

length-records : (m : Dict Text Runtime) → length (records m) ≡ length m
length-records m = length-map (λ (r : Runtime). r.connection) (values m) ∙ length-map (λ e. e.1) m

-- The lists of a snapshot, with one that is new.
keys-more :
    (f : ConnectionRecord → Text) (rs : List ConnectionRecord) (r : ConnectionRecord)
    → all_distinct (map f rs) ≡ true
    → is_one_of (f r) (map f rs) ≡ false
    → all_distinct (map f (rs ++ r ∷ [])) ≡ true
keys-more f rs r d n =
    subst (λ ks. all_distinct ks ≡ true) (sym (map-append f rs (r ∷ [])))
      (all_distinct-snoc (f r) (map f rs) d n)

has_default-ids :
    (d : Option Text) (rs : List ConnectionRecord) (r : ConnectionRecord)
    → has_default d (ids rs) ≡ true
    → has_default (some (or_else d r.id)) (ids (rs ++ r ∷ [])) ≡ true
has_default-ids d rs r h =
    subst (λ ks. has_default (some (or_else d r.id)) ks ≡ true)
      (sym (map-append (λ (x : ConnectionRecord). x.id) rs (r ∷ [])))
      (has_default-more d r.id (ids rs) h)

is_consistent-more :
    (d : Option Text) (rs : List ConnectionRecord) (r : ConnectionRecord)
    → is_consistent (record { default_id = d; connections = rs }) ≡ true
    → leb 16 (length rs) ≡ false
    → is_one_of r.id (ids rs) ≡ false
    → is_one_of r.relay_id (relay_ids rs) ≡ false
    → is_one_of r.url (urls rs) ≡ false
    → is_consistent (record { default_id = some (or_else d r.id); connections = rs ++ r ∷ [] })
      ≡ true
unfolding is_consistent
is_consistent-more d rs r h room new_id new_relay new_url =
    and5 _ _ _ _ _ (ground (arith, room, length-append rs (r ∷ [])))
      (keys-more (λ x. x.id) rs r (ground arith) new_id)
      (keys-more (λ x. x.relay_id) rs r (ground arith) new_relay)
      (keys-more (λ x. x.url) rs r (ground arith) new_url) (has_default-ids d rs r (ground arith))

-- A record that `register` lets through fits with the connections that there are: what it will save meets the
-- schemas, where what runs does, the drawn id is not empty and new, a claim has an address, and an origin stays
-- as it is when it is normalized.
pub new_record-fits :
    (u : Urls) (protocol : Text) (m : Dict Text Runtime) (default_id : Option Text) (now : ℕ)
    (id input secret : Text) (claim : Option Claim) (reply : FetchResult) (r : ConnectionRecord)
    → ((url origin : Text)
        → normalize_connection_url u url ≡ some origin
        → is_canonical u origin ≡ true)
    → is_snapshot u (record { default_id = default_id; connections = records m }) ≡ true
    → is_filled id ≡ true
    → is_one_of id (ids (records m)) ≡ false
    → is_claim u claim ≡ true
    → new_record u protocol m now id input secret claim reply ≡ inr r
    → is_snapshot u
        (record { default_id = some (or_else default_id r.id); connections = records m ++ r ∷ [] })
      ≡ true
new_record-fits u protocol m default_id now id input secret claim reply r canonical whole filled new
      claimed e =
    let a = new_record-IsAdmitted u protocol m now id input secret claim reply r e in
    let (same_id, same_secret, same_claim) = a.made in
    let fits : is_record u r ≡ true =
      and5 _ _ _ _ _ (subst (λ t. is_filled t ≡ true) (sym same_id) filled) a.relay_known
        (canonical input r.url a.normal)
        (subst (λ t. is_tunnel_secret t ≡ true) (sym same_secret) a.has_secret)
        (subst (λ t. is_claim u t ≡ true) (sym same_claim) claimed) in
    let more : is_consistent (record {
      default_id = some (or_else default_id r.id);
      connections = records m ++ r ∷ [];
    })
        ≡ true =
      is_consistent-more default_id (records m) r (ground (arith, whole))
        (subst (λ n. leb 16 n ≡ false) (sym (length-records m)) a.has_room)
        (subst (λ t. is_one_of t (ids (records m)) ≡ false) (sym same_id) new) a.relay_free
        a.url_free in
    rw (all-more (is_record u) (records m) r (ground (arith, whole)) fits) more
