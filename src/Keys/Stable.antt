-- ===== src/Keys/Stable.antt =====
-- The key that plugin/lib/device-key/key-provider.ts hands out stays the same.
use mathlib.Core.Logic.{◌⊎◌, inl, inr}
use bb_shared.Base.{
  ◌≡◌, refl, sym, subst, ap, ◌∙◌, Bool, true, false, List, Option, none, some, Text, same, length,
  trim, arith, if◌then◌else◌,
}
use bb_shared.DeviceKey.{Bytes, Crypto}
use bb_shared.Keys.{
  SecurityResult, KeyError, Provider, new_provider, decoded_key, has_key, refused, read, write,
  confirmed, stored, found, get_key, is_success, result_key, not_read_back, find_arguments,
}

tested-key :
    (empty fits : Bool) (why : KeyError) (k key : Bytes)
    → (if empty then inr none else if fits then inr (some k) else inl why) ≡ inr (some key)
    → (fits ≡ true) × (k ≡ key)
tested-key true fits why k key e = absurd cc
tested-key false true why k key e = let alike : k ≡ key = cc in (refl, alike)
tested-key false false why k key e = absurd cc

decoded_key-length :
    (c : Crypto) (text : Text) (key : Bytes) → decoded_key c text ≡ inr (some key) → length key ≡ 32
unfolding decoded_key
decoded_key-length c text key e =
    let (fits, alike) = tested-key _ _ _ (c.from_base64 (trim text)) key e in
    subst (λ k. length k ≡ 32) alike (ground (arith, fits))

module _ {K : Type 0} (security : List Text → K → SecurityResult × K) (c : Crypto) where
  result_key-length :
      (b : Bool) (text : Text) (key : Bytes)
      → (if b then decoded_key c text else inr none) ≡ inr (some key)
      → length key ≡ 32
  result_key-length true text key e = decoded_key-length c text key e
  result_key-length false text key e = absurd cc

  -- A store that was just read, and what was found in it.
  IsRead : K → Bytes → Type 0
  IsRead after key = (k : K) × (read security c k ≡ (inr (some key), after))

  IsRead-length : (after : K) (key : Bytes) → IsRead after key → length key ≡ 32
  unfolding IsRead read
  IsRead-length after key (k, e) =
      let r = (security find_arguments k).0 in
      result_key-length (is_success r) r.stdout key (ap (λ x. x.0) e)

  has_key-IsRead :
      (x key : Bytes) (k after : K) (p : Provider K)
      → read security c k ≡ (inr (some x), after)
      → has_key x after ≡ (inr key, p)
      → IsRead p.store key
  unfolding IsRead
  has_key-IsRead x key k after p f e =
      let alike : x ≡ key = cc in
      let same_store : after ≡ p.store = ap (λ o. o.1.store) e in
      (
        k,
        subst (λ y. read security c k ≡ (inr (some y), p.store)) alike
            (subst (λ s. read security c k ≡ (inr (some x), s)) same_store f),
      )

  picked-IsRead :
      (b : Bool) (x key : Bytes) (k after : K) (p : Provider K)
      → read security c k ≡ (inr (some x), after)
      → (if b then has_key x after else refused not_read_back after) ≡ (inr key, p)
      → IsRead p.store key
  picked-IsRead true x key k after p f e = has_key-IsRead x key k after p f e
  picked-IsRead false x key k after p f e = absurd cc

  confirmed-IsRead :
      (drawn key : Bytes) (k : K) (r : (KeyError ⊎ Option Bytes) × K) (p : Provider K)
      → read security c k ≡ r
      → confirmed security c drawn r ≡ (inr key, p)
      → IsRead p.store key
  confirmed-IsRead drawn key k (inl why, j) p f e = absurd cc
  confirmed-IsRead drawn key k (inr none, j) p f e = absurd cc
  confirmed-IsRead drawn key k (inr (some x), j) p f e =
      picked-IsRead (same x drawn) x key k j p f e

  stored-IsRead :
      (drawn key : Bytes) (o : Bool × K) (p : Provider K)
      → stored security c drawn o ≡ (inr key, p)
      → IsRead p.store key
  stored-IsRead drawn key (false, k) p e = absurd cc
  stored-IsRead drawn key (true, k) p e = confirmed-IsRead drawn key k (read security c k) p refl e

  found-IsRead :
      (drawn key : Bytes) (k : K) (r : (KeyError ⊎ Option Bytes) × K) (p : Provider K)
      → read security c k ≡ r
      → found security c drawn r ≡ (inr key, p)
      → IsRead p.store key
  found-IsRead drawn key k (inl why, j) p f e = absurd cc
  found-IsRead drawn key k (inr none, j) p f e =
      stored-IsRead drawn key (write security c drawn j) p e
  found-IsRead drawn key k (inr (some x), j) p f e = has_key-IsRead x key k j p f e

  read_again :
      (after : K) (key : Bytes)
      → ((k : K)
          → (security find_arguments (security find_arguments k).1).0
            ≡ (security find_arguments k).0)
      → IsRead after key
      → (read security c after).0 ≡ inr (some key)
  unfolding IsRead read
  read_again after key repeats (k, e) =
      ap (λ s. result_key security c (security find_arguments s).0) (sym (ap (λ x. x.1) e))
      ∙ ap (result_key security c) (repeats k)
      ∙ ap (λ x. x.0) e

  found-again :
      (drawn key : Bytes) (r : (KeyError ⊎ Option Bytes) × K)
      → r.0 ≡ inr (some key)
      → (found security c drawn r).0 ≡ inr key
  found-again drawn key (inl why, j) e = absurd cc
  found-again drawn key (inr none, j) e = absurd cc
  found-again drawn key (inr (some x), j) e = let alike : x ≡ key = cc in ap inr alike

-- A key that a new provider hands out has 32 bytes, and a provider after it, whatever it would draw, hands out
-- the same one: whether the first found the key or stored it. A reading of the keychain does not change what
-- the next one finds.
pub get_key-stable :
    {K : Type 0} (security : List Text → K → SecurityResult × K) (c : Crypto)
    (drawn other key : Bytes) (k : K) (p : Provider K)
    → ((j : K)
        → (security find_arguments (security find_arguments j).1).0 ≡ (security find_arguments j).0)
    → get_key security c drawn (new_provider k) ≡ (inr key, p)
    → (length key ≡ 32) × ((get_key security c other (new_provider p.store)).0 ≡ inr key)
unfolding get_key
get_key-stable security c drawn other key k p repeats e =
    let was_read = found-IsRead security c drawn key k (read security c k) p refl e in
    (
      IsRead-length security c p.store key was_read,
      found-again security c other key (read security c p.store)
          (read_again security c p.store key repeats was_read),
    )
