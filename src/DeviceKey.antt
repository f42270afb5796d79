-- ===== src/DeviceKey.antt =====
-- plugin/lib/device-key/envelope.ts and record-crypto.ts: the encryption of the fields of a record.
-- AES-256-GCM, base64 and UTF-8 are a record of operations. A nonce is an argument. `clone` copies
-- a plain JSON value, and a value is its own copy here. No path of the program enters an array.
pub mod Paths
pub mod RoundTrip
use bb_shared.Base.{
  ℕ, suc, Bool, true, false, ◌&&◌, not, List, [], ◌∷◌, Option, none, some, Text, codes, same,
  length, split, if◌then◌else◌, ◌==◌,
}
use bb_shared.Base.Json.{
  Json, null, bool, num, str, arr, obj, Fields, field, end, property, get_field, set_field,
}

abbrev pub Bytes : Type 0
Bytes = List ℕ

-- The cipher and the codecs of the runtime. `decrypt` fails where the tag does not verify.
pub record Crypto : Type 0 where
  pub encrypt : (key nonce plain : Bytes) → Bytes × Bytes
  pub decrypt : (key nonce ciphertext tag : Bytes) → Option Bytes
  pub to_base64 : Bytes → Text
  pub from_base64 : Text → Bytes
  pub to_utf8 : Text → Bytes
  pub from_utf8 : Bytes → Text

pub data SecretError : Type 0 where
  bad_key : SecretError
  unsupported : SecretError
  bad_nonce : SecretError
  bad_tag : SecretError
  undecryptable : SecretError
  corrupt_field : (path : Text) → SecretError

pub data Outcome {ℓ} (A : Type ℓ) : Type ℓ where
  ok : A → Outcome A
  err : SecretError → Outcome A

infixl 5 ◌>>=◌ ◌>>◌
abbrev pub ◌>>=◌ {ℓ κ} : {A : Type ℓ} {B : Type κ} → Outcome A → (A → Outcome B) → Outcome B
ok a >>= f = f a
err e >>= f = err e

abbrev pub ◌>>◌ {ℓ} : {B : Type ℓ} → Outcome (Unit {0}) → Outcome B → Outcome B
m >> k = m >>= λ _. k

abbrev guard : Bool → SecretError → Outcome (Unit {0})
guard true e = ok tt
guard false e = err e

-- `SecretEnvelope`; a field that another version or algorithm would have is kept as it was read.
pub record SecretEnvelope : Type 0 where
  pub version : Json
  pub algorithm : Json
  pub nonce : Text
  pub ct : Text
  pub tag : Text

abbrev pub version_one : Json
version_one = num (codes "1")

abbrev pub aes_gcm : Json
aes_gcm = str (codes "AES-256-GCM")

abbrev is_num : Text → Json → Bool
is_num s (num t) = same t s
is_num s _ = false

abbrev is_str : Text → Json → Bool
is_str s (str t) = same t s
is_str s _ = false

abbrev pub is_current : Json → Json → Bool
is_current version algorithm = is_num (codes "1") version && is_str (codes "AES-256-GCM") algorithm

abbrev pub envelope_json : SecretEnvelope → Json
envelope_json env = obj (
    field (codes "v") env.version (
      field (codes "alg") env.algorithm (
        field (codes "nonce") (str env.nonce)
          (field (codes "ct") (str env.ct) (field (codes "tag") (str env.tag) end)))))

abbrev envelope_of :
    Option Json → Option Json → Option Json → Option Json → Option Json → Option SecretEnvelope
envelope_of (some version) (some algorithm) (some (str nonce)) (some (str ct)) (some (str tag)) =
    if is_current version algorithm
    then some
        (record { version = version; algorithm = algorithm; nonce = nonce; ct = ct; tag = tag })
    else none
envelope_of _ _ _ _ _ = none

-- `isSecretEnvelope`, with the envelope that it narrows the value to.
unfoldable pub secret_envelope : Json → Option SecretEnvelope
secret_envelope v =
    envelope_of (property (codes "v") v) (property (codes "alg") v) (property (codes "nonce") v)
      (property (codes "ct") v) (property (codes "tag") v)

module _ (c : Crypto) (key : Bytes) where
  -- `sealSecret` with the nonce that it draws.
  unfoldable pub seal_secret : Bytes → Text → Outcome SecretEnvelope
  seal_secret nonce plain = do
    guard (length key == 32) bad_key
    let sealed = c.encrypt key nonce (c.to_utf8 plain)
    ok (record {
      version = version_one;
      algorithm = aes_gcm;
      nonce = c.to_base64 nonce;
      ct = c.to_base64 sealed.0;
      tag = c.to_base64 sealed.1;
    })

  abbrev decrypted : Option Bytes → Outcome Text
  decrypted none = err undecryptable
  decrypted (some plain) = ok (c.from_utf8 plain)

  unfoldable pub open_secret : SecretEnvelope → Outcome Text
  open_secret env = do
    guard (length key == 32) bad_key
    guard (is_current env.version env.algorithm) unsupported
    guard (length (c.from_base64 env.nonce) == 12) bad_nonce
    guard (length (c.from_base64 env.tag) == 16) bad_tag
    decrypted
        (c.decrypt key (c.from_base64 env.nonce) (c.from_base64 env.ct) (c.from_base64 env.tag))

-- `getByPath` and `setByPath` on the segments of a path.
unfoldable pub get_by_path : List Text → Json → Option Json
get_by_path [] v = some v
get_by_path (seg ∷ segs) (obj fs) = elim (get_field seg fs) [
  | none ↦ none
  | some w ↦ get_by_path segs w
]
get_by_path (seg ∷ segs) _ = none

unfoldable pub set_by_path : List Text → Json → Json → Json
set_by_path [] new v = new
set_by_path (seg ∷ []) new (obj fs) = obj (set_field seg new fs)
set_by_path (seg ∷ next ∷ segs) new (obj fs) = elim (get_field seg fs) [
  | none ↦ obj fs
  | some w ↦ obj (set_field seg (set_by_path (next ∷ segs) new w) fs)
]
set_by_path (seg ∷ segs) new v = v

abbrev pub segments : Text → List Text
segments path = split b'.' path

module _ (c : Crypto) (key : Bytes) where
  -- One round of the loops, on the value at the path.
  unfoldable pub encrypt_field : Bytes → Text → Json → Option Json → Outcome Json
  encrypt_field nonce path v (some (str plain)) = do
    env ← seal_secret c key nonce plain
    ok (set_by_path (segments path) (envelope_json env) v)
  encrypt_field nonce path v _ = ok v

  -- A nonce for each path.
  unfoldable pub encrypt_record : (ℕ → Bytes) → ℕ → Json → List Text → Outcome Json
  encrypt_record nonces i v [] = ok v
  encrypt_record nonces i v (path ∷ paths) = do
    w ← encrypt_field (nonces i) path v (get_by_path (segments path) v)
    encrypt_record nonces (suc i) w paths

  -- A secret that is not an envelope: an old plain text, or nothing that a record holds.
  abbrev plain_field : Text → Json → Json → Outcome (Json × Bool)
  plain_field path v (str plain) = ok (v, true)
  plain_field path v _ = err (corrupt_field path)

  unfoldable pub decrypt_field : Text → Json → Option Json → Outcome (Json × Bool)
  decrypt_field path v none = ok (v, false)
  decrypt_field path v (some null) = ok (v, false)
  decrypt_field path v (some w) = elim (secret_envelope w) [
    | none ↦ plain_field path v w
    | some env ↦ do
      plain ← open_secret c key env
      ok (set_by_path (segments path) (str plain) v, false)
  ]

  -- The record, and whether a secret was found as plain text.
  unfoldable pub decrypt_record : Json → Bool → List Text → Outcome (Json × Bool)
  decrypt_record v migrated [] = ok (v, migrated)
  decrypt_record v migrated (path ∷ paths) = do
    w ← decrypt_field path v (get_by_path (segments path) v)
    decrypt_record w.0 (if w.1 then true else migrated) paths
