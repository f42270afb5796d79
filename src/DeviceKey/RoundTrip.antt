-- ===== src/DeviceKey/RoundTrip.antt =====
-- What is sealed opens again: envelope.ts and record-crypto.ts of plugin/lib/device-key.
use bb_shared.Base.{ℕ, ◌≡◌, refl, subst, [], ◌∷◌, false, some, Text, same, length, arith}
use bb_shared.Base.Json.{Json, str, get_field}
use bb_shared.DeviceKey.{
  Bytes, Crypto, ok, SecretEnvelope, version_one, aes_gcm, envelope_json, secret_envelope,
  seal_secret, open_secret, get_by_path, set_by_path, segments, encrypt_field, encrypt_record,
  decrypt_field, decrypt_record,
}
use bb_shared.DeviceKey.Paths.{
  get_by_path-set_by_path, set_by_path-set_by_path, set_by_path-get_by_path,
}

-- What the code relies on: decryption undoes encryption under the same key and nonce, a tag has 16
-- bytes, and base64 is read back.
pub record IsLawful (c : Crypto) : Type 0 where
  pub decrypt-encrypt :
      (key nonce plain : Bytes)
      → c.decrypt key nonce (c.encrypt key nonce plain).0 (c.encrypt key nonce plain).1 ≡ some plain
  pub length-tag : (key nonce plain : Bytes) → length (c.encrypt key nonce plain).1 ≡ 16
  pub from-to_base64 : (b : Bytes) → c.from_base64 (c.to_base64 b) ≡ b

-- An envelope is read back from its JSON.
pub secret_envelope-envelope_json :
    (env : SecretEnvelope)
    → env.version ≡ version_one
    → env.algorithm ≡ aes_gcm
    → secret_envelope (envelope_json env) ≡ some env
unfolding secret_envelope get_field same
secret_envelope-envelope_json env v a = rw (v, a) (ground (arith, v, a))

-- Sealing fails only for a key of the wrong length, and what is sealed opens under the same key: a
-- text that UTF-8 carries, under a nonce of 12 bytes.
pub open_secret-seal_secret :
    (c : Crypto) (key nonce : Bytes) (plain : Text)
    → IsLawful c
    → length key ≡ 32
    → length nonce ≡ 12
    → c.from_utf8 (c.to_utf8 plain) ≡ plain
    → (env : SecretEnvelope) × (seal_secret c key nonce plain ≡ ok env)
      × (secret_envelope (envelope_json env) ≡ some env)
      × (open_secret c key env ≡ ok plain)
unfolding seal_secret open_secret same
open_secret-seal_secret c key nonce plain l k n u =
    let sealed = c.encrypt key nonce (c.to_utf8 plain) in
    (
      record {
        version = version_one;
        algorithm = aes_gcm;
        nonce = c.to_base64 nonce;
        ct = c.to_base64 sealed.0;
        tag = c.to_base64 sealed.1;
      },
      ground (arith, k),
      secret_envelope-envelope_json _ refl refl,
      ground (
        arith,
        l.from-to_base64 nonce,
        l.from-to_base64 sealed.0,
        l.from-to_base64 sealed.1,
        l.length-tag key nonce (c.to_utf8 plain),
        l.decrypt-encrypt key nonce (c.to_utf8 plain),
      ),
    )

sealed_field :
    (c : Crypto) (key : Bytes) (env : SecretEnvelope) (path plain : Text) (v : Json)
    → secret_envelope (envelope_json env) ≡ some env
    → open_secret c key env ≡ ok plain
    → decrypt_field c key path v (some (envelope_json env))
      ≡ ok (set_by_path (segments path) (str plain) v, false)
unfolding decrypt_field
sealed_field c key env path plain v e o = ground (arith, e, o)

-- A record with a text at the path is encrypted, and decrypts to itself as a record that needs no
-- migration.
pub decrypt_record-encrypt_record :
    (c : Crypto) (key : Bytes) (nonces : ℕ → Bytes) (path plain : Text) (v : Json)
    → IsLawful c
    → length key ≡ 32
    → length (nonces 0) ≡ 12
    → c.from_utf8 (c.to_utf8 plain) ≡ plain
    → get_by_path (segments path) v ≡ some (str plain)
    → (sealed : Json) × (encrypt_record c key nonces 0 v (path ∷ []) ≡ ok sealed)
      × (decrypt_record c key sealed false (path ∷ []) ≡ ok (v, false))
unfolding encrypt_record encrypt_field decrypt_record
decrypt_record-encrypt_record c key nonces path plain v l k n u found =
    let (env, sealed, read_back, opened) = open_secret-seal_secret c key (nonces 0) plain l k n u in
    let segs = segments path in
    let new = envelope_json env in
    (
      set_by_path segs new v,
      ground (arith, found, sealed),
      ground (
        arith,
        get_by_path-set_by_path segs new v {w = str plain} found,
        sealed_field c key env path plain (set_by_path segs new v) read_back opened,
        set_by_path-set_by_path segs (str plain) new v {w = str plain} found,
        set_by_path-get_by_path segs (str plain) v found,
      ),
    )

-- What was encrypted decrypts to the record that it was.
pub decrypt_record-encrypted :
    (c : Crypto) (key : Bytes) (nonces : ℕ → Bytes) (path plain : Text) (v sealed : Json)
    → IsLawful c
    → length key ≡ 32
    → length (nonces 0) ≡ 12
    → c.from_utf8 (c.to_utf8 plain) ≡ plain
    → get_by_path (segments path) v ≡ some (str plain)
    → encrypt_record c key nonces 0 v (path ∷ []) ≡ ok sealed
    → decrypt_record c key sealed false (path ∷ []) ≡ ok (v, false)
decrypt_record-encrypted c key nonces path plain v sealed l k n u found e =
    let (other, made, opened) =
      decrypt_record-encrypt_record c key nonces path plain v l k n u found in
    let same_record : other ≡ sealed = ground (arith, made, e) in
    subst (λ w. decrypt_record c key w false (path ∷ []) ≡ ok (v, false)) same_record opened
