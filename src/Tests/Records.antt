-- ===== src/Tests/Records.antt =====
-- The encrypted record of the shared links, and the calls that write it.
use bb_shared.Base.{
  ℕ, ◌≡◌, refl, subst, List, [], ◌∷◌, ◌++◌, true, false, Option, none, some, Text, text_eq, codes,
  split, starts_with, fill, if◌then◌else◌, arith,
}
use bb_shared.Base.Json.{Json, num, str, obj, field, end, get_field, set_field}
use bb_shared.TokenStore.{
  restore_tokens, Perm, read, write, Token, TokenSnapshot, init, list_tokens,
}
use bb_shared.TokenStore.Invariant.{IsValid}
use bb_shared.TokenStore.Grants.{grants}
use bb_shared.DeviceKey.{
  corrupt_field, Bytes, Crypto, SecretEnvelope, ok, envelope_json, secret_envelope, seal_secret,
  open_secret, get_by_path, set_by_path, encrypt_field, encrypt_record, decrypt_field,
  decrypt_record,
}
use bb_shared.DeviceKey.RoundTrip.{IsLawful, open_secret-seal_secret, decrypt_record-encrypt_record}
use bb_shared.ShareState.{
  JsonCodec, ShareRecord, needs_recovery, state_json, is_prefixed, read_share, read_shares,
  shares_json, read_token, read_tokens, tokens_json, read_state, has_repeat, no_repeats,
  valid_state, save, load,
}
use bb_shared.ShareState.Schema.{is_storable, valid_state-state_json}
use bb_shared.ShareState.Laws.{IsReadable, not_decrypted, load-save, load-unreadable}
use bb_shared.Sharing.{
  Sharing, failed, snapshot, update_request, operate, persist_shares, mutate_shares, rpc, RpcReply,
  Failure, start,
}
use bb_shared.Sharing.Rollback.{IsWellFormed, rpc-unchanged}
use bb_shared.Sharing.Restart.{start-mutate_shares}
use bb_shared.Tests.Data.{tag, alpha, draws}
use bb_shared.Tests.Store.{store_run}

-- Every function that a call of the owner runs.
record_run : Unit {0}
unfolding store_run get_field set_field split starts_with seal_secret open_secret secret_envelope
    get_by_path set_by_path encrypt_field encrypt_record decrypt_field decrypt_record is_prefixed
    read_share read_shares shares_json read_token read_tokens tokens_json read_state has_repeat
    no_repeats valid_state save load snapshot operate persist_shares mutate_shares rpc list_tokens
    restore_tokens init start fill
record_run = tt

abbrev zeros : Bytes
zeros = 0 ∷ 0 ∷ 0 ∷ 0 ∷ []

-- A cipher with a tag of 16 bytes, and codecs that copy.
abbrev pub crypto : Crypto
crypto = record {
  encrypt = λ key nonce plain. (9 ∷ plain, zeros ++ (zeros ++ (zeros ++ zeros)));
  decrypt = λ key nonce ciphertext t. elim ciphertext [ [] ↦ none | b ∷ bs ↦ some bs ];
  to_base64 = λ b. b;
  from_base64 = λ s. s;
  to_utf8 = λ s. s;
  from_utf8 = λ b. b;
}

pub crypto-IsLawful : IsLawful crypto
crypto-IsLawful = record {
  decrypt-encrypt = λ key nonce plain. refl;
  length-tag = λ key nonce plain. refl;
  from-to_base64 = λ b. refl;
}

abbrev pub key : Bytes
key = zeros ++ (zeros ++ (zeros ++ (zeros ++ (zeros ++ (zeros ++ (zeros ++ zeros))))))

abbrev pub nonces : ℕ → Bytes
nonces i = i ∷ 1 ∷ 2 ∷ 3 ∷ zeros ++ zeros

abbrev link_id : Text
link_id = codes "bbsh_AAAABBBBCCCC"

abbrev bearer : Text
bearer = codes "bbsh_0123456789012345678901234567890123456789-_A"

abbrev link : Perm → TokenSnapshot
link p = record {
  id = link_id;
  label = codes "swift-fox";
  shares = record alpha { perm = p } ∷ [];
  created_at = 5;
  raw_token = bearer;
}

-- A JSON that prints each number as one unit, and reads one text.
abbrev pub codec_of : Option Json → JsonCodec
codec_of parsed = record {
  parse = λ s. parsed;
  stringify = λ v. codes "state";
  print_number = λ n. n ∷ [];
  read_number = λ s. elim s [ [] ↦ none | c ∷ cs ↦ some c ];
}

abbrev codec : JsonCodec
codec = codec_of (some (state_json (codec_of none) (link write ∷ [])))

codec-IsReadable : IsReadable crypto codec (link write ∷ [])
unfolding record_run
codec-IsReadable = record { numbers = λ n. refl; parsed = refl; carried = refl }

abbrev blank : ShareRecord
blank = record { kv = none; recovery = false }

open_secret-seal_secret_example :
    (env : SecretEnvelope) × (seal_secret crypto key (nonces 0) (codes "hi") ≡ ok env)
    × (secret_envelope (envelope_json env) ≡ some env)
    × (open_secret crypto key env ≡ ok (codes "hi"))
open_secret-seal_secret_example =
    open_secret-seal_secret crypto key (nonces 0) (codes "hi") crypto-IsLawful refl refl refl

abbrev settings : Json
settings = obj (
    field (codes "kind") (num (codes "1"))
      (field (codes "auth") (obj (field (codes "secret") (str (codes "hi")) end)) end))

decrypt_record-encrypt_record_case :
    (sealed : Json) × (encrypt_record crypto key nonces 0 settings (codes "auth.secret" ∷ [])
      ≡ ok sealed)
    × (decrypt_record crypto key sealed false (codes "auth.secret" ∷ []) ≡ ok (settings, false))
unfolding record_run
decrypt_record-encrypt_record_case =
    decrypt_record-encrypt_record crypto key nonces (codes "auth.secret") (codes "hi") settings
      crypto-IsLawful refl refl refl refl

valid_state-state_json_case :
    valid_state codec (state_json codec (link read ∷ link read ∷ []))
    ≡ (if is_storable (link read ∷ link read ∷ []) then some (link read ∷ link read ∷ []) else none)
valid_state-state_json_case = valid_state-state_json codec (link read ∷ link read ∷ []) (λ n. refl)

-- A link that is repeated is not read back.
repeated_test : valid_state codec (state_json codec (link read ∷ link read ∷ [])) ≡ none
unfolding record_run
repeated_test = refl

abbrev kept_record : ShareRecord
kept_record = record {
  kv = some (
      obj (
        field (codes "version") (num (codes "1")) (
          field (codes "payload")
            (envelope_json (record {
              version = num (codes "1");
              algorithm = str (codes "AES-256-GCM");
              nonce = nonces 0;
              ct = 9 ∷ codes "state";
              tag = zeros ++ (zeros ++ (zeros ++ zeros));
            }))
            end)));
  recovery = false;
}

load_after_save : load crypto codec key nonces false kept_record ≡ (link write ∷ [], kept_record)
unfolding record_run
load_after_save =
    load-save crypto codec key nonces true false blank (link write ∷ []) kept_record crypto-IsLawful
      codec-IsReadable refl refl refl

-- A value whose payload is no envelope and no text.
abbrev foreign : Json
foreign = obj (field (codes "payload") (num (codes "7")) end)

abbrev foreign_record : ShareRecord
foreign_record = record { kv = some foreign; recovery = false }

load-unreadable_example :
    ((load crypto codec key nonces true foreign_record).0 ≡ [])
    × ((load crypto codec key nonces true foreign_record).1.kv ≡ some foreign)
    × (save crypto codec key nonces true
          (load crypto codec key nonces true foreign_record).1
          (link write ∷ [])
        ≡ needs_recovery)
unfolding record_run
load-unreadable_example =
    load-unreadable crypto codec key nonces true foreign_record foreign true (link write ∷ []) refl
      (λ e. cc) (not_decrypted (corrupt_field (codes "payload")) refl)

abbrev token_of : Perm → Token
token_of p = record {
  id = link_id;
  hash = tag bearer;
  label = codes "swift-fox";
  shares = record alpha { perm = p } ∷ [];
  created_at = 5;
}

abbrev sharing : Perm → ShareRecord → Sharing
sharing p r = record {
  tokens = (link_id, token_of p) ∷ [];
  raw_tokens = (link_id, bearer) ∷ [];
  stored = r;
}

sharing-IsWellFormed : (p : Perm) (r : ShareRecord) → IsWellFormed (sharing p r)
unfolding record_run
sharing-IsWellFormed p r = record {
  tokens_valid = record { distinct = (refl, tt); sound = ((refl, (refl, tt)), tt) };
  bearers_distinct = (refl, tt);
}

-- A call for which `kv.set` fails.
abbrev refused : RpcReply × Sharing
refused =
    rpc crypto codec key nonces false tag 20 draws (update_request link_id (codes "thr_a") write)
      (sharing read blank)

rpc-unchanged_example :
    ((why : Failure) × (refused.0.answer ≡ failed why)) × (refused.1 ≡ sharing read blank)
unfolding record_run
rpc-unchanged_example =
    rpc-unchanged crypto codec key nonces false tag 20 draws
      (update_request link_id (codes "thr_a") write) (sharing read blank)
      (sharing-IsWellFormed read blank) refl

only_snapshot :
    (ts : List TokenSnapshot)
    → snapshot ((link_id, bearer) ∷ []) (list_tokens ((link_id, token_of write) ∷ [])) ≡ some ts
    → IsReadable crypto codec ts
unfolding record_run
only_snapshot ts e =
    let listed : link write ∷ [] ≡ ts = ground arith in
    subst (IsReadable crypto codec) listed codec-IsReadable

start-mutate_shares_example :
    IsValid (start crypto codec key nonces true tag kept_record).tokens
    × ((x y : Text)
        → grants (start crypto codec key nonces true tag kept_record).tokens x y
          ≡ grants (sharing write kept_record).tokens x y)
unfolding record_run
start-mutate_shares_example =
    start-mutate_shares crypto codec key nonces true true tag tag 20 draws
      (update_request link_id (codes "thr_a") write) (sharing read blank) none
      (sharing write kept_record) crypto-IsLawful refl refl (sharing-IsWellFormed read blank)
      only_snapshot refl
