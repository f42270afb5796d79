-- ===== src/Tests/Relays.antt =====
-- The connections to relays: their record, their lifecycle, and the messages of their errors.
use bb_shared.Base.{
  ◌≡◌, refl, [], ◌∷◌, ◌++◌, true, false, Option, none, some, Text, text_eq, codes, same, trim,
  drop_end, starts_with, split, if◌then◌else◌, arith,
}
use bb_shared.Base.Json.{get_field}
use bb_shared.TokenStore.{or_else}
use bb_shared.Gateway.Requests.{contains}
use bb_shared.DeviceKey.{
  seal_secret, open_secret, secret_envelope, get_by_path, set_by_path, encrypt_field,
  encrypt_record, decrypt_field, decrypt_record,
}
use bb_shared.ShareState.{JsonCodec, is_prefixed}
use bb_shared.Redaction.{redact_run, redact_prefixed, redact_secrets}
use bb_shared.Redaction.Runs.{contains-redact_secrets}
use bb_shared.Connections.{
  ConnectionRecord, Snapshot, Urls, normalize_connection_url, is_canonical, is_tunnel_secret,
  all_distinct, is_consistent, is_snapshot, records_json, snapshot_json, read_claim, read_record,
  read_records, read_snapshot, ConnectionStore, load, save,
}
use bb_shared.Connections.Schema.{read_snapshot-snapshot_json}
use bb_shared.Connections.Laws.{IsReadable, load-save}
use bb_shared.Tests.Records.{crypto, crypto-IsLawful, key, nonces, codec_of}

abbrev pub relay_url : Text
relay_url = codes "https://a.b"

-- Every address is this one.
abbrev pub urls_of_one : Urls
urls_of_one = record {
  parse_url = λ s. some (record {
    protocol = codes "https:";
    username = [];
    password = [];
    pathname = codes "/";
    search = [];
    hash = [];
    origin = relay_url;
  });
  is_url = λ s. true;
}

abbrev pub secret : Text
secret = codes "0123456789012345678901234567890123456789-_A"

abbrev pub relay : ConnectionRecord
relay = record {
  id = codes "c1";
  relay_id = codes "r1";
  url = relay_url;
  tunnel_secret = secret;
  claim = none;
  created_at = 5;
}

abbrev one_relay : Snapshot
one_relay = record { default_id = some (codes "c1"); connections = relay ∷ [] }

-- Every function that a load or a save runs.
unfoldable pub relay_run : Unit {0}
unfolding get_field split seal_secret open_secret secret_envelope get_by_path set_by_path
    encrypt_field encrypt_record decrypt_field decrypt_record is_prefixed same contains trim
    drop_end starts_with normalize_connection_url is_canonical is_tunnel_secret all_distinct
    is_consistent records_json read_claim read_record read_records read_snapshot load save
relay_run = tt

read_snapshot-snapshot_json_case :
    read_snapshot urls_of_one (codec_of none) (snapshot_json (codec_of none) one_relay)
    ≡ (if is_snapshot urls_of_one one_relay then some one_relay else none)
read_snapshot-snapshot_json_case =
    read_snapshot-snapshot_json urls_of_one (codec_of none) one_relay (λ n. refl)

-- It is read back.
relay_test : is_snapshot urls_of_one one_relay ≡ true
unfolding relay_run
relay_test = refl

abbrev relay_codec : JsonCodec
relay_codec = codec_of (some (snapshot_json (codec_of none) one_relay))

relay_codec-IsReadable : IsReadable crypto relay_codec one_relay
unfolding relay_run
relay_codec-IsReadable = record { numbers = λ n. refl; parsed = refl; carried = refl }

abbrev empty_store : ConnectionStore
empty_store = record { kv = none; unreadable = false }

abbrev saved_store : Option ConnectionStore
saved_store = save urls_of_one crypto relay_codec key nonces true empty_store one_relay

abbrev kept_store : ConnectionStore
kept_store = or_else saved_store empty_store

load-save_example :
    load urls_of_one crypto relay_codec key kept_store ≡ (some one_relay, kept_store)
unfolding relay_run
load-save_example =
    load-save urls_of_one crypto relay_codec key nonces true empty_store one_relay kept_store
      crypto-IsLawful relay_codec-IsReadable refl refl refl

contains-redact_secrets_example :
    contains secret (redact_secrets (codes "refused: " ++ secret)) ≡ false
contains-redact_secrets_example =
    contains-redact_secrets (codes "refused: " ++ secret) secret (omega arith) refl

-- The rest of the message stays.
redaction_test : redact_secrets (codes "refused: " ++ secret) ≡ codes "refused: [redacted]"
unfolding redact_secrets redact_prefixed redact_run starts_with
redaction_test = refl
