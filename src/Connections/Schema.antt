-- ===== src/Connections/Schema.antt =====
-- The schemas of plugin/worker-lifecycle/worker-record.ts, on what the program writes.
use bb_shared.Base.{
  ℕ, ◌≡◌, refl, List, [], ◌∷◌, all, Option, none, some, Text, same, arith, if◌then◌else◌,
}
use bb_shared.Base.Json.{get_field}
use bb_shared.ShareState.{JsonCodec}
use bb_shared.Connections.{
  Claim, ConnectionRecord, Snapshot, Urls, is_claim, is_record, is_snapshot, time_json, claim_json,
  record_json, records_json, default_json, snapshot_json, read_time, read_default, read_claim,
  read_record, read_records, read_snapshot,
}

read_default-default_json : (d : Option Text) → read_default (some (default_json d)) ≡ some d
read_default-default_json none = refl
read_default-default_json (some id) = refl

module _ (u : Urls) (k : JsonCodec)
    (numbers : (n : ℕ) → k.read_number (k.print_number n) ≡ some n) where
  read_time-time_json : (t : Option ℕ) → read_time k (some (time_json k t)) ≡ some t
  read_time-time_json none = refl
  read_time-time_json (some n) = rw (numbers n) refl

  read_claim-claim_json :
      (c : Option Claim)
      → read_claim u k (some (claim_json k c)) ≡ (if is_claim u c then some c else none)
  unfolding read_claim get_field same
  read_claim-claim_json none = refl
  read_claim-claim_json (some c) = ground (arith, read_time-time_json c.expires_at)

  read_record-record_json :
      (r : ConnectionRecord)
      → read_record u k (record_json k r) ≡ (if is_record u r then some r else none)
  unfolding read_record get_field same
  read_record-record_json r = ground (arith, read_claim-claim_json r.claim, numbers r.created_at)

  read_records-records_json :
      (rs : List ConnectionRecord)
      → read_records u k (records_json k rs) ≡ (if all (is_record u) rs then some rs else none)
  unfolding read_records records_json
  read_records-records_json [] = refl
  read_records-records_json (r ∷ rs) =
      ground (arith, read_record-record_json r, read_records-records_json rs)

-- The snapshot that the program writes is read back exactly if it meets the schemas: each record does, there
-- are at most 16, no id, relay or address twice, and a default among them unless there is none.
pub read_snapshot-snapshot_json :
    (u : Urls) (k : JsonCodec) (s : Snapshot)
    → ((n : ℕ) → k.read_number (k.print_number n) ≡ some n)
    → read_snapshot u k (snapshot_json k s) ≡ (if is_snapshot u s then some s else none)
unfolding read_snapshot get_field same
read_snapshot-snapshot_json u k s numbers = ground (
  arith,
  read_records-records_json u k numbers s.connections,
  read_default-default_json s.default_id,
)
