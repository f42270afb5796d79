-- ===== src/Lifecycle/Mutations/Recorded.antt =====
-- The store of plugin/worker-lifecycle/worker-record.ts, as plugin/worker-lifecycle/worker-lifecycle.ts uses it.
use bb_shared.Base.{ℕ, ◌≡◌, Bool, length}
use bb_shared.DeviceKey.{Bytes, Crypto}
use bb_shared.DeviceKey.RoundTrip
use bb_shared.ShareState.{JsonCodec}
use bb_shared.Connections.{Snapshot, Urls, ConnectionStore, load, save}
use bb_shared.Connections.Laws.{IsReadable, save-IsSaved, load-save}
use bb_shared.Connections.Valid.{load-valid}
use bb_shared.Lifecycle.Mutations.{RecordStore}
use bb_shared.Lifecycle.Mutations.Books.Claims.{IsLawful}

-- What a save depends on besides: the nonces that are drawn, of 12 bytes, and whether `kv.set` works.
record SaveCall : Type 0 where
  pub nonces : ℕ → Bytes
  pub sized : length (nonces 0) ≡ 12
  pub works : Bool

abbrev recorded : Urls → Crypto → JsonCodec → Bytes → RecordStore ConnectionStore SaveCall
recorded u c k key = record {
  load = load u c k key;
  save = λ call s snapshot. save u c k key call.nonces call.works s snapshot;
}

-- The store gives back what it saved, and neither loads nor saves what does not meet the schemas, where the
-- key has 32 bytes and the runtime's JSON, UTF-8 and cipher are read back.
recorded-IsLawful :
    (u : Urls) (c : Crypto) (k : JsonCodec) (key : Bytes)
    → RoundTrip.IsLawful c
    → ((s : Snapshot) → IsReadable c k s)
    → length key ≡ 32
    → IsLawful u (recorded u c k key)
recorded-IsLawful u c k key lawful readable sized = record {
  loads_valid = λ s snapshot after e. load-valid u k c key s after snapshot e;
  saves_valid = λ call s snapshot after e. (
    (save-IsSaved u c k key call.nonces call.works s snapshot after (readable snapshot).numbers
        e).valid,
    load-save u c k key call.nonces call.works s snapshot after lawful (readable snapshot) sized
        call.sized e,
  );
}
