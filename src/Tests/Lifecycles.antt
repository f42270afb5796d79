-- ===== src/Tests/Lifecycles.antt =====
-- The lifecycle of the connections to relays.
use bb_shared.Base.{
  ◌≡◌, refl, subst, ap, List, [], ◌∷◌, ◌++◌, Bool, true, false, ◌&&◌, Option, none, some, Text,
  text_eq, codes, map, lookup, insert, erase, arith,
}
use bb_shared.Base.Json.{Json, num, str, obj, field, end}
use bb_shared.SharedTunnel.{TunnelState}
use bb_shared.Connections.{
  normalize_connection_url, is_canonical, ConnectionRecord, Snapshot, is_snapshot, no_connections,
  is_consistent, all_distinct,
}
use bb_shared.Lifecycle.{
  ConnectionState, TunnelStatus, FetchResult, responded, begin_probe, on_status_change, connect,
  stop_tunnel, conclude_probe, trouble, judged, fault_after,
}
use bb_shared.Lifecycle.Mutations.{
  RecordStore, Lifecycle, each, identity, new_record, fresh, records, stop, list_connections,
  current_worker_url, get_claim_url,
}
use bb_shared.Lifecycle.Mutations.Steps.{
  Event, candidate, connection, initialize_call, stop_call, save_done, register_call, remove_call,
  poll, probe_awaited, tunnel_changes, probe_answered, update, fail, initialize, mutate,
  remove_connection, set_default_connection, end_registration, register, deploy, step, run,
  complete,
}
use bb_shared.Lifecycle.Mutations.Steps.{save_records}
use bb_shared.Lifecycle.Connected.{IsSound}
use bb_shared.Lifecycle.Mutations.Everywhere.{Everywhere}
use bb_shared.Lifecycle.Mutations.Verified.{IsUnready, run_fresh-IsUnready}
use bb_shared.Lifecycle.Mutations.Ready.{run_fresh-IsSound}
use bb_shared.Lifecycle.Mutations.Books.{Change, book_of}
use bb_shared.Lifecycle.Mutations.Books.Refinement.{step-Change}
use bb_shared.Lifecycle.Mutations.Books.Claims.{IsLawful, claimless}
use bb_shared.Lifecycle.Mutations.Books.Restart.{run_fresh-consistent, initialize-run}
use bb_shared.Lifecycle.Mutations.Guards.{new_record-fits}
use bb_shared.Tests.Relays.{relay_url, urls_of_one, secret, relay_run}

-- A store in memory that checks what it is given; a save works or not.
abbrev Memory : Type 0
Memory = Option Snapshot

abbrev passed : Bool → Snapshot → Option Snapshot × Memory
passed true s = (some s, some s)
passed false s = (none, some s)

abbrev load_memory : Memory → Option Snapshot × Memory
load_memory none = (some no_connections, none)
load_memory (some s) = passed (is_snapshot urls_of_one s) s

abbrev kept_memory : Bool → Snapshot → Option Memory
kept_memory true s = some (some s)
kept_memory false s = none

abbrev memory : RecordStore Memory Bool
memory = record {
  load = load_memory;
  save = λ works m s. kept_memory (is_snapshot urls_of_one s && works) s;
}

-- A snapshot that is in memory and valid.
abbrev IsHeld : Snapshot → Memory → Type 0
IsHeld s after = (is_snapshot urls_of_one s ≡ true) × (load_memory after ≡ (some s, after))

held :
    (t s : Snapshot) (after : Memory)
    → is_snapshot urls_of_one t ≡ true
    → t ≡ s
    → some t ≡ after
    → IsHeld s after
held t s after valid e f =
    let whole : IsHeld t (some t) = (valid, ap (λ b. passed b t) valid) in
    subst (λ m. IsHeld s m) f (subst (λ x. IsHeld x (some t)) e whole)

passed-IsHeld :
    (b : Bool) (t s : Snapshot) (after : Memory)
    → is_snapshot urls_of_one t ≡ b
    → passed b t ≡ (some s, after)
    → IsHeld s after
passed-IsHeld true t s after valid e =
    let alike : t ≡ s = cc in let stored : some t ≡ after = cc in held t s after valid alike stored
passed-IsHeld false t s after valid e = absurd cc

load_memory-IsHeld :
    (m : Memory) (s : Snapshot) (after : Memory) → load_memory m ≡ (some s, after) → IsHeld s after
unfolding is_consistent all_distinct
load_memory-IsHeld none s after e =
    let blank : no_connections ≡ s = cc in
    let empty : none ≡ after = cc in
    subst (λ m. IsHeld s m) empty
      (subst (λ t. (is_snapshot urls_of_one t ≡ true) × (load_memory none ≡ (some t, none))) blank
        (refl, refl))
load_memory-IsHeld (some t) s after e = passed-IsHeld (is_snapshot urls_of_one t) t s after refl e

kept_memory-IsHeld :
    (b works : Bool) (s : Snapshot) (after : Memory)
    → is_snapshot urls_of_one s ≡ b
    → kept_memory (b && works) s ≡ some after
    → IsHeld s after
kept_memory-IsHeld true true s after valid e =
    let stored : some s ≡ after = cc in held s s after valid refl stored
kept_memory-IsHeld true false s after valid e = absurd cc
kept_memory-IsHeld false works s after valid e = absurd cc

memory-IsLawful : IsLawful urls_of_one memory
memory-IsLawful = record {
  loads_valid = load_memory-IsHeld;
  saves_valid =
      λ works m s after e. kept_memory-IsHeld (is_snapshot urls_of_one s) works s after refl e;
}

abbrev hello : FetchResult
hello = responded 200 (codes "200") (
    obj (
      field (codes "service") (str (codes "bb-shared-relay")) (
        field (codes "version") (num (codes "1")) (
          field (codes "protocolVersion") (num (codes "2"))
            (field (codes "relayId") (str (codes "r2")) end)))))

abbrev up : TunnelStatus
up = record { state = TunnelState.connected; last_error = none }

-- A registration that succeeds, up to its save.
abbrev unfinished : List (Event Bool)
unfinished =
    initialize_call
    ∷ register_call 10 (codes "c2") (codes "a.b") secret hello
    ∷ poll true 11 (codes "x")
    ∷ probe_awaited true 12
    ∷ tunnel_changes candidate (codes "y") up
    ∷ poll true 13 (codes "z")
    ∷ probe_answered candidate hello
    ∷ probe_awaited true 14
    ∷ []

-- The same with the end of its save.
abbrev pairing : List (Event Bool)
pairing = unfinished ++ (save_done ∷ [])

abbrev yes : Text → Json → Bool
yes challenge body = true

abbrev paired : Lifecycle Memory
paired = run memory urls_of_one (codes "2") 30000 yes pairing (fresh none)

-- Every function that a run of the lifecycle calls.
lifecycle_run : Unit {0}
unfolding relay_run lookup insert erase begin_probe on_status_change connect stop_tunnel
    conclude_probe trouble judged fault_after each identity new_record stop list_connections
    current_worker_url get_claim_url update fail initialize mutate remove_connection
    set_default_connection end_registration register deploy step run save_records complete
lifecycle_run = tt

paired_test : current_worker_url paired ≡ some relay_url
unfolding lifecycle_run
paired_test = refl

-- The connection that is paired is ready, and is the only one.
ready_test :
    map {B = Text × ConnectionState} (λ c. (c.id, c.state)) (list_connections paired)
    ≡ (codes "c2", ConnectionState.ready) ∷ []
unfolding lifecycle_run
ready_test = refl

abbrev events : List (Event Bool)
events =
    pairing
    ++ (tunnel_changes (connection (codes "c2")) (codes "w")
          (record { state = TunnelState.reconnecting; last_error = none })
        ∷ remove_call false 15 (codes "c2")
        ∷ [])

-- A connection whose tunnel is lost is offline, and stays when its removal is not saved.
offline_test :
    map {B = Text × ConnectionState}
      (λ c. (c.id, c.state))
      (list_connections (run memory urls_of_one (codes "2") 30000 yes events (fresh none)))
    ≡ (codes "c2", ConnectionState.offline) ∷ []
unfolding lifecycle_run
offline_test = refl

-- A stop between the save of a registration and its end: the call fails, and the connection is stored.
abbrev stopped_late : Lifecycle Memory
stopped_late =
    run memory urls_of_one (codes "2") 30000 yes (unfinished ++ (stop_call ∷ save_done ∷ []))
      (fresh none)

stop_while_saving_test :
    (stopped_late.connections ≡ [])
    × (map {B = Text}
          (λ r. r.id)
          (records (initialize memory (fresh stopped_late.store)).connections)
        ≡ codes "c2" ∷ [])
unfolding lifecycle_run
stop_while_saving_test = (refl, refl)

run_fresh-IsSound_example :
    Everywhere IsSound (run memory urls_of_one (codes "2") 30000 yes events (fresh none))
run_fresh-IsSound_example = run_fresh-IsSound memory urls_of_one (codes "2") 30000 yes events none

abbrev no : Text → Json → Bool
no challenge body = false

run_fresh-IsUnready_example :
    Everywhere IsUnready (run memory urls_of_one (codes "2") 30000 no pairing (fresh none))
run_fresh-IsUnready_example =
    run_fresh-IsUnready memory urls_of_one (codes "2") 30000 no pairing none
      (tt, (tt, (tt, (tt, (tt, (tt, ((λ challenge good. refl), (tt, (tt, tt)))))))))

step-Change_example : Change memory (book_of paired) (
    book_of
      (step memory urls_of_one (codes "2") 30000 yes (remove_call true 16 (codes "c2")) paired))
step-Change_example =
    step-Change memory urls_of_one (codes "2") 30000 yes (remove_call true 16 (codes "c2")) paired

run_fresh-consistent_example :
    is_consistent
      (record { default_id = paired.default_id; connections = records paired.connections })
    ≡ true
unfolding lifecycle_run
run_fresh-consistent_example =
    run_fresh-consistent urls_of_one memory (codes "2") 30000 yes pairing none memory-IsLawful refl

-- The save of a registration is done, its end is not.
abbrev waiting : Lifecycle Memory
waiting = run memory urls_of_one (codes "2") 30000 yes unfinished (fresh none)

initialize-run_example :
    ((initialize memory (fresh waiting.store)).default_id ≡ (complete waiting).default_id)
    × (claimless (records (initialize memory (fresh waiting.store)).connections)
        ≡ claimless (records (complete waiting).connections))
unfolding lifecycle_run
initialize-run_example =
    initialize-run urls_of_one memory (codes "2") 30000 yes unfinished none memory-IsLawful refl
      refl

canonical_one :
    (url origin : Text)
    → normalize_connection_url urls_of_one url ≡ some origin
    → is_canonical urls_of_one origin ≡ true
unfolding relay_run
canonical_one url origin e =
    let one : relay_url ≡ origin = ground arith in
    subst (λ o. is_canonical urls_of_one o ≡ true) one refl

abbrev second : ConnectionRecord
second = record {
  id = codes "c2";
  relay_id = codes "r2";
  url = relay_url;
  tunnel_secret = secret;
  claim = none;
  created_at = 7;
}

new_record-fits_example :
    is_snapshot urls_of_one (record { default_id = some (codes "c2"); connections = second ∷ [] })
    ≡ true
unfolding lifecycle_run
new_record-fits_example =
    new_record-fits urls_of_one (codes "2") [] none 7 (codes "c2") (codes "a.b") secret none hello
      second (λ url origin e. canonical_one url origin e) refl refl refl refl refl
