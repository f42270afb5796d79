-- ===== src/Lifecycle/Mutations.antt =====
-- plugin/worker-lifecycle/worker-lifecycle.ts: the connections together, and what changes them.
-- Calls of `mutate` wait for the one before. A call is a step up to its save and a step after it, while others
-- come between; a registration, which polls, is several with the candidate between them. A stop that comes
-- while a call awaits an answer counts as coming after it, and what is saved as stored at once.
-- `publishStatus` tells others to look and changes nothing here. Each error that a call throws is kept in a list.
pub mod Steps
pub mod Everywhere
pub mod Ready
pub mod Verified
pub mod Books
pub mod Guards
pub mod Recorded
use mathlib.Core.Logic.{◌⊎◌, inl, inr}
use bb_shared.Base.{
  ℕ, ◌+◌, Bool, true, false, not, ◌&&◌, ◌||◌, List, [], ◌∷◌, ◌++◌, map, is_one_of, Option, none,
  some, Text, codes, same, text_eq, Dict, values, lookup, insert, erase, length, is_some,
  if◌then◌else◌, leb, ltb, ◌==◌,
}
use bb_shared.Base.Json.{Json, num, str, property}
use bb_shared.TokenStore.{or_else}
use bb_shared.Frames.{is_text}
use bb_shared.SharedTunnel.{TunnelState}
use bb_shared.Redaction.{redact_secrets}
use bb_shared.Connections.{
  Claim, ConnectionRecord, Snapshot, Urls, normalize_connection_url, is_tunnel_secret, is_relay_id,
  urls, relay_ids,
}
use bb_shared.Lifecycle.{
  ConnectionState, TunnelStatus, Runtime, FetchResult, fetch_failed, responded, is_ok_status,
  is_ready, new_runtime, connect, stop_tunnel, begin_probe,
}

-- `deps.recordStore`; an argument of `save` stands for what a call depends on besides. `save` gives `none`
-- where it throws.
pub record RecordStore (S C : Type 0) : Type 0 where
  pub load : S → Option Snapshot × S
  pub save : C → S → Snapshot → Option S

pub data Refusal : Type 0 where
  stopping not_loaded not_found not_saved : Refusal
  too_many bad_url bad_secret url_in_use not_reachable no_relay relay_in_use no_worker : Refusal
  not_paired : (message : Text) → Refusal

-- A candidate, and what `register` knows while it polls.
pub record Registration : Type 0 where
  pub runtime : Runtime
  pub deadline : ℕ
  pub awaits_probe : Bool

-- What a call still has to do when its save is done.
pub data Commit : Type 0 where
  removal : (id : Text) (default_id : Option Text) → Commit
  preference : (id : Text) → Commit
  addition : (default_id : Text) → Commit

-- `initialization` holds whether the loading succeeded, `saving` the call that awaits the store.
pub record Lifecycle (S : Type 0) : Type 0 where
  pub connections : Dict Text Runtime
  pub candidate : Option Registration
  pub default_id : Option Text
  pub initialization : Option Bool
  pub saving : Option Commit
  pub aborted : Bool
  pub store : S
  pub refusals : List Refusal

pub record ConnectionStatus : Type 0 where
  pub id : Text
  pub url : Text
  pub state : ConnectionState
  pub is_default : Bool
  pub tunnel : Option TunnelState
  pub fault : Option Text

abbrev pub records : Dict Text Runtime → List ConnectionRecord
records m = map (λ (r : Runtime). r.connection) (values m)

-- The objects in a map, changed in place.
unfoldable pub each : (Text → Runtime → Runtime) → Dict Text Runtime → Dict Text Runtime
each f [] = []
each f ((k, r) ∷ m) = (k, f k r) ∷ each f m

abbrev pub on_runtime : (Runtime → Runtime) → Option Registration → Option Registration
on_runtime f none = none
on_runtime f (some g) = some (record g { runtime = f g.runtime })

abbrev expired : ℕ → Option Claim → Bool
expired now none = false
expired now (some claim) = elim claim.expires_at [ none ↦ false | some at ↦ leb at now ]

-- A record as it is saved: without a claim that has expired.
abbrev pub prune : ℕ → ConnectionRecord → ConnectionRecord
prune now r = record r { claim = if expired now r.claim then none else r.claim }

abbrev pub pruned : ℕ → Option Text → List ConnectionRecord → Snapshot
pruned now default_id rs = record { default_id = default_id; connections = map (prune now) rs }

abbrev pub is_same_id : Option Text → Text → Bool
is_same_id none id = false
is_same_id (some default_id) id = same default_id id

abbrev pub first_id : Dict Text Runtime → Option Text
first_id [] = none
first_id ((k, r) ∷ m) = some r.connection.id

abbrev pub default_after : Text → Dict Text Runtime → Option Text → Option Text
default_after id next default_id = if is_same_id default_id id then first_id next else default_id

abbrev pub proceed {ℓ κ} : {A : Type ℓ} {B : Type κ} → Refusal ⊎ A → (A → Refusal ⊎ B) → Refusal ⊎ B
proceed (inl why) f = inl why
proceed (inr a) f = f a

abbrev pub unless : Bool → Refusal → Refusal ⊎ (Unit {0})
unless true why = inl why
unless false why = inr tt

abbrev is_num : Text → Option Json → Bool
is_num expected (some (num s)) = same s expected
is_num expected _ = false

abbrev relay_id_of : Option Json → Refusal ⊎ Text
relay_id_of (some (str s)) = if is_relay_id s then inr s else inl no_relay
relay_id_of _ = inl no_relay

-- `identity`, for the version of the protocol.
unfoldable pub identity : Text → FetchResult → Refusal ⊎ Text
identity protocol (fetch_failed message) = inl not_reachable
identity protocol (responded status digits body) =
    if is_ok_status status
      && (is_text (codes "bb-shared-relay") (property (codes "service") body)
          && (is_num (codes "1") (property (codes "version") body)
              && is_num protocol (property (codes "protocolVersion") body)))
    then relay_id_of (property (codes "relayId") body)
    else inl no_relay

abbrev pub normalized : Option Text → Refusal ⊎ Text
normalized none = inl bad_url
normalized (some url) = inr url

-- The record of a registration, where `register` gets as far as that.
unfoldable pub new_record :
    Urls
    → Text
    → Dict Text Runtime
    → (now : ℕ) (id input secret : Text) → Option Claim
    → FetchResult
    → Refusal ⊎ ConnectionRecord
new_record u protocol m now id input secret claim reply =
    proceed (normalized (normalize_connection_url u input)) (λ url.
      proceed (unless (not (is_tunnel_secret secret)) bad_secret) (λ _.
        proceed (unless (leb 16 (length m)) too_many) (λ _.
          proceed (unless (is_one_of url (urls (records m))) url_in_use) (λ _.
            proceed (identity protocol reply) (λ relay_id.
              proceed (unless (is_one_of relay_id (relay_ids (records m))) relay_in_use) (λ _.
                inr (record {
                  id = id;
                  relay_id = relay_id;
                  url = url;
                  tunnel_secret = secret;
                  claim = claim;
                  created_at = now;
                })))))))

abbrev pub has_failed : Option TunnelStatus → Bool
has_failed none = false
has_failed (some status) = elim status.state [
  | TunnelState.stopped ↦ true
  | TunnelState.incompatible ↦ true
  | _ ↦ false
]

abbrev pub connect_all : Bool → List ConnectionRecord → Dict Text Runtime → Dict Text Runtime
connect_all aborted [] m = m
connect_all aborted (r ∷ rs) m =
    connect_all aborted rs (insert r.id (connect aborted (new_runtime r)) m)

module _ {S : Type 0} where
  abbrev pub fresh : S → Lifecycle S
  fresh store = record {
    connections = [];
    candidate = none;
    default_id = none;
    initialization = none;
    saving = none;
    aborted = false;
    store = store;
    refusals = [];
  }

  abbrev pub refuse : Refusal → Lifecycle S → Lifecycle S
  refuse why s = record s { refusals = s.refusals ++ why ∷ [] }

  unfoldable pub stop : Lifecycle S → Lifecycle S
  stop s = if s.aborted then s else record s {
    aborted = true;
    connections = each (λ _. stop_tunnel) s.connections;
    candidate = on_runtime stop_tunnel s.candidate;
  }

  unfoldable pub current_worker_url : Lifecycle S → Option Text
  current_worker_url s = elim (lookup (or_else s.default_id []) s.connections) [
    | none ↦ none
    | some r ↦ some r.connection.url
  ]

  unfoldable pub list_connections : Lifecycle S → List ConnectionStatus
  list_connections s =
      map
        (λ (r : Runtime). record {
          id = r.connection.id;
          url = r.connection.url;
          state = r.state;
          is_default = is_same_id s.default_id r.connection.id;
          tunnel = elim r.tunnel [ none ↦ none | some status ↦ some status.state ];
          fault = r.fault;
        })
        (values s.connections)

  unfoldable pub get_claim_url : ℕ → Text → Lifecycle S → Option Claim
  get_claim_url now id s = elim (lookup id s.connections) [
    | none ↦ none
    | some r ↦ (prune now r.connection).claim
  ]
