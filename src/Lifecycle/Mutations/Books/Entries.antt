-- ===== src/Lifecycle/Mutations/Books/Entries.antt =====
-- The records under the connections of plugin/worker-lifecycle/worker-lifecycle.ts.
use bb_shared.Base.{
  ◌≡◌, refl, ap, ◌∙◌, Bool, true, false, not, ◌||◌, List, [], ◌∷◌, Option, none, some, Text,
  text_eq, Dict, values, lookup, insert, erase, has, arith, if◌then◌else◌, ◌==◌,
}
use bb_shared.Base.Json.{Json}
use bb_shared.SharedTunnel.{TunnelState}
use bb_shared.Connections.{ConnectionRecord}
use bb_shared.Lifecycle.{
  TunnelStatus, Runtime, Probe, FetchResult, new_runtime, changed_runtime, begin_probe,
  on_status_change, connect, judged, trouble, concluded, conclude_probe, stopped_tunnel,
  stop_tunnel,
}
use bb_shared.Lifecycle.Mutations.{records, each, connect_all, first_id}
use bb_shared.Lifecycle.Mutations.Books.{entries, enter_all, first_record_id}

-- What is observed of a connection does not change its record.
unfoldable pub Keeps : (Runtime → Runtime) → Type 0
Keeps f = (r : Runtime) → (f r).connection ≡ r.connection

pub begin_probe-Keeps : (aborted : Bool) (challenge : Text) → Keeps (begin_probe aborted challenge)
unfolding begin_probe Keeps
begin_probe-Keeps aborted challenge r = ground arith

pub on_status_change-Keeps :
    (aborted : Bool) (challenge : Text) (status : TunnelStatus)
    → Keeps (on_status_change aborted challenge status)
unfolding on_status_change Keeps
on_status_change-Keeps aborted challenge status r =
    ground (arith, begin_probe-Keeps aborted challenge (changed_runtime status r))

stopped_tunnel-connection :
    (tunnel : Option TunnelStatus) (r : Runtime)
    → (stopped_tunnel tunnel r).connection ≡ r.connection
unfolding Keeps
stopped_tunnel-connection none r = refl
stopped_tunnel-connection (some status) r =
    ground (arith, on_status_change-Keeps true [] (record status { state = TunnelState.stopped }) r)

pub stop_tunnel-Keeps : Keeps stop_tunnel
unfolding stop_tunnel Keeps
stop_tunnel-Keeps r = stopped_tunnel-connection r.tunnel r

pick-connection :
    (b : Bool) (x y : Runtime) (c : ConnectionRecord)
    → x.connection ≡ c
    → y.connection ≡ c
    → (if b then x else y).connection ≡ c
pick-connection true x y c p q = p
pick-connection false x y c p q = q

judged-connection :
    (problem : Option Text) (r : Runtime) → (judged problem r).connection ≡ r.connection
unfolding judged
judged-connection none r = refl
judged-connection (some message) r = refl

concluded-connection :
    (verify : Text → Json → Bool) (aborted : Bool) (answer : FetchResult) (p : Option Probe)
    (r : Runtime)
    → (concluded verify aborted answer p r).connection ≡ r.connection
concluded-connection verify aborted answer none r = refl
concluded-connection verify aborted answer (some p) r =
    pick-connection (not (r.generation == p.generation) || aborted) _ _ r.connection refl
      (judged-connection (trouble verify p.challenge answer) (record r { probe = none }))

pub conclude_probe-Keeps :
    (verify : Text → Json → Bool) (aborted : Bool) (answer : FetchResult)
    → Keeps (conclude_probe verify aborted answer)
unfolding conclude_probe Keeps
conclude_probe-Keeps verify aborted answer r = concluded-connection verify aborted answer r.probe r

pub connect-Keeps : (aborted : Bool) → Keeps (connect aborted)
unfolding connect Keeps
connect-Keeps aborted r = ground (
  arith,
  on_status_change-Keeps aborted [] (record { state = TunnelState.connecting; last_error = none })
      r,
)

pub entries-each :
    (f : Text → Runtime → Runtime) (m : Dict Text Runtime)
    → ((k : Text) → Keeps (f k))
    → entries (each f m) ≡ entries m
unfolding entries each Keeps
entries-each f [] h = refl
entries-each f ((k, r) ∷ m) h = ground (arith, h k r, entries-each f m h)

pub entries-insert :
    (k : Text) (r : Runtime) (m : Dict Text Runtime)
    → entries (insert k r m) ≡ insert k r.connection (entries m)
unfolding entries insert
entries-insert k r [] = refl
entries-insert k r ((j, w) ∷ m) = ground (arith, entries-insert k r m)

pub entries-erase : (k : Text) (m : Dict Text Runtime) → entries (erase k m) ≡ erase k (entries m)
unfolding entries erase
entries-erase k [] = refl
entries-erase k ((j, w) ∷ m) = ground (arith, entries-erase k m)

pub values-entries : (m : Dict Text Runtime) → values (entries m) ≡ records m
unfolding entries
values-entries [] = refl
values-entries ((k, r) ∷ m) = ap (λ t. r.connection ∷ t) (values-entries m)

pub has-entries : (k : Text) (m : Dict Text Runtime) → has k (entries m) ≡ has k m
unfolding entries lookup
has-entries k [] = refl
has-entries k ((j, r) ∷ m) = ground (arith, has-entries k m)

pub first_record_id-entries : (m : Dict Text Runtime) → first_record_id (entries m) ≡ first_id m
unfolding entries
first_record_id-entries [] = refl
first_record_id-entries ((k, r) ∷ m) = refl

pub entries-connect_all :
    (aborted : Bool) (rs : List ConnectionRecord) (m : Dict Text Runtime)
    → entries (connect_all aborted rs m) ≡ enter_all rs (entries m)
unfolding Keeps
entries-connect_all aborted [] m = refl
entries-connect_all aborted (r ∷ rs) m =
    entries-connect_all aborted rs _
    ∙ ap (enter_all rs) (
        entries-insert r.id (connect aborted (new_runtime r)) m
        ∙ ap (λ x. insert r.id x (entries m)) (connect-Keeps aborted (new_runtime r)))
