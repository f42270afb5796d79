-- ===== src/Tests/Dialing.antt =====
-- The tunnel to the relay.
use bb_shared.Base.{◌≡◌, refl, ℕ, List, [], ◌∷◌, true, codes, starts_with}
use bb_shared.SharedTunnel.{
  Backoff, Options, Tunnel, initial, new_tunnel, strip_slash, set_state, teardown_socket,
  open_tunnel, start, stop, schedule_reconnect, on_open, on_unexpected_response, on_error, on_close,
  on_timer, redact_from, redact, opens, unexpected_response, closes, Event, start_call, timer_fires,
  socket_event, step, run,
}
use bb_shared.SharedTunnel.Phases.{PhaseOf, dialing, new_tunnel-Phase}
use bb_shared.SharedTunnel.Rest.{run-refused}

abbrev doubling : Backoff ℕ
doubling = record { reset = λ n. 1; next_delay = λ n stable. (n, n) }

abbrev options : Options
options = record {
  worker_url = codes "https://w.dev/";
  tunnel_secret = codes "key";
  loopback_base_url = codes "http://127.0.0.1:1";
}

-- Every function that an event of the tunnel runs.
tunnel_run : Unit {0}
unfolding starts_with new_tunnel strip_slash set_state teardown_socket open_tunnel start stop
    schedule_reconnect on_open on_unexpected_response on_error on_close on_timer redact_from step
    run
tunnel_run = tt

redact_test :
    redact (codes "key") (codes "bad key: keykey") ≡ codes "bad [redacted]: [redacted][redacted]"
unfolding tunnel_run
redact_test = refl

abbrev day : List Event
day =
    start_call
    ∷ socket_event 0 5 opens
    ∷ socket_event 0 9 closes
    ∷ timer_fires
    ∷ socket_event 0 11 closes
    ∷ []

-- The first socket closes, a second one is opened, and what the first one did is not heard any more.
dials_test :
    (run [] doubling day (initial options 1)).dials
    ≡ (record { url = codes "wss://w.dev/__tunnel"; bearer = codes "Bearer key" })
      ∷ (record { url = codes "wss://w.dev/__tunnel"; bearer = codes "Bearer key" })
      ∷ []
unfolding tunnel_run
dials_test = refl

new_tunnel-Phase_example : PhaseOf (run [] doubling day (initial options 1))
unfolding tunnel_run
new_tunnel-Phase_example =
    new_tunnel-Phase [] doubling (λ url. true) options 1 (initial options 1) day refl

abbrev dialed : Tunnel ℕ
dialed = run [] doubling (start_call ∷ []) (initial options 1)

run-refused_example :
    ((run [] doubling
        (socket_event 0 5 (unexpected_response 401 (codes "401")) ∷ timer_fires ∷ [])
        dialed).is_stopped
      ≡ true)
    × ((run [] doubling
          (socket_event 0 5 (unexpected_response 401 (codes "401")) ∷ timer_fires ∷ [])
          dialed).dials
        ≡ dialed.dials)
unfolding tunnel_run
run-refused_example =
    run-refused [] doubling dialed 0 5 401 (codes "401") (timer_fires ∷ []) dialing refl refl refl
