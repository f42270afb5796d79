-- ===== src/SharedTunnel/Rest.antt =====
-- When the tunnel of plugin/lib/shared-tunnel.ts dials no more.
use bb_shared.Base.{
  ℕ, ◌≡◌, refl, sym, subst, ◌∙◌, inl, inr, Bool, true, false, ◌||◌, not, all, List, [], ◌∷◌, some,
  Text, arith, Bool-cases, ◌==◌, ==_iff,
}
use bb_shared.SharedTunnel.{
  Backoff, Tunnel, set_state, teardown_socket, stop, on_unexpected_response, unexpected_response,
  Event, start_call, stop_call, timer_fires, socket_event, at_socket, step, run,
}
use bb_shared.SharedTunnel.Phases.{PhaseOf, at_rest, step-Phase}

abbrev pub is_start : Event → Bool
is_start start_call = true
is_start _ = false

-- The statuses after which the code gives up.
abbrev pub is_final : ℕ → Bool
is_final status = (status == 409 || status == 426) || (status == 401 || status == 403)

module _ {B : Type 0} (query : Text) (b : Backoff B) where
  step-rest :
      (e : Event) (t : Tunnel B)
      → PhaseOf t
      → t.is_stopped ≡ true
      → is_start e ≡ false
      → ((step query b e t).is_stopped ≡ true) × ((step query b e t).dials ≡ t.dials)
  unfolding step stop set_state teardown_socket
  step-rest start_call t p r h = absurd cc
  step-rest stop_call t p r h = (refl, refl)
  step-rest timer_fires t p r h = let (at, timer, down) = at_rest p r in rw timer (r, refl)
  step-rest (socket_event socket now e) t p r h =
      let (at, timer, down) = at_rest p r in rw at (r, refl)

  run-rest :
      (events : List Event) (t : Tunnel B)
      → PhaseOf t
      → t.is_stopped ≡ true
      → all (λ e. not (is_start e)) events ≡ true
      → ((run query b events t).is_stopped ≡ true) × ((run query b events t).dials ≡ t.dials)
  unfolding run
  run-rest [] t p r h = (r, refl)
  run-rest (e ∷ more) t p r h =
      let (rest, undialed) = step-rest e t p r (ground arith) in
      let (still, none_more) =
        run-rest more (step query b e t) (step-Phase query b e t p) rest (ground arith) in
      (still, none_more ∙ undialed)

  on_refusal :
      (now status : ℕ) (digits : Text) (t : Tunnel B)
      → is_final status ≡ true
      → ((on_unexpected_response query b now status digits t).is_stopped ≡ true)
        × ((on_unexpected_response query b now status digits t).dials ≡ t.dials)
  unfolding on_unexpected_response stop set_state teardown_socket
  on_refusal now status digits t final = elim (Bool-cases (status == 409 || status == 426)) [
    | inl old ↦ rw old (refl, refl)
    | inr known ↦
        let denied : (status == 401 || status == 403) ≡ true = ground (arith, known) in
        rw (known, denied) (refl, refl)
  ]

  step-refusal :
      (t : Tunnel B) (socket now status : ℕ) (digits : Text)
      → t.attached ≡ some socket
      → is_final status ≡ true
      → ((step query b (socket_event socket now (unexpected_response status digits)) t).is_stopped
          ≡ true)
        × ((step query b (socket_event socket now (unexpected_response status digits)) t).dials
            ≡ t.dials)
  unfolding step
  step-refusal t socket now status digits at final =
      let own : (socket == socket) ≡ true = (==_iff socket socket).1 refl in
      let e = unexpected_response status digits in
      subst
        (λ o.
          ((at_socket query b o socket now e t).is_stopped ≡ true)
          × ((at_socket query b o socket now e t).dials ≡ t.dials))
        (sym at) (rw own (on_refusal now status digits t final))

-- A relay that answers 401, 403, 409 or 426 to the tunnel's socket stops it: whatever happens next, it stays
-- at rest and dials no more until it is started again.
pub run-refused :
    {B : Type 0} (query : Text) (b : Backoff B) (t : Tunnel B) (socket now status : ℕ)
    (digits : Text) (events : List Event)
    → PhaseOf t
    → t.attached ≡ some socket
    → is_final status ≡ true
    → all (λ e. not (is_start e)) events ≡ true
    → let after =
        run query b (socket_event socket now (unexpected_response status digits) ∷ events) t in
      (after.is_stopped ≡ true) × (after.dials ≡ t.dials)
unfolding run
run-refused query b t socket now status digits events p at final calm =
    let e = socket_event socket now (unexpected_response status digits) in
    let (rest, undialed) = step-refusal query b t socket now status digits at final in
    let (still, none_more) =
      run-rest query b events (step query b e t) (step-Phase query b e t p) rest calm in
    (still, none_more ∙ undialed)
