-- ===== src/Gateway/Bridge/Revoked.antt =====
-- A bridge of plugin/guest-gateway/index.ts carries frames for a live session only.
use bb_shared.Base.{
  ◌≡◌, refl, sym, ap, subst, ◌∙◌, Bool, true, false, List, [], ◌∷◌, Option, none, some, Text, arith,
}
use bb_shared.Base.Json.{Json}
use bb_shared.TokenStore.{Token}
use bb_shared.Sessions.{resolve}
use bb_shared.Frames.{
  FrameDecision, forward, drops, close, scope_of, filter_client_frame, filter_server_frame,
}
use bb_shared.Gateway.Bridge.{
  Moment, Event, upstream_open, guest_frame, upstream_frame, timer, grants_changed, guest_closed,
  upstream_closed, failed, gone, Bridge, close_bridge, sent_on, from_guest, from_upstream,
  while_valid, handle_event, run,
}

-- Both sockets are gone, and the frames sent are those of the first bridge.
pub record IsStill (b after : Bridge) : Type 0 where
  pub guest : after.guest ≡ gone
  pub upstream : after.upstream ≡ gone
  pub to_guest : after.to_guest ≡ b.to_guest
  pub to_upstream : after.to_upstream ≡ b.to_upstream

close_bridge-IsStill : (b : Bridge) → IsStill b (close_bridge b)
close_bridge-IsStill b = record {
  guest = refl;
  upstream = refl;
  to_guest = refl;
  to_upstream = refl;
}

from_guest-IsStill : (b c : Bridge) (d : FrameDecision) → IsStill b c → IsStill b (from_guest c d)
from_guest-IsStill b c (forward frame) h = record {
  guest = h.guest;
  upstream = h.upstream;
  to_guest = h.to_guest;
  to_upstream = ap (λ l. sent_on l c.to_upstream frame) h.upstream ∙ h.to_upstream;
}
from_guest-IsStill b c (drops reason) h = h
from_guest-IsStill b c (close code reason) h = record {
  guest = refl;
  upstream = refl;
  to_guest = h.to_guest;
  to_upstream = h.to_upstream;
}

from_upstream-IsStill :
    (b c : Bridge) (d : FrameDecision) → IsStill b c → IsStill b (from_upstream c d)
from_upstream-IsStill b c (forward frame) h = record {
  guest = h.guest;
  upstream = h.upstream;
  to_guest = ap (λ l. sent_on l c.to_guest frame) h.guest ∙ h.to_guest;
  to_upstream = h.to_upstream;
}
from_upstream-IsStill b c (drops reason) h = h
from_upstream-IsStill b c (close code reason) h = record {
  guest = refl;
  upstream = refl;
  to_guest = h.to_guest;
  to_upstream = h.to_upstream;
}

closed_again : (b c : Bridge) → IsStill b c → IsStill b (close_bridge c)
closed_again b c h = record {
  guest = refl;
  upstream = refl;
  to_guest = h.to_guest;
  to_upstream = h.to_upstream;
}

while_valid-IsStill :
    (b c : Bridge) (o : Option Token) (f : Token → Bridge)
    → IsStill b c
    → ((token : Token) → IsStill b (f token))
    → IsStill b (while_valid o c f)
while_valid-IsStill b c none f h k = closed_again b c h
while_valid-IsStill b c (some token) f h k = k token

module _ (parse_json : Text → Option Json) (stringify : Json → Text) (id : Option Text) where
  handle_event-IsStill :
      (m : Moment) (e : Event) (b c : Bridge)
      → IsStill b c
      → IsStill b (handle_event parse_json stringify id m e c)
  unfolding handle_event
  handle_event-IsStill m upstream_open b c h = record {
    guest = h.guest;
    upstream = ground (arith, h.upstream);
    to_guest = h.to_guest;
    to_upstream = h.to_upstream;
  }
  handle_event-IsStill m (guest_frame raw) b c h =
      while_valid-IsStill b c (resolve m.now m.tokens m.rows id)
        (λ token. from_guest c (filter_client_frame parse_json raw (scope_of token))) h
        (λ token. from_guest-IsStill b c (filter_client_frame parse_json raw (scope_of token)) h)
  handle_event-IsStill m (upstream_frame raw) b c h =
      while_valid-IsStill b c (resolve m.now m.tokens m.rows id)
        (λ token. from_upstream c (filter_server_frame parse_json stringify raw (scope_of token))) h
        (λ token.
          from_upstream-IsStill b c (filter_server_frame parse_json stringify raw (scope_of token))
            h)
  handle_event-IsStill m timer b c h =
      while_valid-IsStill b c (resolve m.now m.tokens m.rows id) (λ token. c) h (λ token. h)
  handle_event-IsStill m grants_changed b c h = closed_again b c h
  handle_event-IsStill m guest_closed b c h = closed_again b c h
  handle_event-IsStill m upstream_closed b c h = closed_again b c h
  handle_event-IsStill m failed b c h = closed_again b c h

  run-IsStill :
      (events : List (Moment × Event)) (b c : Bridge)
      → IsStill b c
      → IsStill b (run parse_json stringify id events c)
  unfolding run
  run-IsStill [] b c h = h
  run-IsStill ((m, e) ∷ more) b c h =
      run-IsStill more b (handle_event parse_json stringify id m e c)
        (handle_event-IsStill m e b c h)

-- The events at which a bridge looks up its session.
abbrev pub is_checked : Event → Bool
is_checked (guest_frame raw) = true
is_checked (upstream_frame raw) = true
is_checked timer = true
is_checked _ = false

-- The event at which the grants changed, or at which the session was looked up in vain.
abbrev pub ends : Option Token → Event → Bool
ends o grants_changed = true
ends none e = is_checked e
ends (some token) e = false

ending :
    (parse_json : Text → Option Json) (stringify : Json → Text) (id : Option Text) (m : Moment)
    (e : Event) (b : Bridge)
    → ends (resolve m.now m.tokens m.rows id) e ≡ true
    → handle_event parse_json stringify id m e b ≡ close_bridge b
unfolding handle_event
ending parse_json stringify id m grants_changed b h = refl
ending parse_json stringify id m (guest_frame raw) b h = ground arith
ending parse_json stringify id m (upstream_frame raw) b h = ground arith
ending parse_json stringify id m timer b h = ground arith
ending parse_json stringify id m upstream_open b h = absurd (ground arith)
ending parse_json stringify id m guest_closed b h = refl
ending parse_json stringify id m upstream_closed b h = refl
ending parse_json stringify id m failed b h = refl

-- Once the grants have changed, or the session is looked up in vain at a message or by the timer, both
-- sockets are closed and no frame is sent on either, at this event or at any that follow.
pub run-revoked :
    (parse_json : Text → Option Json) (stringify : Json → Text) (id : Option Text) (m : Moment)
    (e : Event) (b : Bridge) (events : List (Moment × Event))
    → ends (resolve m.now m.tokens m.rows id) e ≡ true
    → IsStill b (run parse_json stringify id ((m, e) ∷ events) b)
unfolding run
run-revoked parse_json stringify id m e b events h =
    run-IsStill parse_json stringify id events b (handle_event parse_json stringify id m e b)
      (subst (IsStill b) (sym (ending parse_json stringify id m e b h)) (close_bridge-IsStill b))
