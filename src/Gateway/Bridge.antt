-- ===== src/Gateway/Bridge.antt =====
-- plugin/guest-gateway/index.ts: the bridge between the socket of a guest and a socket to BB.
-- The messages of a bridge are handled one after another (`chain`); a moment is the clock, the store and
-- the sessions when an event is handled.
pub mod Revoked
use bb_shared.Base.{
  ℕ, Bool, true, false, not, ◌&&◌, ◌||◌, List, [], ◌∷◌, ◌++◌, Option, none, some, Text, codes, same,
  Dict, if◌then◌else◌,
}
use bb_shared.Base.Json.{Json}
use bb_shared.TokenStore.{Token, Tokens}
use bb_shared.Sessions.{Rows, resolve}
use bb_shared.Frames.{
  FrameDecision, forward, drops, close, scope_of, filter_client_frame, filter_server_frame,
}
use bb_shared.Gateway.Requests.{Url, has_param}

pub record Moment : Type 0 where
  pub now : ℕ
  pub tokens : Tokens
  pub rows : Rows

pub data Upgrade : Type 0 where
  rejected : (status : ℕ) → Upgrade
  bridged : Upgrade

abbrev admitted : Option Token → Upgrade
admitted none = rejected 401
admitted (some token) = bridged

-- The handler of `upgrade`, on the parsed target, with the id of the cookie.
unfoldable pub upgrade : Option Url → Moment → Option Text → Upgrade
upgrade none m id = rejected 503
upgrade (some url) m id =
    if not (same url.pathname (codes "/ws")) || has_param (codes "token") url.params
    then rejected 403
    else admitted (resolve m.now m.tokens m.rows id)

pub data Link : Type 0 where
  connecting live gone : Link

-- The states of the two sockets, and the frames sent on each.
pub record Bridge : Type 0 where
  pub guest : Link
  pub upstream : Link
  pub to_guest : List Text
  pub to_upstream : List Text

pub data Event : Type 0 where
  upstream_open : Event
  guest_frame upstream_frame : (raw : Text) → Event
  timer grants_changed guest_closed upstream_closed failed : Event

abbrev pub new_bridge : Bridge
new_bridge = record { guest = live; upstream = connecting; to_guest = []; to_upstream = [] }

-- `close`: no frame is sent on either socket after it.
abbrev pub close_bridge : Bridge → Bridge
close_bridge b = record b { guest = gone; upstream = gone }

abbrev opened : Link → Link
opened connecting = live
opened l = l

-- `destination.readyState === WebSocket.OPEN`, and `destination.send`.
abbrev pub sent_on : Link → List Text → Text → List Text
sent_on live frames frame = frames ++ frame ∷ []
sent_on connecting frames frame = frames
sent_on gone frames frame = frames

abbrev pub from_guest : Bridge → FrameDecision → Bridge
from_guest b (forward frame) = record b { to_upstream = sent_on b.upstream b.to_upstream frame }
from_guest b (drops reason) = b
from_guest b (close code reason) = close_bridge b

abbrev pub from_upstream : Bridge → FrameDecision → Bridge
from_upstream b (forward frame) = record b { to_guest = sent_on b.guest b.to_guest frame }
from_upstream b (drops reason) = b
from_upstream b (close code reason) = close_bridge b

-- With the session as it resolves now.
abbrev pub while_valid : Option Token → Bridge → (Token → Bridge) → Bridge
while_valid none b f = close_bridge b
while_valid (some token) b f = f token

module _ (parse_json : Text → Option Json) (stringify : Json → Text) (id : Option Text) where
  unfoldable pub handle_event : Moment → Event → Bridge → Bridge
  handle_event m upstream_open b = record b { upstream = opened b.upstream }
  handle_event m (guest_frame raw) b =
      while_valid (resolve m.now m.tokens m.rows id) b
        (λ token. from_guest b (filter_client_frame parse_json raw (scope_of token)))
  handle_event m (upstream_frame raw) b =
      while_valid (resolve m.now m.tokens m.rows id) b
        (λ token. from_upstream b (filter_server_frame parse_json stringify raw (scope_of token)))
  handle_event m timer b = while_valid (resolve m.now m.tokens m.rows id) b (λ token. b)
  handle_event m grants_changed b = close_bridge b
  handle_event m guest_closed b = close_bridge b
  handle_event m upstream_closed b = close_bridge b
  handle_event m failed b = close_bridge b

  -- The events of a bridge, in order.
  unfoldable pub run : List (Moment × Event) → Bridge → Bridge
  run [] b = b
  run ((m, e) ∷ more) b = run more (handle_event m e b)
