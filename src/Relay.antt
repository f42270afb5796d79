-- ===== src/Relay.antt =====
-- worker/src/tunnel/tunnel-do.ts: the relay between the guests and the owner's one tunnel.
-- The runtime's sockets and the visitors' promises are part of the state. A call of the runtime
-- whose outcome the code cannot know is an argument: whether `send` throws, whether a `Response` can
-- be built. Bytes are a list of numbers. The frames are those of the tunnel contract.
pub mod Handlers
pub mod Credential
pub mod Dialing
pub mod Answers
pub mod Timeouts
pub mod Stranded
pub mod Streams
pub mod Body
use Prim.Native.Nat.{bit_or, bit_xor}
use bb_shared.Base.{
  ℕ, suc, ◌+◌, ◌≡◌, List, [], ◌∷◌, ◌++◌, Bool, true, false, ◌&&◌, ◌||◌, not, map, filter, Option,
  none, some, Text, nat_eq, codes, Dict, length, find?, same, is_one_of, starts_with, trim, drop,
  lookup, insert, erase, has, keys, is_some, if◌then◌else◌, ltb, leb, ◌==◌,
}

abbrev pub Headers : Type 0
Headers = List (Text × Text)

abbrev pub Bytes : Type 0
Bytes = List ℕ

pub data Frame : Type 0 where
  open_http : (stream_id : ℕ) (method path : Text) (headers : Headers) (has_body : Bool) → Frame
  body_chunk : (stream_id : ℕ) (payload : Bytes) → Frame
  body_end : (stream_id : ℕ) → Frame
  resp_head : (stream_id status : ℕ) (headers : Headers) → Frame
  open_ws : (stream_id : ℕ) (path : Text) (headers : Headers) (protocols : List Text) → Frame
  ws_open_ack : (stream_id : ℕ) (protocol : Option Text) → Frame
  ws_data : (stream_id : ℕ) (is_binary : Bool) (payload : Bytes) → Frame
  close_stream : (stream_id code : ℕ) (reason : Text) → Frame

-- `toLowerCase`, exactly where the result is ASCII.
abbrev lower_unit : ℕ → ℕ
lower_unit c = if leb b'A' c && leb c b'Z' then c + 32 else if c == 0x212a then b'k' else c

abbrev pub to_lower_case : Text → Text
to_lower_case s = map lower_unit s

abbrev hop_headers : List Text
hop_headers =
    codes "connection"
    ∷ codes "keep-alive"
    ∷ codes "transfer-encoding"
    ∷ codes "upgrade"
    ∷ codes "expect"
    ∷ codes "host"
    ∷ codes "sec-websocket-key"
    ∷ codes "sec-websocket-version"
    ∷ codes "sec-websocket-extensions"
    ∷ []

unfoldable pub forwardable_headers : Headers → Headers
forwardable_headers headers = filter (λ h. not (is_one_of (to_lower_case h.0) hop_headers)) headers

abbrev non_empty : Text → Option Text
non_empty [] = none
non_empty (c ∷ s) = some (c ∷ s)

unfoldable pub bearer_from : Option Text → Option Text
bearer_from none = none
bearer_from (some header) =
    if starts_with header (codes "Bearer ") then non_empty (trim (drop 7 header)) else none

-- The loop of `timingSafeEqual`, over all characters.
unfoldable pub diff_loop : ℕ → Text → Text → ℕ
diff_loop diff (a ∷ s) (b ∷ t) = diff_loop (bit_or diff (bit_xor a b)) s t
diff_loop diff _ _ = diff

unfoldable pub timing_safe_equal : Text → Text → Bool
timing_safe_equal a b = not (length a == 0) && ((length a == length b) && (diff_loop 0 a b == 0))

unfoldable pub safe_close_code : ℕ → ℕ
safe_close_code code = if code == 1000 || (leb 3000 code && leb code 4999) then code else 1000

-- A socket of the runtime: the tunnel's tag, or the stream of a visitor.
pub record Socket : Type 0 where
  pub handle : ℕ
  pub stream : Option ℕ
  pub is_open : Bool

-- An entry of `pendingHttp`: is there a writer, and is the timeout set?
pub record PendingHttp : Type 0 where
  pub streaming : Bool
  pub armed : Bool

pub data Reply : Type 0 where
  plain : (status : ℕ) (body : Text) (offline : Bool) → Reply
  bodiless : (status : ℕ) (headers : Headers) → Reply
  streamed : (status : ℕ) (headers : Headers) → Reply
  upgraded : (handle : ℕ) (protocol : Option Text) → Reply

-- What the relay does to sockets and to the bodies of responses.
pub data Effect : Type 0 where
  sent : (handle : ℕ) (frame : Frame) → Effect
  passed : (handle : ℕ) (is_binary : Bool) (payload : Bytes) → Effect
  closed : (handle code : ℕ) (reason : Text) → Effect
  wrote : (stream_id : ℕ) (payload : Bytes) → Effect
  ended : (stream_id : ℕ) → Effect
  aborted : (stream_id : ℕ) (reason : Text) → Effect

-- The state: `pendingHttp`, `nextStreamId`, the runtime's sockets in the order of acceptance, the
-- responses that the promises were resolved with, and the effects, oldest first.
pub record Relay : Type 0 where
  pub sockets : List Socket
  pub pending : Dict ℕ PendingHttp
  pub next_stream_id : ℕ
  pub answers : Dict ℕ Reply
  pub log : List Effect

abbrev pub is_tunnel : Socket → Bool
is_tunnel s = not (is_some s.stream)

abbrev pub stream_or : ℕ → Option ℕ → ℕ
stream_or m none = m
stream_or m (some k) = if ltb m k then k else m

-- The loop of the constructor.
unfoldable pub max_seen : ℕ → List Socket → ℕ
max_seen m [] = m
max_seen m (s ∷ ss) = max_seen (stream_or m s.stream) ss

-- The constructor, after the runtime may have put the object to sleep.
unfoldable pub wake : List Socket → Relay
wake sockets = record {
  sockets = sockets;
  pending = [];
  next_stream_id = max_seen 0 sockets + 1;
  answers = [];
  log = [];
}

-- The last open socket with the tunnel's tag.
unfoldable pub active_tunnel_socket : List Socket → Option Socket
active_tunnel_socket [] = none
active_tunnel_socket (s ∷ ss) =
    let later = active_tunnel_socket ss in
    if is_some later then later else if is_tunnel s && s.is_open then some s else none

-- `getWebSockets("visitor:K")[0]`.
abbrev pub has_stream : ℕ → Option ℕ → Bool
has_stream k none = false
has_stream k (some j) = j == k

abbrev pub visitor_socket : ℕ → List Socket → Option Socket
visitor_socket k ss = find? (λ s. has_stream k s.stream) ss

abbrev pub note : Effect → Relay → Relay
note e r = record r { log = r.log ++ e ∷ [] }

-- A promise keeps its first resolution.
abbrev pub resolve_with : ℕ → Reply → Relay → Relay
resolve_with k reply r =
    if has k r.answers then r else record r { answers = insert k reply r.answers }

abbrev pub delete_pending : ℕ → Relay → Relay
delete_pending k r = record r { pending = erase k r.pending }

-- The calls of `close` on the sockets of a kind, with a reason that the runtime takes: one that throws finds its
-- socket closed.
abbrev pub shut : (Socket → Bool) → Socket → Socket
shut p s = if p s then record s { is_open = false } else s

abbrev pub close_log : (Socket → Bool) → ℕ → Text → List Socket → List Effect
close_log p code reason ss = map (λ s. closed s.handle code reason) (filter p ss)

abbrev pub close_sockets : (Socket → Bool) → ℕ → Text → Relay → Relay
close_sockets p code reason r = record r {
  sockets = map (shut p) r.sockets;
  log = r.log ++ close_log p code reason r.sockets;
}

abbrev fail_entry : ℕ → ℕ → Text → PendingHttp → Relay → Relay
fail_entry k status message entry r =
    if entry.streaming
    then note (aborted k message) r
    else resolve_with k (plain status (codes "bb-shared: " ++ (message ++ codes "\n")) false) r

unfoldable pub fail_http_stream : ℕ → ℕ → Text → Relay → Relay
fail_http_stream k status message r = elim (lookup k r.pending) [
  | none ↦ r
  | some entry ↦ fail_entry k status message entry (delete_pending k r)
]

unfoldable pub fail_all : List ℕ → ℕ → Text → Relay → Relay
fail_all [] status message r = r
fail_all (k ∷ ks) status message r =
    fail_all ks status message (fail_http_stream k status message r)

unfoldable pub abandon_streams : Text → Text → Relay → Relay
abandon_streams http_reason ws_reason r =
    close_sockets (λ s. not (is_tunnel s)) 1001 ws_reason
      (fail_all (keys r.pending) 502 http_reason r)
