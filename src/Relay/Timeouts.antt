-- ===== src/Relay/Timeouts.antt =====
-- The timeout of worker/src/tunnel/tunnel-do.ts: no request waits for ever.
use bb_shared.Base.{
  ℕ, ◌≡◌, ◌++◌, Bool, true, false, none, text_eq, nat_eq, codes, lookup-insert_self, has, arith,
}
use bb_shared.Relay.{Relay, plain, fail_http_stream}
use bb_shared.Relay.Handlers.{
  Request, waiting, proxy_http, open_visitor_web_socket, proxy_guest_request, on_timeout, Event,
  step,
}
use bb_shared.Relay.Answers.{served, is_orderly, step-served}

-- Events one after another, orderly as far as stream `k` goes.
pub data Run (k : ℕ) : Relay → Relay → Type 0 where
  stop : {r : Relay} → Run k r r
  next :
      {r s : Relay} (event : Event)
      → is_orderly k event r ≡ true
      → Run k (step event r) s
      → Run k r s

Run-served : (k : ℕ) {r s : Relay} → Run k r s → served k r ≡ true → served k s ≡ true
Run-served k stop h = h
Run-served k {r = r} (next event o run) h = Run-served k run (step-served k event r o h)

promised-served :
    (q : Request) (handle : ℕ) (works : Bool) (r : Relay)
    → (proxy_guest_request q handle works r).1 ≡ none
    → served r.next_stream_id (proxy_guest_request q handle works r).0 ≡ true
unfolding proxy_guest_request proxy_http open_visitor_web_socket
promised-served q handle works r e =
    ground (arith, lookup-insert_self r.next_stream_id waiting r.pending)

served-on_timeout : (k : ℕ) (r : Relay) → served k r ≡ true → has k (on_timeout k r).answers ≡ true
unfolding on_timeout fail_http_stream
served-on_timeout k r h = ground (
  arith,
  lookup-insert_self k
      (plain 504
        (codes "bb-shared: " ++ (codes "timed out waiting for the tunnel client" ++ codes "\n"))
        false)
      r.answers,
)

-- A request that is not answered at once is answered when its timeout is due, whatever happens
-- before: other requests, frames of the tunnel, lost sockets and new tunnels. The events keep the
-- protocol's order as far as this request goes: no end of the body before the head, and no head
-- without a body that cannot be built.
pub proxy_guest_request-on_timeout :
    (q : Request) (handle : ℕ) (works : Bool) (r s : Relay)
    → (proxy_guest_request q handle works r).1 ≡ none
    → Run r.next_stream_id (proxy_guest_request q handle works r).0 s
    → has r.next_stream_id (on_timeout r.next_stream_id s).answers ≡ true
proxy_guest_request-on_timeout q handle works r s promised run =
    served-on_timeout r.next_stream_id s
      (Run-served r.next_stream_id run (promised-served q handle works r promised))
