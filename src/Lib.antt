-- ===== src/Lib.antt =====
-- bb-shared lends threads of a local BB server to guests. The owner mints tokens in a store; a
-- guest opens an invitation, which joins a browser session, and then every request and every frame
-- of the guest's socket passes an authorization or a filter.
--
-- Base: shared names; JavaScript strings as lists of UTF-16 code units, `Map` as a list of entries in
--   the order of insertion, parsed JSON.
-- TokenStore: plugin/lib/token-store.ts. The state is the map `byId` (`Tokens`); each method is a
--   function from the map to a result or an error. SHA-256 is the argument `hash_token`; the random
--   bearer, identifiers and the label's draws are arguments, one stream each. The loop that draws a
--   free identifier runs on fuel and gives `none` without it; the one that tries label suffixes is
--   given one candidate more than there are labels, which is enough.
-- Authz: plugin/authz/authz.ts. The regular expressions of `classifyPath` are written out on the
--   segments of the path.
-- Sessions: plugin/guest-gateway/sessions.ts, with the store as it stands at the call. The clock,
--   the size of the stored JSON, the fresh id and the outcome of the encrypted write are arguments.
--   Redemptions run one after another (`redeem_all`), and a restart is a `load` of the stored rows.
-- Frames: plugin/guest-gateway/frames.ts and scope.ts, over parsed JSON; the parser and the printer
--   are arguments.
-- Responses: plugin/guest-gateway/responses.ts, the projections of BB's JSON answers, as functions of
--   the parsed answer and the guest's scope.
-- DeviceKey: plugin/lib/device-key/envelope.ts and record-crypto.ts. The cipher, base64 and UTF-8 are
--   a record of operations (`Crypto`); what is asked of them is `IsLawful`, which a test instantiates.
-- ShareState: plugin/lib/share-state-record.ts. The record in `kv` and `recoveryRequired` are the
--   state; `JSON.parse`, `JSON.stringify` and the texts of numbers are a record of functions
--   (`JsonCodec`), and the zod schemas are functions on parsed JSON.
-- Sharing: plugin/server.ts. The state is the store, the bearers and the stored record; a call is a
--   `Request`, and calls run one after another as the queue makes them.
-- Gateway: plugin/guest-gateway/index.ts. `handle` runs one request: its target, the redemption of a
--   link, the session, the guards of a write, the authorization, the filter, the message, and the
--   relaying of BB's answer, which an argument gives. Bridge is the socket of a guest as a run of events,
--   each at its moment; Readiness is the proof that the probe gives.
-- SharedTunnel: plugin/lib/shared-tunnel.ts, as a state machine of calls, socket events and the timer.
--   The backoff of the tunnel client is a record of two operations.
-- Relay: worker/src/tunnel/tunnel-do.ts, the Durable Object between the guests and the owner's tunnel.
--   The state has the pending requests, the next stream id, the runtime's sockets, the answers given
--   and a log of effects; every handler is a function on it, and an event is a step. Whether a send
--   or a close with a reason from the wire works and whether a response can be built are arguments. The pump of a request body is a
--   function from the reader's chunks to frames; its loop over a chunk has as much fuel as there are
--   bytes, which is enough as each round takes one or more.
-- Keys: plugin/lib/device-key/key-provider.ts. A provider and the store behind it are the state; what
--   `security` and the file system do, and the bytes that are drawn, are arguments.
-- Connections: plugin/worker-lifecycle/worker-record.ts, the addresses of relays and the encrypted
--   record of the connections to them; `new URL` and JSON are records of functions.
-- Lifecycle: plugin/worker-lifecycle/worker-lifecycle.ts. Lifecycle has one connection with its tunnel,
--   as `getStatus` tells of it, and its probe; Mutations has them together, and its Steps the calls and
--   events. A step comes with its moment, the answers of `fetch` and the store's circumstances; the
--   store is an interface (`RecordStore`), which Recorded fills with Connections. The polling of a
--   registration is one step for the head of its loop and one for the rest, and a call that saves is a
--   step up to its save and a step, `complete`, after it. Books is the abstract view: which connections
--   there are, which is the default and which call awaits its save, without what is observed of them.
-- Redaction: `redactSecrets` of plugin/worker-lifecycle/cf-deploy.ts.
-- Tests: runs on concrete inputs.
--
-- Not modelled: the user interface, the deployment to Cloudflare but for the redaction, the
-- entry of the worker and its routing, the copies of the tunnel packages, the insertion of the style
-- sheet into a page, requests that are still open when grants change, and timing.
pub mod Authz
pub mod Base
pub mod Connections
pub mod DeviceKey
pub mod Frames
pub mod Gateway
pub mod Keys
pub mod Lifecycle
pub mod Redaction
pub mod Relay
pub mod Responses
pub mod Sessions
pub mod ShareState
pub mod SharedTunnel
pub mod Sharing
pub mod Tests
pub mod TokenStore
