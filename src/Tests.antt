-- ===== src/Tests.antt =====
-- Tests of the definitions on small inputs, and the theorems at concrete inputs.
pub mod Data
mod Store
mod Guests
mod Sockets
mod Tunnels
mod Records
mod Projections
mod Requests
mod Dialing
mod Relays
mod Lifecycles
mod Keychains
