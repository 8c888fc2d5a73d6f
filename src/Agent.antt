-- ===== src/Agent.antt =====
-- The per-node agent: controllers/bpfman-agent.
pub mod Bpfman
pub mod Links
pub mod Update
pub mod NetNs
pub mod Text
pub mod Interfaces
pub mod Discovery
pub mod PrimaryInterface
pub mod Credentials
pub mod Bytecode
pub mod Listings
pub mod Containers
pub mod Kinds
pub mod App
pub mod Reconcile
pub mod Scopes
pub mod Controller
