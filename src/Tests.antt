-- ===== src/Tests.antt =====
-- The theorems at concrete inputs, with the parameters instantiated by concrete functions.
pub mod Crates
pub mod Formats
pub mod Paths
mod Epoch
mod Keeper
mod Messages
pub mod ContractState
pub mod StateKeys
pub mod Request
pub mod Database
mod Tip
mod Worker
mod Gas
pub mod Principal
pub mod Provider
mod Server
pub mod Task
mod Listener
mod Ocalls
mod Runtime
