-- ===== src/Vm.antt =====
-- AdminVirtualMachine.hpp: one virtual machine. `Settings` and `State` are its data, `State` also its
-- life cycle; `Operations` are the operations that users, administrators and timers cause.
pub mod Settings
pub mod State
pub mod Operations
pub mod Invariant
pub mod Leaving
pub mod Kept
pub mod Events
pub mod Reach
pub mod Control
pub mod Lifecycle
mod Examples
