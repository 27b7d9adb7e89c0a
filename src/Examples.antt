-- ===== src/Examples.antt =====
-- Concrete inputs, and what the theorems say of them.
pub mod Data
mod Admissions
mod Queues
mod Runtimes
mod Memory
mod Commands
mod Lifecycles
mod Managers
mod Caches
mod Capacities
