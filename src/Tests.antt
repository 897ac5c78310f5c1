-- ===== src/Tests.antt =====
-- Runs of the theorems at concrete inputs.
mod Data
mod Timers
mod Sessions
mod Retries
mod Routers
mod Wires
mod Downlinks
mod Uplinks
mod Shards
mod Gateways
mod Clients
mod Business
mod Memory
mod Services
mod Runs
