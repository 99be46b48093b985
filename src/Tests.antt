-- ===== src/Tests.antt =====
-- The theorems at concrete inputs, and tests of the definitions, over the environment `memory`.
mod Data
mod Log
mod Machine
mod Snapshots
mod Store
mod Network
mod Peers
mod Wire
mod Tasks
mod Agreed
mod EndToEnd
mod Values
mod Clones
mod Transfer
mod Actor
mod Memory
mod Open
mod Durable
