-- ===== src/Examples.antt =====
-- Small maps, queues, channels, messages, buffers and locks on which the theorems are applied.
mod Maps
mod Queues
mod Channels
mod LuaMessages
mod Messages
mod Buffers
mod Spins
mod Registries
mod Sessions
mod Pools
mod Methods
