-- ===== src/Examples.antt =====
-- Runs of the models at concrete inputs, and the theorems at inputs that meet their hypotheses.
mod Caches
mod Clients
mod Maps
mod Requests
mod Handlers
mod Deliveries
mod Servers
mod Together
mod Pools
mod Creations
mod Locks
mod Uthreads
mod Storages
mod Mythreads
mod Spins
mod Races
mod Programs
mod HandOverHand
mod Countings
