-- ===== src/Examples.antt =====
-- The properties at concrete inputs.
mod Toy
mod Shop
mod Redeeming
mod Lifetimes
mod Files
mod Locks
mod Doors
mod Calls
mod Crowd
mod Service
mod Starting
mod Together
mod Server
mod Behind
