-- ===== src/Examples.antt =====
-- The theorems at concrete inputs, and the sample state that they share.
mod Sample
mod Deletes
mod Safety
mod Dispatchers
mod Library
mod Loops
mod Objects
mod Platforms
mod Signals
mod Windows
mod Traits
mod Timers
mod Threads
