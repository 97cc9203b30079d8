-- ===== src/Examples.antt =====
-- Concrete instances of the interfaces, and the theorems and definitions at concrete inputs.
mod Trees
mod Latin
mod Batches
mod Network
mod Requests
mod Sidecars
mod Texts
mod Ffi
mod Swarms
mod Messages
mod Views
mod Servers
mod Failures
mod Interleavings
mod Stalls
mod Builders
