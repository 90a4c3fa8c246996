-- ===== src/Tests.antt =====
-- Runs and applications at concrete inputs.
mod Fixtures
mod Distances
mod Tables
mod Caches
mod Chains
mod Values
mod Frames
mod Slots
mod Network
mod Lookups
mod Packages
mod Servers
