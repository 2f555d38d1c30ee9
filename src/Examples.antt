-- ===== src/Examples.antt =====
-- Runs of the definitions at concrete inputs, and the theorems applied to them.
mod Disk
mod Locations
mod SpanMaps
mod Descriptors
mod Files
mod Headers
mod Images
mod Readings
mod Caches
mod Chains
mod Hashes
mod ExtentLists
mod Handles
mod Grain
