-- ===== src/Tests.antt =====
-- The theorems at concrete inputs, and runs that the repository's own tests make.
mod Sample
mod Buffers
mod Streams
mod Config
mod Received
mod Access
mod Fields
mod Sent
mod Flags
