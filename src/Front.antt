-- ===== src/Front.antt =====
-- The front-end (crates/seadog), which runs unprivileged: one child for each part.
pub mod Context
pub mod Owner
pub mod Base64
pub mod Fingerprint
pub mod Login
pub mod Listings
pub mod Lookup
pub mod Extend
pub mod Ack
pub mod Elevate
pub mod Mint
pub mod Plan
pub mod Create
pub mod Host
pub mod Main
pub mod Destroy
pub mod Tests
