-- ===== src/Priv.antt =====
-- The privileged helper (crates/seadog-priv): the verbs that run as root, one child for each.
pub mod Teardown
pub mod Watch
pub mod Sweep
pub mod Main
pub mod Owners
pub mod Provision
pub mod Tests
