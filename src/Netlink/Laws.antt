-- ===== src/Netlink/Laws.antt =====
-- What the requests say, and how the setup behaves.
pub mod Attributes
pub mod Invariant
pub mod Reading
pub mod Messages
pub mod Failures
pub mod Effects
pub mod Sends
pub mod Configured
