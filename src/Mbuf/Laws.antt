-- ===== src/Mbuf/Laws.antt =====
-- What the packet functions do to a well-formed packet.
pub mod Packet
pub mod Ends
pub mod Front
pub mod Chained
pub mod Freed
pub mod Counters
pub mod Reading
pub mod Offloads
pub mod Attached
pub mod Indirect
pub mod Detached
pub mod Attachments
pub mod Linking
pub mod Clones
pub mod Rounds
pub mod NextRound
pub mod Cloning
pub mod Headed
pub mod Short
pub mod Outcome
pub mod Cloned
pub mod Pairs
pub mod Returned
pub mod Gathered
pub mod Linearizing
pub mod Linearized
pub mod Allocated
