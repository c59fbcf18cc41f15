-- ===== src/Hosting.antt =====
-- messaging/groups/service.py: what the handlers of the group host keep true.
pub mod Core
pub mod Effects
pub mod Handlers
pub mod Advance
pub mod Members
pub mod Steps
pub mod Inverted
pub mod Run
pub mod Order
pub mod Keyed
pub mod Roster
pub mod Renamed
pub mod Requests
pub mod Confined
pub mod Asked
pub mod Refined
pub mod Authority
pub mod Repeated
pub mod Paging
pub mod Limit
pub mod Bounded
mod Samples
mod Tests
