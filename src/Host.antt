-- ===== src/Host.antt =====
-- storage/db.py and messaging/groups/service.py: the tables of the group host, what its handlers draw
-- from outside, and the steps that the handlers share.
mod Tables
mod Snapshots
mod Projections
mod Changes
mod Handles
mod Joining
mod Ending
mod Rebinding
mod Updating
mod Sending
mod Creating
mod Reading
unfoldable pub use Tables.*
unfoldable pub use Snapshots.*
unfoldable pub use Projections.*
unfoldable pub use Changes.*
unfoldable pub use Handles.*
unfoldable pub use Joining.*
unfoldable pub use Ending.*
unfoldable pub use Rebinding.*
unfoldable pub use Updating.*
unfoldable pub use Sending.*
unfoldable pub use Creating.*
unfoldable pub use Reading.*
