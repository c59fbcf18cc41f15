-- ===== src/Host/Reading.antt =====
-- messaging/groups/service.py: what a member reads of a group and of its messages, from the tables of
-- the host or from the views of a group on another service.
mod Pages
mod Groups
unfoldable pub use Pages.*
unfoldable pub use Groups.*
