-- ===== src/Lib.antt =====
-- AWiki Open Server: a model of the parts of the server that keep messages, groups, uploads and
-- logins consistent, with the theorems that show it. Paths are from the root of the repository,
-- below src/awiki_open_server; names of functions are those of the source without a leading _.
--
-- - Shared: shared types and lemmas. Shared/Errors is shared/errors.py, an exception being an `err`
--   of `Result`; Shared/Json holds the values that json.loads returns, Shared/Table the SQL
--   statements over lists of rows.
-- - Storage: storage/db.py, the rows of the group host. The rows of the other components stand with
--   them.
-- - Delivery: messaging/groups/delivery.py. A group host enqueues state changes and messages for the
--   members whose home is another service, within a bound on the open rows.
-- - Outbox: messaging/groups/outbox.py. The worker sends what Delivery enqueued: it selects the due
--   rows, tries each, and writes back what came of it. `drain_locked` is one drain, `run` the worker
--   over the cycles it is given.
-- - Snapshot and Manifest: messaging/standard_sync.py. What a new client is given of the state and
--   of the newest messages, cut into pages. The loop that fills pages has the number of items as
--   fuel, which is enough because each page takes an item.
-- - Bootstrap: messaging/standard_sync.py, the negotiation of capabilities and the lanes that stay
--   empty. Cursor: messaging/sync_contract.py, decimal_cursor.
-- - ReadState: messaging/core.py, mark_read and inbox_mark_read with the read watermark of a thread.
-- - Attachment: attachments/core.py, an upload from its slot to the stored object or its removal.
--   Grant: attachments/core.py, whether a direct attachment may be fetched.
-- - DeviceAuth: user_compat/device_auth.py, the device of an account, nonces and token claims.
-- - Operations: messaging/groups/service.py, the record by which a repeated request is replayed.
-- - Policy, Protocol and Host: messaging/groups/service.py, protocol.py and projection.py, the group
--   host. Policy is what a group allows, Protocol what a request must look like, Host the handlers
--   over all the tables of `HostDb`, each in the order of its statements. A handler of two
--   transactions is given the tables as each of them finds them. Hosting holds the handlers as a step
--   relation, and what each leaves in the tables that decide; Hosting/Requests names the handlers of
--   the requests, and Hosting/Asked what each request asks of the members.
--
-- A database is a record of tables, a table a list of rows in order of insertion; a transaction
-- returns the database, or an error and then no change. Times are numbers, as the server writes
-- them in one format. Hashes, signatures, canonical JSON, network calls, fresh identifiers and
-- clocks are parameters, since packages and the system supply them. What a failed call leaves outside
-- the database, as a file that was moved before an INSERT failed, is not kept.
--
-- Not modelled: HTTP and JSON-RPC glue, settings, the user service beyond device authentication, the
-- proofs of ANP messages, the groups of other hosts, and the files of keys.
pub mod Shared
pub mod Storage
pub mod Delivery
pub mod Outbox
pub mod Snapshot
pub mod Host
pub mod Hosting
pub mod Manifest
pub mod Cursor
pub mod Bootstrap
pub mod ReadState
pub mod Attachment
pub mod Grant
pub mod DeviceAuth
pub mod Operations
pub mod Policy
pub mod Protocol
