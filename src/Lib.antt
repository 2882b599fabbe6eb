-- ===== src/Lib.antt =====
-- SVRx Pinry: the services behind pins, boards, imports and exports (Django, core/ and exports/).
--
-- The program is a web application that stores pins (images with a privacy flag and tags) of its
-- users on boards. The parts that are modelled keep state in the database and are called from the
-- REST views; they interact through its rows:
--
-- - Database: the rows of core/models.py that the services use, as records in lists, with what
--   the foreign keys do when a pin is deleted (`delete_pin`).
-- - Idempotency: `IdempotencyStore` of core/services/idempotency.py, the leases on the items of a
--   batch import. Rows and Store hold its data and checks, Claim the method `claim` with its
--   loop, Owner `fence`, `record_failure` and `record_success`. Steps makes every atomic write a
--   step of a relation on databases, and `Reach` a history of them; Changes, Leases, Unique,
--   Invariant, Claims, Interference, Settled and Once are its theory.
-- - Boards: `PinMembershipService` of core/services/pin_membership.py (Members, Membership) and
--   `BoardCoverService` of core/services/board_cover.py (Cover), with the invariant of the covers
--   (Invariant, Keys), what keeps it (Covers, Chosen, Deletions, Keyed), and what is changed
--   (Effects, Moves).
-- - Bulk: `BulkPinManagementService` of core/services/bulk_pin_management.py. Results are its
--   errors and summaries, Operations and Exclusive its five operations, Selection its queries and
--   the guard of an exclusive deletion in core/models.py; Privacy, Accounts, Gone, Queries and
--   Previews hold its theorems, and Keeps and Histories those on every sequence of operations on
--   boards and pins.
-- - Batch: `BatchImportService` of core/services/batch_import.py. Errors are its tables, Service
--   the work on one item, Process the loop. It is written over a record of the operations it
--   uses; Leases and Repeats put the methods of Idempotency in their place. Reports, Complete,
--   Admission and Codes hold the theorems that hold for any such operations.
-- - Tags: `merge_tags` of core/services/tag_management.py (Merge), its writes as one walk over
--   the links (Walk), and what they leave (Merged).
-- - Order: `BoardOrderService` of core/services/board_ordering.py (Service); Positions, Saved and
--   Placed are about sorting, Kept about what a save leaves.
-- - Exports: the jobs that pack pins into an archive, of exports/. Contracts, Tables and
--   Constraints are exports/contracts.py and exports/models.py, Queries the fences and ordered
--   queries. The worker of exports/services/worker.py is in Worker (leases and claims), Failures,
--   Recovery, Requeue, Handoff, Maintenance, Removal and Retry; jobs.py in Creation; targeting.py
--   in Chunks, Targets and Sizes; permissions.py in Permissions; attempts.py in Attempts;
--   archive.py in Publication and Completion; snapshot.py in Snapshots; download.py in Downloads.
-- - Exports, its theory: Invariant is what holds of the tables; Phases, Leased, Rounds, Packed
--   and Published are about the writes to one job, Saves about one row in its table; Failed,
--   Claimed, Requeued, Returned, Attempted, Concluded, Decided, Created, Slotted, Removed and
--   Authorized carry the invariant over the operations, Steps puts them into one relation and
--   Histories follows it. Single, Fifo, Claiming, Overtaken, Decisions, Publishing, Expected,
--   Counted, Recaptured, Revoked and Chunked hold the other theorems.
-- - Prelude: what the modules share. Tests: the theorems at concrete inputs.
--
-- How code becomes definitions. A method takes the database and returns it with its outcome:
-- `Result` where the service raises an error of its own with a code, `Outcome` where any
-- exception may leave it. A conditional UPDATE is one function on the list of rows, with the
-- number of rows it met. What other connections commit between two statements is an argument
-- (`world`, `meanwhile`): any function whose effect is a history of the store's own steps
-- and of creations and deletions of pins. A
-- method under row locks in one transaction is one step, and one that raises leaves the database
-- as it was. Keys, UUIDs and digests are numbers that are only compared; times are microseconds,
-- with a flag for the time zone. Clocks are functions from the number of the reading, and
-- floating-point seconds are taken as exact.
--
-- On the exports, an operation is one transaction under the write fence and takes what the
-- transaction reads; a row that was read before it (a queue of candidates, the totals of a job)
-- is a second database. The token that the heartbeat holds is an argument and a result. Keys and
-- the clock are arguments, times are whole seconds (milliseconds in the retry loop). A full
-- receipt or none, which constraints of the tables demand, is one optional record.
--
-- Bounds. The loop of `claim` has `_CAS_REEVALUATION_LIMIT` = 4 rounds, which is the recursion's
-- own argument. The retry loop of the export worker runs on fuel, and a theorem says how much is
-- enough. Every other loop is structural on the list of pins, items or jobs.
--
-- Not modelled: the file-system and network side of an import (the arguments `prepare_url` and
-- `commit`), SHA-256, the clock, the regular expressions on the text of a database error, the tag
-- manager, logging, and what deletes a pin's media. Of the exports: the protocol on POSIX
-- descriptors that captures, packs, validates and removes files, the texts of names and metadata,
-- the threads and the loop of the worker, the percentages of export_status, and the rounds of
-- JobService.create around its write fence; of the last step of a snapshot, what it finds of
-- its files and rows is an argument. The media migrations, the start-up and the users' parts of
-- the repository are not modelled either.
pub mod Prelude
pub mod Database
pub mod Idempotency
pub mod Boards
pub mod Bulk
pub mod Batch
pub mod Tags
pub mod Order
pub mod Exports
pub mod Tests
