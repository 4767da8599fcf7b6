-- ===== src/Lib.antt =====
-- The asset service, services/asset-core. Its media pipeline: uploads and their quota, the jobs that
-- process an upload, the inspection of its bytes, the outbox and its relay, and the consumer of the
-- events that are sent, with the isolation and the replay of a notification. Its tree of folders, and
-- the import of a dataset of folders and items.
--
-- An organization's quota is a row of organization_media_usage. A client opens an upload session,
-- which reserves the declared size, puts the object into storage, and commits: the reservation
-- becomes stored bytes, and a version, its job and an outbox row are created in one transaction.
-- The relay publishes the outbox row. A worker that receives the event claims the job under a lease,
-- inspects the object's bytes, and either completes the job, which makes the version the asset's
-- active one, or settles a failure, which requeues the job with a delay or fails it for good. A
-- notification that the worker refuses is isolated, and an operator may replay it. Folders are
-- created, changed, moved and deleted behind a fence that an open deletion of a subtree puts up.
--
-- Which file models which part (paths below services/asset-core/internal):
--   Media           domain/media.go and the tables of infra/db/asset/migrations/V9: the rows and the
--                   database `Db`, a table a function from keys to rows or, where the code scans
--                   it, a list
--   Events          eventing/media/events.go: Marshal with its checks
--   Jobs            repository/media_job_store.go and media_promotion.go: ClaimJob, RenewLease,
--                   SettleExecutionFailure, CompleteAndPromote and FailVersion as functions from a
--                   database to the next one and a result; Jobs/Moves is the state machine that
--                   they implement, Jobs/Runs their runs
--   Uploads         repository/media_repository.go: CreateUploadSession, GetUploadSession,
--                   RefreshUploadSession, CancelUploadSession, ExpireUploadSession, CommitUpload and
--                   the statements on the quota; Uploads/Ledger is the invariant of the quota
--   Validation      media/validation: scanJPEG, scanPNG and Admit, with an index or a slice out of
--                   range as an error of its own
--   Relay           eventing/outbox/relay.go: DrainOnce over its Store, Publisher, clock and jitter
--   Consumer        eventing/consume/consumer.go: Deliver over its Effect, Quarantine and clock, with
--                   Parse of eventing/event/envelope.go and of eventing/media/events.go
--   Purge           repository/media_purge.go and usecase/media_purge.go: ExpireUploadSessions,
--                   ClaimPurgeableMediaObjects, MarkMediaObjectsPurged and PurgeOnce
--   Reader          eventing/kafka/reader.go: deliverUntilCommittable and Run, a turn of its loop at a
--                   time, over the consumer and a Kafka client
--   Worker          usecase/media_worker.go and media_lease.go, repository/media_notification.go and
--                   cmd/media-worker/effect.go beside internal: RunJob with its lease keeper, and the
--                   effect of a notification; Worker/Redelivery follows a record from the broker to
--                   the tables
--   Outbox          repository/media_outbox_store.go: Claim, MarkPublished and Reschedule, with the
--                   rows that others have locked and the order of RETURNING as arguments
--   DeadLetters     repository/media_dead_letter.go, eventing/media/dead_letter.go and
--                   eventing/outbox/replay.go: the isolation of a notification, the dead-letter
--                   record, and RebuildAndEnqueue with Replay
--   Import          usecase/asset_usecase_import.go, domain/import.go and
--                   repository/asset_repository_import.go: ImportSample with the sort of the folders,
--                   what it calls of usecase/asset_usecase.go, and ImportSampleTransaction on the
--                   tables of Folders; Import/Order is what the sort promises, Import/Accepted what
--                   the checks do
--   Folders         repository/asset_repository.go, deletion_fence.go and visibility.go: CreateFolder,
--                   UpdateFolder, MoveFolder, DeleteFolder and DeleteMetadataItem on tables that are
--                   lists of rows, with the unique indexes of the migrations V1 and V7; Folders/Forest
--                   is the tree that they keep, Folders/Fenced what an open deletion holds
--   Prelude         shared types, tests, lists, tables and transactions
--   JobTests, UploadTests, ValidationTests, RelayTests, ConsumerTests, OutboxTests,
--   WorkerTests, ImportTests, FolderTests, DeadLetterTests,
--   ReaderTests, PurgeTests
--                   runs at small inputs and the theorems applied to them
--
-- A function of the model has the name of the Go function in snake case. A Go method that runs a
-- transaction is `transaction work`: an error of the work leaves the database as it was. Rows that
-- the code locks are locked for the rest of the transaction, so that transactions on the same rows
-- follow one another; a run is a sequence of whole calls. The renewals of a lease and the work of the
-- executor are interleaved in an order that is an argument. The clock of the database,
-- statement_timestamp(), is a function from a statement's position in the transaction to an instant,
-- and the application's clock one from the position of a reading; both are arguments.
-- Identifiers and texts are numbers, 0 the empty text, but for the texts of imports, folders and
-- items, which are lists of runes, and the paths of folders, which are lists of labels; instants and
-- durations are numbers of nanoseconds, 0 the zero time, sizes are numbers of bytes.
-- GREATEST(a - b, 0) is the subtraction that stops at 0.
-- An instant keeps its nanoseconds in the tables, where a timestamptz keeps microseconds, but for the
-- creation of a version, which is read back beside the instant it was written from (`timestamptz`). The
-- trigger set_media_updated_at is taken to write the instant of its statement into updated_at. The
-- delays of the relay are the two's complement of an int64 and wrap.
--
-- The loops of the two scans run on fuel: the length of the file, which bounds the number of bytes
-- left to read, and one more where a loop reads nothing in its last turn. That the fuel is enough is
-- part of what is shown. The queue of the import's sort runs on a round for each folder, which is
-- shown to be enough. Run of the reader, which has no end of its own, is taken for a number of turns.
-- The other loops are recursion on a list or on a count.
--
-- Arguments of the definitions stand for code outside the repository: the UUID parser and the JSON
-- codec (`Codec`, `Decoder`, `JsonCodec`), SHA-256 (`digest`), CRC-32 (`crc`) and the image decoder
-- (`decode_config`). Nothing is assumed of them. Not modelled: failures of the database driver, which
-- roll a transaction back; metrics, logging and tracing; the object store, which the sweep has as an
-- argument; request parsing; the processor of the images; the restores of folders, the jobs that
-- delete and restore a subtree, and the creation, update and search of metadata items.
pub mod Prelude
pub mod Media
pub mod Events
pub mod Jobs
pub mod Uploads
pub mod Validation
pub mod Relay
pub mod Consumer
pub mod ConsumerTests
pub mod Outbox
pub mod OutboxTests
pub mod Import
pub mod ImportTests
pub mod Folders
pub mod FolderTests
pub mod DeadLetters
pub mod DeadLetterTests
pub mod Reader
pub mod ReaderTests
pub mod Purge
pub mod PurgeTests
pub mod Worker
pub mod WorkerTests
mod JobTests
mod UploadTests
mod ValidationTests
mod RelayTests
