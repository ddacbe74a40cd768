-- ===== src/Lib.antt =====
-- A verification library of PaperClaw, which turns an inbox of PDFs into a library of documents:
-- each file is read, hashed, looked up in an index of what is there, transcribed, classified,
-- validated and written beside its metadata, or put into quarantine.
--
-- The parts of the program, and the files that model them:
-- - internal/document: names (document.go) in Document/Slug.antt and Document/UniqueName.antt, the
--   storage interface (storage.go) in Document/Storage.antt, metadata and its schema (metadata.go,
--   schema.json) in Document/Metadata.antt, the transcript (ocr.go) in Document/Ocr.antt, the Claude
--   classifier (classify.go) in Document/Classify.antt with the input schema of its tool in
--   Document/Classify/Schema.antt, and ProcessOne (pipeline.go), which uses them all, in
--   Document/Pipeline.antt. Document/Pipeline/Indexed.antt is what it needs of a storage that keeps
--   an index of hashes.
-- - internal/telemetry: the spans of the stages (observer.go) in Telemetry.antt, the setup of the
--   exporters (telemetry.go) in Telemetry/Setup.antt and the instruments (metrics.go) in
--   Telemetry/Instruments.antt; what the worker counts is in Serve/Worker.antt.
-- - internal/store (store.go, migrate.go): the SQLite tables and each method in Store and its
--   children. It holds the dedup index, the sync state, the token and the run status, through
--   which the other parts meet.
-- - internal/storage/drive (drive.go): the methods of the Drive backend in DriveStorage and its
--   children; DriveStorage.Quarantine.drive_storage is the storage that the pipeline is given.
--   The client of the Drive API (client.go) in DriveClient.antt, which fills the storage's service,
--   and the calls of the changes API (changes.go) in DriveClient/Changes.antt.
-- - internal/serve: the scan of worker.go in Serve/Worker.antt, with its request channel as a step
--   relation in Serve/Worker/Queue.antt, and the push channel of channelmgr.go in
--   Serve/ChannelManager.antt, whose ids are drawn by Serve/RandomHex.antt.
-- - internal/serverhttp: the webhook (webhook.go) in ServerHttp/Webhook.antt, the probes of liveness
--   and readiness (server.go) in ServerHttp/Readyz.antt, its routes in ServerHttp/Routes.antt and the
--   cached probe of the API (prober.go) in ServerHttp/Prober.antt. internal/config (config.go) in
--   Config.antt, internal/oauth (oauth.go) in Oauth.antt, the state that it draws in
--   Oauth/RandomState.antt.
-- - internal/storage/local (local.go): the methods of the local backend in LocalStorage.antt, over
--   an operating system whose laws are in LocalStorage/Disk.antt; file paths are cleaned and joined
--   by LocalStorage/Path.antt. LocalStorage.local_storage is the storage that the pipeline is given.
--   The storage in memory of the tests (internal/storage/fake, fake.go) in FakeStorage.antt.
-- - cmd/paperclaw (main.go): main in Commands.antt, and the commands process, list, show and search
--   in its children, which read the local library. How the daemon (serve.go) joins the OAuth flow,
--   the Drive storage and the store is in Daemon.antt, and its start, which sets up the exporters, in
--   Daemon/Start.antt.
-- - System.antt and its children put the running daemon together: the endpoints, the channel manager
--   and the worker act on one store, one Drive and one queue of scan requests. An HTTP request, a
--   probe and a round of the channel manager are one act each, and the worker goes from one call of
--   its storage to the next, with any acts of the others in between (System/Worker.antt). A round of
--   the channel manager reads its token from the store as it was before the round. Request paths
--   are taken to be clean already. System/Shutdown.antt is what the worker does when its context ends.
-- - Base and its children hold what all share: texts as code points, results, methods that return
--   at the first error, Go maps as association lists. Tests runs the code at concrete inputs.
--
-- How code becomes definitions: a method that changes its receiver is a function from the state to
-- a result and the new state (Method); what was written before an error stays written. An early
-- return is the error clause of a function that takes the result of the call before it. An error
-- is its message. Times are nanoseconds from Go's zero time, read back from the store to the
-- second. A SQL statement does what it says or fails and changes nothing: Db carries which of the
-- coming statements fail, so that every theorem on a Db holds for all of these.
--
-- Bounds and fuel: the loop of UniqueDirName has no bound in the source and takes fuel here; one
-- round more than there are names in the folder is enough (Document/UniqueName/Fresh.antt), and
-- the Drive backend gives it that many. The local backend asks the disk for each name and takes
-- the number of rounds as an argument (LocalStorage/Written.antt says how many are enough), and so
-- is the number of pages that a listing of Drive may have (DriveClient/Pages.antt). All other
-- loops are structural recursions. Run of the channel manager is a list of rounds, and the
-- worker's loop a sequence of signals. Lengths are counted in code points; slugs are ASCII, where
-- these are bytes, and the ID that search cuts is encoded (Base/Utf8.antt). Counters are not bounded.
--
-- Parameters, since they are not part of the program: the Anthropic API, the JSON, YAML and
-- JSON-schema libraries, the oauth2 and OpenTelemetry libraries, pdftotext, Go's lower-case table beyond ASCII, the
-- layout RFC 3339 (with the law that a written time is read back to the second), the clock, the
-- random source, the generated client of the Drive API, the parsing of command-line flags, and the
-- operating system: a file is what can be read at a path, a call changes no file but its own, and
-- no link makes two paths one file.
--
-- Not modelled: the shutdown of the HTTP server and the end of the other goroutines
-- (cmd/paperclaw/serve.go), the calls that open the HTTP listener, log lines of the daemon, and the
-- redirect URL of the OAuth flow.
pub mod Base
pub mod Document
pub mod Store
pub mod Serve
pub mod ServerHttp
pub mod Config
pub mod Oauth
pub mod DriveStorage
pub mod DriveClient
pub mod LocalStorage
pub mod Commands
pub mod Daemon
pub mod System
pub mod FakeStorage
pub mod Telemetry
mod Tests
