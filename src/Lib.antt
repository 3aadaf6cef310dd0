-- ===== src/Lib.antt =====
-- Gopeed's download core: how the HTTP fetcher gets every byte of a file over several connections,
-- how the downloader decides which tasks run, and how extractions are queued.
--
-- The parts and where they are modelled:
--   Http       internal/protocol/http/fetcher.go and helper.go. `Http.Chunk` has the chunks and the
--              sections of `downloadChunkOnce`, `Http.Steal` is `helpOtherConnection`, `Http.Expand`
--              `expandConnections`, `Http.SlowStart` the `slowStartController`, `Http.Retry` the error
--              handling of `runConnection`, `Http.Finish` `onDownloadComplete` and `checkCompletion`,
--              `Http.Resume` `resumeConnections`, `Http.Lifecycle` the fetcher's state machine,
--              `Http.Single` and `Http.Fallback` a download without range support, `Http.Restart` what is
--              saved of a download, `Http.Request` the requests and `Patch`, `Http.Prefetch` the
--              background read `asyncPrefetch`, and `Http.Disposition` the file name in a header.
--   Http.Transfer  puts them together: a world of connections, goroutines and one file, and a step
--              relation whose steps are the stretches of code between two locks, so that every
--              interleaving of the goroutines is a sequence of steps.
--   Download   pkg/download. `Download.Task` has tasks and filters (model.go), `Download.Scheduler` and
--              `Download.Operations` the operations of downloader.go on tasks and waiting tasks,
--              `Download.ExtractQueue` is extract_queue.go, and `Download.MultiPart` the claims by
--              which the parts of an archive agree on one extraction (downloader.go).
--              `Download.Parts` recognises the parts of an archive by their names (extract.go) and
--              collects their files (downloader.go). `Download.Storage` is storage.go, with the
--              interface by which `Download.Persist` saves and restores a task and its fetcher
--              (downloader.go, internal/protocol/http/fetcher_manager.go), `Download.Setup` loads the
--              tasks at the start, and `Download.Config` is the configuration (pkg/base/model.go).
--              `Download.Create` makes tasks, `Download.Progress` is their progress and what follows a
--              download (downloader.go, model.go), and `Download.Resource` has resources, options and
--              scheme filters (pkg/base/model.go, internal/fetcher/fetcher.go). `Download.Extraction` is an
--              extraction and its result, `Download.Removal` what a deletion removes, and `Download.Hooks`
--              the webhooks and scripts (webhook.go, script.go).
--   Extension  pkg/download/extension.go. `Extension.Manifest` has extensions and their settings,
--              `Extension.Registry` the list of those installed, `Extension.Settings` what an update does to
--              the settings, `Extension.Source` the URL that is cloned, `Extension.Trigger` the scripts
--              that run at an event, `Extension.Context` the values that they keep, and
--              `Extension.Upgrade` the extensions that are cloned.
--   Torrent    internal/protocol/bt/fetcher.go: `Torrent.Fetcher` has the files that are downloaded,
--              `Torrent.Seed` the loop of `doUpload`, `Torrent.Client` the client that all fetchers share,
--              and `Torrent.Add` and `Torrent.Manager` how a torrent is added, with its trackers and names
--              (also pkg/util/url.go).
--   Rest       pkg/rest: `Rest.Auth` is the login and the check of requests in server.go, `Rest.Api` the
--              requests on tasks in api.go, which are operations of `Download.Operations`,
--              `Rest.Creation` those that create tasks, and `Rest.Extensions` those on extensions.
--   Util       pkg/util, over lists of bytes: `Util.Filename` is `SafeFilename` and `Util.Files`
--              `CheckDuplicateAndRename` in path.go, and `Util.Match` matches URLs with patterns
--              (matcher.go).
--   Base       lists, bytes, maps with string keys, and tests over the native numbers.
-- The downloader starts a fetcher in `doStart` and hears of its end in `watch`; the reports come as
-- the operations `finished` and `broke_down` of `Download.Operations`.
--
-- Numbers: offsets and sizes are int64 in the source and never negative there, and are natural
-- numbers here. `chunk.remain` can be negative in the source; `Http.Chunk.remain` stops at 0, and
-- says why that makes no difference. Speeds are computed in floating point and are arguments here.
-- The loops over lists and batches are structural. The loops that ask the file system for one name
-- after another run on fuel, where `none` is a loop that has not ended; one round more than the first
-- number without a file is enough.
--
-- What the models rely on: the server answers a range request with the bytes of one fixed file, in
-- their order, and ends the body only behind the last byte asked for; a write puts the bytes at the
-- offset, or fails as a whole. The context is canceled only by a pause, after which the goroutines
-- start again by `resumed`. An operation of the downloader is one step: `doStart` and `doPause` are
-- taken with the operation that calls them, though the source runs them outside its main lock.
-- A saved record of a download has all its connections as they were at one moment, though the
-- source writes them as JSON without their lock: a theft meanwhile can lose a range.
-- A call of a script that changes a value is two steps, the reading of the extension's map and the
-- writing; the source has no lock between them, so two calls of one extension that overlap can lose
-- a value.
-- A task is found by its ID, where the source also keeps pointers: an entry of the waiting tasks
-- whose task was deleted starts nothing here.
--
-- Not modelled: the following of redirects, the decoders of character sets, the database
-- behind the storage, the script engine, archive formats, the torrent library, the REST requests on
-- the configuration and the proxy, the command lines and the user interface.
-- They call libraries, networks, processes or a script engine, or wait for the parts above.
pub mod Base
pub mod Http
pub mod Download
pub mod Extension
pub mod Torrent
pub mod Util
pub mod Rest
