-- ===== src/Lib.antt =====
-- A feed of signed DP-1 documents: playlists, playlist groups and channels.
--
-- A client submits a signed document over HTTP; the executor (internal/executor) checks the identity that
-- the document asserts, who owns it, and, for a replace or a delete, a signed intent of a stored owner;
-- the feed co-signs the same bytes (internal/dp1svc) and the store (internal/store/pg) commits them in one
-- transaction. Groups and channels list playlists by reference, which the store links or inserts.
--
-- Which file models which part:
--   Shared      tests, results with error chains, lists, and the functions of Go's `strings` package
--   Errors      the sentinels of internal/store and internal/executor, and the predicates on chains
--   Models      internal/models, and the members that the code reads of the structs of dp1-go
--   Platform    what is not in this repository, as records of functions that the definitions are given:
--               google/uuid, the RFC 3339 reader, the JSON decoder, PostgreSQL's operators on a body, and
--               dp1-go behind the interface `ValidatorSigner` of internal/dp1svc/dp1svc.go
--   Dp1svc      internal/dp1svc/dp1svc.go: Keys is the signing key, Merging the feed's own entry among a
--               document's signatures, Signing `appendFeedSignature` with its theorem
--   Owner       internal/executor/ownership.go; Keys and Rules hold the functions, Sets, Laws and Groups
--               the theorems
--   Auth        internal/executor/signed_auth.go and the parsers of `id` and `created` of executor.go
--   Store       internal/store/pg/store.go over the tables of db/migrations: Tables (one table with its
--               tombstones), Playlists, Ingest (`insertMissingPlaylistsBatch`), Containers (groups and
--               channels); Rows, Writes, Links, Positions, Updates, Creations and History hold the
--               theorems on writes. Keyset is the order and the pages that the list queries share
--               (internal/store/sort.go), Cursors the tokens, Lists the lists (with
--               internal/store/pagination.go), each with its theorems below it
--   Exec        internal/executor/executor.go: Playlists, Groups and Channels (creates and replaces),
--               Deletes, Reads; References is internal/executor/ingest_resolve.go, with the fetcher as an
--               argument; Replaces, Commits, Creations, Removals, Resolution and the modules called Laws
--               hold the theorems
--   Fetcher     internal/fetcher/fetcher.go over a network that answers each URL; Addresses and Chains
--               hold the theorems
--   Http        internal/httpserver/errors.go, with its theorems in Statuses; Queries is pagination.go and
--               the list handlers of handlers.go, with its theorems in Pages; Conditional is etag.go and the
--               handlers that serve one document, with its theorems in Revalidation; Members is the walk
--               `exactMembers` of bind.go, Gate `RequireSignatures` of middleware.go, and Writes the binding of
--               bodies and the handlers that write; Strict and Flows hold the theorems
--   Notify      internal/notification/client.go: Endpoint is the rule for a webhook's URL, Webhook the keys,
--               the signed request and the dispatch, with a consumer of the webhook in Receiver
--   Config      internal/config/config.go: Settings (types and defaults), Integers (int64), Environment
--               (`applyEnv`), Checks (`validate`), Loading (`Load`); Laws holds the theorems
--   Logger      internal/logger/cloudflare.go and the stream configuration of logger.go: Records is the body
--               of a request, Options the bounds, Sender what producers and the delivery goroutine share,
--               Worker the goroutine's own variables, Run both as steps of one system; Capacity, Order and
--               Shutdown hold the theorems
--   Tests       runs on a small world, with stand-ins for the libraries
--
-- How state corresponds: `Db` is the tables; a transaction is a function from the state before it and the
-- instant of its `now()` to the state after it, or an error, which leaves the state (the rollback). The
-- advisory locks put transactions on one id in a row, and a sequence of committed transactions is
-- `Store.History.Later`. A method of the executor that reads and later writes is given both states, so
-- that anything may commit in between; the resolutions of references are numbered, and each reads a state and
-- a network of its own. The bytes of a row are the text that PostgreSQL gives back for the JSONB of what was
-- written (`Platform.jsonb_text`), so that a read need not give the bytes of the write. An error is the list of the sentinels that its chain wraps; message
-- texts are not modelled. A clock reading is an argument. UUIDs and instants are natural numbers, instants
-- in nanoseconds from Go's zero time. `playlist_sources` is keyed by the URI where the table uses its
-- SHA-256 digest. A list query is a filter, an order and a limit over the rows of its table, in place of
-- the SQL text. Loops are structural recursion, so no fuel is needed; the redirects of a fetch are counted
-- down from their limit of five requests, and a client that follows the tokens of a list is given a bound
-- on its pages, which one more than the number of rows satisfies. Base64 and JSON of a token are a codec
-- that the definitions are given; what the store relies on of it is `Store.Cursors.Tokens.IsCodec`, for
-- instants before the year 10000.
--
-- A run of the log sender (`Logger.Run.Run`) is a sequence of calls of producers and of steps of the delivery
-- goroutine, in any order that the mutex and the channels allow; a record is received in one step and
-- taken off the byte count in the next. What the remote stream answers is a function of the requests
-- before. The rendezvous of a flush is the step that takes its request; its
-- drain ends in one step and its answer is another, so that records may be admitted in between. A request
-- that could not be built is an attempt like one that was sent and failed. The default bounds are those of
-- the source, and the number of steps of a run has no bound.
--
-- Not modelled: the route table, the read of a channel under its members' digest and that of an item,
-- health, CORS and the server loop, the transport of a fetch and its time limits, what a log entry becomes
-- as a record, start-up, and the digest of a channel's members. Failures of the database other than
-- those that the schema's constraints cause are left out, and so are nil arguments. Of contexts only the
-- deadline's presence is modelled, so that a call of `flush` or `close` that gives up waiting is not.
pub mod Shared
pub mod Errors
pub mod Models
pub mod Dp1svc
pub mod Platform
pub mod Owner
pub mod Auth
pub mod Store
pub mod Exec
pub mod Fetcher
pub mod Http
pub mod Logger
pub mod Notify
pub mod Config
pub mod Tests
