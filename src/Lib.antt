-- ===== src/Lib.antt =====
-- Jimu Studio: the broker of logins and sessions, the provider's client, the web server, the local
-- provider, the release record and the configuration.
--
-- Jimu Studio is a web front end to Jimu providers. internal/auth holds its volatile state: a
-- user begins an OIDC authorization, completes it, and gets a session that is bound to one tenant,
-- one token and one client of the provider; sessions hold drafts and idempotency keys of operations.
-- internal/provider is that client; internal/server is the web server, whose handlers find a request's
-- session through the broker, run operations with the session's client, and keep plans as drafts.
-- internal/localprovider is a provider for local use: it serves metadata, users, roles,
-- workflow and quota over HTTP and keeps its state as one JSON row in PostgreSQL. internal/release
-- verifies the record with which a version is released, and internal/config the registered tenants.
--
-- Base: tests, lists, texts, dictionaries (a Go map is a list of keys and values without a double
--   key), 64-bit integers that wrap at an increment, and the sorting of texts.
-- Auth: Types is internal/auth/types.go; Setup is `NewBroker`, Begin is `Begin`, Complete is
--   `Complete` of broker.go; Session and Teardown are session.go; Drafts is draft.go and
--   operations.go. A `*sessionState` is a pointer into the broker's heap, so that a deactivated
--   session that someone still holds is seen as it is; `closed` lists the closed clients. Each
--   operation takes the broker and returns the next one as one step, also `Complete` and `WithClient`,
--   which release the mutex in between; Runs composes them to histories. What comes from outside in
--   one call (clock, random source, identity providers, client factory, net/url, SHA-256) is the
--   `World` of that call.
--   Compare is the comparison in constant time, with the loop of crypto/subtle on the bytes of UTF-8.
--   Cases has the outcomes of each operation; Compared, Invariant, Bounds, SingleUse, Admitted, Login,
--   Disposal, Shown, DraftLaws and RoleLaws are about them.
-- Provider: Types is the data of internal/provider; Text and Validate are its tests on texts and
--   resources; Client is client.go with the decoding of metadata.go; Metadata is metadata.go,
--   metadata_delete.go and migration.go, and Resources is identity.go and operations.go. A validator
--   gives the text of its error. `Http` holds the packages around the client: the transport, net/url,
--   mime, time, strings.Map and the decoders and encoders of encoding/json. Texts are sequences of
--   Unicode characters with their length in bytes of UTF-8 (a Go text that is not UTF-8 is not
--   represented), and JSON maps are their texts. A redirect is followed by net/http's own policy
--   unless the client refuses it. Origin and Returned are about the client.
-- Server: Types is a request and an answer, with a page as data, and `Env`, what a handler asks of the
--   world: each call of the broker and of the provider has a number and a world of its own. Roles
--   is `HasRole` and the navigation. Guards is the authentication, the guards and the errors that
--   internal/server/authenticated.go, metadata.go and migration_error.go share; Login is the rest
--   of authenticated.go, Metadata is metadata.go, Deletion metadata_delete.go, Migration migration.go, Identity identity.go, Workflows and Quota
--   operations.go, Routes the routes of `NewAuthenticated`. `proceed` is the early return on an
--   error, and `admit` and `visit` are the guards with which handlers begin. Laws has the
--   outcomes of the guards (Cases, Sessions), what all handlers keep (Kept to Operated, History), and
--   what Searched, Guarded, Reviewed, Callback, Submitted and Retried are named for.
-- LocalProvider: State is the persistent state; Mutation, Entities, Identity and Workflow are the
--   handlers of internal/localprovider/server.go and operations.go; Routes is `serveLoaded`; Storage
--   is `ServeHTTP` and `servePersisted` with the database's answers as parameters. A mutation is an
--   `Effect` that `mutate` runs under its idempotency key. The decoders of encoding/json and the
--   texts of the clock are parameters. A kept result is the handler's value within its request, and
--   what encoding/json makes of it (`read_back`) once the row has been read again.
-- Release: Acceptance is internal/release/acceptance.go on decoded records; Gates and Verified are
--   about the records it accepts.
-- Configuration: File is `Validate` and `ValidateListenAddress` of internal/config/config.go and
--   development.go; Endpoints is about the files that are accepted. net/url and net are parameters.
--
-- Fuel: the loop that evicts pending authorizations runs on as many rounds as there are entries and
-- one more. Redirects that are followed are ten at most, as in net/http. The loop that draws a draft
-- reference has the source's three attempts.
--
-- Not modelled: the templates and the multiplexer of the web server, contexts and timeouts, the OIDC
-- adapter over third-party packages, the reading of files, the pinned contract and the scorecard,
-- HTTP headers, and the set-up of PostgreSQL. The calls of `WithClient` always have an operation.
pub mod Base
pub mod Auth
pub mod Provider
pub mod Server
pub mod LocalProvider
pub mod Release
pub mod Configuration
