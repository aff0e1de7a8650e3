-- ===== src/Lib.antt =====
-- A verification of kbeads, an event-driven work-tracking server with a command line client.
--
-- The program. Clients create and update work items ("beads") through gRPC and HTTP handlers
-- (internal/server), which validate them (internal/model), keep them in a Postgres store
-- (internal/store) and announce each change: to connected SSE clients (internal/server/sse.go), to
-- NATS, and through the event bus (internal/eventbus) to JetStream. Agents report hook events,
-- from which the presence tracker (internal/presence) keeps a roster, and advice beads run hooks
-- at the ends of their sessions (internal/hooks). The command line (cmd/kd) applies formulas
-- through a client.
--
-- Which file models which part:
--   Prelude and its children: shared names, lists and maps, what is used of Go's strings, strconv
--     and sort packages. A Go string is the native String, a map an association list, nil a none.
--   Sse (internal/server/sse.go): Sse/Topic has matchTopicPattern and matchesTopic, Sse/Hub the
--     hub with broadcast, subscribe, unsubscribe and eventsSince; Sse/Match, Sse/Buffers,
--     Sse/Ring and Sse/Clients hold the proofs. A client's pointer is a number, its channel a
--     list of at most 64 events.
--   Presence (internal/presence/tracker.go): Presence/Tracker has RecordHookEvent, StartReaper,
--     Stop and sweep, Presence/Roster has Roster; Presence/Sweep, Presence/Invariant and
--     Presence/Lifecycle hold the proofs. Times and durations are numbers of nanoseconds.
--   Eventbus (internal/eventbus): Eventbus/Types and Eventbus/Subjects have the event types and
--     the NATS subjects, Eventbus/Bus has Register, Unregister, Dispatch and the publishing;
--     Eventbus/Routing and Eventbus/Dispatch hold the proofs.
--   Model (internal/model): Model/Bead has the data and its enumerations, Model/Validate
--     ValidateBead, Model/Value and Model/Fields ValidateFields over decoded JSON, Model/Advice
--     the label groups, MatchesSubscriptions and BuildAgentSubscriptions; Model/FieldProofs,
--     Model/Groups, Model/Matching and Model/Delivery hold the proofs.
--   Server (internal/server and internal/store/postgres): Server/Store has the tables and the
--     SQL statements as functions on them, Server/Actions the store calls, which may fail, and
--     RunInTransaction, Server/Notify recordAndPublish, Server/Builtins the builtin configs,
--     Server/Beads createBead, Server/Update updateBead, Server/Close CloseBead, with its proof,
--     and Server/Reconcile reconcileLabels, with its proof; Server/Gates has the session gates of
--     gates.go and http_gates.go, Server/Listing parseSortClause; Server/GateProofs,
--     Server/Labels, Server/Persisting, Server/Creating, Server/UpdateSteps and Server/Updating
--     hold the proofs. A handler is a function from the server's world (the tables, the number of
--     store calls made, the SSE hub, the messages sent) to an answer and the next world; any store
--     call may fail, and then changes nothing. A JSONB column keeps its text as it was sent.
--     Server/Replies has the answers of the gRPC handlers, Server/Rows the statements that delete
--     a bead and write dependencies and comments, Server/Relations DeleteBead and the handlers of
--     server.go, Server/Requests histories of requests; Server/Soundness, Server/References,
--     Server/GateRows, Server/Preserves, Server/Keeps, Server/KeepsCreate, Server/KeepsUpdate and
--     Server/KeepsHandlers hold the proofs; Server/Samples has data for the tests of all parts.
--     Server/Query builds the query of queryListBeads, a clause being a datum with the numbers of
--     its placeholders, and says what the database makes of it (what LIKE, ->> and ORDER BY
--     compute is a parameter); Server/ListBeads has the page that comes back, Server/ListHandler
--     the gRPC handler; Server/Filter says what a filter takes, and Server/Clauses,
--     Server/QueryProofs and Server/ListProofs hold the proofs.
--   Hooks (internal/hooks and internal/server/http_hooks.go): Hooks/Executor has the timeout of
--     a command, Hooks/Handler HandleSessionEvent, Hooks/Emit handleHookEmit, with mergeBeadFields
--     of internal/server/http.go, Hooks/Endpoints the other two handlers. The shell and git are
--     parameters, the shell seeing the commands run before. Hooks/HandlerProofs, Hooks/Session,
--     Hooks/StopGate, Hooks/PendingGate, Hooks/EmitProofs and Hooks/Keeps hold the proofs.
--   Formula (cmd/kd/formula_apply.go): Formula/Template has substituteVars and
--     evaluateCondition, whose recursion runs on as much fuel as the text has characters, one more
--     than its negations can use; Formula/Variables has the data and the variables, Formula/Apply
--     has runFormulaApply from the decoded formula on, over a client that is a parameter.
--     Formula/TemplateProofs, Formula/Creating and Formula/ApplyProofs hold the proofs.
--   Graph (internal/server/http_graph.go): Graph/Ready has handleGetReady, Graph/Edges the
--     edges, beads and parents of handleGraph from the results of its queries, which are
--     parameters, Graph/Prune its agents and its pruning. Graph/ReadyProofs, Graph/Neighbors,
--     Graph/PruneProofs and Graph/EdgeProofs hold the proofs.
--   Decision (internal/server/http_decisions.go): Decision/Handlers has the handlers that
--     resolve and cancel a decision, where a panic breaks the connection off; Decision/Resolving
--     holds the proofs.
--   Http (internal/server/http_beads.go, http_relations.go, interceptors.go, grpc.go):
--     Http/Beads and Http/Relations have the handlers from a decoded request on, Http/Replies
--     their responses, Http/Rpc the gRPC handlers that call createBead and updateBead or only
--     read, Http/Listing handleListBeads with the query parameters that ListBeads of
--     internal/client/http.go sends, Http/Auth the interceptors, the middleware and the client's
--     header. Http/History has histories of requests to these handlers, to those of decisions and
--     to the gRPC handlers, and of hook events. Http/Agreement, Http/Closing, Http/ListingProofs,
--     Http/AuthProofs, Http/Keeps and Http/CallKeeps hold the proofs. The text of an error message
--     is left out; a handler that panics gives nothing.
--   Config (internal/server/config.go and http_config.go): Config/Rpc has the statements on
--     configs and the gRPC handlers, Config/Handlers the HTTP handlers; Config/Colons,
--     Config/Entries and Config/Listing hold the proofs.
--
-- Bounds and fuel. The loops are structural recursions over lists or over the rounds left and need
-- no fuel, but for evaluateCondition and the digits of a number, whose fuel is shown to be enough.
-- A hook's timeout is computed in 64 bits with their wrap-around. Event ids wrap at 2^64 as in the
-- source; counters of events and of clients, which cannot reach 2^63 in practice, are unbounded.
--
-- Parameters, each with a concrete instance in the tests: sort.Slice is any function that permutes
-- its list into an order that its test allows; encoding/json, the context and the handlers are
-- functions, with the laws that a theorem needs among its hypotheses; so are the shell and git
-- that hooks run, the client that a formula is applied through, what the database makes of LIKE,
-- ->> and ORDER BY, and the batch queries behind the graph.
--
-- Not modelled: the wire formats and routing of the gRPC and HTTP transports and generated code,
-- the database behind the statements, NATS, S3 and git clients, terminal output. What a mutex
-- covers is one step; a broadcast is three of them, since its id is taken and its event stored and
-- fanned out apart, and the presence tracker gets the time that was read before its lock. Streams
-- of gRPC, of which the server has only reflection, are not modelled.
pub mod Prelude
pub mod Sse
pub mod Presence
pub mod Eventbus
pub mod Model
pub mod Server
pub mod Hooks
pub mod Formula
pub mod Graph
pub mod Decision
pub mod Http
pub mod Config
