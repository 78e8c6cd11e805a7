-- ===== src/Lib.antt =====
-- The TypeScript SDK of the Neural Mesh Protocol: a server runs the logic that a client sends next
-- to the data, and guards what leaves. This library models the guards, the framing of messages and the
-- routing of requests through the mesh.
-- The paths below are from sdks/typescript/src/.
--
-- A request passes these parts in turn. The gateway's rate limiter (gateway/rate-limiter.ts) counts
-- it for its client; it arrives in gRPC-Web frames (gateway/grpc-web.ts) or in length-prefixed
-- messages (rpc/codec/lpm.ts); `authorizeRequest` (security/rbac.ts) compares the scopes of its token
-- with those that its method needs; `callTool` (server/index.ts) checks the limits on the calls of all
-- tools and of its tool; the preflight policy runs the taint analyzer (security/taint-analyzer.ts) on
-- the logic and charges the fields that it reads to the query budget (server/index.ts); the output
-- passes the aggregation-first policy (server/index.ts); an execution is written to the audit log
-- (security/audit-logger.ts), and its worker signs a receipt (workers/logic-execution.ts) that the client
-- verifies (workers/zk-verifier.ts). Remote agents reach the server over the stream bridge
-- (bridge/stream.ts), and a gateway dispatches the requests for its own tools and for those of the
-- peers of its mesh (gateway/router.ts).
--
-- The modules:
--   Prelude: the names that all files share. `Assoc` is a string-keyed Map, kept as its entries in
--     insertion order; `Int` has integers, `Bytes` buffers of bytes, `Json` JSON values with `Walk`, the
--     checks that walk through them, and `Members`, the members of objects; `Trim`, `Prefix` and `Split`
--     are about texts.
--   Security.Rbac: `scope_map` is SCOPE_MAP, `authorize_request` is authorizeRequest. SCOPE_MAP is a
--     plain object: a method that names a function of Object.prototype finds that function.
--   Security.Taint: `Ast` has the node types of acorn that the analyzer tells apart, all others are
--     `other`. `Eval` has isExpressionTainted and the functions that it calls, which pass the mutable
--     set of tainted variables on; `Passes` has the passes on variables and returns, `Gates` the
--     gates for small datasets (`SmallData` says what they ask, `Repeats` counts the fields),
--     `Analyze` has analyze, classifyField and extractQueriedFields. `Pure`
--     is a reference definition without the mutable set; `Walk` is a walk as of acorn's `simple`.
--   Security.Zk: `verify` is ZkVerifier.verify of security/zk.ts.
--   Security.AuditLogger: `record_execution`, `verify_integrity`, `create` with loadFromFile.
--   Server.Budget: `check_query_budget` is the query budget part of runPreflightPolicy,
--     `apply_in_memory_budget` is applyInMemoryBudget, `reset_field_budget` is resetFieldBudget.
--   Server.ToolRate: checkToolCallRateLimit, checkGlobalRateLimit and their order in callTool.
--   Server.Aggregation: violatesAggregationFirstPolicy under a policy, over JSON values.
--   Server.Pii: `scan` is PiiScanner.scan of server/pii.ts, `Keys` has the rules on keys, `Refused`
--     says which keys and texts are refused by themselves, `Validators`
--     the validators of the patterns. A regular expression is given by the list of its matches; that
--     of a short token is a matcher for tokens of letters and digits.
--   Observability.Metrics: counters, gauges, histograms and the registry of observability/metrics.ts.
--   Bridge.Stream: `handle_mcp` is the handler of /mcp in bridge/stream.ts, cut where it waits;
--     `Access` has its middleware, `check_access`; `Events` has histories of requests, of the calls
--     that the transports make and of the eviction timer.
--   Crypto.LogicImageId: normalizeLogicSource and deriveLogicImageDigest of crypto/logic-image-id.ts; the
--     regular expression of the envelope is a matcher by recursion on the text.
--   Workers.LogicExecution: the session's age, the image identifier, the journal and the receipt in
--     workers/logic-execution.ts. Workers.ZkVerifier: verifyZkReceipt and tryExtractProxyOutput of
--     workers/zk-verifier.ts, one definition for each check; `Runtime` has the hashes, UTF-8 and JSON.
--   Gateway.RateLimiter: check, reset, cleanup and close of InMemoryRateLimiter.
--   Gateway.Compat: gateway/mcp-compat.ts and detectEra, with the requests and responses of types.ts;
--     `Era` says what an adapted result has. The support of legacy clients is on, as the code has it.
--   Gateway.Router: gateway/router.ts. The state is the cache of manifests, the failures of the circuit
--     breaker and the shared token. `Breaker` has the history of the breaker, `Discovery` the refresh of
--     the cache from the found providers on, `Tools` getRemoteTools after its warm-up and
--     resolveManifestTarget, `Resources` getRemoteResources, `Tokens` getOrAcquireMeshAgentToken, `Route`
--     the address of a remote node, `Calls` routeToRemoteProvider and performTranscoding with the answer
--     of the node, and `Dispatch` the method dispatch: `Transcode` is transcodeMcpToLiop, `Handle` has
--     a case for each method. A manifest of a peer may lack its resources; its other fields are taken
--     to have the form of their types, which the query of a manifest does not check either.
--     The encryption of a call is a library's: the answer of the node, `Reply`, may be that the call
--     never settles.
--   Gateway.GrpcWeb: encodeDataFrame, encodeTrailerFrame and decodeFrames.
--   Rpc.Lpm: LpmCodec.encode and LpmCodec.decode.
--
-- State is passed explicitly, and the clock and the random identifiers are arguments; a request reads
-- the clock once where the code reads it twice in a row. A length, a
-- count or a time is a natural number; where the code's number can be negative (`remaining`) it is an
-- integer. Texts are lower-cased by their ASCII letters. An error is a value with the code's text, or
-- with the parts that the text is made of.
--
-- Fuel. The recursion of isExpressionTainted goes through the walk of a callback's body, so it has a
-- depth: `is_expression_tainted` starts with the size of the expression, which is enough for every walk
-- that visits only parts of a tree. The loop of propagateTaint has the three iterations of the code.
-- The check of the aggregation-first policy and the scan for personal data go into texts that hold
-- JSON: their depth is the size of the value, where a text counts its characters. The loop of
-- decodeFrames has the length of the buffer, and takes five bytes at least in each turn.
--
-- Parameters, for code that is not in this repository, and for parts that a model only calls:
-- `parse` (acorn.parse or JSON.parse), `visits` (the order in which acorn's `simple` calls the
-- visitors), `stringify`, `sha256`, `encode_uri_component` and `utf8`, the record `Runtime` of
-- Workers, for the bridge the message handler and the JWT validator, for the router the record
-- `World` (process.env, the authorization server, the checks of signatures and receipts), the
-- record `Mesh` (the queries and calls of the mesh node, with the encryption of what is sent) and
-- the record `LiopServer` (the methods of the local server, sort by localeCompare), for the scan
-- the matches of the patterns, for the metrics the order of `localeCompare`.
--
-- Not modelled: the budget file of the query budget, the budget of a client that names a property
-- of Object.prototype in it, the output schemas, the decryption and the sandbox, the lexicon of the
-- NER scanner, the mesh node, the search of the router for providers with its waits, the warm-up of
-- tools/list, the text of the diagnostic tool, telemetry, logs, the HTTP servers of the gateway,
-- certificates, the validation of tokens and the calls of cryptographic libraries, and the
-- implementations in other languages.
pub mod Bridge
pub mod Crypto
pub mod Gateway
pub mod Observability
pub mod Prelude
pub mod Rpc
pub mod Security
pub mod Server
pub mod Workers
