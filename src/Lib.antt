-- ===== src/Lib.antt =====
-- Verification of the GPUStack Higress plugins: Proxy-Wasm filters in Go (extensions/*) that run in
-- the Envoy workers of a Higress gateway, choose a model instance for a request, limit rates and
-- control access. Every plugin keeps what its workers share in the host's shared data or in redis.
--
-- The parts, and the file that models each:
-- * extensions/gpustack-lb, the load balancer. A context plugin publishes the candidates, ranking
--   plugins give their opinion, and the finisher picks one and reserves a slot on it.
--   - wire/wire.go: Wire. `Candidate` and `RankEntry` are the structs, `key` is Candidate.Key.
--   - state.go: Lb/State. Each function (readInflight, reserveInflight, removeInflight,
--     recordSuccess, recordFailure, loadInflight, loadHealth, storeJSON) has the same name in
--     snake case. A CAS loop is `..._attempts` on the attempts that are left (casMaxRetries 10,
--     removeCasRetries 20, the source's own bounds: no fuel is added), and the body of the loop
--     after its load is `..._loaded`.
--   - store.go and the methods of sharedDataStore in state.go: Lb/Store. `reserve` is the walk over
--     the targets, `done` the end of a request, `load_states` the read of all states. A callback
--     `done(...)` of the source is the result here.
--   - context.go: Lb/Context. `build_candidate_set` with `scratch_of` for a round of its first
--     loop, and `resolve_candidate_model` of config.go. The float operations are a record of
--     operations.
--   - finisher.go: Lb/Finisher. `reserve_order` (the shuffle and the float order are arguments),
--     `finalize_selection` with its index panics as `panics`, and `done_record`.
--   - health.go: Lb/Flags.
--   - selector.go: Lb/Selector. `select_weighted` with its two loops `sum_weights` and `pick_at`,
--     `uniform_pick`, `round_robin` with the cursor passed through, and `hash64`, which is FNV-1a;
--     Lb/Selector/Scored has combineRanks, bestTotal and selectCandidate, the random draws as an
--     argument.
-- * extensions/gpustack-rate-limit, backend.go: RateLimit. `Window` has the sliding window of the
--   local backend: localWindowTotal, localAddEntry (a CAS loop on localMaxCASRetries 10 attempts)
--   and the 16-byte encoding of its entries; `Batch` has BatchEval with its two passes. What the
--   callback is given is part of the result.
-- * extensions/gpustack-ip-acl, main.go: Acl. Config has the parsers of the global configuration
--   (`parse_config`, `parse_global_config`) and of a route's (`parse_override_rule_config`, where
--   `override_consumers` is the loop over the route's rules), Request the address of the client
--   (`resolve_client_ip`, `walk_entries` for the walk of resolveTrustedClientIP) and the decision,
--   and Acl itself the lookup and `enforce`. Acl/Net holds what the plugin uses of package net:
--   To4 and Contains are written out, the readers of texts (ParseIP, ParseCIDR, SplitHostPort) are
--   parameters.
-- * extensions/gpustack-ext-auth, config.go to verification.go: Auth, with one file per source
--   file. Credential is credential.go, Marker marker.go, Cache verification.go, Matcher
--   matcher.go; Resolve (the tiers of resolveIdentity and the decision to pass without the server)
--   and Request (buildAuthzRequestHeaders) are from main.go. Hashes, base64 and JSON are a record
--   of primitives; Marker/Text tells which markers JSON can carry unchanged, those of UTF-8 texts,
--   by Go's utf8.ValidString written out. The host's shared data is a function from keys, and what a tier writes to it is
--   part of its result; the header rewrites of a local pass are the consumer and the marker in its
--   outcome.
-- * extensions/gpustack-lb-session-affinity, affinity.go: Affinity. A score is the natural number
--   of its top 53 bits; the sort is by insertion, and its order is total, so that any sort gives
--   the same list.
-- * extensions/gpustack-model-mapper, main.go: ModelMapper. `parse_mappings` is the loop over the
--   sorted entries, `resolve_model` the resolution, `handle_json_body` the JSON body; Multipart has
--   the multipart body (`then_scan` is the loop over the parts) and the two phases of a request.
-- * The reader of JSON, gjson: Json. The operations on a document that the plugins use are a
--   record; Json/Sample is an instance. A loop over ForEach is a recursion on the list of entries.
-- * The host: Host. `SharedData` is what Proxy-Wasm's shared data offers, with its laws as fields;
--   it is a parameter of the theorems on the routines that call it, and Host/Table is an instance. A routine that calls the
--   host is a `Program`, the tree of its calls; `run` executes it alone, and Host/Interleave lets
--   any number of programs take turns call by call, where any call may also fail.
--
-- Machine integers are Go's int64 with wrap-around written out (Common/Int64). A JSON document in
-- the load balancer's shared data is a `Blob`, the document that its bytes hold; the bytes of the
-- JSON are not modelled. Floats are a type parameter; the only laws of
-- theirs that are used are those of `FloatOrder`, on the order of the numbers among them. Log lines are left
-- out. A Go map is an association list.
--
-- Not modelled: what is done with the authorization server's answer and the reading of the external
-- auth plugin's configuration; the reading of the other
-- configurations; the request phases that only call the host; the redis backends with their Lua
-- scripts; the metrics; the other plugins (token usage, least load, decision service, generic
-- router, set-header); and extensions/gpustack-ai-proxy, a changed copy of Higress's ai-proxy.
pub mod Acl
pub mod Affinity
pub mod Auth
pub mod Common
pub mod Host
pub mod Json
pub mod Lb
pub mod ModelMapper
pub mod RateLimit
pub mod Wire
