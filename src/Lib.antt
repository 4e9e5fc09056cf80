-- ===== src/Lib.antt =====
-- A model of the core of connect-plugin-go, a Go library for plugins that talk to a host, and to
-- each other through the host, over Connect RPC.
--
-- The parts, from the bottom up:
-- - Validation: validation.go, the checks on service types, ids, versions, paths and metadata.
-- - Random: generateRuntimeID and generateRandomHex of handshake.go, generateToken and
--   generateGrantID of broker.go, generateRegistrationID of registry.go. The bytes read from
--   crypto/rand are an argument, and `none` stands for a failed read.
-- - CircuitBreaker: circuitbreaker.go. allowRequest and recordResult are cut in two where setState
--   gives up the lock for the callback (`begin`, `resume`); CircuitBreaker/Goroutines interleaves these
--   parts. `allow_request` and `record_result` are the operations with nothing of another goroutine
--   between their parts, `call` is their composition, with CircuitBreakerInterceptor around it.
--   Retry: retry.go, the loop of RetryInterceptor.
-- - Plugin: PluginMetadata and PluginSet of plugin.go. Lifecycle: the health reports of lifecycle.go.
-- - Broker: broker.go, the capabilities of the host and the grants for them.
-- - Handshake: handshake.go, `handshake` and `validate_token` on the table of runtime tokens.
-- - Registry: registry.go, the tables with their look-ups and watchers; Registry/Register is the
--   registration and its end, Registry/Discover the selection of a provider.
-- - Depgraph: internal/depgraph/depgraph.go, the graph that Add and Remove edit; Depgraph/Startup is
--   StartupOrder, with the loops that build its tables and the loop that empties its queue, and
--   Depgraph/Impact is GetImpact with the recursion of findDependents.
-- - Router: router.go, ServeHTTP and proxyRequest, over the handshake server, the registry, the
--   lifecycle server and the table of plugin endpoints.
-- - Platform: platform.go, which adds, removes and replaces plugins on the graph, the registry and the
--   router's endpoints. What plugins do to the registry and to the lifecycle server during the waits,
--   the grace period, the draining and the calls of Shutdown is an argument of the operations.
-- - Client: client.go, a plugin's client with its handshake, its discovery and its reports. Discovery:
--   discovery.go. Client/Connects and Client/Identity run the client against Handshake.
-- - Server: the checks of ServeConfig in server.go. Health: health.go, where the goroutine that serves a
--   watcher's stream takes one turn of its loop as one step.
-- - Auth: auth.go, auth_token.go and the interceptors of auth_mtls.go. An interceptor is a function on
--   what the handler behind it would do: the contexts it has been called with, and the result.
-- - Launcher: launcher.go and launch_strategy.go, the table of launched plugins; what a strategy's
--   Launch does is a parameter.
-- - Ratelimit: ratelimit.go, with float64 and its operations as a parameter. Ratelimit/Burst names what
--   it relies on: that integers up to 2^53 are exact.
-- - Prelude: shared names, texts with the functions of Go's `strings`, maps as association lists, and
--   integers. Samples: concrete inputs for the theorems.
--
-- Conventions: an operation takes the state and returns the state after it with its result; the
-- lock that it holds in Go makes it one step, but for those of the circuit breaker and Allow of the
-- rate limiter, which give it up. Times are nanoseconds, an argument of each operation that reads
-- the clock. A map is a list of entries; what is stated for all lists holds for every order in
-- which Go may range over it. A text is its characters, and its length counts its bytes.
--
-- Loops: those over slices and maps are by recursion on the list. The queue of StartupOrder runs on
-- fuel, one round for each in-degree: a round takes one plugin off the queue, and a plugin enters
-- it only once, when its in-degree comes down to zero. The recursion of findDependents runs on fuel
-- for its depth, one for each plugin: a call either returns at once or marks a plugin that was not
-- visited. The waits of the platform run over the list of turns that come, and say so when the list
-- ends before the wait does.
--
-- Parameters: net/http (reading a header, the spelling of its key, making and sending a request),
-- the answers of a plugin's identity service, connect's code of an error, what plugins do to the
-- registry and the lifecycle server while the platform or the launcher waits, what a launch
-- strategy gives, the validator of a token, and the server at a client's endpoint.
--
-- Not modelled: the waits' lengths of retry.go, which are floating point; the strategies that start
-- processes and listeners; the handlers that Serve wires together; the TLS configurations of
-- auth_mtls.go; streaming.go; logging; internal/memtransport, whose order and bound are those of
-- Go's channels; generated code, examples and tests. The registry of the router and that of the
-- platform are one object, and so is their lifecycle server.
pub mod Prelude
pub mod Connect
pub mod CircuitBreaker
pub mod Retry
pub mod Lifecycle
pub mod Health
pub mod Validation
pub mod Plugin
pub mod Random
pub mod Broker
pub mod Handshake
pub mod Auth
pub mod Registry
pub mod Router
pub mod Platform
pub mod Samples
pub mod Depgraph
pub mod Launcher
pub mod Server
pub mod Ratelimit
pub mod Discovery
pub mod Client
