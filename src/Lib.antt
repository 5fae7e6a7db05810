-- ===== src/Lib.antt =====
-- A model of the opencode proxy, an HTTP gateway in Go, with the theorems that make it correct.
--
-- The program takes requests in the OpenAI and Anthropic formats, checks them, adapts their bodies,
-- and sends them upstream through one of several proxies. Its parts, and the modules about them:
--   Retry      internal/retry/retry.go: ParseRetryAfter and ExponentialBackoff
--   Config     config/config.go: Config and IsModelAllowed; Config.Url: RedactProxyURL;
--              Config.Transport: newHTTPClient, newTransport, tuneTransport; Config.Env: Load and
--              its helpers; Config.Dialer: localResolveDialer, and Cancel the goroutines of
--              dialContextFromDialer; Config.Egress: EgressIP. Transport.Builds and
--              Transport.Forced are about the clients that are built
--   Pool       config/proxy_pool.go: ProxyPool and its methods; Pool.Load: LoadProxyPool. The other
--              children are about it: Select which proxy is chosen, Invariant and Steps what is
--              well formed, Clients and Affinity which client a session has, Health, Elsewhere,
--              Streak and Recovery when a proxy is out of service, Runs what any interleaving
--              leaves, Status HealthStatus
--   Json       encoding/json, as the program uses it
--   Session    internal/session/session.go: ExtractFromRequest and its helpers
--   Reasoning  internal/reasoning/inject.go: the rules and InjectReasoningContent; Reasoning.Body:
--              the JSON methods of Message and ChatBody, and tryInjectReasoning of handler.go
--   Translate  internal/translate: Translate.Chat and Translate.Chat.Wire are chat.go and types.go,
--              the normalization of a chat request, Translate.Chat.Roles what it does, and
--              Wire.Readback and Wire.Normalized what a reader gets of it; Translate.Claude, with
--              Tools, Messages and Request, is claude_request.go, and Kept, Collected, Sent and
--              Tools.Typed say what goes upstream, and Stored that no write into a nil map is
--              reached; Translate.Dsml is dsml.go: Scan its regular
--              expressions, Message and Stream the rewriting of a message and of a stream, Events
--              the stream that is written, Protocol and Client what a reader sees of it, Readback a
--              rewritten message read again, Outcome what the client can get, Ids the ids of the
--              calls, Fits and Fuel the searches
--   Handler    internal/proxy/handler.go and respond.go: the state, onRateLimited, rotateProxy and
--              the accounting of postUpstream; Handler.Auth: checkAuth, the error responses and
--              handleListModels; Handler.Upstream: newReq, the attempts and the response headers;
--              Handler.Serve: ServeHTTP; Handler.Start: New; Handler.Logged: truncateBody and
--              logRejectedRequest; Handler.Trace: conn_trace.go; Handler.Egress: logEgress,
--              logActiveEgress and the probes of New and rotateProxy; Handler.RequestId: the
--              request's id in its context, and rateLimitCommand; Handler.Concurrent: onRateLimited
--              as the atomic steps of goroutines, with Bound, Race, Alone and Sequence about its
--              runs; Serve.Recover: the recover of ServeHTTP; Serve.Allowed: what its
--              guards test; Serve.Unusable: a proxy with a URL
--              that is refused; Threshold, RateLimit, Actions, Failover, Attempts, Answered,
--              Headers, Serve.Guards and Serve.Total are about their runs
--   Server     cmd/server/main.go: Server.Env: loadEnvFile and the settings of the log;
--              Server.Serve: the routes, loggingMiddleware and the run of main; Server.Startup:
--              what it logs before it listens; Server.Shutdown: its end, and the goroutine that
--              waits for a signal; Kept and Total are about them
--   Tests      concrete data and examples
--   Base       lists, integers, texts and results that the parts share
--
-- How the parts meet. The handler keeps a Config, an optional ProxyPool, the client of a direct
-- connection and the counter of 429 responses. A request gets its session identifier from Session;
-- the pool chooses the client from it, and each failure and success goes back to the pool. Retry
-- gives the pool its delays.
--
-- The state is passed explicitly: a method that changes the pool or the handler returns the new
-- one. The handler makes each call of the pool while it holds poolMu, so that the calls of concurrent
-- requests are a sequence of operations, Pool.Runs. The counter of 429 responses is atomic: Handler.Concurrent makes each access a step.
-- The goroutines of a dial and of the shutdown are step relations as well. Go's panics are the
-- result `panic`, its errors `err`. Times are nanoseconds; the clock is an argument, and what is
-- stored as an int64 wraps. Texts are sequences of code points; where the code counts or hashes
-- bytes, so does the model, on the UTF-8 encoding.
--
-- Parameters: encoding/json (JsonPackage), net/url and proxy.SOCKS5 (Net), http.ParseTime
-- (parse_time), time.ParseDuration (parse_duration), the file system (FileRead), the environment
-- (Environ), r.Header.Get (header), crypto/rand (Randomness), client.Do and the client's context
-- (World), raw messages of encoding/json (RawPackage), the int of a float64 (to_int), package net
-- and the inner dialer (Addresses, Reach), http.ServeMux (Mux), utf8.ValidString (valid), when
-- http.Server's methods return (HttpServer), the egress probe's Do and the text of its bytes
-- (Probe), and package context (ContextPackage).
--
-- Bounds: the loop of attempts takes fuel, one round for each of the three attempts that the code
-- makes at most; the search for a proxy runs over the pool once. A generated tool call identifier
-- prints numbers of up to 19 digits, as many as an int64 has. The searches of the regular
-- expressions take the number of characters as fuel, since each match reads at least one.
--
-- Not modelled: the order and the text of most log lines, the timeouts of http.Server, and the
-- shell that runs the command of a rate-limit action, which is recorded. In the runs of
-- Handler.Serve and Server.Serve one request is served after another, without the probes, and the
-- recover is taken in where postUpstream writes a status that w.WriteHeader refuses. Server.Serve says
-- how ListenAndServe returns after the requests as an argument.
mod Base
pub mod Retry
pub mod Config
pub mod Pool
pub mod Json
pub mod Server
pub mod Session
pub mod Reasoning
pub mod Translate
pub mod Handler
pub mod Tests
