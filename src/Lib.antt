-- ===== src/Lib.antt =====
-- The OpenCode plugin (packages/plugin/src): the adapter of an anonymous model lane, and the exit
-- pool behind it: which proxy carries a request to the upstream, how an exit's health follows from
-- what happened to it, and how the pool is refilled.
--
-- The parts and how they meet. The exit table (pool/pool.ts) holds the exits with their health, the
-- bans of (exit, model) pairings, the sticky sessions and the pin; all others drive it by its
-- methods. The probe scheduler (pool/prober.ts) runs tasks under the table's probe locks. The
-- rotation delegate (pool/rotate.ts) decides, when a stream died before its first content, whether
-- another exit is worth a try. The free lists (pool/sources.ts) yield candidate addresses, each
-- list behind a circuit breaker. The dispatcher (pool/dispatcher.ts) asks the table for the exit of
-- each request, keeps one proxy agent per exit, and reports the request's outcome to the table. The
-- refill scheduler (pool/refill.ts) probes candidates through the scheduler and adds them; the gate
-- they pass is pool/admission.ts, which the probes of ip-pool.ts share. The adapter
-- (adapter/zen-adapter.ts) serves one turn: it converts the conversation (adapter/messages.ts),
-- derives the ids that are sent (adapter/ids.ts), gives the outgoing body its last shape, asks the
-- rotation delegate when an attempt fails early, and hands the events to adapter/events.ts, which
-- makes the harness's chunks of them. Which models it lists follows from the catalog
-- (adapter/catalog.ts). Subscriptions (pool/subscription.ts) are a third source of exits, which
-- pool/subscription-fetcher.ts reads and admits. The installer (pool/installer.ts) puts the
-- dispatcher in the global slot, and ip-pool.ts makes one of each part and applies the settings
-- (ip-pool-settings/) to them while they run. Beside them, agent-process.ts restarts the agent child.
--
-- Which file models what:
--   Base: text, tests, lists, JSON values and the insertion-ordered map that the modules share.
--   Pool/Types, Table, Signals, Passive, Selection, Capacity, Listing: pool/pool.ts, one function
--     for each method (`markLimited` is `mark_limited`), with the table as the record `ExitPool`.
--     Pool/Calls joins the methods to one step; Pool/Invariant and the modules beside it prove.
--   Rotate, Rotate/Failures: pool/rotate.ts (`decide`, `shouldRotate`, `classifyStreamFailure`).
--   Admission/Screen, Admit, Batch: pool/admission.ts; the answers of requests are `Wire`s, and
--     `parse_echo` is `JSON.parse`. Admission/Probing, Manual: the probe of one exit and the table
--     that is built from the settings (ip-pool.ts). Admission/Interleaved: the probes of several
--     exits at once, as a relation whose steps are the rounds of any task and the scheduler's locks.
--   Singbox/Outbound, Config, Supervisor: pool/singbox.ts, the configuration of the local bridge and
--     the supervision of its process; the conversion `Number` is a parameter.
--   Catalog/Prices, Decode, Directory: adapter/catalog.ts; the order of `localeCompare` and the
--     answers of the endpoints are parameters.
--   Ids: adapter/ids.ts; `sha256` and the random bytes are parameters.
--   Messages/Types, Context, Gate: adapter/messages.ts.
--   Adapter/Efforts, Models, Payload, Attempts, Turns: adapter/zen-adapter.ts. An attempt of
--     `stream` is the list of what its pulls bring; the pool that other requests leave between two
--     attempts, and the clock, are parameters.
--   Sources/Lists, Lines, Breaker: pool/sources.ts.
--   Prober/Queue: pool/prober.ts; the ends of tasks are steps of the relation `Step`.
--   Dispatcher/Hosts, Agents, Routing, Observer: pool/dispatcher.ts; undici's agents, their
--     constructor and the URL class are parameters, and the callbacks of a request are `Signal`s.
--   Refill: the admission tasks of pool/refill.ts, each as the turns before and after its probe;
--     Refill/Collect: the candidates that a round collects from its sources.
--   AgentProcess: agent-process.ts; the child and the timer are events.
--   Installer: pool/installer.ts, over the slots of undici's global dispatcher and of fetch.
--   Settings: ip-pool-settings/namespace.ts and the defaults of ip-pool-settings/apply.ts;
--     Settings/Controller: its controller, with the runtime as a parameter.
--   Bridge/Trust, Handlers, Status: ip-pool-settings/bridge.ts; `parse_url` is the URL class, and
--     the counters of the last refill round are a parameter.
--   Provider: provider.ts, the model list and the removal of a route.
--   Subscription/Encoding, Clash, Links, Shadowsocks, Detect: pool/subscription.ts; `Buffer`, the
--     parsers of YAML, JSON and URLs and `decodeURIComponent` are the record `Platform`, and a call
--     that throws is `none`.
--   SubscriptionFetcher: pool/subscription-fetcher.ts, a refresh split where it awaits.
--   Assembly: the runtime of ip-pool.ts, which owns one of each part.
--   Events/Types, Errors, Stream: adapter/events.ts; `JSON.stringify` is a parameter.
--   Tests: concrete runs.
--
-- Conventions. A method that changes an object returns the new record. The injected clock is the
-- argument `now`, and `Math.random()` the argument `coin`. Texts are lists of UTF-16 code units,
-- so that the joined keys and prefix tests of the source are those of lists. Times, counters and
-- latencies are natural numbers; the source's floating-point numbers agree with them below 2^53,
-- and `2 ** n` is capped by the ceiling of the cooldown before it is used.
--
-- Fuel: the loop of `#pump` takes the length of its queue plus one; each round but the last takes a
-- task off the queue, so the loop runs to its end. The rotate loop of `stream` takes one more than
-- MAX_ROTATES, after which no attempt is granted. The digits of a number take one more than the
-- number, which has no more digits than that.
--
-- Not modelled: the fetching of candidates (pool/refill.ts), of subscriptions and of the catalog,
-- the schema and the registration of the settings, the reading and writing of the bridge's requests,
-- the files and the spawning of the sing-box bridge, the streaming of pi-ai, the pipes of the agent child, the
-- registration with the host (provider.ts, index.ts) and the client; I/O and glue around the parts
-- above, for the most. Properties of JSON values that hold `undefined` are taken for absent ones.
pub mod Base
pub mod Pool
pub mod Rotate
pub mod Dispatcher
pub mod Refill
pub mod AgentProcess
pub mod Events
pub mod Catalog
pub mod Ids
pub mod Messages
pub mod Adapter
pub mod Admission
pub mod Singbox
pub mod Prober
pub mod Sources
pub mod Installer
pub mod Settings
pub mod Subscription
pub mod SubscriptionFetcher
pub mod Assembly
pub mod Bridge
pub mod Provider
pub mod Tests
