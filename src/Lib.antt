-- ===== src/Lib.antt =====
-- A verification library for rgnix, an HTTP proxy and Kubernetes ingress controller: its limits,
-- its rollouts, its routes, its backends, its tenants, its clients' identity, the loading and the
-- history of its configuration, and its scripting language.
--
-- The program. A connection may open with a PROXY protocol header, and a request is given the
-- address of its client by the identity policy. Requests are routed by host and path to a route;
-- the route's traffic policy limits them by rate and concurrency, its rollout names the service
-- they go to, and the service's backend chooses an endpoint. Tenants share one process under
-- quotas, and own their domains. All of this is built from a configuration, whose text is parsed
-- and whose directives are applied one by one; its revisions are kept in a journal. Scripts
-- are parsed and compiled, and wait in a queue where they are compiled ahead of their use.
--
-- The files, and what each models (paths from the repository's root):
--   ProxyProtocol     src/proxy_protocol.rs: `read`. Consumed, Roundtrip: what is read.
--   Traffic           src/traffic.rs: `Key`, `Policy`. Keys: keys as they are written.
--   Traffic/Limiter   src/traffic.rs: `Limiter`, `Permit`. Counts, Permits, Capacity, Tokens: laws.
--   Rollout           src/rollout.rs, src/rollout/progress.rs, src/rollout/metrics.rs: the records.
--                     Parse is `Policy::parse`, Completed is `State::completed` and
--                     `Window::prune`, Select is `State::select_at`, Advance is
--                     `State::sync_progress` and `State::next_progress`, Metrics is
--                     `State::evaluate_metrics`, Latch is the history of a state, Release the
--                     commands of src/ingress/release.rs; below them Weights, Trips, Shares, Stages
--                     and Waits show what they do.
--   Routing           src/routing.rs: `Index::route`, `Paths::route`, and from src/model.rs
--                     `PathMatch`. Build is `Index::build`, Build/Sound its soundness.
--   Backend           src/backend.rs: `Options`, `State`, `Lease`. Select is
--                     src/backend/selection.rs, with Health, Outcomes and Leases on it.
--   Tenancy           src/tenancy.rs: `Quota`, `Policy`, `Tenant`, `Tenants`, and the
--                     deadlines of a route in src/gateway/build.rs. Domains is
--                     src/tenancy/domains.rs.
--   Budget            src/runtime/budget.rs: `RequestBudget`.
--   Syntax            src/config/syntax.rs: `tokenize`. Parse is `parse`, Quote quoted words.
--   Compression       src/compression.rs: `selected_encoding`. Refused: refused encodings.
--   Config            src/config/mod.rs. Servers is the loop of `load_nodes` on addresses, with
--                     OneDefault; Values the readers of values; Policies is
--                     src/config/policy.rs; Directives is `apply`, with Kept and FirstReturn on
--                     the action of a block.
--   Gateway           src/gateway/timeouts.rs: `Timeouts::budgets`, with Bounds.
--   History           src/history.rs: `History::record`, with Newest.
--   Identity          src/identity.rs: `Forwarding`, `IdentityPolicy`. Forged: added header values.
--   Script            src/script/syntax.rs: `lex`. Parse is `Parser::expr`, with Grammar the
--                     grammar of precedences, Blocks is `Parser::block` and `Parser::statement`,
--                     Program is `parse_located`; Lexed, Reads, Total, Nested, Shallow, Sound,
--                     Accepts, Derived and Refines are on what they return. Queue is
--                     src/script/queue.rs.
--   Request, Net      the fields of `RequestData` that are read; addresses.
--   Base              shared lists, texts, maps, results and the interface of `f64`.
--
-- How the code corresponds. A text is the list of its bytes, in Syntax and Script of its
-- characters. A machine integer is a natural number; where the code wraps or saturates, that is
-- written out (`bump`, `min .. u64_max`, `% word`, as in a release build), and a subtraction stops
-- at 0. A time is a number of nanoseconds that a call is given where the code reads the clock. A
-- mutex that is held throughout a call makes the call one step, so threads are sequences of calls;
-- the worker of the queue holds it twice for a job, so taking and finishing one are two steps;
-- histories are relations of such steps (`Reach`). A `BTreeMap` or `HashMap` is an association
-- list. A panic is `none` where a call can meet one. The states that backends share by `Arc` stand
-- in one list, and are named by their place in it.
--
-- Parameters stand for code of other packages: SHA-256, `serde_json`, `HeaderName::from_bytes`,
-- `str::trim`, `HeaderValue::to_str`, the address parser of the standard library, the score of a
-- hashed endpoint (`hash_score`, over SHA-256 and a logarithm of `f64`), and the arithmetic of
-- `f64`, whose laws are a hypothesis of the one theorem that needs them.
--
-- Fuel. The parser of directives takes fuel, twice the number of tokens and two more: a call
-- either reads a token or is the first of its block. The parser of scripts takes three times the
-- number of tokens and nine more: a token is read at least after every third nested call.
-- The loop on the components of a Gateway duration takes fuel of five, and reads four at most.
--
-- Not modelled: sockets, files, Kubernetes, TLS and the HTTP stacks, which the program calls; the
-- routes of locations and the directives of src/config/security.rs and src/config/upstream.rs; the
-- probes and name lookups of `Backend::maintain`; the code generator of scripts and the kernel
-- datapath.
pub mod Base
pub mod Net
pub mod ProxyProtocol
pub mod Request
pub mod Traffic
pub mod Rollout
pub mod Routing
pub mod Tenancy
pub mod Budget
pub mod Backend
pub mod Syntax
pub mod Compression
pub mod Config
pub mod Gateway
pub mod History
pub mod Identity
pub mod Script
