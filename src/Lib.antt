-- ===== src/Lib.antt =====
-- echofront, a load balancer: how it picks a backend for a request, fails over between backends, and
-- keeps out the ones that are broken.
--
-- The program's parts, the files that model them, and how they meet:
--   Breaker   src/breaker.rs, `CircuitBreaker`: closed, opened, half_open. `Invariant` has what
--             holds between two calls, `Reference` an abstract machine that counts down and has no
--             machine integers, `Trial` the runs that trip, block and close a breaker.
--   Retry     src/retry.rs, `RetryBudget`, a token bucket in milli tokens; `Bound` bounds its grants.
--   Ewma      src/ewma.rs, `EwmaConfig::fold` and `threshold_milli`, on integers.
--   HashRing  src/hashring.rs, `ConsistentHashRing`. `Map` is the BTreeMap as a list in ascending
--             order, `Successor` the clockwise walk, `Members` what a change of members moves,
--             `Owners` who serves a key.
--   Http      src/http.rs, what the engine reads of requests and responses; `Names` has the method
--             names and reason phrases. `Parse` is `Request::parse`: `Parse/Divides` says
--             where a text is divided, without the parser, `Parse/Text` what a
--             well-formed request is as text, `Lines` and `RoundTrip` read it back, `Outcome` is
--             about errors.
--   Upstream  src/upstream.rs, the trait `Upstream` as a record of two functions on a state `U`;
--             `Mock` is the scripted upstream of the tests.
--   Pool      src/pool.rs. `Select` has `select` and the four strategies, `Poll` has `poll`,
--             `Outcome` has `record_success_latency` and `record_failure`, `Health` has
--             `run_health_checks`. A pool has one breaker for each backend, one ring, and the
--             latency averages. `Select/Sticky` says when a cached ring fits the backends.
--             `Report` has `distribution`. `Ranges` is about machine integers.
--             `Ejection`, `Latency` and `Probes` are about keeping broken nodes out,
--             `Select/Invariant` about the choice itself, `Select/Turns` and `Select/Fair` about
--             many choices in a row, and `Tidy` about what every operation keeps of a backend.
--             `Spelling` has the names of the strategies.
--   Router    src/router.rs, `Router::route` and `path_prefix_matches`.
--   Proxy     src/proxy.rs. `Handle` has `Proxy::handle`: it deposits into the budget, routes, polls
--             the service's pool, and then loops: select, send, feed the outcome back, and spend a
--             retry from the budget or stop. `Trips` is the loop's invariant, which `Send`,
--             `Stop`, `Conclude`, `Start` and `Loop` carry through a round; `Promise` is what a call
--             promises, which `Kept` and `Handled` are about;
--             `Ends` is about fuel, `Account` about what a call counts and why it fails, `Typed` about
--             machine integers. `Services` has `service_names`. `Operated` has the operations of a
--             pool in any order, `Reachable` the proxies that a program can build, `Running` counts
--             their requests, and `Paid` follows their budget. `Used` is about a pool after any run of
--             its operations, `Calm` and `Steady` about a service whose nodes all answer.
--   Clock     src/clock.rs, the manual clock, and the system clock on what the machine shows.
--   Rng       src/rng.rs, the generator of the demonstration; `Stream` is a run of it.
--   Demo      src/bin/echofront.rs, the proxies and requests of `demo` and `spread`; `Print` has
--             the modes of `main` and the lines that `usage`, `send` and `print_pool_state` print,
--             `Runs`, `Shop` and `Spread` are about `spread`, and Tests/Demo evaluates the steps of
--             `demo`.
--   Base      lists, panics, machine integers and tests that the parts share.
--   Suite     the program's own unit tests, run on the model.
--   Tests     the theorems at concrete inputs.
--
-- Conventions. A `String` is the list of its UTF-8 bytes; the raw text that `Request::parse` splits
-- by characters is the list of its code points. A method on `&mut self` returns the new
-- value. Code that indexes a slice returns an `Exec`, whose `panic` is an index out of range.
-- Integers wrap as in a release build (`add_u32`, `add_u64`, `add_i64` in Base/Words), and saturate
-- where the source says so; `saturating_sub` is the subtraction of ℕ. The clock is read once for
-- each call and shared by reference, so its time is an argument and may go anywhere between two
-- calls. A HashMap of pools is a list of entries by name. The upstream is a parameter: any two
-- functions that return an answer and a new state. So are the floating-point numbers of the report,
-- of `tokens` and of the draws (Base/Float): the casts, products, quotients and tests that the code
-- uses, of which nothing is assumed. A getter of one field is the field.
--
-- Bounds and fuel. The loop of `handle` has no bound of its own in the source. In the model it runs
-- on `max_retries_per_request + 1` rounds, which are enough for every input, since a round that goes
-- on has made one more attempt and no round goes on after more than `max_retries_per_request`
-- attempts. This needs `max_retries_per_request + 1 < 2^32`, since the attempts are counted in a
-- u32. `decimal` runs on twenty digits, which hold every u64.
--
-- Not modelled: of src/bin/echofront.rs, the headings and the lines with formatted fractions (the
-- totals of `demo`, the rows of `spread`); and of the tests, those that move thousands of
-- keys on the ring or draw in floating point, and tests/gates.rs and tests/stress.rs.
pub mod Base
pub mod Breaker
pub mod Retry
pub mod Ewma
pub mod HashRing
pub mod Http
pub mod Upstream
pub mod Pool
pub mod Router
pub mod Proxy
pub mod Clock
pub mod Rng
pub mod Demo
pub mod Suite
pub mod Tests
