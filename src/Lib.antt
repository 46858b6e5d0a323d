-- ===== src/Lib.antt =====
-- Easegress, a traffic gateway: a verification of the core logic of its traffic path.
--
-- A request comes in at a server, whose router finds a pipeline for it. The pipeline runs its flow of
-- filters, and a result of a filter may jump to a later one. Filters that call a backend go through
-- resilience policies, among them the circuit breaker, and a filter of its own puts the rate limiter
-- in front of them. A function of the serverless controller goes through the states of its own machine.
-- The MQTT proxy finds the clients of a published message by the topic filters that they subscribe to.
--
-- The parts and their files:
--
--   Prelude                names that all files share, and lemmas on lists, rings and integers
--   CircuitBreaker         pkg/util/circuitbreaker/circuitbreaker.go
--     Results, Rates       CallResult; FailureRate and SlowRate
--     CountWindow          CountBasedWindow: Reset, Push
--     TimeWindow           TimeBasedWindow: Reset, evict, Push
--     Window               the interface over the two
--     Breaker              CircuitBreaker: New, SetState, SetStateListener, transitTo,
--                          AcquirePermission, RecordResult, Execute
--   RateLimiter            pkg/util/ratelimiter/ratelimiter.go: New, SetState, acquirePermission with
--                          AcquirePermission and AcquireNPermission over it, WaitPermission
--   Routing                pkg/object/httpserver: routers/routers.go and routers/spec.go, and the search
--                          of routers/ordered/router.go
--     Methods              MethodType and the map Methods
--     Mux                  mux.go: search, behind the cache of routes
--   MultiRateLimiter       pkg/util/ratelimiter/multiratelimiter.go: NewMulti, SetState,
--                          AcquirePermission, WaitPermission
--   Function               pkg/object/function/spec/fsm.go: the table of transitions, InitFSM, Next
--   LoadBalance            pkg/filters/proxies/loadbalance.go and server.go: newServerGroup, the policies
--                          round robin, random and weighted random, checkServers
--   Mqtt                   pkg/object/mqttproxy
--     Trie                 levelTopicManager of topicmgr.go: insert, remove, subscribe, unsubscribe,
--                          findSubscribers
--     Topics, LevelCache   splitTopic and topicLevelCache of topicmgr.go
--     NoCache              noCacheTopicManager of nocachetopicmgr.go
--     TopicMatch           isTopicMatch of topic.go
--     CachedTopics         cachedTopicManager of cachetopicmgr.go: findSubscribers, and the
--                          operations that its goroutine `update` makes
--     Session              session.go: init, subscribe, unsubscribe, allSubscribes, publish, puback,
--                          doResend
--   Pipeline               pkg/object/pipeline/pipeline.go: ValidateJumpIf and doHandle, the filters
--                          as functions on the request's context
--     Generations          Validate, and reload over a previous generation
--     Around               Handle and HandleWithBeforeAfter
--
-- Each part's file has its state as a record and one function for each operation. The modules below
-- it prove what their names say; Examples are runs at concrete values.
--
-- How Go is read:
--
--   * A method that holds the object's lock is a function from the object's state to the next one.
--     Calls that run at the same time are the steps of CircuitBreaker.Breaker.System: permissions are
--     acquired and results recorded in any order, with the calls that are under way in a list.
--   * A panic is `none`.
--   * Counters of the type uint32 wrap at 2 ^ 32 in the definitions. int and time.Duration are
--     integers without a bound; their quotient rounds to zero, as in Go, and panics at zero.
--   * The clock is an argument. An operation that reads it several times takes a function from the
--     number of the reading to the time.
--   * Maps are lists of entries or functions, a missing key is written out. The order in which Go goes
--     through a map is free; a statement on all lists of entries is one on all orders.
--   * Texts are lists of bytes where the code looks into them.
--   * No fuel is in a definition: loops go through lists, or count down the seconds that the window
--     is behind. The proof on flows counts the nodes that are left.
--
-- What is not modelled: the listener's goroutine is the list of the events that it is started with;
-- the log, the texts of errors and reasons, the durations in a pipeline's statistics and its status.
-- The LRU cache of the MQTT proxy's split topics and base64 are parameters. The proxy's goroutines are
-- the order of the operations on its topic managers and sessions; its broker, clients and storage, and
-- a session's store, encode, decode and timers, are left out.
-- Regular expressions, IP filters, the split of a port and the cache of routes are parameters of the
-- search for a route. The radix tree router, SetHeaders, Rewrite and the variables in them have no model.
-- A filter's own code is a parameter of the pipeline, as a function on the context. The rest of
-- the servers, the cluster and its storage, the object supervisor, the mesh, the other filters and the
-- command line client have no model.
pub mod Prelude
pub mod CircuitBreaker
pub mod Function
pub mod LoadBalance
pub mod Mqtt
pub mod MultiRateLimiter
pub mod Pipeline
pub mod RateLimiter
pub mod Routing
