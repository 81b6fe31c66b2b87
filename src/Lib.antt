-- ===== src/Lib.antt =====
-- offlinepush: the verification library of the push service for devices that are offline.
--
-- The program runs as several pods. Each pod registers itself in etcd, reads from etcd which pods
-- there are, and computes on a hash ring which device types are its own. When a task starts, by
-- its cron line or by a request to the web server, each pod reads the devices of its types from
-- MySQL page by page and sends a message for each to kafka. The consumers of all pods take the
-- messages in batches and push them with a pool of workers. A counter of each pod is uploaded to
-- etcd and reset through it. An interceptor holds a switch for each business, a controller
-- competes for a lock in redis, and pushers over several providers of a push service count errors
-- and limit rates.
--
-- The files and the code they model; each function has the name of the Go function, in lower case
-- with underscores, and takes the state of its receiver and returns the new one:
-- = Base and below: tests on numbers, lists, texts, ints of 32 and 64 bits that wrap around,
--   decimal text, maps, bags (lists up to order), counts of names, and the errors of the program
--   as a data type.
-- = Domain, Config: internal/domain and config. Registry: pkg/registry/types.go, the interface
--   that the other parts use. Json: encoding/json as a parameter; its children have text formats
--   that show the laws asked of it can hold.
-- = Etcd: pkg/registry/etcd/etcd.go over an etcd client that is a parameter. Listing and Watching
--   are on what is read back, Kinds on the kinds of events, Store and its children on the store
--   after calls of many pods in any order; InMemory and Store.Replay have clients. Subscription
--   has the goroutine of Subscribe step by step, with its theorem in Prefix.
-- = Interceptor: internal/component/interceptor.go. Its theorems: Switching.
-- = ConsistentHash: internal/component/hash.go over a ring that is a parameter. Its theorems:
--   Partition, Division, Informed, Handover, Membership, Departure; ListRing has a ring.
-- = Dao and Repository: internal/repository. gorm and MySQL are the parameter `Gorm`; Dao.Table
--   has the laws that the index scan gives, and a table that has them; Dao.Paging is on pages of
--   the table; Repository.Inserting is on batches, Creating on one device.
-- = Producer: ReadAndSend and the manual tasks of internal/component/producer.go. Its theorems:
--   Delivery and Loop; Steps is on a round of the loop. Its child Task: doTask, with the theorems
--   in Sent, Ending, Delivered and Hope; Readers and Owed have lemmas on goroutines and on what
--   they have still to send, and Samples has a run.
-- = Forward: the goroutines of the two Subscribe methods in internal/component/cron.go and
--   hash.go, and the selects with a default case that write to them; Order has what they pass on
--   and drop. Cron: internal/component/cron.go over a scheduler that is a parameter, and the loop
--   of watchTaskCh; Schedule and Idle have its theorems, Listed has a scheduler.
-- = Fleet: the producer with the types that its consistent hash gives it, and all pods at work on
--   a task. Delivered has what they send together, Counts the sum of their counters after the
--   consumers' work, Following how a producer follows the nodes, Posted the way from a request to
--   the messages.
-- = RedisClient: cmd/ioc/redis.go and pkg/zapx/hook.go; Hooked has that the hook only logs.
-- = Start: cmd/main/main.go, the clients that cmd/ioc opens for it, the gauge of
--   internal/prometheus/prometheus.go and the logger of pkg/zapx/buildin_log.go, and
--   cmd/main/shutdown.go. Its theorems: Joining.
-- = Consumer: internal/component/consumer.go and worker.go, all batches of a pod at once. Its
--   theorems: Waiting, Counting, Partitions and Gauge.
-- = Counter: internal/component/counter.go. Retry: internal/component/retry.go. Both have their
--   theorems in a child Counting.
-- = Lock: internal/lock/lock.go. Its theorems: Refresh, Apply, Run, and Lease on the lease's end.
-- = Pusher: internal/component/pusher. Its theorems: Failover and RateLimited. Its child
--   Throttled: the loop of RateLimitPusher with the sliding window as its limiter. RateLimit:
--   pkg/ratelimit. Its theorems: Window, Reference and Rate.
-- = Service: internal/service/service.go, and its children Web and Routes: web/web.go. The
--   theorems: Tasks, Counts, Uploads, Resets, and Routes.Effects.
-- = The modules named Tests apply the theorems to concrete inputs.
--
-- Goroutines that share state are steps of a relation or a list of accesses in any order: the
-- select of AutoRefresh (Lock), the batches of a pod with their workers (Consumer), a task with
-- its readers (Producer.Task), those of all pods (Fleet), a forwarding goroutine (Forward), the
-- atomic fields (Counter). A method that holds a mutex for its whole body is one step. A channel's
-- events are the arguments of the handler that receives them.
--
-- Loops are structural recursion on what they read, but for ReadAndSend, which runs on fuel: one
-- unit for each hundred devices asked for and one more are enough. RateLimitPusher.Push has its
-- ten rounds as fuel. Times are numbers in milliseconds, and the float of a gauge, which only
-- whole numbers are added to, is an integer.
--
-- Code that is not part of the repository is a parameter: etcd, kafka, gorm, the hash ring,
-- encoding/json, robfig/cron, slice.InterSet, redis and its lock, the providers and the worker
-- pool; what a theorem asks of it is a record of named laws. Not modelled: the web server's loop
-- and the signal at the end of main, the metrics server and most logs, which have no effect on the
-- rest; package id, a wrapper of package snowflake that no other code uses; mocks, tests and
-- deployment files.
pub mod Base
pub mod Domain
pub mod Config
pub mod RedisClient
pub mod Registry
pub mod Json
pub mod Etcd
pub mod Forward
pub mod Cron
pub mod Fleet
pub mod Start
pub mod Interceptor
pub mod ConsistentHash
pub mod Dao
pub mod Repository
pub mod Counter
pub mod Producer
pub mod Lock
pub mod Pusher
pub mod RateLimit
pub mod Service
pub mod Retry
pub mod Consumer
