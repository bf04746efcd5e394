-- ===== src/Lib.antt =====
-- A verification library for the trade and reconciliation back end: orders with an idempotent key,
-- payment callbacks of a channel, an outbox that is relayed to a message queue, the notification of
-- merchants, and the comparison of the local payments with the channel's bill.
--
-- The parts and their files:
--   Base             the names that all modules share; byte strings, 64-bit wrap-around, decimal
--                    digits, civil time, sorted maps.
--   Money            src/utils/MoneyUtil.cc: amounts in fen to yuan texts and back.
--   Ids              src/utils/IdGenerator.cc: the snowflake numbers. The clock is a function of the
--                    number of readings so far; the mutex makes the calls a sequence. A clock that
--                    shows a time before 2024-01-01 is outside the model.
--   Models           src/models/*.h, src/common/ErrorCode.h: records, enumerations, `Result`.
--   Db               sql/schema.sql as lists of rows; Db/Monad: src/utils/DbUtil.h and DbUtil.cc, the
--                    transaction guard over a committed and a working database. A statement may fail
--                    for a reason outside the program: `World.faults` says which ones do. MySQL's
--                    collation is case folding on ASCII; accents and trailing widths of other scripts
--                    are left out.
--   Dao              src/dao/*.cc: one function for each method, with the unique keys, the widths and
--                    the CHECK constraints of its table.
--   OrderService     src/services/OrderService.cc: `createOrder`, whole.
--   Sign, Stoll, Channel, PaymentService
--                    src/utils/SignUtil.cc and src/services/PaymentService.cc: `handleCallback`, whole.
--                    HMAC-SHA256 and the configuration (Channel) are parameters.
--   Reconcile, ReconcileService
--                    src/models/Reconcile.h and src/services/ReconcileService.cc: the comparison of two
--                    lists of payments (Reconcile/Classify), the bill parser (Bill), `run`, and
--                    `listDiffs` and `handleDiff` (ReconcileService/Diffs). The bill files are a parameter.
--   Relay            src/tasks/MessageRelayTask.cc: one round of `relay`; the broker's confirm is a
--                    parameter.
--   ReconcileTask    src/tasks/ReconcileTask.cc: `checkAndRun` and the day in Beijing.
--   Timer            `runOnce` of both tasks: the flag, the submission and the end of the task, as a
--                    step relation in which the rest of the process may change the world.
--   ThreadPool       src/utils/ThreadPool.cc: the queue, `submit`, the threads' loop and the
--                    destructor, as a step relation.
--   Mq               src/utils/MqClient.cc: the calls of librabbitmq in order; the broker's answers are
--                    a parameter. Relay/Confirmed puts its `publish` into the relay.
--   RequestId        src/common/RequestIdFilter.cc.
--   Controllers      src/controllers/*.cc: each handler, from the request after the filter to the
--                    response. The values of jsoncpp, Drogon's writer of JSON, its response to an
--                    exception that leaves a handler, and SHA-256 are parameters, and the answer of
--                    the pool's `submit` is an argument. A moved
--                    std::function is taken to be empty, as in libstdc++.
--   Config           how the relay (src/tasks/MessageRelayTask.cc) and the consumer read the broker's
--                    address; the configuration is a value of jsoncpp.
--   Logging          src/common/Logger.cc: the state of the class; and `parseConfigPath` of
--                    src/main.cc. Whether the log file opens is a parameter.
--   Notify           src/consumer/NotifyConsumer.cc: `process` and the acknowledgement; the merchant's
--                    answers and jsoncpp's parser are parameters. Notify/Subscribe: the subscription and
--                    the loops, with the broker's answers as a parameter; the reconnecting loop runs for
--                    a number of rounds, and any number may be taken.
--
-- A service call is a function from a world to an outcome and a world: a result, an exception, or
-- `hang`, when the spin loop of the id generator is still waiting for the clock after the rounds that
-- the model gives it; any number does that reaches a later millisecond of the clock. Requests of
-- several threads meet in the database; the rows that a transaction reads and changes are taken at one
-- moment, which is what the row locks of its first write give for the keys concerned.
-- A COMMIT that fails is taken as not applied: one whose acknowledgement is lost after the server has
-- applied it is outside the model. The 64 bits of an id are kept as the bits of a std::int64_t.
--
-- Not modelled: spdlog's sinks and threads, the order of start-up in src/main.cc, the registration of
-- handlers and timers with Drogon, and the loading of the configuration file (I/O and wiring). The
-- log lines of the handlers and services are left out; they have no effect on the state.
pub mod Base
pub mod Money
pub mod Ids
pub mod Reconcile
pub mod Models
pub mod Db
pub mod Dao
pub mod OrderService
pub mod Sign
pub mod Stoll
pub mod PaymentService
pub mod Relay
pub mod RequestId
pub mod Notify
pub mod Bill
pub mod ReconcileService
pub mod ThreadPool
pub mod Timer
pub mod ReconcileTask
pub mod Controllers
pub mod Config
pub mod Channel
pub mod Mq
pub mod Logging
