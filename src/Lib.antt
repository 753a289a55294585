-- ===== src/Lib.antt =====
-- The wallet of this repository: requests arrive over HTTP or from a message queue, the use cases
-- check them and post movements of money to documents in MongoDB, inside a database transaction.
--
-- Parts, and the files that model them (paths from the repository's root):
--   * pkg/utils (decimal_utils.go, string_utils.go, number_utils.go): Utils/Decimal.antt,
--     Utils/Text.antt and Utils/Tokens.antt. A float64, a Decimal128 and their texts belong to a
--     `Platform` (Platform.antt), a parameter of everything; Platform/Exact.antt names the
--     rounding that the code relies on, in whole units of 10^-8 up to 10^15 units, and has a
--     platform that meets it.
--   * internal/domain/models: Models.antt. A `time.Time` is counted in whole milliseconds, which
--     is what a BSON date keeps; the finer digits, which only the response to a new member shows, are
--     left out. An ObjectID is a number.
--   * internal/domain/services/wallet_service.go: Service.antt, one function per method. The
--     fresh id and the time enter as a `Stamp`.
--   * internal/application/ports: Ports.antt and Queue.antt, records of operations on a state
--     `S`. Ports/Store.antt says what the operations mean on three lists of documents,
--     Ports/Laws.antt what a client relies on; `view` gives the documents that a context or a
--     transaction sees.
--   * internal/application/usecases/wallet_usecase.go: Wallet.antt and below. Flow.antt is the
--     course of a method: it goes on, returns a response early, or panics. Wallet/Movement holds
--     HandleDeposit, HandleWithdraw and what they call, Wallet/Member HandleCreateMember,
--     Wallet/Balance the balance checks with the cache. Wallet/Ledger holds the books of a
--     member, an invariant of the documents that the handlers keep.
--   * internal/infrastructure/adapters/db/mongo_adapter.go: Mongo/Adapter.antt over the driver of
--     Mongo/Driver.antt, whose documented meaning is in Mongo/Laws.antt. Mongo/Repository shows,
--     for reads, writes, the history and transactions, what the adapter makes of it.
--     Mongo/Memory.antt is a driver in memory that keeps these laws, with calls that fail and
--     cursors that stop where a list says so. A cursor tells what it has yielded and the error that
--     stopped it, which the adapter never asks for.
--   * internal/infrastructure/adapters/queue: Queue/Rabbitmq, Queue/Kafka, Queue/Redis and
--     Queue/Factory, over the clients of the brokers (Queue/Amqp, Queue/Topics) and a JSON codec,
--     for which the Data of a response, an `interface{}`, has lost its type when it is read back.
--     A consumer's goroutine is the sequence of the deliveries that it takes; a select is the
--     case that it chose. Queue/Adapters fills the queue port with them. Queue/Books
--     and the Books modules of the three put the consumers over the wallet, the RoundTrip modules
--     follow a request to the consumer and back.
--   * internal/infrastructure/config/config.go: Config.antt and Config/Load.antt, over an
--     environment.
--   * internal/infrastructure/web/handlers.go and server.go: Web.antt and Web/Server.antt. A
--     handler takes the body or the error of its binding, and the header; a route names its
--     handler. Web/Books.antt puts the server over the wallet.
--   * internal/infrastructure/web/test_rabbitmq.go, test_kafka.go, test_redis.go and the entry of the
--     first in handlers.go: Web/LoadTest. LoadTest.antt is the loop that hands out the jobs, as a
--     function; Pool has it with the workers and the metrics as a step relation; Rabbitmq, Kafka and
--     Redis add the handler, the monitor and their channels, each as its test has them; Stats has the
--     statistics, Workers what a worker publishes.
--   * cmd/server/main.go and cmd/consumer/main.go: Programs.antt, the order in which the parts
--     are made and closed.
-- Scenarios runs the theorems at concrete inputs. Prelude holds the shared names, Operation.antt
-- the steps that can fail.
--
-- The use cases call each other as in the code: a handler of Web or Queue calls Wallet, which
-- calls Service and a repository; Mongo fills the repository, and its theorem fills the laws that
-- the theorems of Wallet and Web take as a hypothesis. These laws say that no other client writes
-- between two calls. Recursion is on lists and numbers, but for the loop of the load test as a function,
-- which takes as fuel the rounds that it may make: one more than the jobs left is enough. A run of a
-- load test is any sequence of steps of its goroutines; a publication is one of them.
--
-- Not modelled: logging, the matching of a request against the routes and the recovery of panics,
-- which are gin's, the times of the load tests and the lines that they print, and SanitizeString,
-- which only calls the standard library. The adapters take the ids that string_utils.go makes as
-- texts.
pub mod Prelude
pub mod Platform
pub mod Utils
pub mod Models
pub mod Service
pub mod Ports
pub mod Operation
pub mod Flow
pub mod Wallet
pub mod Mongo
pub mod Config
pub mod Queue
pub mod Web
pub mod Programs
pub mod Scenarios
