-- ===== src/Lib.antt =====
-- SMS gateway: a USB modem's messages, kept in a durable queue on disk and relayed to Telegram.
--
-- The parts and their files. Paths are from the repository's root, below src/sms_gateway_v2/.
--
-- The queue of queue/ is Queue. Queue/Models has the items (queue/models.py), Queue/Directory the
-- files of one directory and Queue/State the five directories with the primitives of
-- queue/paths.py, Queue/Dedup the table of content hashes (queue/dedup.py). The methods of `Queue`
-- (queue/queue.py) are in Queue/Enqueue, Queue/Claim (`claim_next`), Queue/Mark (`mark_sent`,
-- `mark_failed`, `move_back_to_pending`, `update_attempt`), Queue/Recovery (`recover_processing`,
-- `requeue_failed`, `initialize`, `close`) and Queue/Cleanup (`cleanup_sent`, `cleanup_failed`),
-- and the content hash in Queue/Hash. The modules below these, Queue/Accounted and Queue/History
-- have the theorems. Of telegram/ there are Telegram/Message (telegram/models.py) and
-- Telegram/Client (telegram/client.py). The worker of worker/worker.py is Worker: one pass claims
-- an item, sends it and settles the outcome. Of relay/ there are Relay/Messages and
-- Relay/Lifecycle (relay/relay.py), Relay/Watchdog (relay/watchdog.py), Relay/Heartbeat
-- (relay/heartbeat.py, relay/models.py), Relay/Schedulers (relay/cleanup_scheduler.py),
-- Relay/Timers, the loops of the background tasks, and Relay/Reports, the state that the relay
-- reports and what the watchdog and the gauge updater report to it. Duration is
-- util/time_format.py, Metrics is metrics/registry.py and metrics/gauge_updater.py. Of modem/
-- there is Modem/Models (modem/models.py with the tables of modem/client.py) and the client of
-- modem/client.py: Modem/Bus is D-Bus as the client meets it, Modem/Keys and Modem/Paths its keys
-- and the order of paths, Modem/Client the client's state and how it finds and reaches a modem,
-- Modem/Watchers the connection and the watchers of new messages, Modem/Control the reads of the
-- modem and `enable`, Modem/Reset `reset` and the wait for the modem, Modem/Timestamps and
-- Modem/Messages the messages, and Modem/History any sequence of calls. Import is
-- scripts/import-gammu-dedup.py (at the root of the repository): Import/Source reads the messages,
-- Import/Insert inserts their hashes into the table that Queue/Dedup keeps. Config is config.py:
-- Config/Schedule the retry schedule as a text, Config/Settings the bounds. App puts the program
-- together: App/Factory is relay/factory.py, App/Lifespan the startup and the shutdown of app.py.
-- Base, Texts and Exec are shared: numbers, lists and texts, the order of texts, and methods that
-- change a state and may raise. Tests has runs at concrete states.
--
-- State and operations. A method is a function from its arguments and the state of its object to a
-- result, a value or an exception, and the state that it leaves; what was written before a raise
-- stays written. The methods of the queue and the lifecycle of the relay run under locks, so each
-- is one step. The relay and the worker hold the same queue and metrics: the relay's state contains
-- the worker's, and that contains the queue. What comes from outside is an argument: the clock, the
-- random part of an id, the replies of the network, the answers of the modem. Times are natural
-- numbers of microseconds and delays of milliseconds; the modem client counts both in microseconds.
-- The time of a retry, and the day that a cleanup or a requeue reaches back to, raise OverflowError
-- where they leave the range of datetime; the times of the watchdog have no end. The relay takes
-- the modem's answers as arguments (`Modem` of Relay/State), and the modem client takes those of
-- D-Bus from the parameter `Bus`, where an answer is a function of the number of calls that the
-- client has made, so that it may change at any time. The client's calls run one after the other.
--
-- Parameters with laws: `Codec`, pydantic's JSON (it reads back what it wrote, and lets no
-- malformed hash in); `Hashing`, SHA-256 (a digest has 64 hex digits) and the text of a date;
-- `HtmlParser`, html.parser (the length of the gateway's own markup). Without laws: `Bus`,
-- `IsoFormat` and `Calendar`, which are datetime and zoneinfo, and `Target`, the failures of the
-- importer's database. Tests/Fixtures, Tests/Html, Tests/ModemRuns and Tests/ImportRuns have
-- instances.
--
-- Fuel. The worker's loop over the items that are not due takes a number of rounds, and is given
-- one for each pending file and one more, which is enough since each round puts one of them in the
-- set of items to skip. The wait for a modem that was reset looks again after each interval of two
-- seconds or the time that is left, and is given a round for each interval in its timeout and two
-- more. The wait for the text of a message is given a round for each microsecond of its timeout
-- and one more, which is enough where a call of D-Bus takes at least one. The other loops are over
-- lists, and the sends of a message are as many as the client's limit.
--
-- Not modelled: the tasks that a signal of a new message starts in modem/client.py, and calls of
-- the client that interleave; the endpoints of app.py, metrics/endpoint.py and __main__.py, which
-- wire libraries; the command line of the importer, and how pydantic reads numbers from the
-- environment; logging, fsync and the histogram of durations; the cancellation of tasks, and the
-- time that the loops wait; decimal digits other than ASCII.
pub mod Base
pub mod Exec
pub mod Texts
pub mod Queue
pub mod Telegram
pub mod Metrics
pub mod Worker
pub mod Duration
pub mod Modem
pub mod Import
pub mod Config
pub mod App
pub mod Relay
pub mod Tests
