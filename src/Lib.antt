-- ===== src/Lib.antt =====
-- Verification library of Starwatch's router daemon, the Go program under router/. The daemon polls
-- a Starlink dish over gRPC, probes the WAN path, keeps a history of what it measures, derives a
-- timeline of outages and a set of alerts from it, and delivers notifications and live events.
-- Modelled here are the parts that decide something: the event bus, the tiers of the history, the
-- outage timeline, the alert engine with its delivery, the WAN monitor, the dish's speed test, the
-- configuration with its UCI file, the route to the dish, and the manager of mwan3.
--
-- How the parts interact: the pollers append points to the history and call the timeline's
-- IngestDish, ObserveDish and ObservePath; the timeline publishes its notices on the bus; each tick
-- the alert engine reads the dish's snapshot, the WAN status and the timeline's entries, and hands
-- notifications to the delivery, to the event log and to the bus. The API hands updates to the
-- configuration manager, which writes the UCI file that the daemon loads at its start. In the
-- models these calls are effects: an operation returns its new state and the list of what it sent,
-- in the order of the calls.
--
-- Bus models router/internal/event/bus.go (Subscribe, its cancel function and Publish; a full
-- subscriber is closed and dropped). History models router/internal/history: History/Ring is
-- ring.go, History/Store and History/Downsample are store.go, History/Tiered is QuerySpan of
-- tiered.go, and History/Search is the algorithm of sort.Search over native numbers, which store.go
-- calls. Outage models router/internal/outage/timeline.go. Alert/Engine models
-- router/internal/alert/engine.go (Evaluate has the conditions and what a notification is made of,
-- Tick the transitions), and Alert/Delivery models router/internal/alert/delivery.go. Wan models
-- router/internal/wan: Wan/Monitor is monitor.go, Wan/Discovery is discovery.go. Speedtest models
-- router/internal/dish/speedtest.go. Config models router/internal/config: Config/Uci is ParseUCI
-- of uci.go, Config/Rewrite is RewriteUCI of that file, Config/Settings, Config/Readers and
-- Config/Load are the records of config.go, its parse functions and Load, and of manager.go
-- Config/Change and Config/Apply are applyUpdate, Config/Atomic is atomicWriteWithOperations,
-- Config/Manager is NewManager, Update and RegenerateToken, and Config/View is publicConfig. Route
-- models router/internal/dishroute/manager.go (Route/Printed has the lines that ip prints).
-- Failover models router/internal/mwan/manager.go: Failover/Proposal has the proposed changes and
-- the shipped configuration, Failover/Batch renderBatch, Failover/Known describes the lines of a
-- configuration that is not a custom one, and Failover/Assist is Assist with Apply. Base holds what
-- they share: lists and maps over native numbers, integers, sorting, and predicates over effects.
--
-- Conventions. In Config, Route and Failover a text is the list of its code points, and a file
-- without valid UTF-8 is not modelled. An instant is the number of nanoseconds since the zero
-- time.Time, so IsZero is a comparison with 0; times before it do not occur. A duration and a
-- difference of instants are integers, which may be negative; that a difference saturates after 292
-- years is not modelled. A method that reads the clock takes the reading as its argument, one
-- reading per call. A Go map is an association list; where the code ranges over a map, the model
-- goes in the list's order, and the theorems that depend on such an order say so by quantifying
-- over the list. A key that the timeline joins with NUL bytes is a constructor with the parts as
-- its fields, which is the same thing for causes without NUL bytes. A panic (a send on a closed
-- channel, an index out of range) is the result none, or a failure of its own.
--
-- Parameters. Floats are an argument with the operations that the code uses; the only law assumed
-- of them, in the bounds of a loaded configuration, is that whole numbers up to 100000 are finite
-- and in their order. What strconv and time print and read is an argument, with the laws that a
-- print has no line break and, for one theorem, that a printed int is read back. The JSON codec of
-- the saved alert state is an argument, of which two things are assumed: the text of a state that
-- can be encoded is not empty, and it decodes to that state with other values in the details, where
-- JSON does not keep a value's type. Which states can be encoded is an argument of the engine, too.
-- The SQLite tier, the outage persistence, the HTTP client, the sleep between attempts, the probes,
-- the counters' files and the gRPC calls of the speed test are arguments, functions of the calls'
-- arguments or the sequence of their answers. What the system calls of the atomic write return is
-- an argument, and so is the name of a new temporary file, which is not in use. The file system of
-- that write keeps what a crash may come back to: any state since the directory was last synced,
-- with any text in the place of a content that was written and not synced. The commands that the
-- route manager and the mwan3 manager run are a function on a world, with the laws of IsKernel in
-- Route/Kernel where a theorem needs them: ip route show of the dish's prefix answers, with nothing
-- after a flush and with the one line that ip prints for a route after it was set.
--
-- Concurrency. The methods of a component are atomic in the models, as its mutex makes them, and
-- theorems about runs quantify over every sequence of calls. A queue's consumer does not take the
-- mutex: the number of items it takes between the selects of an enqueueing call is an argument, and
-- the theorems hold for all of them.
--
-- Fuel. sort.Search recurs on the length of the list, and the interval it searches halves at each
-- step, so that the length is more than enough. The loop that counts the bits of a mask has 32
-- rounds, one for each bit of the word. All other loops are structural, over the list or the number
-- of attempts left. The speed test takes one event at a time: a worker's step runs from one
-- blocking call to the next, and is atomic, the storing and the publishing of a result included.
--
-- Not modelled: the HTTP API, the gRPC client and its conversions, the SQLite store, the
-- diagnostics, the daemon's main function, the web interface and the packaging.
pub mod Base
pub mod Bus
pub mod History
pub mod Outage
pub mod Alert
pub mod Wan
pub mod Config
pub mod Route
pub mod Failover
pub mod Speedtest
