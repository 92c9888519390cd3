-- ===== src/Lib.antt =====
-- systemd-transition-exporter watches systemd units and pushes their availability to Prometheus
-- receivers. A snapshot of a unit comes in over D-Bus; the engine turns it into transition events
-- with consecutive numbers; main writes each event to the log on disk and hands it to the worker
-- of every target; the worker batches events and availability samples and calls the sender, which
-- posts them and keeps a checkpoint. After an outage the journal gives the missed transitions.
--
-- Model: internal/model/model.go, the shared data types. Times are natural numbers of milliseconds
--   or microseconds since the epoch, as in the fields' names; the bound of int64 is left out.
-- Engine: internal/engine/engine.go. The map of states is an association list, the mutex makes
--   each method one step; `sequence` wraps at 2^64. Run lists the calls that main makes of it,
--   Startup is the handling of a reboot in cmd/systemd-transition-exporter/main.go. The order of
--   Go's range over a map is the argument `order` of `apply_reboot`.
-- Wal: internal/wal/wal.go. A file is its text; what each disk call does is an argument of the
--   method (`Faults`). encoding/json is the parameter `EventCodec` with its laws, which
--   Wal/SampleCodec shows to be satisfiable. Text is handled as ASCII.
-- RemoteWrite: internal/remote_write/remote_write.go. The receiver, the end of the context and the
--   disk are functions of the number of calls so far (`World`). protobuf and snappy are not opened:
--   a request is the list of its series, and whether Marshal encodes it and NewRequestWithContext
--   makes one of it is in the `World`. The three attempts are structural; `send_batches` runs on
--   fuel, the number of pending events, which is enough since every batch is at least one event.
--   Startup has MigrateCheckpoint, New and loadCheckpoint, over files by their paths.
-- Recovery: internal/recovery. Times are nanoseconds, the zone's offset is constant. The run of
--   journalctl is the argument `Output`, with the records that its lines decode to. The ticks of a
--   slot run on fuel, their number and two more, which is enough for every tick before the end.
-- Delivery: internal/delivery/worker.go. The sender is the interface `Target`, which
--   `remote_target` fills with RemoteWrite; the channel is a list. One round of the loop of Run is
--   `step`, over a `Round`: the commands that EnqueueEvent and EnqueueRecovery bring before the round
--   and while its select waits, the engine's states, the time and the case that the select takes. A
--   command that comes while the round sends is one of the next wait. Lifetime runs `Run` from its
--   start, Ledger counts its events, and Acknowledged joins the worker to the sender. The loop over
--   slot edges that are past runs on fuel given with the input; Edges says how much is enough.
-- Probe: internal/agw, internal/dns and internal/sip. Agw, Dns and Sip have the packets, as lists of
--   bytes; random bytes are arguments. Prober is the type of that name, Rounds has runProbe, probeOnce
--   and wait, over what the network does in each round; the three packages differ in the request and in
--   the test of an answer alone, which are parameters. Start, Stop and the return of a loop are one
--   step each; Stop's call of cancel, which comes after its unlock, is in its step.
-- Config: internal/config/config.go. A file is what the YAML library decodes it to; SplitHostPort,
--   JoinHostPort and the hash of a URL are parameters. Durations are signed (`ℤ`).
-- Systemd: internal/systemd. What D-Bus, the clock and the callbacks answer is the argument `Attempt`
--   of each attempt at a connection and `Wake` of each turn of Monitor.Run; the calls of the callbacks
--   are the result. Automaton is what the calls follow, Phases the proof.
-- Main: cmd/systemd-transition-exporter/main.go, the callbacks onSnapshot, publishReady and
--   onRecovery over the engine. What they do to the log, the workers, the metrics and the probers is
--   a list of actions; whether the log takes an event is an argument. Start has internal/sip/local.go
--   and the choice of the probes, Addresses what the interfaces carry; an IP is of a parameter type.
-- Metrics: internal/metrics/metrics.go, the registry and the samples of its page, in Label the text of a
--   label. Identity: internal/identity/identity.go, the names of the host and the warnings.
-- Base: the tests, lists, dictionaries, sorting, texts and decimal numbers that the others share.
--
-- Not modelled: sockets, D-Bus calls, the HTTP server, flags, signals and log lines; the decoding of
-- YAML; the debug connection of internal/systemd and the start of main beyond the replay, the reboot
-- and the choice of the probes. Two callbacks of main that run at once are not interleaved here.
mod Base
pub mod Model
pub mod Engine
pub mod Wal
pub mod RemoteWrite
pub mod Recovery
pub mod Delivery
pub mod Probe
pub mod Config
pub mod Systemd
pub mod Metrics
pub mod Identity
pub mod Main
