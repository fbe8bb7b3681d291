-- ===== src/Lib.antt =====
-- The Edge agent of monitoreoedgeis: what it promises about configurations, commands and events.
--
-- The agent runs beside cameras and talks to a SaaS. Some of its parts decide what happens to work
-- that must not be lost or done twice, and this library models them from their Go code:
--
-- * RemoteConfig (internal/remoteconfig). A desired configuration is validated, staged durably,
--   applied to the runtime, and published, or rolled back. `Engine.antt` is engine.go: `receive_desired`
--   is `ReceiveDesired`, cut into one function for each of its steps, and `recover` is `Recover`.
--   `Store.antt` is store.go (`OpenStore`, `Save`, `Update`, `saveLocked`), `Contract.antt` contract.go.
--   `Engine/Lifecycle` is the abstract specification, a relation; `Engine/Safety`, `Engine/Durability`
--   and `Engine/Recovery` are about the runtime, the file, and a restart.
-- * Control (internal/control). A command of the SaaS is not executed again while its outcome is
--   kept. `Ledger.antt` is ledger.go, the durable record of the commands; `Module.antt` is the `execute`
--   of module.go and the pauses of its poll loop.
-- * EdgeBacklog (internal/edgebacklog/backlog.go). Local events wait on disk until the SaaS has them.
--   `Files` are the file operations, `Inactive` the marks of inactive cameras, `Submit` is `Enqueue`,
--   `Process` is `ProcessOne`: `pick`, `send` and `settle`, since the lock is released for the send.
--   `Start` is `Open`, over what it reads in the directories. `run_turns` is the loop of `Run` up to the
--   next wait for its ticker.
--
-- * AuditJournal (internal/auditjournal). Security events are kept in a chain of hashes. `Record` is
--   record.go, `Verify` is hash.go and the `verifyReader` of verify.go, `Journal` the `Append` and the
--   recovery of `Open` of journal.go, with the `RedactSafeReason` of redact.go.
--
-- * Service (internal/service/supervisor.go) runs the agent again after it failed: `turn` is one turn of
--   the loop of `runSupervisor`. Ota (internal/ota/version.go) parses and compares release versions.
--
-- * Processing (internal/processing) turns RTP packets into access units for the decoder. `Rtp` is the
--   `ParseRTPHeader` of rtp.go, in a monad in which an index out of range is a fault; `Stapa` and
--   `Depacketizer` are depacketizer.go, `push` its `Push`; `H265` is what depacketizer_h265.go does in
--   another way, over the same state; `Reassembly` is the choice of pipeline.go between the two;
--   `RingBuffer` is ringbuffer.go.
--
-- * CloudSink (internal/cloudsink/buffer.go) keeps frames on disk whose upload failed. `Entry` is
--   `writeAtomic` and `readEntry`, `Buffer` the queue: `OpenBuffer` with its recovery, `Enqueue`, `Peek`,
--   `Advance` and `Discard`.
--
-- * FullEdge (internal/fulledge/dedup.go) decides which detections are new events: `Dedup` is `Admit`.
--
-- RemoteConfig and Control hand their records to the journal, their audit sink, and each write a state
-- file, which `Durable.antt` spells out step by step. `Prelude` holds the shared tests, lists, signed
-- integers, cut strings and maps.
--
-- How the code is modelled. State is a record that each operation takes and returns, with what it
-- reports. A mutex makes each operation one step; `settle` is apart from `pick` so that others can come
-- between. Numbers are native; int64 versions and sizes are `ℤ`, and sums of sizes wrap around as int64;
-- sequence numbers wrap around as uint64; other counters count up in ℕ. A duration that doubles
-- is taken to stay below 2 ^ 63, as it does for a RetryMax below 2 ^ 62. Times of the backlog are
-- nanoseconds since Go's zero time, read once for each operation; times that are only stored are
-- strings. Lengths of strings are in bytes. A file of lines is
-- taken as its complete lines and what follows the last of them; the scanner that reads it gives the
-- lines, or an error. The errors of the operating
-- system, JSON, regular expressions, the runtime adapter, the executor of commands and the sender are
-- parameters, records of functions over a world of their own, which tests instantiate. Nothing is asked
-- of the runtime adapter: the theorems on the runtime tell which of its calls was made last and reported
-- success. The state file of RemoteConfig is the text that `json` makes of a state, and payloads may be
-- formatted anew when it is read; the ledger's file is kept as the entries that it encodes. A reason or
-- error text that is cut at a byte keeps the number of bytes of the rune that was cut (`GoString`); all
-- other strings are whole runes. The audit sink is an optional list,
-- since the code ignores its errors. Logs, contexts and their cancellation are left out.
--
-- Bounds and fuel. Loops are by structural recursion. The supervisor's loop may run for ever: it is
-- taken for any number of turns. The loop that evicts inactive marks runs on fuel,
-- the number of marks, which is enough since each turn deletes one; so does the loop that evicts tracks,
-- on their number. The loop over a STAP-A packet is by
-- recursion on what is left of it. The loop of `Run` takes the number of turns it may make, and
-- `run_turns-Drained` shows how many are enough. `Peek` reads the clock once.
--
-- Not modelled: the runtime adapter and the validation of configurations; the goroutines that call
-- `execute` and `ProcessOne`; the status and the ticker of the backlog; the snapshot of
-- the journal; decoding, sampling, inference, detection, streams, discovery, credentials, evidence,
-- installation, and the wiring of the agent.
pub mod Prelude
pub mod Durable
pub mod AuditJournal
pub mod Processing
pub mod CloudSink
pub mod RemoteConfig
pub mod Control
pub mod EdgeBacklog
pub mod FullEdge
pub mod Ota
pub mod Service
