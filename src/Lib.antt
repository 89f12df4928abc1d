-- ===== src/Lib.antt =====
-- NAM-Audio-Pipe, a PipeWire host for neural amplifier models that records what it plays.
--
-- Parts and files:
--   * Recording/Buffer: src/recording/buffer.rs, the planar audio block (`AlignedBlock`) and the
--     payloads of the rings. A sample is the bit pattern of its `f32`, a place of a block that was
--     never written is `none`, and a read of such a place gives `none`.
--   * Recording/Pool: src/recording/pool.rs, the preallocated slots that the RT thread and the I/O
--     thread hand to each other by index. Pool/Session has the step relation of the two threads'
--     calls in any order, Pool/Ownership, Pool/Bounds and Pool/Start its invariants, Pool/Protocol
--     what they give.
--   * Recording/Transport: src/recording/transport.rs, the sender and the receiver over the pool.
--   * Recording/Disk/Intake: how the worker of src/recording/disk.rs takes blocks and format changes
--     out, and Recording/Delivery: both ends together. A call of the sender and a turn of the worker
--     are one step each there.
--   * Recording/Disk: src/recording/disk.rs. Disk/Creation is `create_new_capture`; Disk/Worker the
--     calls that open parts, write blocks and publish space warnings, over a sink as in the source;
--     Disk/Loop the two drain loops; Disk/Entry `disk_writer_loop` around them. Disk/Parts says what
--     the files hold and how each call changes it, Disk/Session lets the turns of the pool loop and the
--     calls of the RT thread interleave, with the last calls at two points of a turn: before it and
--     behind its look at an empty pool.
--   * Recording/Io: src/recording/io.rs, `write_all_at`; Recording/Wav: `AsyncWavWriter` of
--     src/recording/disk.rs, the file of one capture; Wav/Building `build_wav_header` of
--     src/recording/wav_header.rs; Wav/Sink the production sink, which keeps the laws of Disk/Parts. Recording/Capture: all of these together.
--   * Recording/Summary: the tally of src/recording/summary.rs; Recording/Alert:
--     src/recording/alert.rs, the alerts of the control loop.
--   * Recording/Guard: src/recording/guard.rs, the shutdown and its exit code; Recording/Status:
--     src/recording/status.rs, the observable state of the worker and the startup handshake.
--   * Host/Reconnect: src/standalone/pw_host/reconnect.rs, the retry schedule and its cycle.
--   * Host/RateSync: src/standalone/pw_host/rt_callback/rate_sync.rs with the rollback guard of
--     rt_callback/process.rs and the rebuild of handlers.rs.
--   * Host/BackendStatus: src/standalone/pw_host/status.rs, the lifecycle of the backend, with the
--     stream latches of src/standalone/pw_host/spa_format.rs.
--   * Host/Callback: src/standalone/pw_host/rt_callback/process.rs, the capture callback: Buffers the
--     checks of the host's buffers and the reaction to bad ones, Recorder what it records of a quantum,
--     Process both in the order of `process_dsp_buffer`.
--   * Host/Commands: src/standalone/pw_host/rt_callback/commands.rs, the turn of the callback at the
--     command ring: Receive the loop of `receive_commands`, Owned and Models who owns the models.
--   * Host/LogRing: src/standalone/pw_host/rt_log_ring.rs, PipeWire's log events off the RT thread:
--     Events the calls as events, Routed the gate, Accounted the order and the losses, Text the strings.
--   * Host/StreamStatus: src/standalone/pw_host/stream_status.rs, the sequence lock of the published
--     latencies: Sequence what its two sides know, Snapshot what a read returns.
--   * Tests: the model at concrete inputs.
--
-- A method that mutates its object returns the new one; a panic or an error is an `Option` or a
-- Boolean beside the state. Arithmetic that the source lets wrap is written with its modulus.
--
-- Parameters: the rtrb ring (Recording/Spsc, with a bounded list as its instance), the backend of
-- positioned writes (`WriteAt`, io_uring and the kernel), the empty WAV header that
-- hound writes (`HoundLaws`), the clock's readings, the low-space warning and the checkpoint interval, which are floating point, the
-- free bytes of the volume, the cast of a rate to `f32`, the limit `MAX_BRIDGE_BUF` of the engine
-- crate, the worker thread's handle and its oneshot channel, the outcome of a resampler build (the
-- engine crate's), its swap budget and squared gate thresholds (`Engine`), and the standard library's
-- test for valid UTF-8. A call of the backend status is one step, also where the source stores a
-- mirror or a latch outside the lock, so calls do not overlap there. The accesses to shared atomics stand in one order: weaker orderings of the
-- hardware are not modelled.
--
-- Fuel: the loop of `write_all_at` has one turn for each byte of the buffer, since each turn with
-- progress shortens it; the loop over the control ring has one turn for each queued item and one
-- more; the loop of `with_backoff_timeout` has one turn for each attempt of the schedule; the poll
-- loops of the shutdown and of the handshake take their fuel as an argument, and one turn more than
-- the poll at which the deadline has passed is enough; the loop over collision suffixes ends within
-- 2^32 turns; the drain loops take their fuel as an argument, one step for each turn, and one more
-- than there are queued items is enough once the stop token is in, two more when it comes in a turn; the command loop has one turn for
-- each of the 16 pops, since a turn that goes on has popped.
--
-- Not modelled: PipeWire and thread setup, the DSP, the command line and the measurement tools,
-- which are calls of other crates or reports; the telemetry of the callback, log lines and hint flags
-- of the worker; the other swaps of the callback (resampler, cabinet, oversampling, slimming), whose
-- scheduler is the engine crate's.
pub mod Base
pub mod Host
pub mod Recording
pub mod Tests
