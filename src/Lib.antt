-- ===== src/Lib.antt =====
-- The runtime services of GIZMo, a monitor of the impedance between grounds: models of the Python
-- services and the theorems that make them correct.
--
-- The parts. `gizmo-zmon`, the measurement engine, is a C program. The ZeroMQ server
-- (src/python/gizmo_zmq.py) takes one message at a time, writes the files of the state directory
-- and asks `gizmo-control` to restart the engine or to set the clock. The OPC UA server
-- (src/python/gizmo_opcua.py) publishes what the collectors sample and lets authenticated users
-- (src/python/gizmo_security.py) run commands: a gate admits one at a time, sends it to the ZeroMQ
-- server and waits until a measurement reads back what the command was for. Its main loop finishes
-- and schedules the collection jobs, forwards what was written to the configuration nodes and moves
-- the active command on.
--
-- The files.
--   Prelude, Text: the library's names, native numbers and lists, Python's strings.
--   Common: `read_exported_int` of src/python/gizmo_common.py; RoundTrip: numbers in files.
--   Zmq: the environment, the state directory and the helpers of src/python/gizmo_zmq.py.
--     Zmq/Handler: `handle_message`, a function per message, and the loop of `main`.
--     Zmq/Directory, Zmq/Kept: what the state directory may hold, message by message.
--     Zmq/Accepts: which numbers are accepted.
--   OpcUa/State: the fields of `GizmoOpcUaServer` that the command gate works on, as one record.
--     OpcUa/Audit: `_publish_audit`, `_persist_command_state`, `_finish_command` and their like.
--     OpcUa/Gate, OpcUa/Dispatch: `_begin_remote_command`, `_remote_call`, `_remote_write`.
--     OpcUa/Methods: `start_calibration_method` and the other methods.
--     OpcUa/Readback: `_normal_mode_verified` and the tests of single values. OpcUa/Advance:
--     `_advance_active_command`. OpcUa/Forward: `_forward_configuration_writes` and
--     a turn of `run`. OpcUa/Restore: `_restore_command_state`. OpcUa/Samples: what the collectors
--     leave for the gate. OpcUa/Health: `_schedule_jobs`, `_finish_jobs`, `_update_health`.
--     OpcUa/Keeps: the operations that change the gate, as an interface that an invariant fills.
--     OpcUa/Coherence: such an invariant. OpcUa/Forward/Rejected, Late and Settled: refused values,
--     a late mark, and pending writes.
--     OpcUa/Reachable: the steps of a running server. OpcUa/Ranges: the values in force.
--   Security: the credential file and `authenticate`. Security/Load, Security/Login: what a file that
--   loads holds, and who logs in with it.
--   Historian: src/python/gizmo_historian.py, which archives what is published.
--     Historian/Accumulator: `MinuteAccumulator.update`; Summary: what an entry holds after a minute.
--     Historian/Payload: `encode_payload` and `decode_payload`.
--     Historian/Table: SQL statements on a table in the order of its key. Historian/Archive: the
--     tables. Historian/Store: the methods of `HistorianStore` that write them, with Store/FreeTime,
--     Recorded and Sound. Historian/Replication: `replication_batch`. Historian/Incoming and Replica:
--     `import_replication_batch`, with Replica/Replayed and Sound. Historian/Sync:
--     `ReplicaRecorder._sync_table`, with Sync/Mirror.
--     Historian/Reachable: the calls that change an archive.
--     Historian/Recorder, Capture and Rounds: `HistorianRecorder`, whose loop is run_round for each
--     snapshot, with Recorder/Epochs, Rounds/Quiet, Ends, After, Guards,
--     Room, Kept and Counted.
--     Historian/Points, Coarse and Query: `query` and `query_events`, with Coarse/Counts,
--     Query/Bounds and Unforced.
--   Sdr: src/python/gizmo_sdr.py, a round of the server over its clients.
--   Temperature: src/python/gizmo_temperature.py, the readings and the loop of one client.
--   Tests: the theorems at concrete servers, messages and files.
--
-- How the code corresponds. A method of the server is a function from its state to its state, with
-- the environment's answers (clock, replies, disk, hashes) in a record `World`; times are
-- microseconds. A command that raises returns the text of its exception. The ZeroMQ handlers are
-- actions of a small monad over the state directory. Text is a list of code points; `isdigit`,
-- `\d` and `lower` are those of ASCII, with the Kelvin sign. `decimal` takes one more step of fuel
-- than the number, which has no more digits than that; every other loop is a structural recursion,
-- but for the search for a free time in `record_fast`, with one step more than rows, and `pad` of
-- the temperatures, with three. `sync_table` counts how often the stop flag is found clear. A
-- table of the archive is a list of rows in the order of its key, and a transaction a function
-- that returns the archive or a failure.
--
-- Parameters. The OPC UA library answers whether a call was good and how a status reads; the key
-- derivation of `hashlib` is a function of the password, the salt and the iterations; `strptime`
-- and `mktime` are one function of the environment. Nothing is assumed of any of them. The finite
-- numbers of the accumulator are a type with a zero, `min`, `max` and `+`, of which its theorem names
-- what it takes. base64 and the bodies of the archive's payloads are functions, of which a theorem
-- says where it takes that they lose nothing. The recorder and the queries take Python's numbers and
-- the texts of their events as functions, of which a theorem says where it takes that a text is short,
-- that a number converts or that a row decodes. A query reads an archive that
-- stands still, and its times are not negative; `groups` takes as many rounds as there are points.
--
-- Not modelled: the address space and its construction, sessions, JSON, sockets, the collectors and
-- the publication of what they sample, the historian's server and its export, the dashboard,
-- the formatting of temperatures, the C programs, and the web page. Threads: what a client
-- sends and a turn of the loop are steps that do not overlap, as the command lock has it for most of
-- the gate; OpcUa/Forward/Late looks at the one mark that `_remote_write` makes outside the lock.
pub mod Prelude
pub mod Text
pub mod Common
pub mod Zmq
pub mod OpcUa
pub mod Security
pub mod Historian
pub mod Sdr
pub mod Temperature
pub mod Tests
