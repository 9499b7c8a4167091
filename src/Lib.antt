-- ===== src/Lib.antt =====
-- raft_rx: the C implementation of the Raft consensus engine (c/src, c/include/raft) and its
-- example programs (c/examples).
--
-- The program keeps a `raft_node_t` per node. In each tick rxnet calls `raft_node_latch_inputs`,
-- which takes messages and commands from the transport; it evaluates the table of role transitions
-- once; and it calls `raft_node_dump_outputs`, which commits, applies, drives a membership change,
-- compacts, saves, and sends the outbox. An example program runs a second machine beside the node,
-- its command line, which reads a line, submits or forwards commands, and answers what other nodes
-- ask for over the TCP transport: to join, to merge two clusters, to pass a command on. The
-- development follows these parts.
--
-- - Types: the constants and structs of c/include/raft/raft.h.
-- - LogIndex: c/src/raft.c, lines 70 to 107, the log's indexes over the snapshot boundary.
-- - Members, with Order, Names, Normalize, Peers, Quorum: `normalize_members`, `configuration_*`,
--   `node_refresh_peers`, `member_majority`, `node_record_vote`, `node_has_vote_quorum`.
-- - Timeout: `node_next_election_timeout`. Outbox: `node_queue_message`.
-- - Election, with Votes: `node_handle_term_update`, `node_handle_vote_request`,
--   `node_handle_vote_response`, `action_become_candidate`.
-- - Replication, with Commit, Batch, Terms, Safe, Marks: `node_send_append_entries_to`,
--   `node_advance_commit_index`, `node_handle_append_entries_response`.
-- - Follower, with Invariant, Steps, Matching: `node_append_entries_from_leader`,
--   `node_handle_append_entries`.
-- - Codec, Membership, with Once, Drive, Safe, Marks, Joining: `encode_member_list`,
--   `decode_member_list`, the internal commands, `raft_node_request_membership_change` and
--   `node_maybe_drive_membership`.
-- - Apply, with Committed: the apply loop of `raft_node_dump_outputs`.
-- - Compaction, with Keeps: `node_compactible_index`, `node_do_compact`.
-- - Fsm, with Rows, Frame, Safety, Votes, Marks, Evaluates: the guards, actions and table of
--   transitions; Marks and Evaluates follow the dirty flag.
-- - Phases, with Safe, Saved, Requests, Votes, Recovery: `raft_node_latch_inputs`,
--   `raft_node_dump_outputs`, and a tick of them.
-- - Lifecycle, with Names: `raft_node_init`, `raft_node_stop`, `raft_node_start`,
--   `raft_node_reset_for_join`.
-- - Cluster, with Nodes: `raft_cluster_init`, `raft_cluster_add_node`, `raft_cluster_tick`,
--   `raft_cluster_leader`.
-- - Storage, with MetaFile, LogFile, SnapshotFile, Lines, Restart, Names, and Decimal:
--   c/src/raft_storage.c. MetaFile/Words, MetaFile/Reading, MetaFile/Whole, LogFile/Entries and
--   LogFile/Loading read the files back.
-- - Memory, with Delivery: c/src/raft_transport.c.
-- - Kv, with Lookup: c/src/raft_kv_app.c.
-- - Tcp: the state, the queues and the listener's rounds of c/src/raft_tcp_transport.c, with Peers
--   (the table and its files), Frames (what goes over a connection), Sending (every send); and
--   Wire, Listener, Cut, Table, Scan, File, Reach for their theorems.
-- - Mqtt, with Slots, Inbox: c/src/raft_mqtt_transport.c, c/src/raft_mqtt_join.c. Mqtt/Posix, with
--   Fifo, Session: c/src/raft_mqtt_hal_posix.c.
-- - Cli, with Pending: what the two command lines share, `parse_host_port`, the words of a line,
--   the gathering of requests, and the loop over the pending ones.
-- - Counter, with Line, Phases, Leader, Snapshot: c/examples/counter/src.
-- - Demo, with Deleting: c/examples/demo_app/src/demo_kv_app.c, demo_args.c and main.c. Demo/Line,
--   with Show, Commands, Joins, Phases, Leader: c/examples/demo_app/src/cli_fsm.c.
-- - Prelude: tests, lists and texts that the parts share. Examples: the theorems at concrete
--   values.
--
-- How the code is read. A pointer to a node is a value of the record `Node`, which each function
-- takes and gives back. An `int` is a natural number: the program keeps its terms and indexes at
-- or above zero, and their overflow is left out; the two indexes that may be -1 are options. The
-- hash of the timeout and the numbers of the snapshot file wrap at 32 bits. A `char[n]` is a list
-- of fewer than n bytes without NUL, and `strncpy` cuts. The log, `next_index` and `match_index`
-- are all the slots of their arrays, the other arrays the lists of their filled slots; a read out
-- of range gives a zeroed slot. The clock is an argument. What `application.user` points to is a
-- type parameter, and the callbacks are options of functions. The disk is the contents of three
-- files.
--
-- In the TCP transport each operation of the listener thread and of the main thread is one step on
-- one state, since the lock makes it whole. A connection is a list of bytes with how many of them
-- each call of recv finds; a `uint32_t` of the header is four bytes, least first. How a struct
-- lies in memory is a parameter, `Layout`; whether a connection to an address takes the bytes is
-- another, `Network`; that the sockets of a listener can be opened is an argument. A file is its
-- bytes, and one that is there can be opened. What a program prints on stdout is a list of lines,
-- without the line feeds and the blank lines before notices; what it prints on stderr is left out.
-- A port that is not positive is 0.
--
-- Of the layer below the MQTT transport, `Hal`, the model has what c/include/raft/raft_mqtt_hal.h
-- says: a queue of packets that recv_raw drains, so that draining it all empties it. Each packet is
-- cut to the caller's buffers: 127 bytes of topic, and as many bytes of payload as a message has.
--
-- rxnet is a parameter, of which the model asks that a tick fires at most one row of the table,
-- which leaves the current role and whose guard holds; `first_row` in Examples is such a runtime.
-- The machine of a command line has one row, which fires if a line has been read.
--
-- Loops are recursion on lists or on a count: the apply loop runs `commit_index - last_applied`
-- rounds, the search for the commit index as many as the log has entries above it, a batch 16
-- rounds, reading a snapshot or the file of peers as many rounds as it has bytes, the loop over
-- the pending joins as many as there are requests, and printing a number n one more than n.
--
-- Of the layer itself, the ring's counters wrap at 64 bits; OpenSSL, coreMQTT and pthread are the
-- parameter `Client`. What a write to the disk leaves after a crash in its middle is not modelled,
-- since a file is replaced as a whole.
--
-- Not modelled: the MQTT layer of the ESP32 and the opening of a TLS connection, which call
-- libraries; the trace; the directories and the rename of c/src/raft_storage.c; the sockets and
-- the making of threads; the set-up and the main loops of the example programs, which allocate and
-- call rxnet's executor; the key-value cluster examples; and the Python implementation.
mod Prelude
mod Examples
pub mod Types
pub mod LogIndex
pub mod Members
pub mod Timeout
pub mod Outbox
pub mod Election
pub mod Replication
pub mod Follower
pub mod Codec
pub mod Decimal
pub mod Membership
pub mod Storage
pub mod Compaction
pub mod Apply
pub mod Fsm
pub mod Phases
pub mod Lifecycle
pub mod Cluster
pub mod Memory
pub mod Kv
pub mod Tcp
pub mod Mqtt
pub mod Cli
pub mod Counter
pub mod Demo
