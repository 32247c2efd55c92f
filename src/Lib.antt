-- ===== src/Lib.antt =====
-- A model of plasmoid, an actor runtime for WebAssembly components: particles with mailboxes on
-- nodes, linked and monitored as Erlang processes are, and supervised by components.
--
-- The parts, and the files that model them:
--   * Pid, Message: src/pid.rs (identifiers, their order and their generator) and src/message.rs
--     (exit reasons, system messages). A node's identity is a number, its bytes read in order.
--   * Mailbox: src/mailbox.rs. A mailbox is a queue with a count of its data and a closed flag;
--     `push_*`, `recv`, `recv_ref` and `close` are functions of it. What ends a wait, and what
--     other tasks do to the mailbox meanwhile, is an argument of the receive.
--   * Registry: src/registry.rs. State has the data, Spawn, Send, Relate, Names and Exit the
--     methods. A method is a function of the whole state, since each lock is held for one block
--     and the methods run to their end between two observations; `spawn` takes what other tasks do
--     before it inserts its name. Mailboxes are shared with the particles' tasks, so a particle's
--     state holds the key of its mailbox. `exit_particle` calls itself for each linked particle
--     that its exit kills: it recurses on fuel, and `exit_now` gives it one unit for each particle,
--     which is enough because every call removes one.
--   * Global: src/global.rs, with the requests of src/wire.rs. A table of names and locks for each
--     node; Claim has `try_claim` as a machine that makes one request in a step, so that claims can
--     interleave, and the network decides what becomes of each request, and Claim.Split refines it by
--     the two steps of a lock request, between which others may act; Register has `register` and
--     `unregister`, and Merge the merge of two tables, whose losers the registry kills.
--   * Cluster: src/cluster.rs, and Partitions in it: src/partitions.rs. The time is an argument; what
--     is sent and disconnected is a list of effects.
--   * Signals: src/signals.rs, one turn of each of its two loops.
--   * Transport: src/transport.rs. The messages between nodes; Frame has how they are framed on a
--     stream, which is a list of bytes, Links the queue and the addresses of each peer, and Writer
--     the task that empties a queue. The encoding of a message, postcard, is the parameter `Wire`,
--     of which it is only asked that decoding gives back what was encoded. A link's reading takes
--     the stream's length as its fuel, and each frame takes four bytes at least.
--   * Protocol: src/protocol.rs. What a node, whose parts are one record, does with each message of
--     a peer: it calls the methods of the parts above. Serve has the requests of clients, with the
--     data of src/wire.rs. Names are exchanged by a task of their own, so a node records with whom
--     that began.
--   * Host: src/runtime/invoke.rs, the functions that a particle calls, over the state of
--     src/host/state.rs: they find where a destination lives, and act on this node's registry or send
--     a message of Transport. Spawning has those that spawn; whether a particle starts, which is for
--     the WebAssembly engine to say, is an argument.
--     Starting has the arguments of a start function,
--     read by wasm-wave, the parameter `Wave`, and the end of its task; Names and Globals the names of
--     this node and of the cluster;
--     Receiving the messages as the interface has them; and Deploying the calls of
--     src/runtime/engine.rs that load and start components. Linked and Monitored have the life of a
--     link and of a monitor across nodes.
--   * Client: src/client.rs, over an exchange of one command for one response, an argument.
--   * App: src/app.rs, and `watch_root` of src/main.rs, which stops the node when its root dies.
--   * Cli: the arguments of src/main.rs. Main picks the command; Start has the flags of `start`, in
--     which the inner loop of `--spawn` is a specification that is still open. Boot has the
--     start-up. The reading of a node's id, the disk and the environment are arguments. Cli.Text is the suffix test of strings.
--   * Policy: src/policy.rs.
--   * Pid.Key: the text forms of src/pid.rs. The bytes and the hex of a node's identity are the
--     parameter `NodeIds`; a text is a list of character codes. The twenty digits that a decimal is
--     given are enough for every `u64`.
--   * Sdk: crates/plasmoid-sdk. Spec, Supervisor and Dynamic model the restart policies of
--     src/supervisor.rs in that crate; Driver and DynamicDriver the loops `run_supervisor!` and
--     `run_dynamic_supervisor!` of its src/supervise.rs, in which what the host answers is an
--     argument and what it is asked for is a list of effects.
--   * Prelude: tests, lists, finite maps and sets, and machine words, shared by all.
-- The proofs stand in the modules below each part, named for what they show; Tests modules run
-- the model on small inputs.
--
-- Integers are natural numbers, with the wrap-around of `u32` and `u64` counters written out. Maps
-- are association lists: the order in which a hash map is iterated is the order of the list.
--
-- Not modelled: QUIC connections, which are I/O; the WebAssembly engine, a library, and how a
-- component is compiled and started (src/runtime/engine.rs, src/runtime/component.rs); the glue of
-- src/host to logs and a key-value store; the scaffolding of projects (src/main.rs); macros that generate
-- bindings; and the example components.
pub mod Prelude
pub mod Pid
pub mod Message
pub mod Mailbox
pub mod Sdk
pub mod Registry
pub mod Global
pub mod Cluster
pub mod Signals
pub mod Transport
pub mod Protocol
pub mod Host
pub mod App
pub mod Cli
pub mod Policy
pub mod Client
