-- ===== src/Lib.antt =====
-- The replication protocols of this repository: what they send, store and accept.
--
-- The parts of the program and their files:
--   * Batch, from cr/msg.h: `msg_manager`, the buffer that gathers messages. The copies in rf/,
--     bft-cr/, trusted-log/ and bft-pb/ differ in the number and the size of the messages, which are
--     parameters.
--   * Chain, from cr/: chain replication. Chain.Msg has the messages as bytes and `parse_indexes`,
--     Chain.Node the `app_context`, the two request handlers and what they send, Chain.Run the event
--     loop and the functions of the three roles. Chain.Parse, Chain.Quiet, Chain.Sending, Chain.Head,
--     Chain.Relay and Chain.Pipeline prove.
--   * Attest, from crypto/hmac_lib.h, crypto/signed_msg.h (`HMAC_N`) and tnic_mock_api/api.h:
--     signing and verifying. Attest.Signed and Attest.Verified prove.
--   * BftChain, from bft-cr/: chain replication where every node checks the work of those before it.
--     BftChain.Proto has the checks of proto.h and the messages of msg.h, BftChain.Node and
--     BftChain.Run the node of main.cc. BftChain.Checks, BftChain.Middle and BftChain.Tail prove.
--   * A2m, from a2m-single-node/log.h: `trusted_log`, the attested append-only log. A2m.Layout relates
--     the block of memory to a list of entries; A2m.Append, A2m.Chaining and A2m.Lookup prove.
--   * Rf, from rf/: a leader that proposes batches to two followers and commits what both acknowledge.
--     Rf.Acks counts acknowledgements (`protocol_metadata`), Rf.Node has the handlers and continuations
--     of main.cc and the messages of msg.h, Rf.Run the runs of the leader and of a follower. Rf.Quorum,
--     Rf.Commits and Rf.Follower prove.
--   * Tlog, from trusted-log/: a leader and followers that keep an auditable log. Tlog.Format has the
--     messages of msg_format.h, Tlog.Log the `trusted_log` of log.h, Tlog.Metadata `protocol_metadata`
--     with `log`, `validate_log_entry` and `log_audit`, Tlog.Node the handlers and continuations and
--     Tlog.Run the runs of main.cc. Memory that the source leaves uninitialised is an argument. An
--     entry of the log has 276 bytes and no padding. Tlog.Layout relates the block of memory to a
--     list of entries; Tlog.Roundtrip, Tlog.Chain, Tlog.Tamper, Tlog.Audit, Tlog.Accepts, Tlog.Packet,
--     Tlog.Reply and Tlog.Exchange prove.
--   * Pb, from bft-pb/: a leader and followers that validate every request. Pb.Format has the
--     acknowledgement of msg_format.h, Pb.Node the handler, the continuation and the sending of
--     main.cc, Pb.Run the runs. The requests and the checking of codes, which the two programs share
--     as copies, are those of Tlog. Pb.Overlap, Pb.InStep, Pb.Reply, Pb.Follower, Pb.Unsigned,
--     Pb.Requests, Pb.Leader and Pb.Exchange prove.
--   * Alc, from alc/: three nodes that broadcast batches in rounds and commit a round that all have
--     received. Alc.Rounds has the `protocol_metadata` of app_context.h, Alc.Node the batcher of msg.h,
--     the handlers and continuations and the sending of main.cc and app_context.h, Alc.Run the runs.
--     Alc.Lookup, Alc.Commit, Alc.Completion, Alc.Quorum, Alc.Filing, Alc.Steps, Alc.Once,
--     Alc.Batching, Alc.Broadcasting, Alc.Sending and Alc.Flash prove. What is not copied into a request is an argument.
--   * Net, from network_bench/authenticators/: what a node exchanges with a trusted service. Net.Socket
--     has the framing and the socket functions of shared.h and shared.cpp, Net.Auth the authenticators
--     of authenticator.h and apis.h. The answers of `send`, `recv` and `write` are lists, one answer for
--     each call, over which the loops recurse. Net.Framing, Net.Journal, Net.Exchange and Net.Served
--     prove.
--   * Rpc and Outcome are shared: what a node hands to eRPC, and how a run of code ends.
--   * Prelude has the library's names that all files use, memory as lists of bytes, the words of the
--     machine in little-endian order, and lemmas.
-- Modules called Tests run the code at concrete inputs.
--
-- How code becomes definitions. A function that mutates the context takes it and returns the new one.
-- A read or write outside of a block of memory is `none` (or `fault`, where the code can also call
-- `exit`), so an equation with `some` or `ok` says too that the run has no such access. Integers are
-- natural numbers with the wrap-around written out; the `int` -1 is 2^32-1. What a node hands to eRPC
-- and reports as an error is appended to the context's `trace`. eRPC's event loop is an argument: a
-- list of rounds, each the calls that one run of the loop makes; a loop `for (;;)` runs for as long as
-- there are rounds. `commit_completed_rds` of alc/ has one more unit of fuel than rounds, which is enough
-- because every turn forgets one; every other loop is recursion on its bound. OpenSSL's
-- HMAC is the parameter `openssl`, from the key and the data to the code; theorems that need it assume
-- that a code has 32 bytes, as HMAC-SHA-256 has.
--
-- Not modelled: threads (each node is one sequence of calls), the allocation of eRPC's buffers,
-- progress lines and debug output, the delays that tnic_mock_api waits, the RSA variant, the command
-- line, the opening of sockets and files, the latency benchmark of network_bench and its copy net_sgx,
-- and digital_signatures. In the functions create_session, the loop that waits for the connection is
-- left out: what arrives before the session is in the map is not delivered. The lines that can_commit
-- of alc/app_context.h prints are not in the trace. last_state_cmt of trusted-log/main.cc, an int, is a
-- number without bound.
pub mod Prelude
pub mod Rpc
pub mod Batch
pub mod Chain
pub mod Outcome
pub mod Attest
pub mod BftChain
pub mod Rf
pub mod A2m
pub mod Tlog
pub mod Pb
pub mod Net
pub mod Alc
