-- ===== src/Lib.antt =====
-- Verification of the telecom simulators of this repository: the user-plane fast path of the 5G
-- simulator, the control plane of the 4G simulator, the spectrum access of the CBRS
-- simulator and the call control of the IMS simulator. Paths are from the repository's root.
--
-- The fast path (5g-simulator/src/upf_fastpath), modules FastPath.*:
--   Ring            ring_buffer.h: SPSCRing. `push`, `pop`, `pop_burst`, `size`, `empty` as functions
--                   on a record of the two cursors and the cells; `size_t` wraps at 2 ^ 64.
--   Ring.Spsc       the same file under concurrency: the atomic loads and stores of push and of
--                   pop_burst as steps of two threads, under any schedule.
--   Ring.Window, Ring.Refine, Ring.Burst   the ring as a queue, `Holds`.
--   Packet, Stats   packet.h, stats.h: the packet's fields, the counters and latency samples.
--   Rules           pfcp_rules.h: RuleTable and build_demo_rules; its hash maps are association lists.
--   Pool            mbuf_pool.h: MbufPool; a pointer to a buffer is its index.
--   Path            dpdk_path.h: rx_enqueue, the poll loop and process_burst. The clock is an
--                   argument. The loop that runs while the path is up is the event `polls`; the
--                   loop that drains the ring after stop takes fuel, and 4096 rounds are enough.
--
-- The 4G control plane (4g-simulator/src), modules Lte.*:
--   Tag, MessageType   the numbers of common/tlv.h and common/message_types.h.
--   Tlv             common/tlv.h: MessageWriter as a list of calls, `Ie`, and the bytes they append;
--                   MessageReader as the bytes that are left. A read past the end, which C++ leaves
--                   undefined, is the outcome `out_of_bounds`. Every node parses with the same loop
--                   over a switch; the switch is a list of cases. The loop takes fuel, and one more
--                   than there are bytes is enough. recv_frame is recvFrame of
--                   common/socket_wrapper.h on the bytes of the stream.
--   Profiles        common/subscriber_profile.h: ProfileRegistry.
--   Pcrf, Pgw, Sgw, Hss, Enb   pcrf/pcrf_node.cpp, pgw/pgw_node.cpp, sgw/sgw_node.cpp,
--                   hss/hss_node.cpp, enb/enb_node.cpp: the handlers, each from a state and a payload
--                   to the state after it and what is sent. A node that waits for another's answer
--                   takes that node as an argument `ask`, from a state and a message to an answer or
--                   a timeout; the theorems put the real nodes there.
--   Mme             mme/ue_context.h, mme/ue_context_store.h, mme/mme_node.cpp: the sharded store and
--                   the handlers of attach, tracking area update and handover. handleInitialUEMsg
--                   waits in its middle for the HSS, so that it is two functions.
--   Session         the nodes together: policy, session set-up, authentication, registration.
--
-- Spectrum access (cbrs-domain-proxy/src), modules Cbrs.*:
--   Wire            common/wire.h: the writer `obj` and the reader `get` of flat JSON, and the frames of
--                   common/socket_wrapper.h; `deliver` is a text through a frame.
--   Doubles         what the code relies on of `double`: std::stod, `flt`, the conversion to int and the
--                   comparison, a parameter of everything that uses it. Its laws say that a printed
--                   number is short, not empty and has no quote, comma or brace.
--   SpectrumState, Registry   proxy/spectrum_state.h, proxy/cbsd_registry.h.
--   Sas             sas/sas_stub.cpp: the answer to each request. std::stod may throw, which ends the
--                   stub. `serve` is a request of the proxy to it over their stream of bytes: a frame
--                   that is refused for its length leaves its payload there, and a thread that waits
--                   for more bytes waits for ever. answer_to is the stub when nothing is ever left;
--                   while the responses fit into frames the two do the same, and a request of up to
--                   32000 bytes has a response that fits.
--   Proxy           proxy/domain_proxy.cpp: a round of a CBSD's thread, with the SAS as an argument.
--   Agent           cbsd/cbsd_agent.cpp: what a command sends, and what its answer does.
--   System          an agent, its thread at the proxy, the stub and other clients. A command of the
--                   agent is a step with the whole exchange in it, as is a message of another client;
--                   two rounds of different threads do not interleave within a round. The registry
--                   is read and written under its own lock at each call, and while the stub is in
--                   step no thread writes the entry of another, so that a round sees the entry of its CBSD only.
--                   What is behind the proxy is an argument, SasSide: the stub on its stream, or the
--                   stub that is always in step, whose runs are carried over in Simulation and
--                   Agrees.
--
-- IMS (ims-simulator/src), modules Ims.*:
--   Sip             ims/sip.h: message types and tags. The nodes write and read with common/tlv.h, which
--                   is the file of the 4G simulator but for tags, so that Lte.Tlv models it.
--   Fields          what the nodes' loops over a message set.
--   Hss, Scscf, Pcscf   ims/ims_hss.cpp, ims/scscf_node.cpp with ims/mtas_state.h, ims/pcscf_node.cpp:
--                   the handlers, from a state and a payload to the state after it and the payloads
--                   that are sent. A session of a UE is a number.
--   Ue              ue_sim.cpp: the messages that a UE sends.
--   Core            `round`: a UE's message through P-CSCF, S-CSCF, HSS and back, with no other message in
--                   between. The P-CSCF has a thread for the UE and one for the S-CSCF: an argument
--                   counts the replies handled before the UE's thread is done with the message. Payloads
--                   go over the connections as they are, without their frames.
--
-- Numbers are natural numbers with the wrap-around of their C++ types written out; a text is the
-- list of its bytes. Not modelled: sockets and threads (the order of steps is an argument where it
-- matters), logging, tracing and packet captures, the SIP text and the tools of the IMS
-- simulator, the 5G control plane
-- and the Go services. The random generator of the HSS and the chaos mode are arguments.
--
-- Module Prelude passes on the library's names and has the lemmas on lists, maps and masks that the
-- parts share; Prelude.Texts has texts and maps keyed by them, Prelude.Decimal std::to_string. The
-- witnesses stand in FastPath.Tests, Lte.Tests, Cbrs.Tests and Ims.Tests.
pub mod Cbrs
pub mod FastPath
pub mod Ims
pub mod Lte
pub mod Prelude
