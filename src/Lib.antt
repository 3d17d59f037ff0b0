-- ===== src/Lib.antt =====
-- The OmniXtend (TileLink over Ethernet) endpoint and its network simulator.
--
-- An endpoint (tloe_endpoint.c) is a thread that goes round: it takes a TileLink message from a
-- queue of responses or of requests, lets `TX` (tloe_transmitter.c) put it into a frame and send
-- it, lets `RX` (tloe_receiver.c) serve one packet, and hands one message that came in to a handler
-- (tilelink_handler.c). Frames that wait for an acknowledgement are kept in the retransmission
-- buffer (retransmission.c); the credits (flowcontrol.c) bound what may be sent on each channel.
-- Packets go through the fabric (tloe_fabric.c), which is Ethernet (tloe_ether.c) or a pair of
-- message queues (tloe_mq.c); with the latter the simulator (tloe_ns.c, tloe_ns_thread.c) stands
-- between two endpoints, relays their packets and drops some when told to.
--
--   Base            shared names, lists, bytes, results: `Outcome` is `ok`, or `fail` with the way
--                   the C program stops or leaves what C defines
--   Fifo            the abstract queue
--   SeqNum          tloe_seq_mgr.c: the 22-bit sequence numbers
--   Memory          words as bytes, and memcpy with the bounds of its block
--   TlMsg           tilelink_msg.h, tilelink_msg.c: headers and sizes of messages
--   Frame           tloe_frame.h, tloe_frame.c: frames, masks and packets
--   CircularQueue   util/circular_queue.h, util/circular_queue.c
--   FlowControl     flowcontrol.h, flowcontrol.c
--   Timeout         timeout.h, timeout.c
--   Endpoint        tloe_endpoint.h: the state; tloe_endpoint_init; the part of tloe_seq_mgr.c that
--                   reads or writes it; tloe_fabric_send of tloe_fabric.c
--   Retransmission  retransmission.h, retransmission.c
--   Receiver        tloe_receiver.h, tloe_receiver.c
--   Transmitter     tloe_transmitter.c; Transmitter.Prepare and Send follow one frame, Request all
--                   that may come of a message, and Turn the whole of `TX`
--   Handler         tilelink_handler.c
--   Loop            tloe_endpoint.c: the thread's loop and the messages of the commands
--   Connection      tloe_connection.h, tloe_connection.c; Connection.Handshake and Ended put the
--                   master and the slave together
--   Link            a sender, a receiver and media that lose packets: a step relation over the
--                   functions of Transmitter and Receiver, and its invariant
--   Commands        tloe_endpoint.c: handle_user_input and the loop of main
--   Life            tloe_endpoint.c: the thread's rounds and the commands, in any order
--   Teardown        tloe_endpoint.c: tloe_endpoint_close
--   Arguments       tloe_endpoint.c: parse_arguments
--   Fabric          tloe_fabric.h, tloe_fabric.c
--   Ether           tloe_ether.h, tloe_ether.c
--   Mq              tloe_mq.h, tloe_mq.c
--   Simulator       tloe_ns_thread.c: the relay; Ports: its queues; Console: tloe_ns.c
--   Tests           concrete runs
--
-- Definitions have the names of the C functions in lower case. A pointer to an endpoint, a queue or
-- a frame that a function writes through is an argument and a part of the result. A function that
-- can exit, read a null pointer or leave an array has its result in `Outcome`.
--
-- Numbers are natural numbers; unsigned arithmetic is reduced modulo 2 ^ 32 and a store to a bit-
-- field modulo its width. Bit-fields lie as GCC puts them on a little-endian machine. A shift of a
-- 64-bit one by -1 gives what x86-64 gives, 2 ^ 63, which is 0 as an int. malloc succeeds. The
-- counters for statistics do not wrap. The build is the default one of the Makefile, without
-- TEST_NORMAL_FRAME_DROP and TEST_TIMEOUT_DROP; WDE is an argument where it matters.
--
-- Loops: one over a queue has a round for each slot and one for the last test, which the indices
-- cannot outrun in a valid queue; that of `slide_window` has a round for each slot, of which one
-- is always free; that over a mask has the mask's 64 bits; those that wait for the peer run over
-- the rounds that they are given and tell whether they have ended.
--
-- The link of Link is one-way: the sender's frames carry one message of at most 40 bytes each, and
-- the receiver acknowledges with frames that carry nothing else. Each step is a call of the code
-- on one end or a loss; what else the ends do is a step that leaves the window, or what was taken.
-- The receiver's queues have room when a packet comes.
--
-- Calls of the system are parameters: mqueue.h is a record of operations, of which a theorem names
-- what it needs (Mq.Names: when an open succeeds, as mq_open(3) says); sockets, getopt, fgets,
-- sscanf and the clock are answered by arguments. A loop that waits for sendto, for input or for a
-- queue to be flushed runs over the answers, or the fuel, given.
--
-- The modules called WellFormed follow one invariant of an endpoint through all of its parts, from
-- Endpoint.WellFormed to Life. A theorem there is about a run that returns.
--
-- Not modelled: what is printed, locks (no operation of the queues takes one), the threads'
-- interleaving inside a function (a command that finds its queue full is left waiting), and the
-- freeing of memory but that of tloe_endpoint_close. tloe_nsm.c is compiled in test builds only,
-- and those do not compile: its functions use fields that the endpoint does not have, or are
-- defined twice.
pub mod Base
pub mod SeqNum
pub mod Memory
pub mod TlMsg
pub mod Frame
pub mod FlowControl
pub mod Timeout
pub mod Endpoint
pub mod Retransmission
pub mod Receiver
pub mod Transmitter
pub mod Handler
pub mod Loop
pub mod Connection
pub mod Link
pub mod Arguments
pub mod Ether
pub mod Mq
pub mod Commands
pub mod Life
pub mod Teardown
pub mod Fabric
pub mod Simulator
pub mod Tests
pub mod Fifo
pub mod CircularQueue
