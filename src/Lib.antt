-- ===== src/Lib.antt =====
-- A model of the P2P live streaming system: an origin that cuts a growing WebM file into blocks
-- and sends them down a tree of peers, and peers that write the file again and pass blocks on.
--
-- The parts, and the files that model them:
-- - Prelude, Words: shared names; bytes behind a pointer (a `Buf` is a function from the offset to
--   the byte); the integer types of src/common/wrapper.h, with their wrap-around, on a
--   little-endian host.
-- - Wire: `struct BlockInfo` and `struct NodeStatus` (src/common/webm_parser.h, src/common/p2p.h)
--   and the functions that copy them to packets and back.
-- - Ebml: GetEBMLID, GetDataBytes, GetChank and the header of a cluster (src/common/webm_parser.c).
-- - Block: GetChankByBytes, AssignBlockInfoByPiece, AssignBlockInfoBySB, GetNextBlockByBytes, the
--   functions that initialise and shift blocks, and IsOldBlockSeq (src/common/webm_parser.c); the
--   inner loop of main (src/originsource/main.c) as far as it makes blocks.
-- - Checksum, Packet: CalSumEach16bit, CalIPChecksum, CalL4Checksum, PacketGenerate
--   (src/common/p2p.c) and the tests that the receive loop makes before it dispatches
--   (src/peer/main.c).
-- - Time: src/common/wrapper.c, the time functions.
-- - Store: AssembleBlock and all that it calls to write the file of a peer
--   (src/common/webm_parser.c). Store/Recording has the contract: a file is the part that is final
--   and the data of the last cluster; Store/Stream and Store/Finish have AssembleBlock against it.
--   Store/Seek is CalOffset.
-- - Peers: NODES_LIST and EXCEPT_LIST (src/common/p2p.c).
-- - Node: the protocol (src/common/p2p.c). Node has the state and SendPacket, Node/Slots the
--   functions on the slots of neighbours, Node/Send the packets sent, Node/Join, Node/Reconnect and
--   Node/Exchange the handlers of packets received. A handler gets the data behind the protocol
--   byte and reads statuses with Wire. Node/Machine is the node as a state machine of its handlers,
--   with the count of its children as the invariant. Node/Timer is one round of TimeProcess, with
--   CalPlayedBuffer. Node/Timer/Round is that round against the count of the children.
-- - Program: the node and the file together, with the variables that both use. Program/Cache is
--   SendCacheBlock and SendMulStream (src/common/p2p.c), Program/Receive one round of Receive of a
--   peer (src/peer/main.c) and of the origin (src/originsource/main.c), from the frame that read()
--   gave on. Program/Frame, Program/Deliver, Program/Accept and Program/Relay follow a block from
--   the sender's file to the peer's; Program/Caught, Program/Progress, Program/Gets and
--   Program/Returns say what the children get; Program/Dispatch, Program/Rounds and Program/Machine
--   follow the count of the children through the rounds.
-- - Origin: the part of main (src/originsource/main.c) that streams. Origin is
--   AnalyzeChankToWebMHeader and the last loop, Origin/Read the seeks, ReadBlock and the loop over
--   the blocks of a cluster, Origin/Cluster UpdateWebMHeaderFromWebM and UpdateClusterFromWebM
--   (src/common/webm_parser.c), Origin/Main these parts in the order of main. The modules below
--   them say what these do.
-- - Fault: what the C program does not come back from, as the error of a `Result`.
--
-- Threads. A peer runs Receive and TimeProcess, and the origin the streaming as well, in threads
-- of their own without locks. Program/Machine interleaves whole rounds of Receive and of
-- TimeProcess; within a round the other thread does not run.
--
-- Loops. GetChankByBytes runs on fuel, one more than the bytes that were asked for: each element
-- with a proper length field has two bytes at least, so the fuel is enough for these, and for an
-- element whose length wraps to 0 no fuel is. AnalyzeChankToWebMHeader runs on one more than the
-- bytes of its buffer, for the same reason. The
-- loops of UpdateWebMHeaderFromWebM and UpdateClusterFromWebM end only when the file grows; their
-- fuel bounds the rounds, `files k` is what the k-th fstat finds, and `none` is a loop that still
-- waits. The loops over the blocks of a cluster and over the clusters have a bound on their
-- rounds as well; Origin/Read/Returns and Origin/Main are about single rounds of them. All other
-- loops are recursive on a list or a count.
--
-- Memory. A read behind a pointer always has a value, so reads beyond a packet are not errors of
-- the model; writes into the send buffers, of a time code into the packet
-- buffer and of the header to WEBM_HEADER.data, and indices into arrays are checked and end in a
-- `Fault`. What uninitialised variables hold, the clock and rand() come from outside.
--
-- Not modelled: the UPnP client (src/common/upnp.c, a program of its own), interfaces, ARP
-- requests and sockets, signals and printing are input and output without logic of the streaming;
-- so is the start of both programs, which reads arguments and makes the threads. Races within a
-- round are not modelled either.
pub mod Prelude
pub mod Words
pub mod Wire
pub mod Ebml
pub mod Block
pub mod Checksum
pub mod Packet
pub mod Fault
pub mod Time
pub mod Store
pub mod Peers
pub mod Node
pub mod Program
pub mod Origin
