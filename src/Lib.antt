-- ===== src/Lib.antt =====
-- Flume: a storage agent that serves the bytes of files over a framed TCP protocol, the client library
-- that reads them and moves them between the ranks of a simulated communicator, the wire protocol,
-- control channel and session lifecycle of its RoCE storage path, the plan of its NVMe transfers, and
-- the plans of its HCOMM payload copies.
--
-- How the parts interact. A client sends frames (src/protocol/framing.cc) to the storage agent
-- (src/agent/storage_agent.cc), which answers each with one frame. An OPEN request reaches the file
-- store (src/storage/posix_file.cc), which resolves the path below the root and opens the file; the
-- agent keeps the descriptor in a table under a fresh id. A READ request copies the descriptor, reads
-- the range and closes the copy. The client library (src/core/client.cc) sends these requests and copies
-- the bytes of the answers into buffers. Its simulated communicator lets the clients of one process
-- meet in maps: a send meets a receive, and the ranks of a collective meet each other; what waits there
-- holds buffers and requests, which cannot be released meanwhile. A storage block is read through the
-- agent, and a plan says how it reaches a buffer. The RoCE path (src/roce_storage/roce_storage.cc) has messages of its
-- own, of fixed size and least significant byte first, and a lifecycle for each session; commands and
-- completions travel over a TCP channel (src/roce_storage/control_channel.cc), and a backend
-- (src/roce_storage/storage_backend.cc) holds the bytes. The NVMe canary
-- (src/nvme_storage/nvme_hbm_canary.cc) plans one command on a namespace. The two ranks of a payload
-- copy (src/hcomm_payload/payload_backend.cc) plan their steps apart, from the same options.
--
-- Which file models what.
--   Prelude: Boolean tests on the native numbers, lists, bitwise or, and texts as lists of codes.
--   Protocol/Words: AppendU16, AppendU32, AppendU64, LoadU16, LoadU32, LoadU64.
--   Protocol/Reader: class Reader, a cursor with each read as a step that leaves it behind the bytes.
--   Protocol/Stream: WriteAll and ReadAll; send and recv are lists of answers.
--   Protocol/Frame: WriteFrame and ReadFrame. Protocol/FrameType: the types. Protocol/Checksum:
--   Checksum32.
--   Storage/System: what the code asks of std::filesystem and of the operating system, as a record of
--   functions that the models take as a parameter. Storage/PosixFile: PosixFileStore's Open, Read,
--   Close and ResolvePath. Storage/Samples: a system for the tests.
--   Agent/Table: the state of StorageAgent, and the end of Stop. Agent: the requests of
--   HandleClient, and SendStatus. Agent/Loop: the loop of HandleClient;
--   Agent/Account: what a session is said to be.
--   Roce/Words, Roce/Command, Roce/Endpoint, Roce/Session: the encoders and decoders of
--   roce_storage.cc. Roce/Lifecycle: class SessionLifecycle.
--   Roce/Control: the control channel. Roce/Memory: MemoryStorageBackend.
--   Nvme/Canary: BuildCanaryPlan.
--   Payload/Plan: BuildPairCopyPlan and BuildPairCopyPlanWithOptions; Payload/Plan/Machine
--   is an abstract machine of two plans: the calls of HCOMM behind the steps are not in the repository,
--   and the machine takes of them what tools/README.md says, that a transfer is submitted first and has
--   landed behind a fence. Payload/Resources: the other plans and the resource descriptor.
--   Client/Status, Client/BufferType, Client/DataType, Client/ReduceOp: the numbers of
--   include/flume/flume.h. Client/Sizes: DataTypeBytes, CheckedBytes, CheckedMul. Client/Memory: the
--   memory of the process as a function from addresses, with memcpy. Client/Buffer and Client/Io: the
--   handles flume_buffer and flume_io. Client/Table: std::map as a list of pairs.
--   Client/Open: flume_client_open, behind the socket that ConnectEndpoint makes, and flume_wait, whose
--   caller gives what the request has become in time; Client/Open/Remote has the agent at the other end.
--   Client/Files: flume_open, flume_close and flume_pread_async; Client/Files/Remote has the agent at
--   the other end.
--   Client/Sim: flume_attach_sim_comm and what the clients share. Client/Sim/P2p: the rounds of
--   SubmitSimP2p and SubmitSimHcommPayload; Client/Sim/P2p/Spec is what they promise, a market of
--   offers. Client/Sim/Calls: the calls in front of them,
--   and Client/Sim/Calls/Order how a client numbers them. Client/Sim/Reduce: SimReducePayloads.
--   Client/Sim/Collective: SubmitSimCollective, and Client/Sim/Collective/Calls the calls in front of
--   it. Client/Sim/Registration: symmetric memory. Client/Sim/Release: registering and releasing.
--   Client/Storage: blocks and target windows, Client/Storage/Prepare the reading of a block,
--   Client/Storage/Plan the plans and Client/Storage/Transfer and Client/Storage/Direct
--   their two ways.
-- The child modules of these hold the proofs, and the modules called Tests hold runs at concrete
-- values.
--
-- Bounds and loops. Numbers are natural numbers; wrap-around and casts are written out as a remainder.
-- WriteAll, ReadAll and Read recurse on the list of the system's answers: a list that ends before the
-- call has returned makes it wait, and theorems say how many answers are enough. HandleClient recurses
-- on a list of rounds, one for each frame. Submissions to the simulated communicator come one after the
-- other, as the lock of each map makes them; a theorem on a sequence of them holds for every
-- interleaving of their callers. Everything else recurses on its data. size_t has 64 bits.
--
-- Not modelled. Null pointers, which every function refuses; what a decoder leaves in its output when
-- it fails; sockets, threads and the listening loop of the agent; clients of the agent are served one
-- request after the other, since the table is used under its lock. The client
-- library is the build without HCCL: the branches on device buffers end where that build ends them,
-- and the texts of results are names. Of it, ConnectEndpoint,
-- the thread of the RoCE session and the payload traces are not modelled. What the reduction of
-- floats and doubles gives, and of integers where the result leaves a type of the source without a
-- defined value, is a parameter. The RA and verbs transports, the control proxy, the backend on a
-- file, the custom operators, the programs, the tests and the tools are not modelled.
pub mod Prelude
pub mod Protocol
pub mod Storage
pub mod Agent
pub mod Client
pub mod Roce
pub mod Nvme
pub mod Payload
