-- ===== src/Lib.antt =====
-- Verification of the Python layer of UCX-Py, the asyncio interface of UCX: ucp/core.py with
-- ucp/comm.py, ucp/continuous_ucx_progress.py, ucp/endpoint_reuse.py, ucp/exceptions.py and
-- `hash64bits` of ucp/utils.py, and the parts of the Cython extension ucp/_libs on which they stand.
--
-- The program. An application context holds a UCX worker and makes endpoints (core.py). Two peers
-- exchange tags over a stream when they connect, then send and receive messages by tag. Each call of
-- UCX becomes an asyncio future (comm.py), which a progress task resolves
-- (continuous_ucx_progress.py). An endpoint that is closed tells its peer by a control message how
-- many messages it has sent; the peer closes itself after it has received so many. A layer above
-- shares endpoints by reference counts (endpoint_reuse.py).
--
-- The files.
--   Prelude, Action: shared names, lists and dicts over native numbers, and a monad of state and
--     exceptions, in which methods are written.
--   Exceptions: ucp/exceptions.py, and results as values.
--   Struct, Hash: `struct.pack` and `struct.unpack` for "Q", and `hash64bits`.
--   Libs/Ucs, Libs/UcxEndpoint: `assert_ucs_status` of ucp/_libs/utils.pyx; UCXEndpoint of
--     ucp/_libs/ucx_endpoint.pyx, `close` and `initialized` of UCXObject.
--   Libs/Arr: class Array of ucp/_libs/arr.pyx; Contiguous says what its tests amount to,
--     Typestr has the table of item sizes.
--   Libs/ActiveMessage: the tables of `_push_result` (ucp/_libs/ucx_worker_cb.pyx) and `am_recv_nb`
--     (ucp/_libs/transfer_am.pyx); Order compares them with two queues.
--   Libs/Request, Libs/Transfer: UCXRequest and `_handle_status` of ucp/_libs/ucx_request.pyx, and the
--     callbacks and conditions of ucp/_libs/transfer_common.pyx, transfer_tag.pyx and
--     transfer_stream.pyx. Answers runs a transfer from the call to the future of ucp/comm.py;
--     Posting has the four transfer functions with what they hand to UCX.
--   Libs/UcxObject: the tree of UCXObject (ucp/_libs/ucx_object.pyx) and what `close` does to the
--     children; Closing.
--   Libs/Inflight: the sets of messages in flight of ucp/_libs/ucx_endpoint.pyx and
--     `cancel_inflight_messages` of ucp/_libs/ucx_worker.pyx; Cancel.
--   Libs/EndpointMaking, Libs/UcxListener: the constructors of UCXEndpoint and of UCXListener
--     (ucx_listener.pyx), with the memory that they allocate.
--   Libs/UcxWorker, Libs/UcxAddress, Libs/Rkey: the finalizers of ucp/_libs/ucx_worker.pyx,
--     ucx_address.pyx and ucx_rkey.pyx, with what they give back; UcxWorker/Blocking has
--     the blocking mode UcxWorker/Making `UCXWorker.__init__`,
--     and UcxWorker/Polling `progress`, `tag_probe`, `fence` and `flush`.
--   Libs/AmSend, Libs/AmReceive: `am_send_nbx` of ucp/_libs/transfer_am.pyx and the two callbacks of
--     ucp/_libs/ucx_worker_cb.pyx over the tables of Libs/ActiveMessage; Once runs a message from its
--     arrival to its completion.
--   Libs/Rma, Libs/Ucxio: RemoteMemory of ucp/_libs/ucx_rma.pyx and UCXIO of ucp/_libs/ucxio.pyx over
--     the interface `RemoteStore`, whose laws Rma/Memory states and a memory of bytes fills; Bounds,
--     Flush and RoundTrip; Rma/Posting has what is handed to UCX with a request, and what memory handles and
--     remote keys are made with.
--   Libs/Config: the options of ucp/_libs/utils.pyx and `UCXContext.__init__` of
--     ucp/_libs/ucx_context.pyx; Dict and Context, and Features for the mask of features.
--   Libs/Utils: the temporary files, `get_current_options`, the buffers and the versions of
--     ucp/_libs/utils.pyx, and `info` of a worker; Current.
--   Libs/Testing: the calls of ucp/_libs/utils_test.py that wait for their end.
--   Libs/RemoteKey: PackedRemoteKey of ucp/_libs/packed_remote_key.pyx and the making and the end of
--     UCXMemoryHandle of ucx_memory_handle.pyx.
--   Libs/Topology: ucp/_libs/src/topological_distance.c and TopologicalDistance of
--     ucp/_libs/topological_distance.pyx over paths of hwloc objects; Ancestor, Bridges and Null are
--     about the walk to a common ancestor, Nearest about one distance, Sorted and Unknown about the list.
--   Comm: `_cb_func`, `_am_cb_func` and `_call_ucx_api` of ucp/comm.py, futures as values; Calls
--     has `tag_send` and its kin over Libs/Transfer and the active messages; Canceled closes an
--     endpoint under a receive.
--   Progress: the tasks of ucp/continuous_ucx_progress.py as lists of acts over their rounds;
--     Life is about who refers to a task.
--   Core/CtrlMsg, Core/Endpoint with its children Close and Ctrl: classes CtrlMsg and Endpoint of
--     ucp/core.py. A coroutine is cut at its awaits: `send_start` runs `send` to its await and
--     `send_end` goes on; `CtrlMsg.setup_ctrl_recv` posts the receive whose outcome
--     `handle_ctrl_msg` takes. Core/Endpoint/Events has all orders in which the pieces can run as the
--     relation `Reach`; Invariant, Counts, Shutdown, Closing, Awaits and Refusal prove from there.
--   Core/Pair: two connected endpoints, the messages in flight and the shutdown message; Steps,
--     Lossless and Late.
--   Core/PeerInfo: `exchange_peer_info` and the tags that `_listener_handler_coroutine` and
--     `create_endpoint` make; Exchange has both sides over two streams, Agree their tags.
--   Core/Context: `_get_ctx`, `init`, `reset` and the functions on the context; Lifecycle and
--     Precedence.
--   Core/Listener: class Listener, `_listener_handler_coroutine` and `recv` on a worker.
--   Core/Objects: `send_obj` and `recv_obj` with the bytes of their messages.
--   Reuse: ucp/endpoint_reuse.py; Match, Counts and Closing. Reuse/Virtual has `send` and `recv` of the
--     virtual endpoints over one connection, and Channels its queues.
--   Package: the environment variables that ucp/__init__.py sets.
--   Network, Address: how the workers of `run_on_local_network` connect, `get_address` and
--     `get_closest_net_devices` of ucp/utils.py.
--   Benchmarks/Merge: the join of benchmarks/cudf-merge.py over the interface `Cudf`, whose laws
--     Laws states; Frames, Sums and Join lead to the join, and Match is about the tables of Chunks;
--     Barrier has the barrier.
--   Benchmarks/SendRecv, Benchmarks/Roundtrip: the counting of operations in
--     benchmarks/send-recv-core.py (Client and Server), and the loops of benchmarks/send-recv.py.
--
-- Numbers. Python's integers are natural numbers, where the program has no negative ones, and `ℤ` for
-- the reference counts. What goes on the wire is bounded by `IsU64`; Py_ssize_t is a bit pattern of 64
-- bits. Loops are recursions on the list that they go through, and where the program waits for others, the
-- list of rounds or events is given; the walk of Libs/Topology runs on fuel, the sum of the lengths of
-- both paths, which Ancestor shows to be enough, and `progress` of a worker on a number of calls of UCX.
--
-- Parameters. What lies outside is an argument: sha1 with repr (`Digest`, of which only hexadecimal
-- digits are assumed), the random seed, the environment and the event loop (`World`), how UCX closes a
-- handle (`ucp_ep_close_nb`), the outcomes of awaited futures, the memory that puts and gets reach,
-- and how UCX answers each transfer (`Course`): at once, with a refusal, or by a completion before or
-- after its function returns. So are C's qsort, cuDF and pickle with their laws, the topology that
-- hwloc has loaded, and the matching of tags and the probing of messages by UCX with what they promise.
--
-- Not modelled: logging; the calls of UCX, hwloc and NVML themselves and most parameters that are filled
-- in for UCX; the socket addresses of a listener; the processes of ucp/utils.py; the arrays, timing and
-- options of the benchmarks, the examples and packaging.
pub mod Prelude
pub mod Exceptions
pub mod Action
pub mod Struct
pub mod Hash
pub mod Libs
pub mod Comm
pub mod Progress
pub mod Core
pub mod Reuse
pub mod Network
pub mod Package
pub mod Address
pub mod Benchmarks
