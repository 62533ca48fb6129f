-- ===== src/Lib.antt =====
-- The camera subsystem: a library that captures camera frames, lends their buffers to consumers and
-- passes frames and subscriptions between processes, with a recording server and a web gateway on top
-- of it. This development models its parts and states what makes each of them right.
--
-- Core (src/core, include/camera_subsystem/core). Core/BufferPool.antt is BufferPool: `initialize`,
-- `clear`, `acquire`, `release_internal` (ReleaseInternal), `mark_in_flight`, `cancel_in_flight`,
-- `mark_error`, `transition_state`, `get_stats`, `collect_leaks`. Core/BufferPool/BufferGuard.antt is
-- BufferGuard with its moves and its release; Core/BufferPool/Ownership.antt puts the pool and the
-- shared pointers to its guards into one state, with one step for each thing an owner can do. Under
-- them stand the pool's invariant (Stock, Setup, Lending, Slots), its statistics (Statistics,
-- Ownership/Counters) and the histories (Ownership/Exclusive, Ownership/Histories).
-- Core/FrameLease.antt is the two leases, which let go of a guard or call back to requeue a buffer;
-- Core/Types.antt, Core/CameraConfig.antt, Core/FrameHandle.antt and Core/FrameDescriptor.antt are the
-- files of these names.
--
-- Session (src/camera/camera_session_manager.cpp). Session.antt is CameraSessionManager: the core
-- publisher, one record for each camera endpoint with members and role counters, `subscribe` and
-- `unsubscribe`, which call the owner's callbacks to start and stop a stream. What a start callback
-- does (it returns a Boolean or throws) is an argument, and each call is recorded. Session/Accounts,
-- Consistency, Membership, Callbacks and Histories are its proofs.
--
-- Broker (src/broker/frame_broker.cpp). Broker.antt is FrameBroker: weak subscribers, publication with
-- a bounded priority queue, and the turns of the workers. The queue is a list with the best task first.
-- Broker/Order.antt, Broker/Bounds.antt and Broker/Subscribers.antt are its proofs.
--
-- Ipc (src/ipc, include/camera_subsystem/ipc). Ipc/Contract.antt is camera_channel_contract.h.
-- Ipc/Release.antt is the release messages and CameraReleaseTracker of camera_data_plane_v2.cpp, with
-- proofs in Ipc/Release. Ipc/DataPlane.antt is the frame descriptors of the same file and how they
-- travel with file descriptors, and Ipc/Descriptors.antt relates their check to that of the frame
-- descriptors of the core; Ipc/Transfer.antt is the loops that read and write a whole message.
-- Ipc/Server.antt is CameraReleaseServer on top of the tracker, with a step for each turn of its loops;
-- Ipc/Server/Conservation.antt relates it to the tracker's histories, and Ipc/Server/Closing.antt is about
-- its descriptors.
-- Ipc/Control.antt is what CameraControlServer does with the requests of a connection, on top of the
-- session manager, with proofs in Ipc/Control; Ipc/Client.antt is CameraControlClient.
--
-- Camera (src/camera/camera_source.cpp). Camera/Device.antt is the state of CameraSource with the log of
-- the driver calls that succeeded, Camera/Setup.antt is `initialize_source` (Initialize), `start`, `stop`
-- and what they call, Camera/Capture.antt is a dequeued buffer on the copying path, which uses the buffer
-- pool, and on the DMA-BUF path, which makes a packet with a lease, and the callback of that lease;
-- Camera/Formats.antt is the pixel formats. Camera/Queue, Leases, Startup, Filling, Starvation and Packets
-- are proofs. What a device answers is an argument; the queue of the driver is read off the log as V4L2
-- documents it: VIDIOC_QBUF adds a buffer, VIDIOC_DQBUF takes one out, VIDIOC_REQBUFS and
-- VIDIOC_STREAMOFF empty it.
--
-- Utils (src/utils/signal_handler.cpp). Utils/SignalHandler.antt is SignalHandler.
--
-- Codec (extensions/codec_server/src). Codec/Writer.antt is RecordingFileWriter, Codec/Session.antt is
-- RecordingSessionManager on top of it, Codec/Protocol.antt is codec_control_protocol.cpp, and
-- Codec/Control.antt is the client loop of codec_control_server.cpp, which joins them. Codec/Names,
-- Codec/Session/Consistency and Codec/Control/Safety are proofs.
--
-- Web (extensions/web_preview/gateway/src). Web/Frames.antt, Web/Paths.antt and Web/Commands.antt are the
-- WebSocket frames, the paths of requests, and the headers, the record command and the status text of
-- web_server.cpp; Web/Client.antt is the loop that reads and answers a browser, with a turn for each
-- byte as its fuel, and Web/Turns.antt shows that this is enough; Web/Masks.antt is the frames as RFC
-- 6455 has browsers mask them, and Web/Answers.antt what a browser is answered. Web/Pipeline.antt is
-- frame_pipeline.cpp.
--
-- Tests holds small runs, at which the theorems are applied.
--
-- How the code is read. A public method that holds its lock for its whole body is one step, and a
-- history is any sequence of steps, so every interleaving of threads at the locks is a history. A
-- hash map is an association list whose keys are unique (Prelude/Maps.antt), a set is a list without
-- repetition, a uint32_t or uint64_t that is counted up wraps (Core/Words.antt), and a size_t that
-- counts elements in memory does not. The `int` of the conflict loop of Open must not overflow,
-- which C++ leaves undefined: beyond 2^31 - 1 `free_from` gives no path. PublishFrame takes its lock
-- of the subscribers and then its lock of the queue; a history has it as one step or as its two
-- halves. Fixed char arrays are lists of bytes with their NUL, and `reserved` fields are left out. A
-- session manager's role counters are 32 bits wide, so the theorems on histories ask for fewer than
-- 2^32 requests, and those on the pool for fewer than 2^32 buffers. Two definitions run on fuel: the
-- search for a free file name (`free_from`), for which as many rounds as there are paths, and one
-- more, are shown to be enough below that bound, and the nesting of signal callbacks
-- (`handle_signal`), where the bound is the stack. Every other loop goes over a list or counts down.
-- The read and write loops go over the list of the kernel's answers; where it ends, a call has not
-- returned. `std::sort` leaves the order of subscribers with one priority open; the model keeps the
-- order they have.
--
-- Not modelled: the bytes of pictures and files, the sockets and threads of the servers beyond the
-- turns of their loops, logging, epoll and thread wrappers (src/platform), the
-- encoder and the decoder of the codec server, which call a vendor library, with its subscriber and
-- its configuration, the rest of the web server, the examples, and third_party.
pub mod Prelude
pub mod Broker
pub mod Camera
pub mod Codec
pub mod Core
pub mod Ipc
pub mod Session
pub mod Utils
pub mod Web
pub mod Tests
