-- ===== src/Lib.antt =====
-- The core of rsp, a server for chat rooms: clients hold TCP connections to the User server, which
-- forwards their requests over a message broker to the Room server.
--
-- Which file models which part:
--   Base           shared tests, lists, keys and `std::map` as a sorted association list
--   Wire           rsp-libs/include/rsplib/message/helper.hpp, serializer.hpp, conn_interpreter.hpp
--   PendingRequests  rsp-libs/include/rsplib/message/pending_requests.hpp
--   QueuedRequests   rsp-libs/include/rsplib/message/queued_requests.hpp
--   JobScheduler   rsp-libs/include/rsplib/job/job_scheduler.hpp
--   TcpConnection  rsp-libs/include/rsplib/server/tcp_connection.hpp
--   Room           rsp-svr/room: room.hpp, room.cpp, room_manager.hpp, room_message_handler.hpp
--   RoomJobs       rsp-svr/user: job_create_room.hpp, job_join_room.hpp, job_leave_room.hpp
--   SessionManager rsp-svr/user: session_manager.hpp, job_login.hpp
--   TcpServer      rsp-libs: tcp_server.hpp, rsp-svr/user: acceptor.hpp, main.cpp
--   Logger         rsp-libs: logger/streamable_logger.hpp and .cpp, flag.hpp, level.hpp, color.hpp
--   EndToEnd       the way of a request from rsp-cli: state.hpp to the session of rsp-svr/user
--   RoomServer     rsp-svr/room: intranet/message_dispatcher.hpp and its use in user_channel.hpp, and a
--                  request on its way from room_channel.hpp and back
--   Heartbeats     rsp-svr/user: session.hpp, send_heartbeats
--   SessionStrand  rsp-svr/user: session.hpp, the posted jobs and the lost connection
--   MessageType    proto/common/message_type.proto
--   UserChannel    rsp-svr/room: intranet/user_channel.hpp
--   RoomChannel    rsp-svr/user: intranet/room_channel.hpp
--   Dispatcher     rsp-libs: message_dispatcher.hpp, and the message_dispatcher.hpp files of
--                  rsp-svr/user
--   Broker         rsp-libs/src/broker/routed_channel.cpp, event_channel.cpp
--   Contents       rsp-svr/room_contents/src/contents.cpp
--   Client         rsp-cli: client_session.cpp and the states in include/rspcli/state
--   SessionJobs    rsp-svr/user: session.cpp and the jobs that are done when they have run
--   Examples       the theorems at concrete inputs
--
-- How they interact: a TcpConnection hands each chunk of bytes to the interpreter of Wire, which
-- dispatches frames to the jobs of the session, run one at a time by JobScheduler. A job sends a
-- request to the Room server and keeps it in PendingRequests; the Room server admits it through
-- QueuedRequests and runs it as a task of a room's strand (Room.Handler). RoomChannel is the User
-- server's end of the broker and UserChannel the Room server's, over the channels of Broker; a frame
-- that arrives at either end goes through Dispatcher. A room calls its Contents, which call the room.
-- Client is the other end of the connection, with the same interpreter; EndToEnd joins the two ends.
-- TcpServer makes the connections and tells the acceptor of them, which keeps the SessionManager.
--
-- Conventions: the state of a class is a record, an operation a function that keeps its name. What
-- an operation makes happen outside (handlers that are called, notifications, writes, calls of the
-- contents) is a list that it returns, in order. A strand runs its tasks one after the other, so a
-- task is a function; a property of interleavings speaks of any list of events. Times are natural
-- numbers, a handler or a job is a value of an abstract type, a shared pointer is an address in a
-- store. A `char` is its byte pattern.
--
-- Bounds and fuel: the interpreter's loop takes one round of fuel for each byte and one more, which
-- is enough since a complete frame has at least 12 bytes. The strand of a session (SessionJobs) takes
-- one for each job that is posted and each logout among them. The counter of pending bytes is a 64-bit
-- integer whose subtraction wraps around; `mget_be` keeps the width of its type.
--
-- Not modelled: locks, threads, ZeroMQ and asio themselves, the loading of the contents library, the
-- generated protobuf classes (parameters, `Protobuf`, `Requests` and `Fields` with `Writes`), and the
-- manipulators that the logger passes on. A factory of contents that gives none or throws, and an
-- exception of a socket that ends a round of Broker.Channels, are left out.
pub mod Base
pub mod Wire
pub mod MessageType
pub mod PendingRequests
pub mod QueuedRequests
pub mod JobScheduler
pub mod TcpConnection
pub mod Room
pub mod Client
pub mod Contents
pub mod Broker
pub mod Dispatcher
pub mod RoomChannel
pub mod UserChannel
pub mod RoomJobs
pub mod EndToEnd
pub mod Logger
pub mod Heartbeats
pub mod RoomServer
pub mod SessionStrand
pub mod SessionManager
pub mod TcpServer
pub mod SessionJobs
pub mod Examples
