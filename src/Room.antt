-- ===== src/Room.antt =====
-- The room server: room.hpp, room.cpp, room_manager.hpp and room_message_handler.hpp
-- (rsp-svr/room). A user id and a route are byte strings. The contents library is loaded at run
-- time: what the code calls of it is returned as an effect.
pub mod Instance
pub mod Manager
pub mod Handler
pub mod Links
pub mod Run
pub mod Serving
pub mod Found
pub mod Balance
pub mod Messages
