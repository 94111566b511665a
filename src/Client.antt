-- ===== src/Client.antt =====
-- The command line client: rsp-cli/include/rspcli and rsp-cli/src. `States` has the states of the
-- user interface, `Session` the connection, and the other files what holds of them. A message that
-- goes to the server stands for its frame; its serialization, and the length_error that a command
-- of more than 64 KiB would bring, are not part of the model.
pub mod RoomId
pub mod States
pub mod Session
pub mod Lifecycle
pub mod Transitions
pub mod Coherence
pub mod Writes
pub mod Requests
