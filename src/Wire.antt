-- ===== src/Wire.antt =====
-- Messages on the wire: rsp-libs/include/rsplib/message/helper.hpp, serializer.hpp and
-- conn_interpreter.hpp. A `char` is its byte pattern, a number below 256.
pub mod Helper
pub mod Serializer
pub mod Interpreter
mod Bits
pub mod RoundTrip
pub mod Framing
pub mod Stream
pub mod Reads
pub mod Messages
