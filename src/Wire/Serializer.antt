-- ===== src/Wire/Serializer.antt =====
-- serializer.hpp: a frame is CONTENT_LEN (8 bytes), TYPE (4 bytes) and the payload.
use rsp.Base.{
  ℕ, ◌+◌, ◌-◌, ◌*◌, ◌≡◌, Option, none, some, [], ◌++◌, Bytes, ltb, if◌then◌else◌, length, take,
  drop,
}
use rsp.Wire.Helper.{mset_be, mget_be}

-- What the code relies on of a protobuf message type: its generated class is not in the source.
pub record Protobuf (Message : Type 0) : Type 0 where
  pub byte_size_long : Message → ℕ
  pub serialize_as_string : Message → Bytes
  pub parse_from_istream : Bytes → Option Message
  pub serialize_size : (m : Message) → length (serialize_as_string m) ≡ byte_size_long m
  pub parse_serialize : (m : Message) → parse_from_istream (serialize_as_string m) ≡ some m

pub data ParseStatus : Type 0 where
  incomplete complete invalid : ParseStatus

pub record Meta : Type 0 where
  pub status : ParseStatus
  pub size : ℕ
  pub payload_size : ℕ
  pub type : ℕ
  pub payload : Bytes

abbrev pub content_len : ℕ
content_len = 8

abbrev pub type_len : ℕ
type_len = 4

abbrev pub header_size : ℕ
header_size = content_len + type_len

abbrev pub max_payload_size : ℕ
max_payload_size = 64 * 1024

-- The result of `serialize`: a buffer, or std::length_error.
pub data Serialized : Type 0 where
  serialized : Bytes → Serialized
  length_error : Serialized

-- The value-initialised `meta`.
abbrev pub no_meta : Meta
no_meta = record { status = incomplete; size = 0; payload_size = 0; type = 0; payload = [] }

abbrev pub invalid_meta : Meta
invalid_meta = record no_meta { status = invalid }

-- The bytes of a frame.
unfoldable pub frame : ℕ → Bytes → Bytes
frame type str = mset_be type_len (mset_be content_len [] (length str)) type ++ str

module _ {Message : Type 0} (proto : Protobuf Message) where
  unfoldable pub serialize : ℕ → Message → Serialized
  serialize type message =
      if ltb max_payload_size (proto.byte_size_long message)
      then length_error
      else serialized (
          mset_be type_len (mset_be content_len [] (proto.byte_size_long message)) type
          ++ proto.serialize_as_string message)

  unfoldable pub deserialize : Bytes → Option Message
  deserialize payload = proto.parse_from_istream payload

unfoldable pub destruct_rest : Bytes → ℕ → Meta
destruct_rest buffer payload_size =
    let message_len = header_size + payload_size in
    if ltb (length buffer) message_len
    then no_meta
    else elim (mget_be type_len buffer content_len) [
      | none ↦ no_meta
      | some type_parts ↦ record {
        status = complete;
        size = message_len;
        payload_size = payload_size;
        type = type_parts;
        payload = take (message_len - header_size) (drop header_size buffer);
      }
    ]

unfoldable pub destruct_buffer : Bytes → Meta
unfolding destruct_rest
destruct_buffer buffer = elim (mget_be content_len buffer 0) [
  | none ↦ no_meta
  | some content_length ↦
      if ltb max_payload_size content_length
      then invalid_meta
      else destruct_rest buffer content_length
]
