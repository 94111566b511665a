-- ===== src/Wire/Messages.antt =====
-- serializer.hpp: a message that is sent as a frame and read back, for any protobuf message type.
use rsp.Base.{ℕ, ◌^◌, ◌<◌, ◌≤◌, ◌≡◌, ap, ◌∙◌, some, ◌++◌, Bytes, arith}
use rsp.Wire.Serializer.{
  Protobuf, Meta, serialized, frame, serialize, deserialize, destruct_buffer, max_payload_size,
}
use rsp.Wire.Framing.{destruct_buffer-frame}

module _ {Message : Type 0} (proto : Protobuf Message) where
  serialize-frame :
      (type : ℕ) (m : Message)
      → proto.byte_size_long m ≤ max_payload_size
      → serialize proto type m ≡ serialized (frame type (proto.serialize_as_string m))
  unfolding serialize frame
  serialize-frame type m small = ground (arith, small, proto.serialize_size m)

  -- A message of at most 64 KiB with a 32-bit type is serialized, and whatever follows its bytes,
  -- the frame that is cut off them has its type, and its payload is deserialized to the message.
  pub deserialize-serialize :
      (type : ℕ) (m : Message) (rest : Bytes)
      → type < 2 ^ 32
      → proto.byte_size_long m ≤ max_payload_size
      → (b : Bytes) × (serialize proto type m ≡ serialized b)
        × ((destruct_buffer (b ++ rest)).type ≡ type)
        × (deserialize proto (destruct_buffer (b ++ rest)).payload ≡ some m)
  unfolding deserialize
  deserialize-serialize type m rest ht small =
      let str = proto.serialize_as_string m in
      let cut =
        destruct_buffer-frame type str rest ht (omega (arith, proto.serialize_size m, small)) in
      (
        frame type str,
        serialize-frame type m small,
        ap (λ (d : Meta). d.type) cut,
        ap (λ (d : Meta). proto.parse_from_istream d.payload) cut ∙ proto.parse_serialize m,
      )
