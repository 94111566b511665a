-- ===== src/Examples/Wire.antt =====
-- The frames of two short messages.
use rsp.Base.{ℕ, ◌≡◌, refl, sym, true, none, some, List, [], ◌∷◌, ◌++◌, Bytes, arith, length}
use rsp.Wire.Helper.{mset_be, mset_loop, mget_be}
use rsp.Wire.Serializer.{Protobuf, incomplete, frame, destruct_buffer}
use rsp.Wire.Interpreter.{Interpreter, Handled, init, drain}
use rsp.Wire.Stream.{drain-Drains, Drains}
use rsp.Wire.Reads.{feed, feed_chunks, feed-encode, encode, dispatches}

abbrev received : Interpreter
received = record init { buffer = frame 3 (1 ∷ 2 ∷ []) }

short_received : length received.buffer ≡ 14
unfolding frame mset_be mset_loop init
short_received = refl

drain-Drains_example : (h : Handled) × (drain 15 received ≡ some h) × Drains received h
drain-Drains_example = drain-Drains 15 received (omega (arith, short_received))

empty : (destruct_buffer []).status ≡ incomplete
unfolding destruct_buffer mget_be
empty = refl

abbrev fresh : Interpreter
fresh = record { link = none; buffer = [] }

feed_chunks_example :
    (h : Handled) × (feed fresh ((0 ∷ []) ∷ (0 ∷ 1 ∷ []) ∷ []) ≡ some h)
    × (feed fresh ((0 ∷ 0 ∷ 1 ∷ []) ∷ []) ≡ some h)
feed_chunks_example =
    feed_chunks fresh ((0 ∷ []) ∷ (0 ∷ 1 ∷ []) ∷ []) ((0 ∷ 0 ∷ 1 ∷ []) ∷ []) empty
      (omega arith, (omega arith, tt)) (omega arith, tt) refl

abbrev two : List (ℕ × Bytes)
two = (3, 1 ∷ 2 ∷ []) ∷ (4, []) ∷ []

two-bytes :
    encode two ++ 0 ∷ []
    ≡ 0 ∷ 0 ∷ 0 ∷ 0 ∷ 0 ∷ 0 ∷ 0 ∷ 2 ∷ 0 ∷ 0 ∷ 0 ∷ 3 ∷ 1 ∷ 2 ∷ 0 ∷ 0 ∷ 0 ∷ 0 ∷ 0 ∷ 0 ∷ 0 ∷ 0 ∷ 0 ∷ 0
      ∷ 0 ∷ 4 ∷ 0 ∷ []
unfolding encode frame mset_be mset_loop
two-bytes = refl

abbrev chunks : List Bytes
chunks =
    (0 ∷ 0 ∷ 0 ∷ 0 ∷ 0 ∷ 0 ∷ 0 ∷ 2 ∷ 0 ∷ 0 ∷ [])
    ∷ (0 ∷ 3 ∷ 1 ∷ 2 ∷ 0 ∷ 0 ∷ 0 ∷ 0 ∷ 0 ∷ 0 ∷ 0 ∷ 0 ∷ 0 ∷ 0 ∷ 0 ∷ 4 ∷ 0 ∷ [])
    ∷ []

started : (destruct_buffer (0 ∷ [])).status ≡ incomplete
unfolding destruct_buffer mget_be
started = refl

feed-encode_example :
    feed fresh chunks
    ≡ some (record {
      accepted = true;
      state = record { link = none; buffer = 0 ∷ [] };
      dispatched = dispatches none two;
    })
feed-encode_example =
    feed-encode none two (0 ∷ []) chunks
      ((omega arith, omega arith), ((omega arith, omega arith), tt)) started
      (omega arith, (omega arith, tt)) (sym two-bytes)

abbrev plain : Protobuf Bytes
plain = record {
  byte_size_long = length;
  serialize_as_string = λ m. m;
  parse_from_istream = some;
  serialize_size = λ m. refl;
  parse_serialize = λ m. refl;
}
