-- ===== src/Wire/Interpreter.antt =====
-- conn_interpreter.hpp: bytes are buffered for each connection, and each complete frame is
-- dispatched.
use rsp.Base.{
  ℕ, zero, suc, Bool, true, false, Option, none, some, List, [], ◌∷◌, ◌++◌, Bytes, ltb,
  if◌then◌else◌, length, take,
}
use rsp.Wire.Helper.{retrieve_v}
use rsp.Wire.Serializer.{incomplete, complete, invalid, destruct_buffer}

pub record Interpreter : Type 0 where
  pub link : Option ℕ
  pub buffer : Bytes

-- A call of `dispatcher_->dispatch`.
pub record Dispatch : Type 0 where
  pub type : ℕ
  pub payload : Bytes
  pub link : Option ℕ

-- What `handle_buffer` returns, the interpreter that it leaves and the calls that it makes.
pub record Handled : Type 0 where
  pub accepted : Bool
  pub state : Interpreter
  pub dispatched : List Dispatch

-- std::array<char, 128>
abbrev pub read_size : ℕ
read_size = 128

unfoldable pub init : Interpreter
init = record { link = none; buffer = [] }

unfoldable pub attach_link : Interpreter → ℕ → Interpreter
attach_link c l = record c { link = some l }

abbrev pub also_dispatched : Dispatch → Handled → Handled
also_dispatched d h = record h { dispatched = d ∷ h.dispatched }

-- The `while (true)` loop; `none` means that the fuel ran out.
unfoldable pub drain : ℕ → Interpreter → Option Handled
drain zero c = none
drain (suc fuel) c =
    let meta = destruct_buffer c.buffer in
    let rest = drain fuel (record c { buffer = retrieve_v c.buffer meta.size (length c.buffer) }) in
    elim meta.status [
      | invalid ↦
          some (record { accepted = false; state = record c { buffer = [] }; dispatched = [] })
      | incomplete ↦ some (record { accepted = true; state = c; dispatched = [] })
      | complete ↦ elim rest [
        | none ↦ none
        | some h ↦
            some (
              also_dispatched (record { type = meta.type; payload = meta.payload; link = c.link })
                h)
      ]
    ]

-- One byte is one round of fuel: a complete frame takes `header_size` bytes at least.
unfoldable pub handle_buffer : Interpreter → Bytes → ℕ → Option Handled
unfolding drain
handle_buffer c array len =
    if ltb read_size len
    then some (record { accepted = false; state = c; dispatched = [] })
    else (let received = c.buffer ++ take len array in
        drain (suc (length received)) (record c { buffer = received }))
