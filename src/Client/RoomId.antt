-- ===== src/Client/RoomId.antt =====
-- state_login.hpp: the room id that a user types, read by std::from_chars as a uint32_t.
use rsp.Base.{
  ℕ, ◌+◌, ◌-◌, ◌*◌, ◌^◌, ◌≡◌, refl, Bool, true, ◌&&◌, Option, none, some, [], ◌∷◌, leb, ltb,
  if◌then◌else◌, Bytes, arith, is_empty, not,
}

abbrev pub is_digit : ℕ → Bool
is_digit c = leb b'0' c && leb c b'9'

-- The digits at the front, most significant first, onto a value; and what stands behind them.
unfoldable pub digits : ℕ → Bytes → ℕ × Bytes
digits value [] = (value, [])
digits value (c ∷ s) =
    let more = digits (value * 10 + (c - b'0')) s in if is_digit c then more else (value, c ∷ s)

-- from_chars: an error if there is no digit, or if the value does not fit; else the value and the
-- rest.
unfoldable pub from_chars : Bytes → Option (ℕ × Bytes)
from_chars [] = none
from_chars (c ∷ s) =
    if is_digit c
    then (let (value, rest) = digits 0 (c ∷ s) in
        if ltb value (2 ^ 32) then some (value, rest) else none)
    else none

-- The whole command has to be the number.
unfoldable pub read_room_id : Bytes → Option ℕ
unfolding from_chars
read_room_id command = elim (from_chars command) [
  | none ↦ none
  | some (value, rest) ↦ if is_empty rest then some value else none
]

-- The decimal value of a text of digits, and whether it is one.
abbrev pub all_digits : Bytes → Bool
all_digits [] = true
all_digits (c ∷ s) = is_digit c && all_digits s

abbrev pub decimal : ℕ → Bytes → ℕ
decimal value [] = value
decimal value (c ∷ s) = decimal (value * 10 + (c - b'0')) s

digits-rest : (value : ℕ) (s : Bytes) → is_empty (digits value s).1 ≡ all_digits s
unfolding digits
digits-rest value [] = refl
digits-rest value (c ∷ s) = ground (arith, digits-rest (value * 10 + (c - b'0')) s)

digits-value : (value : ℕ) (s : Bytes) → all_digits s ≡ true → (digits value s).0 ≡ decimal value s
unfolding digits
digits-value value [] h = refl
digits-value value (c ∷ s) h = ground (arith, digits-value (value * 10 + (c - b'0')) s)

-- A command is read as a room id exactly if it has a character, all its characters are digits and
-- its decimal value is below 2 ^ 32; the room id is that value.
pub read_room_id_lem :
    (command : Bytes)
    → read_room_id command ≡ (
        if not (is_empty command) && (all_digits command && ltb (decimal 0 command) (2 ^ 32))
        then some (decimal 0 command)
        else none)
unfolding read_room_id
read_room_id_lem [] = refl
read_room_id_lem (c ∷ s) = ground (arith, digits-rest 0 (c ∷ s), digits-value 0 (c ∷ s))
