-- ===== src/Wire/Helper.antt =====
-- helper.hpp: slices of a buffer and integers in network byte order.
use Prim.Native.Nat.{bit_or}
use rsp.Base.{
  ℕ, zero, suc, ◌-◌, ◌*◌, ◌/◌, ◌%◌, ◌^◌, ◌||◌, Option, none, some, [], ◌∷◌, ◌++◌, Bytes, ltb, leb,
  if◌then◌else◌, length, take, drop,
}

-- The slice [begin, end), and nothing where the ends are out of order.
unfoldable pub retrieve_v : Bytes → ℕ → ℕ → Bytes
retrieve_v buf begin end = if leb end begin then [] else drop begin (take end buf)

-- The loop of `mset_be`: from the most significant byte down.
unfoldable pub mset_loop : ℕ → ℕ → Bytes → Bytes
mset_loop zero value dest = dest
mset_loop (suc remaining) value dest =
    mset_loop remaining value (dest ++ (value / 2 ^ (remaining * 8) % 256) ∷ [])

-- `size` is sizeof(T): 4 or 8.
unfoldable pub mset_be : ℕ → Bytes → ℕ → Bytes
mset_be size dest value = mset_loop size value dest

-- The loop of `mget_be` over the bytes from the offset on: `(value << 8) | byte` in T.
unfoldable pub mget_loop : ℕ → ℕ → Bytes → ℕ → ℕ
mget_loop size zero bytes value = value
mget_loop size (suc left) [] value = value
mget_loop size (suc left) (b ∷ bs) value =
    mget_loop size left bs (bit_or (value * 256 % 2 ^ (size * 8)) b)

unfoldable pub mget_be : ℕ → Bytes → ℕ → Option ℕ
mget_be size src offset =
    if ltb (length src) offset || ltb (length src - offset) size
    then none
    else some (mget_loop size size (drop offset src) 0)
