-- ===== src/Logger/Flags.antt =====
-- flag.hpp, level.hpp and color.hpp: a flag is its number, and a set of flags the or of them.
use Prim.Native.Nat.{bit_and, bit_or}
use rsp.Base.{ℕ, ◌-◌, ◌^◌, [], ◌∷◌, Bytes}

pub data LogLevel : Type 0 where
  trace debug info warn error : LogLevel

abbrev pub rank : LogLevel → ℕ
rank trace = 0
rank debug = 1
rank info = 2
rank warn = 3
rank error = 4

abbrev pub represent_level : LogLevel → Bytes
represent_level trace = b'T' ∷ b'R' ∷ b'A' ∷ b'C' ∷ b'E' ∷ []
represent_level debug = b'D' ∷ b'E' ∷ b'B' ∷ b'U' ∷ b'G' ∷ []
represent_level info = b'I' ∷ b'N' ∷ b'F' ∷ b'O' ∷ []
represent_level warn = b'W' ∷ b'A' ∷ b'R' ∷ b'N' ∷ []
represent_level error = b'E' ∷ b'R' ∷ b'R' ∷ b'O' ∷ b'R' ∷ []

-- The decimal text of the color: 37, 34, 32, 33, 31.
abbrev pub color_code : LogLevel → Bytes
color_code trace = b'3' ∷ b'7' ∷ []
color_code debug = b'3' ∷ b'4' ∷ []
color_code info = b'3' ∷ b'2' ∷ []
color_code warn = b'3' ∷ b'3' ∷ []
color_code error = b'3' ∷ b'1' ∷ []

pub data Flag : Type 0 where
  clearflags concat time flush endl start_with_flushing null cout space color tabs allways_flush
        level :
      Flag

abbrev pub code : Flag → ℕ
code clearflags = 0
code concat = 1
code time = 2
code flush = 3
code endl = 4
code start_with_flushing = 5
code null = 6
code cout = 7
code space = 8
code color = 16
code tabs = 32
code allways_flush = 64
code level = 128

-- operator+= and operator-=, on an enum of 32 bits.
abbrev pub with_flag : ℕ → ℕ → ℕ
with_flag flags f = bit_or flags f

abbrev pub without_flag : ℕ → ℕ → ℕ
without_flag flags f = bit_and flags (2 ^ 32 - 1 - f)

abbrev pub masked : ℕ → Flag → ℕ
masked flags f = bit_and flags (code f)
