-- ===== src/Logger/Lines.antt =====
-- The lines of the console logger, from one L_endl to the next.
use rsp.Base.{
  ◌≡◌, refl, ap, ◌∙◌, Bool, true, false, List, [], ◌∷◌, ◌++◌, if◌then◌else◌, Bytes, leb, arith,
  Bool-cases, inl, inr, append_assoc,
}
use rsp.Logger.Flags.{
  LogLevel, trace, debug, info, warn, error, rank, represent_level, color_code, code, color, endl,
}
use rsp.Logger.{
  Output, writes, Logger, Step, then_do, log, put, put_flag, put_level, CallSite, base_name,
  head_line, open_line, put_mark, put_end, flush_stream, clear_flags, switch_flag, log_time,
  print_level,
}

-- logger.info() << value << ... << L_endl
pub record Line : Type 0 where
  pub level : LogLevel
  pub at : CallSite
  pub values : List Bytes

unfoldable pub put_all : List Bytes → Logger → Step
put_all [] s = ([], s)
put_all (v ∷ vs) s = then_do (put v s) (put_all vs)

unfoldable pub write_line : Line → Logger → Step
unfolding open_line put_all put_flag
write_line l s =
    then_do (then_do (open_line l.level l.at s) (put_all l.values)) (put_flag l.at.now endl)

unfoldable pub write_lines : List Line → Logger → Step
unfolding write_line
write_lines [] s = ([], s)
write_lines (l ∷ ls) s = then_do (write_line l s) (write_lines ls)

-- Between two lines the flags are the global ones, which are those of the console logger.
abbrev pub at_rest : LogLevel → Bytes → LogLevel → Logger
at_rest threshold exe k = record {
  global_flags = code color;
  flags = code color;
  threshold = threshold;
  streaming_level = k;
  executable_name = exe;
}

abbrev in_line : LogLevel → Bytes → LogLevel → Logger
in_line threshold exe k = record (at_rest threshold exe k) { flags = 144 }

abbrev pub met : LogLevel → LogLevel → Bool
met threshold l = leb (rank threshold) (rank l)

abbrev pub color_of : LogLevel → Output
color_of l = writes (27 ∷ b'[' ∷ color_code l ++ b'm' ∷ [])

abbrev pub head_of : Bytes → LogLevel → CallSite → List Output
head_of exe l at =
    writes at.now
    ∷ writes (b' ' ∷ [])
    ∷ writes exe
    ∷ writes (b':' ∷ b':' ∷ [])
    ∷ writes (base_name at.file)
    ∷ writes (b':' ∷ [])
    ∷ writes at.line
    ∷ writes (b' ' ∷ [])
    ∷ writes (b'[' ∷ represent_level l ++ b']' ∷ [])
    ∷ []

abbrev pub tabbed : List Bytes → List Output
tabbed [] = []
tabbed (v ∷ vs) = writes (9 ∷ []) ∷ writes v ∷ tabbed vs

open_line-head_line :
    (l : LogLevel) (at : CallSite) (s : Logger) → open_line l at s ≡ head_line l at s
unfolding open_line
open_line-head_line trace at s = refl
open_line-head_line debug at s = refl
open_line-head_line info at s = refl
open_line-head_line warn at s = refl
open_line-head_line error at s = refl

head_line-met :
    (threshold k l : LogLevel) (exe : Bytes) (at : CallSite)
    → met threshold l ≡ true
    → head_line l at (at_rest threshold exe k)
      ≡ (color_of l ∷ head_of exe l at, in_line threshold exe l)
unfolding head_line put_level put_flag put log switch_flag log_time print_level
head_line-met threshold k l exe at h = ground (arith, h)

head_line-unmet :
    (threshold k l : LogLevel) (exe : Bytes) (at : CallSite)
    → met threshold l ≡ false
    → head_line l at (at_rest threshold exe k) ≡ (color_of l ∷ [], at_rest threshold exe l)
unfolding head_line put_level put_flag put log switch_flag log_time print_level
head_line-unmet threshold k l exe at h = ground (arith, h)

module _ (threshold l : LogLevel) (exe : Bytes) where
  put_all-met :
      (vs : List Bytes)
      → met threshold l ≡ true
      → put_all vs (in_line threshold exe l) ≡ (tabbed vs, in_line threshold exe l)
  unfolding put_all put log
  put_all-met [] h = refl
  put_all-met (v ∷ vs) h = ground (arith, h, put_all-met vs h)

  put_all-unmet :
      (vs : List Bytes)
      → met threshold l ≡ false
      → put_all vs (at_rest threshold exe l) ≡ ([], at_rest threshold exe l)
  unfolding put_all put log
  put_all-unmet [] h = refl
  put_all-unmet (v ∷ vs) h = ground (arith, h, put_all-unmet vs h)

  put_endl-met :
      (now : Bytes)
      → met threshold l ≡ true
      → put_flag now endl (in_line threshold exe l)
        ≡ (writes (10 ∷ []) ∷ [], at_rest threshold exe l)
  unfolding put_flag switch_flag put_end put_mark put log clear_flags flush_stream
  put_endl-met now h = ground (arith, h)

  put_endl-unmet :
      (now : Bytes)
      → met threshold l ≡ false
      → put_flag now endl (at_rest threshold exe l) ≡ ([], at_rest threshold exe l)
  unfolding put_flag
  put_endl-unmet now h = ground (arith, h)

-- What a line writes: its color, and the text and a new line if its level is met.
abbrev pub printed : LogLevel → Bytes → Line → List Output
printed threshold exe l =
    color_of l.level
    ∷ (if met threshold l.level
        then head_of exe l.level l.at ++ (tabbed l.values ++ writes (10 ∷ []) ∷ [])
        else [])

write_line-at_rest :
    (threshold k : LogLevel) (exe : Bytes) (l : Line)
    → write_line l (at_rest threshold exe k)
      ≡ (printed threshold exe l, at_rest threshold exe l.level)
unfolding write_line
write_line-at_rest threshold k exe l = elim (Bool-cases (met threshold l.level)) [
  | inl h ↦ ground (
    arith,
    h,
    open_line-head_line l.level l.at (at_rest threshold exe k),
    head_line-met threshold k l.level exe l.at h,
    put_all-met threshold l.level exe l.values h,
    put_endl-met threshold l.level exe l.at.now h,
    append_assoc (head_of exe l.level l.at) (tabbed l.values) (writes (10 ∷ []) ∷ []),
  )
  | inr h ↦ ground (
    arith,
    h,
    open_line-head_line l.level l.at (at_rest threshold exe k),
    head_line-unmet threshold k l.level exe l.at h,
    put_all-unmet threshold l.level exe l.values h,
    put_endl-unmet threshold l.level exe l.at.now h,
  )
]

abbrev pub all_printed : LogLevel → Bytes → List Line → List Output
all_printed threshold exe [] = []
all_printed threshold exe (l ∷ ls) = printed threshold exe l ++ all_printed threshold exe ls

abbrev pub last_level : LogLevel → List Line → LogLevel
last_level k [] = k
last_level k (l ∷ ls) = last_level l.level ls

-- Line after line, the console logger writes the color of the line's level, and then the text of the
-- line if its level is at least the threshold: the head, each value behind a tab, and a new line. It
-- never writes the reset of the color and never flushes, and is at rest again after each line.
pub write_lines-at_rest :
    (threshold k : LogLevel) (exe : Bytes) (ls : List Line)
    → write_lines ls (at_rest threshold exe k)
      ≡ (all_printed threshold exe ls, at_rest threshold exe (last_level k ls))
unfolding write_lines
write_lines-at_rest threshold k exe [] = refl
write_lines-at_rest threshold k exe (l ∷ ls) =
    ap (λ r. then_do r (write_lines ls)) (write_line-at_rest threshold k exe l)
    ∙ ap (λ r. (printed threshold exe l ++ r.0, r.1)) (write_lines-at_rest threshold l.level exe ls)
