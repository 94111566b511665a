-- ===== src/Logger.antt =====
-- The logger of rsp-libs (logger/streamable_logger.hpp, streamable_logger.cpp, console_logger.hpp,
-- flag.hpp, level.hpp and color.hpp), as one thread uses the console logger. A value is the text that
-- std::ostream makes of it, `now` the text of the time. An operation returns what it writes to the
-- stream, in order, and the logger.
pub mod Flags
pub mod Lines
use rsp.Base.{ℕ, ◌==◌, ◌||◌, not, Bool, true, false, List, [], ◌∷◌, ◌++◌, if◌then◌else◌, Bytes, leb}
use rsp.Logger.Flags.{
  LogLevel, trace, debug, info, warn, error, rank, represent_level, color_code, Flag, code,
  clearflags, concat, time, flush, endl, space, allways_flush, level, color, start_with_flushing,
  null, tabs, cout, with_flag, without_flag, masked,
}

pub data Output : Type 0 where
  writes : Bytes → Output
  flushes : Output

pub record Logger : Type 0 where
  pub global_flags : ℕ
  pub flags : ℕ
  pub threshold : LogLevel
  pub streaming_level : LogLevel
  pub executable_name : Bytes

abbrev pub Step : Type 0
Step = List Output × Logger

abbrev pub then_do : Step → (Logger → Step) → Step
then_do (es, s) f = let (fs, s') = f s in (es ++ fs, s')

abbrev pub is_null : Logger → Bool
is_null s = s.flags == code null

abbrev pub has_level : Logger → Bool
has_level s = masked s.flags level == code level

abbrev pub is_space : Logger → Bool
is_space s = not (masked s.flags space == 0)

abbrev pub is_tabs : Logger → Bool
is_tabs s = not (masked s.flags tabs == 0) || has_level s

abbrev pub has_color : Logger → Bool
has_color s = masked s.flags color == code color

abbrev pub has_meet_level : Logger → Bool
has_meet_level s = leb (rank s.threshold) (rank s.streaming_level)

-- The loop runs once: the console logger has no mirror stream.
unfoldable pub log : Bytes → Logger → Step
log value s = if is_null s then ([], s) else (
  (if is_space s then writes (b' ' ∷ []) ∷ [] else [])
      ++ (if is_tabs s then writes (9 ∷ []) ∷ [] else [])
      ++ writes value ∷ [],
  record s { flags = without_flag s.flags (code time) },
)

-- operator<< of a value
unfoldable pub put : Bytes → Logger → Step
unfolding log
put value s = if has_meet_level s then log value s else ([], s)

-- "\x1b[0m"
unfoldable pub flush_stream : Logger → Step
flush_stream s = (
  (if has_color s then writes (27 ∷ b'[' ∷ b'0' ∷ b'm' ∷ []) ∷ [] else []) ++ flushes ∷ [],
  record s { flags = without_flag s.flags (code start_with_flushing) },
)

unfoldable pub print_level : Logger → Step
print_level s = (writes (b'[' ∷ represent_level s.streaming_level ++ b']' ∷ []) ∷ [], s)

abbrev pub add_flag : Flag → Logger → Logger
add_flag f s = record s { flags = with_flag s.flags (code f) }

unfoldable pub log_time : Bytes → Logger → Step
unfolding put
log_time now s = let (es, s') = put now s in (es, add_flag time s')

-- From the case of L_clearflags on.
unfoldable pub clear_flags : Logger → Logger
clear_flags s =
    if s.flags == code start_with_flushing
    then s
    else record s { flags = with_flag (masked s.flags allways_flush) s.global_flags }

abbrev pub flushes_always : Logger → Bool
flushes_always s = not (masked s.flags allways_flush == 0)

abbrev pub starts_flushing : Logger → Bool
starts_flushing s = s.flags == code start_with_flushing

-- " |F|" and " |SF|"
unfoldable pub put_mark : Logger → Step
unfolding put
put_mark s =
    if flushes_always s
    then put (b' ' ∷ b'|' ∷ b'F' ∷ b'|' ∷ []) s
    else (if starts_flushing s then put (b' ' ∷ b'|' ∷ b'S' ∷ b'F' ∷ b'|' ∷ []) s else ([], s))

unfoldable pub put_end : Logger → Step
unfolding put_mark flush_stream clear_flags
put_end s = then_do (then_do (put_mark s) (λ s. (writes (10 ∷ []) ∷ [], s))) (λ s.
    let (es, s') = if flushes_always s || starts_flushing s then flush_stream s else ([], s) in
    (es, clear_flags s'))

-- The switch of operator<< of a flag.
unfoldable pub switch_flag : Bytes → Flag → Logger → Step
unfolding log_time put flush_stream print_level put_end clear_flags
switch_flag now time s = log_time now s
switch_flag now flush s =
    then_do
      (put (b' ' ∷ b'|' ∷ b'F' ∷ b'|' ∷ 10 ∷ [])
        (record s { flags = masked s.flags allways_flush }))
      flush_stream
switch_flag now level s = let (es, s') = print_level s in (es, add_flag level s')
switch_flag now space s = put (b' ' ∷ []) s
switch_flag now endl s = put_end s
switch_flag now clearflags s = ([], clear_flags s)
switch_flag now allways_flush s = ([], add_flag allways_flush s)
switch_flag now concat s = ([], record s { flags = without_flag s.flags (code tabs) })
switch_flag now f s = ([], add_flag f s)

unfoldable pub put_flag : Bytes → Flag → Logger → Step
unfolding switch_flag
put_flag now f s =
    if is_null s then ([], s) else (if has_meet_level s then switch_flag now f s else ([], s))

-- operator<< of a level: "\x1b[", the color and "m".
unfoldable pub put_level : LogLevel → Logger → Step
put_level l s =
    let s' = record s { streaming_level = l } in
    ((if has_color s' then writes (27 ∷ b'[' ∷ color_code l ++ b'm' ∷ []) ∷ [] else []), s')

-- filename.substr(filename.find_last_of('/') + 1)
abbrev pub after_slash : Bytes → Bytes → Bytes
after_slash name [] = name
after_slash name (c ∷ s) = after_slash (if c == b'/' then s else name) s

abbrev pub base_name : Bytes → Bytes
base_name file = after_slash file file

-- The call site, as the builtins give it.
pub record CallSite : Type 0 where
  pub now : Bytes
  pub file : Bytes
  pub line : Bytes

-- The body that trace, debug, info, warn and error share.
unfoldable pub head_line : LogLevel → CallSite → Logger → Step
unfolding put_level put_flag put
head_line l at s =
    then_do
      (then_do
        (then_do
          (then_do
            (then_do
              (then_do
                (then_do
                  (then_do (then_do (put_level l s) (put_flag at.now time)) (put_flag at.now space))
                  (put s.executable_name))
                (put (b':' ∷ b':' ∷ [])))
              (put (base_name at.file)))
            (put (b':' ∷ [])))
          (put at.line))
        (put_flag at.now space))
      (put_flag at.now level)

abbrev pub trace_line : CallSite → Logger → Step
trace_line at s = head_line trace at s

abbrev pub debug_line : CallSite → Logger → Step
debug_line at s = head_line debug at s

abbrev pub info_line : CallSite → Logger → Step
info_line at s = head_line info at s

abbrev pub warn_line : CallSite → Logger → Step
warn_line at s = head_line warn at s

abbrev pub error_line : CallSite → Logger → Step
error_line at s = head_line error at s

unfoldable pub open_line : LogLevel → CallSite → Logger → Step
open_line trace at s = trace_line at s
open_line debug at s = debug_line at s
open_line info at s = info_line at s
open_line warn at s = warn_line at s
open_line error at s = error_line at s
