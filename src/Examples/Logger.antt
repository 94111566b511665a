-- ===== src/Examples/Logger.antt =====
-- Two lines, of which the logger's threshold lets the second through.
use rsp.Base.{◌≡◌, List, [], ◌∷◌}
use rsp.Logger.{CallSite}
use rsp.Logger.Flags.{LogLevel}
use rsp.Logger.Lines.{Line, write_lines, at_rest, all_printed, last_level, write_lines-at_rest}

abbrev site : CallSite
site = record { now = b'9' ∷ []; file = b's' ∷ b'/' ∷ b'a' ∷ []; line = b'7' ∷ [] }

abbrev lines : List Line
lines =
    record { level = LogLevel.debug; at = site; values = (b'x' ∷ []) ∷ [] }
    ∷ record { level = LogLevel.warn; at = site; values = (b'y' ∷ []) ∷ (b'z' ∷ []) ∷ [] }
    ∷ []

write_lines-at_rest_example :
    write_lines lines (at_rest LogLevel.info (b'u' ∷ []) LogLevel.trace) ≡ (
      all_printed LogLevel.info (b'u' ∷ []) lines,
      at_rest LogLevel.info (b'u' ∷ []) (last_level LogLevel.trace lines),
    )
write_lines-at_rest_example = write_lines-at_rest LogLevel.info LogLevel.trace (b'u' ∷ []) lines
