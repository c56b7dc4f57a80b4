-- ===== src/Stdio/Streams.antt =====
-- lib/ebl/stdio.cc, the buffered streams and the functions that print to them; the console is the
-- sequence of `console_emit` calls. LOG_ENABLE and LOG_ALL_OUTPUT are not defined.
pub mod Lines
mod Tests
use cxkernel.Base.{
  ℕ, zero, suc, ◌+◌, ◌*◌, Bool, true, false, ◌||◌, Option, none, some, List, [], ◌∷◌, ◌++◌, ◌==◌,
  ltb, if◌then◌else◌,
}
use cxkernel.Text.{Memory, poke}
use cxkernel.Stdio.{Out}
use cxkernel.Stdio.Format.{Arg}
use cxkernel.Stdio.Print.{Printed, returned, failed, stuck, out_of_fuel, ssprintf}

-- `stream_buffer_org`, its two rows one after the other; `stream_buffer` as offsets in each row;
-- and what the console has been given.
pub record Streams : Type 0 where
  pub org : Memory
  pub out : ℕ
  pub log : ℕ
  pub console : List ℕ

-- where the second row starts
abbrev pub row : ℕ
row = 512

abbrev pub console_emit : ℕ → Streams → Streams
console_emit c s = record s { console = s.console ++ c ∷ [] }

-- `while(*c && ...) console_emit(*c++)`, at most `n` characters
unfoldable pub emit_while : ℕ → ℕ → Streams → Streams
emit_while zero a s = s
emit_while (suc n) a s =
    let rest = emit_while n (a + 1) (console_emit (s.org a) s) in if s.org a == 0 then s else rest

-- `case ebl::CLOG` of `fflush`; the string ends at the latest at the null terminator just written.
unfoldable pub fflush_log : Streams → Streams
fflush_log s =
    let ended = record s { org = poke s.org (row + s.log) 0 } in
    record (emit_while (suc s.log) row ended) { log = 0 }

-- `case ebl::COUT` of `fflush`
unfoldable pub fflush_out : Streams → Streams
fflush_out s =
    let ended = record s { org = poke s.org s.out 0; out = 0 } in
    record (emit_while 512 0 ended) { out = 0 }

unfoldable pub stream_log : ℕ → Streams → Streams
stream_log c s =
    let s' = record s { org = poke s.org (row + s.log) c; log = s.log + 1 } in
    if (c == 10) || ltb 512 s'.log then fflush_log s' else s'

unfoldable pub stream_out : ℕ → Streams → Streams
stream_out c s =
    let s' = record s { org = poke s.org s.out c; out = s.out + 1 } in
    if (c == 10) || ltb 512 s'.out then fflush_out s' else s'

unfoldable pub stream_err : ℕ → Streams → Streams
stream_err c s = console_emit c s

-- The callback on each character.
unfoldable pub each : (ℕ → Streams → Streams) → List ℕ → Streams → Streams
each g [] s = s
each g (c ∷ cs) s = each g cs (g c s)

-- A call that prints: what it returns, `none` for -1, and the streams. There is no result where the
-- behaviour of the conversions is undefined or the fuel is not enough.
abbrev pub sent : (ℕ → Streams → Streams) → Printed → Streams → Option (Option ℕ × Streams)
sent g (returned o) s = some (some o.written, each g o.text s)
sent g (failed o) s = some (none, each g o.text s)
sent g stuck s = none
sent g out_of_fuel s = none

abbrev pub nothing_written : Out
nothing_written = record { text = []; written = 0; stores = [] }

module _ (fuel : ℕ) where
  unfoldable pub printf : List ℕ → List Arg → Streams → Option (Option ℕ × Streams)
  printf format args s = sent stream_out (ssprintf fuel format args nothing_written) s

  -- by the number of the file
  unfoldable pub fprintf : ℕ → List ℕ → List Arg → Streams → Option (Option ℕ × Streams)
  fprintf file format args s =
      let printed = ssprintf fuel format args nothing_written in
      if file == 2
      then sent stream_log printed s
      else if file == 1
      then sent stream_err printed s
      else sent stream_out printed s

  unfoldable pub kout : List ℕ → List Arg → Streams → Option (Option ℕ × Streams)
  kout format args s = sent stream_out (ssprintf fuel format args nothing_written) s

  unfoldable pub kerr : List ℕ → List Arg → Streams → Option (Option ℕ × Streams)
  kerr format args s = sent stream_err (ssprintf fuel format args nothing_written) s

  unfoldable pub klog : List ℕ → List Arg → Streams → Option (Option ℕ × Streams)
  klog format args s = sent stream_log (ssprintf fuel format args nothing_written) s

  -- `swrite_sbuf__`, with the buffer's memory and the place of the next character
  unfoldable pub swrite : ℕ → Memory × ℕ → Memory × ℕ
  swrite c b = (poke b.0 b.1 c, b.1 + 1)

  unfoldable pub swrite_each : List ℕ → Memory × ℕ → Memory × ℕ
  swrite_each [] b = b
  swrite_each (c ∷ cs) b = swrite_each cs (swrite c b)

  -- What it returns, `none` for -1, and the memory.
  unfoldable pub vsprintf : Memory → ℕ → List ℕ → List Arg → Option (Option ℕ × Memory)
  vsprintf m buf fmt args = elim (ssprintf fuel fmt args nothing_written) [
    | returned o ↦ some (some o.written, (swrite_each o.text (m, buf)).0)
    | failed o ↦ some (none, (swrite_each o.text (m, buf)).0)
    | stuck ↦ none
    | out_of_fuel ↦ none
  ]

  unfoldable pub sprintf : Memory → ℕ → List ℕ → List Arg → Option (Option ℕ × Memory)
  sprintf m buf fmt args = vsprintf m buf fmt args
