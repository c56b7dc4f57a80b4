-- ===== src/Stdio/Streams/Tests.antt =====
-- A line to the console, for lib/ebl/stdio.cc.
use cxkernel.Base.{arith, [], ◌∷◌}
use cxkernel.Stdio.Streams.{Streams, each, stream_out}
use cxkernel.Stdio.Streams.Lines.{Passed, stream_out-Passed}

abbrev at_start : Streams
at_start = record { org = λ a. 0; out = 0; log = 0; console = [] }

Passed_example :
    Passed at_start (each stream_out (72 ∷ 105 ∷ 10 ∷ 33 ∷ []) at_start) (72 ∷ 105 ∷ 10 ∷ 33 ∷ [])
Passed_example =
    stream_out-Passed (72 ∷ 105 ∷ 10 ∷ 33 ∷ []) at_start (λ k lt. absurd (omega (arith, lt)))
      (
        omega arith,
        (λ e. ground (arith, e)),
        (
          omega arith,
          (λ e. ground (arith, e)),
          (omega arith, (λ e. ground (arith, e)), (omega arith, (λ e. ground (arith, e)), tt)),
        ),
      )
