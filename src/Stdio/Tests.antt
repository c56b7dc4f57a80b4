-- ===== src/Stdio/Tests.antt =====
-- Runs of lib/ebl/stdio.cc: `%5d` of -42, and formats.
use cxkernel.Base.{◌≢◌, true, false, [], ◌∷◌, arith}
use cxkernel.Stdio.{Out, Flags}
use cxkernel.Stdio.Format.{word, text}
use cxkernel.Stdio.Print.{ssprintf, out_of_fuel}
use cxkernel.Stdio.Print.Plain.{ssprintf-ends}

abbrev nothing : Out
nothing = record { text = []; written = 0; stores = [] }

abbrev signed_flags : Flags
signed_flags = record {
  signed = true;
  zeropad = false;
  fplus = false;
  splus = false;
  prefix = false;
  small = false;
  left = false;
}

ends_example : ssprintf 4 (37 ∷ 53 ∷ 100 ∷ []) (word 42 ∷ []) nothing ≢ out_of_fuel
ends_example = ssprintf-ends 4 (37 ∷ 53 ∷ 100 ∷ []) (word 42 ∷ []) nothing (omega arith)
