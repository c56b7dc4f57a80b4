-- ===== src/Status/Tests.antt =====
-- A result that is looked at and taken twice.
use cxkernel.Base.{◌≤◌, [], ◌∷◌, ℕ, length, some, true}
use cxkernel.Status.{Result, ok}
use cxkernel.Status.Once.{look, take, values, values_once}

abbrev made : Result ℕ
made = record { value = some 5; error = ok; armed = true }

once_example : length (values (look ∷ take ∷ look ∷ take ∷ []) made) ≤ 1
once_example = values_once (look ∷ take ∷ look ∷ take ∷ []) made
