-- ===== src/Status.antt =====
-- lib/ebl/status.h: error codes, and results that must be looked at before they are used.
pub mod Once
mod Tests
use cxkernel.Base.{Bool, true, false, Option, none, some, List, [], ◌∷◌, if◌then◌else◌}

-- `enum E`
pub data E : Type 0 where
  ok invalid not_implemented invalid_argument out_of_memory permission_denied allocation_failed : E

abbrev pub is_ok : E → Bool
is_ok ok = true
is_ok invalid = false
is_ok not_implemented = false
is_ok invalid_argument = false
is_ok out_of_memory = false
is_ok permission_denied = false
is_ok allocation_failed = false

-- `Result<T>`; there is no value where it was made from an error.
pub record Result (A : Type 0) : Type 0 where
  pub value : Option A
  pub error : E
  pub armed : Bool

module _ {A : Type 0} where
  unfoldable pub from_value : A → Result A
  from_value v = record { value = some v; error = ok; armed = true }

  unfoldable pub from_error : E → Result A
  from_error e = record { value = none; error = e; armed = true }

  -- `status`, which disarms, and the conversion to bool by it
  unfoldable pub status : Result A → E × Result A
  status r = (r.error, record r { armed = false })

  unfoldable pub to_bool : Result A → Bool × Result A
  unfolding status
  to_bool r = let s = status r in (is_ok s.0, s.1)

  -- `unwrap`: the value is moved out; `none` is a panic.
  unfoldable pub unwrap : Result A → Option (Option A × Result A)
  unwrap r =
      if r.armed
      then none
      else if is_ok r.error
      then some (r.value, record r { error = invalid; armed = true })
      else none

-- the destructor of `Result<void>`, from `armed_`: false is a panic
unfoldable pub destroy_void : Bool → Bool
destroy_void armed = if armed then false else true
