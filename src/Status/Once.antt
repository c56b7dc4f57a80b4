-- ===== src/Status/Once.antt =====
-- How often a result of lib/ebl/status.h gives its value.
use cxkernel.Base.{
  ◌≡◌, refl, ◌≤◌, Bool, true, false, Option, none, some, List, [], ◌∷◌, arith, length,
}
use cxkernel.Status.{invalid, is_ok, Result, status, to_bool, unwrap}

-- what a caller does with a result
pub data Op : Type 0 where
  look ask take : Op

module _ {A : Type 0} where
  -- The values that a sequence of calls gets; a panic ends it.
  unfoldable pub values : List Op → Result A → List (Option A)
  values [] r = []
  values (look ∷ ops) r = values ops (status r).1
  values (ask ∷ ops) r = values ops (to_bool r).1
  values (take ∷ ops) r = elim (unwrap r) [ none ↦ [] | some p ↦ p.0 ∷ values ops p.1 ]

  values-error : (ops : List Op) (r : Result A) → is_ok r.error ≡ false → values ops r ≡ []
  unfolding values status to_bool unwrap
  values-error [] r h = refl
  values-error (look ∷ ops) r h = values-error ops (record r { armed = false }) h
  values-error (ask ∷ ops) r h = values-error ops (record r { armed = false }) h
  values-error (take ∷ ops) r h = ground (arith, h)

  taken :
      (c d : Bool) (ops : List Op) (r : Result A)
      → r.armed ≡ c
      → is_ok r.error ≡ d
      → length (values (take ∷ ops) r) ≤ 1
  unfolding values unwrap
  taken true d ops r e k = ground arith
  taken false false ops r e k = ground arith
  taken false true ops r e k =
      let none_left = values-error ops (record r { error = invalid; armed = true }) refl in
      ground (arith, none_left)

  -- Whatever is called on a result, and in whatever order, its value comes out at most once.
  pub values_once : (ops : List Op) (r : Result A) → length (values ops r) ≤ 1
  unfolding values status to_bool
  values_once [] r = ground arith
  values_once (look ∷ ops) r = values_once ops (record r { armed = false })
  values_once (ask ∷ ops) r = values_once ops (record r { armed = false })
  values_once (take ∷ ops) r = taken r.armed (is_ok r.error) ops r refl refl
