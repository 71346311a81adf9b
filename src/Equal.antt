-- ===== src/Equal.antt =====
-- Value equality of src/value.c.
pub mod Parts
pub mod Laws
use Prim.Native.String.{String}
use microlisp.Base.{
  ℕ, zero, suc, ◌-◌, Bool, true, false, Option, none, some, List, [], ◌∷◌, leb, ◌==◌, bytes_equal,
  if◌then◌else◌,
}
use microlisp.Value.{Value, Obj, obj, pair, string, ml_value_eq, ml_is_obj}
use microlisp.State.{
  Status, Arg, Message, State, Run, M, ok, err, fail, pure, modify, always, on_error, reject_with,
  ◌>>=◌, ◌>>◌, find, deref,
}

-- What a value points at, if it is an object (`ml_is_string`, `ml_is_pair`, ...).
unfoldable pub get_obj : Value → M (Option Obj)
unfolding ml_is_obj deref
get_obj v = if ml_is_obj v then deref v >>= (λ o. pure (some o)) else pure none

abbrev pub strings_equal : Option Obj → Option Obj → Bool
strings_equal (some (string x)) (some (string y)) = bytes_equal x y
strings_equal _ _ = false

-- The second value is followed only where the first is a string.
abbrev pub eqv_string : Value → Option Obj → M Bool
eqv_string b (some (string x)) = get_obj b >>= λ y. pure (strings_equal (some (string x)) y)
eqv_string b _ = pure false

unfoldable pub ml_value_eqv : Value → Value → M Bool
unfolding ml_value_eq get_obj
ml_value_eqv a b = if ml_value_eq a b then pure true else (get_obj a >>= eqv_string b)

unfoldable pub enter_equal : M (Unit {0})
enter_equal = modify λ s. record s { equal_depth = suc s.equal_depth }

unfoldable pub leave_equal : M (Unit {0})
leave_equal = modify λ s. record s { equal_depth = s.equal_depth - 1 }

-- The components of two pairs: the cdrs are compared only where the cars are equal.
abbrev pub equal_pairs : (Value → Value → M Bool) → Option Obj → Option Obj → M Bool
equal_pairs again (some (pair a d)) (some (pair a' d')) = do
  enter_equal
  car_eq ← on_error leave_equal (again a a')
  if car_eq then always leave_equal (again d d') else leave_equal >> pure false
equal_pairs again _ _ = pure false

-- The second value is followed only where the first is a pair.
abbrev pub equal_second : (Value → Value → M Bool) → Value → Option Obj → M Bool
equal_second again b (some (pair a d)) = get_obj b >>= equal_pairs again (some (pair a d))
equal_second again b _ = pure false

abbrev pub equal_parts : (Value → Value → M Bool) → Value → Value → Bool → M Bool
equal_parts again a b true = pure true
equal_parts again a b false = get_obj a >>= equal_second again b

-- One call, given the calls that it makes.
unfoldable pub equal_call : (Value → Value → M Bool) → Value → Value → M Bool
unfolding ml_value_eqv get_obj enter_equal leave_equal
equal_call again a b s =
    if leb s.max_equal_depth s.equal_depth
    then reject_with Status.equal_depth "equal?: comparison depth exceeded limit of %zu"
        (Arg.num s.max_equal_depth ∷ []) s
    else (ml_value_eqv a b >>= equal_parts again a b) s

unfoldable pub equal_loop : ℕ → Value → Value → M Bool
unfolding equal_call
equal_loop zero a b s = Run.out_of_fuel
equal_loop (suc fuel) a b s = equal_call (equal_loop fuel) a b s

-- Each nested call is one level deeper, so the levels left and one more are enough.
unfoldable pub ml_value_equal : Value → Value → M Bool
unfolding equal_loop
ml_value_equal a b s = equal_loop (suc (s.max_equal_depth - s.equal_depth)) a b s
