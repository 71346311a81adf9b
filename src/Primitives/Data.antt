-- ===== src/Primitives/Data.antt =====
-- Pairs, lists and predicates: prim_cons to prim_not of src/primitives.c.
use microlisp.Base.{
  ℕ, zero, suc, ◌-◌, ◌^◌, Bool, true, false, not, Option, none, some, List, [], ◌∷◌, ltb,
  if◌then◌else◌, length, set, pos,
}
use microlisp.Value.{
  Value, Obj, pair, string, closure, primitive, fix, mv_nil, ml_value_eq, ml_is_fix, ml_is_sym,
  ml_is_bool, ml_truthy, ml_make_bool,
}
use microlisp.State.{Status, Run, M, pure, faulty, modify, on_error, reject, ◌>>=◌, ◌>>◌}
use microlisp.Gc.{ml_gc_alloc_pair, ml_gc_protect, ml_gc_savepoint, ml_gc_restore}
use microlisp.Equal.{get_obj, ml_value_eqv, ml_value_equal}

unfoldable pub prim_cons : List Value → M Value
unfolding ml_gc_alloc_pair
prim_cons (a ∷ d ∷ _) = ml_gc_alloc_pair a d
prim_cons _ = faulty

-- The components of a pair, or none.
abbrev pub as_pair : Option Obj → Option (Value × Value)
as_pair (some (pair a d)) = some (a, d)
as_pair _ = none

unfoldable pub get_pair : Value → M (Option (Value × Value))
unfolding get_obj
get_pair v = do o ← get_obj v; pure (as_pair o)

abbrev pub car_of : Option (Value × Value) → M Value
car_of (some (a, d)) = pure a
car_of none = reject Status.type "car: argument is not a pair"

abbrev pub cdr_of : Option (Value × Value) → M Value
cdr_of (some (a, d)) = pure d
cdr_of none = reject Status.type "cdr: argument is not a pair"

unfoldable pub prim_car : List Value → M Value
unfolding get_pair
prim_car (v ∷ _) = get_pair v >>= car_of
prim_car [] = faulty

unfoldable pub prim_cdr : List Value → M Value
unfolding get_pair
prim_cdr (v ∷ _) = get_pair v >>= cdr_of
prim_cdr [] = faulty

-- `s->gc_protect[i] = v`
unfoldable pub set_protect : ℕ → Value → M (Unit {0})
set_protect i v = modify λ s. record s { gc_protect = set s.gc_protect i v }

-- The cells from the last argument to the first; `head` stays in its slot of the protect stack.
unfoldable pub list_loop : ℕ → Value → List Value → M Value
unfolding ml_gc_alloc_pair set_protect ml_gc_restore
list_loop sp head [] = pure head
list_loop sp head (v ∷ vs) = do
  rest ← list_loop sp head vs
  cell ← on_error (ml_gc_restore sp) (ml_gc_alloc_pair v rest)
  set_protect sp cell
  pure cell

unfoldable pub prim_list : List Value → M Value
unfolding list_loop ml_gc_protect
prim_list argv = do
  sp ← ml_gc_savepoint
  ml_gc_protect mv_nil
  head ← list_loop sp mv_nil argv
  ml_gc_restore sp
  pure head

abbrev pub length_round :
    (ℕ → Value → M (ℕ × Value)) → ℕ → Value → Option (Value × Value) → M (ℕ × Value)
length_round again n v (some (a, d)) = again (suc n) d
length_round again n v none = pure (n, v)

-- The number of pairs of a chain, and what ends it.
unfoldable pub length_loop : ℕ → ℕ → Value → M (ℕ × Value)
unfolding get_pair
length_loop zero n v s = Run.out_of_fuel
length_loop (suc fuel) n v s = (get_pair v >>= length_round (length_loop fuel) n v) s

unfoldable pub prim_length : List Value → M Value
unfolding length_loop
prim_length [] = faulty
prim_length (v ∷ _) = λ s.
    (do
      (n, end) ← length_loop (suc (length s.heap)) 0 v
      if not (ml_value_eq end mv_nil)
          then reject Status.type "length: argument is not a proper list"
          else if ltb (2 ^ 59 - 1) n
          then reject Status.overflow "length: result exceeds fixnum range"
          else pure (fix (pos n)))
      s

-- DEFINE_PREDICATE on the first argument.
abbrev pub predicate : (Value → M Bool) → List Value → M Value
predicate test (v ∷ _) = do b ← test v; pure (ml_make_bool b)
predicate test [] = faulty

abbrev pub is_pair : Option Obj → Bool
is_pair (some (pair _ _)) = true
is_pair _ = false

abbrev pub is_string : Option Obj → Bool
is_string (some (string _)) = true
is_string _ = false

abbrev pub is_procedure : Option Obj → Bool
is_procedure (some (closure _)) = true
is_procedure (some (primitive _)) = true
is_procedure _ = false

unfoldable pub prim_null_p : List Value → M Value
prim_null_p = predicate λ v. pure (ml_value_eq v mv_nil)

unfoldable pub prim_pair_p : List Value → M Value
unfolding get_obj
prim_pair_p = predicate λ v. (do o ← get_obj v; pure (is_pair o))

unfoldable pub prim_number_p : List Value → M Value
prim_number_p = predicate λ v. pure (ml_is_fix v)

unfoldable pub prim_symbol_p : List Value → M Value
prim_symbol_p = predicate λ v. pure (ml_is_sym v)

unfoldable pub prim_string_p : List Value → M Value
unfolding get_obj
prim_string_p = predicate λ v. (do o ← get_obj v; pure (is_string o))

unfoldable pub prim_procedure_p : List Value → M Value
unfolding get_obj
prim_procedure_p = predicate λ v. (do o ← get_obj v; pure (is_procedure o))

unfoldable pub prim_boolean_p : List Value → M Value
prim_boolean_p = predicate λ v. pure (ml_is_bool v)

unfoldable pub prim_not : List Value → M Value
prim_not = predicate λ v. pure (not (ml_truthy v))

abbrev pub predicate2 : (Value → Value → M Bool) → List Value → M Value
predicate2 test (v ∷ w ∷ _) = do b ← test v w; pure (ml_make_bool b)
predicate2 test _ = faulty

unfoldable pub prim_eq_p : List Value → M Value
prim_eq_p = predicate2 λ v w. pure (ml_value_eq v w)

unfoldable pub prim_eqv_p : List Value → M Value
unfolding ml_value_eqv
prim_eqv_p = predicate2 ml_value_eqv

unfoldable pub prim_equal_p : List Value → M Value
unfolding ml_value_equal
prim_equal_p = predicate2 ml_value_equal
