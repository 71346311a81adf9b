-- ===== src/Eval/Lists.antt =====
-- List helpers of src/eval.c: proper_list_length, eval_arg_list and build_list.
use microlisp.Base.{ℕ, zero, suc, Option, none, some, List, [], ◌∷◌, if◌then◌else◌, length}
use microlisp.Value.{Value, mv_nil, ml_value_eq}
use microlisp.State.{Status, M, pure, fail, faulty, on_error, always, reject, ◌>>=◌, ◌>>◌}
use microlisp.Gc.{
  alloc_array, ml_gc_alloc_pair, ml_gc_protect, ml_gc_unprotect, ml_gc_savepoint, ml_gc_restore,
}
use microlisp.Primitives.Data.{get_pair, length_loop, set_protect}

-- A pair that the code takes for granted: anything else faults.
abbrev pub the_pair : Option (Value × Value) → M (Value × Value)
the_pair (some p) = pure p
the_pair none = faulty

unfoldable pub must_pair : Value → M (Value × Value)
unfolding get_pair
must_pair v = get_pair v >>= the_pair

abbrev pub proper : ℕ × Value → Option ℕ
proper (n, end) = if ml_value_eq end mv_nil then some n else none

-- The length of a proper list. A chain has no more pairs than there are objects.
unfoldable pub proper_list_length : Value → M (Option ℕ)
unfolding length_loop
proper_list_length v s = (length_loop (suc (length s.heap)) 0 v >>= λ r. pure (proper r)) s

module _ (ev : Value → Value → M Value) where
  -- The arguments that are left, each pushed once it is evaluated.
  unfoldable pub arg_loop : Value → ℕ → ℕ → Value → M (List Value)
  unfolding must_pair ml_gc_protect ml_gc_unprotect
  arg_loop env zero pushed cur = pure []
  arg_loop env (suc left) pushed cur = do
    (elem, rest) ← must_pair cur
    v ← on_error (ml_gc_unprotect pushed) (ev elem env)
    on_error (ml_gc_unprotect pushed) (ml_gc_protect v)
    vs ← arg_loop env left (suc pushed) rest
    pure (v ∷ vs)

  -- The array for the arguments, and then the loop.
  abbrev pub args_in : Value → Value → ℕ → Option ℕ → M (List Value)
  args_in args env argc none = fail Status.nomem
  args_in args env argc (some _) = arg_loop env argc 0 args

  abbrev pub args_of : Value → Value → Option ℕ → M (List Value)
  args_of args env none = reject Status.syntax "argument list is not a proper list"
  args_of args env (some zero) = pure []
  args_of args env (some (suc n)) = alloc_array (suc n) 8 >>= args_in args env (suc n)

  -- On success the values are on the protect stack, which the caller pops.
  unfoldable pub eval_arg_list : Value → Value → M (List Value)
  unfolding proper_list_length alloc_array arg_loop
  eval_arg_list args env = proper_list_length args >>= args_of args env

unfoldable pub build_loop : ℕ → List Value → M Value
unfolding ml_gc_protect ml_gc_unprotect ml_gc_alloc_pair ml_gc_restore set_protect
build_loop sp [] = pure mv_nil
build_loop sp (elem ∷ elems) = do
  head ← build_loop sp elems
  on_error (ml_gc_restore sp) (ml_gc_protect elem)
  cell ← on_error (ml_gc_restore sp) (always (ml_gc_unprotect 1) (ml_gc_alloc_pair elem head))
  set_protect sp cell
  pure cell

-- The list of the values, built from its end; the head is kept in a slot of the protect stack.
unfoldable pub build_list : List Value → M Value
unfolding build_loop ml_gc_protect ml_gc_restore
build_list elems = do
  sp ← ml_gc_savepoint
  ml_gc_protect mv_nil
  head ← build_loop sp elems
  ml_gc_restore sp
  pure head
