-- ===== src/Eval/Apply.antt =====
-- Closures of src/eval.c: closure_arity, make_closure and apply_closure_bind.
use microlisp.Base.{
  ℕ, zero, suc, ◌%◌, ◌^◌, Bool, true, false, Option, none, some, List, [], ◌∷◌, ltb, ◌==◌,
  if◌then◌else◌, length, drop,
}
use microlisp.Value.{Value, Obj, Closure, closure, mv_nil, ml_value_eq, ml_is_sym}
use microlisp.State.{
  Status, Arg, Run, M, pure, faulty, on_error, always, reject, reject_with, store, deref, ◌>>=◌,
  ◌>>◌,
}
use microlisp.Gc.{
  ml_gc_alloc_closure, ml_gc_alloc_env, ml_gc_protect, ml_gc_savepoint, ml_gc_restore,
}
use microlisp.Env.{ml_env_define, addr_of}
use microlisp.Primitives.Data.{get_pair}
use microlisp.Eval.Lists.{must_pair, build_list}

-- The end of a parameter list: the count, and whether a rest parameter follows.
unfoldable pub arity_end : ℕ → Value → M (ℕ × Bool)
arity_end n cur =
    if ml_value_eq cur mv_nil
    then pure (n, false)
    else if ml_is_sym cur
    then pure (n, true)
    else reject Status.syntax "lambda parameter list is malformed"

abbrev pub arity_round :
    (ℕ → Value → M (ℕ × Bool)) → ℕ → Value → Option (Value × Value) → M (ℕ × Bool)
arity_round again n cur (some (p, rest)) =
    if ml_is_sym p
    then again (suc n % 2 ^ 32) rest
    else reject Status.syntax "lambda parameter must be a symbol"
arity_round again n cur none = arity_end n cur

unfoldable pub arity_loop : ℕ → ℕ → Value → M (ℕ × Bool)
unfolding get_pair arity_end
arity_loop zero n cur s = Run.out_of_fuel
arity_loop (suc fuel) n cur s = (get_pair cur >>= arity_round (arity_loop fuel) n cur) s

unfoldable pub closure_arity : Value → M (ℕ × Bool)
unfolding arity_loop
closure_arity params s = arity_loop (suc (length s.heap)) 0 params s

abbrev pub with_arity : ℕ → Bool → Obj → Obj
with_arity n variadic (closure c) = closure (record c { variadic = variadic; arity_min = n })
with_arity n variadic o = o

-- The writes to `arity_min` and `variadic` of the new closure.
unfoldable pub set_arity : Value → ℕ → Bool → M (Unit {0})
unfolding deref store
set_arity cl n variadic = deref cl >>= λ o. store (addr_of cl) (with_arity n variadic o)

unfoldable pub make_closure : Value → Value → Value → M Value
unfolding closure_arity ml_gc_protect ml_gc_restore ml_gc_alloc_closure set_arity
make_closure params body env = do
  (arity_min, variadic) ← closure_arity params
  sp ← ml_gc_savepoint
  on_error (ml_gc_restore sp) (ml_gc_protect params >> (ml_gc_protect body >> ml_gc_protect env))
  cl ← always (ml_gc_restore sp) (ml_gc_alloc_closure env params body)
  set_arity cl arity_min variadic
  pure cl

-- Whether a closure takes `argc` arguments.
unfoldable pub check_arity : Closure → ℕ → M (Unit {0})
check_arity cl argc =
    if cl.variadic
    then (if ltb argc cl.arity_min
        then reject_with Status.arity "expected at least %u arguments, got %zu"
            (Arg.num cl.arity_min ∷ Arg.num argc ∷ [])
        else pure tt)
    else (if argc == cl.arity_min
        then pure tt
        else reject_with Status.arity "expected %u arguments, got %zu"
            (Arg.num cl.arity_min ∷ Arg.num argc ∷ []))

-- The positional parameters, bound to as many arguments. What is left of the parameters is returned.
unfoldable pub bind_loop : Value → ℕ → Value → List Value → M Value
unfolding must_pair ml_env_define
bind_loop env zero cur argv = pure cur
bind_loop env (suc left) cur [] = faulty
bind_loop env (suc left) cur (v ∷ vs) = do
  (name, rest) ← must_pair cur
  ml_env_define env name v
  bind_loop env left rest vs

-- The rest parameter, bound to a list of the other arguments.
unfoldable pub bind_rest : Value → Value → List Value → M (Unit {0})
unfolding build_list ml_env_define
bind_rest env name rest =
    if ml_is_sym name
    then (do l ← build_list rest; ml_env_define env name l)
    else reject Status.syntax "malformed variadic parameter list"

unfoldable pub apply_closure_bind : Closure → List Value → M Value
unfolding check_arity ml_gc_alloc_env ml_gc_protect ml_gc_restore bind_loop bind_rest
apply_closure_bind cl argv = do
  check_arity cl (length argv)
  env ← ml_gc_alloc_env cl.env
  sp ← ml_gc_savepoint
  ml_gc_protect env
  cur ← on_error (ml_gc_restore sp) (bind_loop env cl.arity_min cl.params argv)
  on_error (ml_gc_restore sp)
      (if cl.variadic then bind_rest env cur (drop cl.arity_min argv) else pure tt)
  ml_gc_restore sp
  pure env
