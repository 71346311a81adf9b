-- ===== src/Eval/Loop.antt =====
-- The evaluation loop of src/eval.c: ml_eval and eval_body. Each call of ml_eval and each round of
-- the loop of eval_body takes a unit of fuel; a program that does not end runs out of any.
use microlisp.Base.{
  ℕ, zero, suc, ◌+◌, ◌-◌, true, false, ◌||◌, Option, none, some, List, [], ◌∷◌, ltb, leb,
  if◌then◌else◌, length, get_elem?,
}
use microlisp.Value.{
  Value, Obj, Closure, Mprim, obj, fix, imm, sym, pair, closure, primitive, ml_value_eq, ml_is_sym,
}
use microlisp.State.{
  Status, Arg, State, Syms, Run, M, ok, err, fault, pure, fail, faulty, on_error, always, modify,
  reads, ml_set_error, reject, reject_with, ◌>>=◌, ◌>>◌,
}
use microlisp.Gc.{ml_gc_protect, ml_gc_unprotect, ml_gc_savepoint, ml_gc_restore}
use microlisp.Symtab.{ml_sym_name}
use microlisp.Env.{ml_env_lookup}
use microlisp.Equal.{get_obj}
use microlisp.Primitives.Data.{set_protect}
use microlisp.Primitives.Registry.{call_prim}
use microlisp.Eval.Lists.{eval_arg_list}
use microlisp.Eval.Apply.{apply_closure_bind}
use microlisp.Eval.Forms.{
  SfResult, not_handled, sf_value, sf_tco, handle_quote, handle_if, handle_define, handle_set_bang,
  handle_lambda, handle_begin, handle_and_or, handle_cond, begin_tco,
}
use microlisp.Eval.Let.{handle_let_family}

-- `s->gc_protect[i]`
unfoldable pub get_protect : ℕ → M Value
get_protect i s = elim (get_elem? s.gc_protect i) [ none ↦ fault | some v ↦ ok v s ]

-- The unbound variable's name goes into the message.
abbrev pub symbol_outcome : Value → Run Value → Run SfResult
symbol_outcome form (ok v s) = ok (sf_value v) s
symbol_outcome form (err Status.unbound s) =
    reject_with Status.unbound "unbound variable `%.*s`" (Arg.bytes (ml_sym_name s form) ∷ []) s
symbol_outcome form (err e s) = err e s
symbol_outcome form fault = fault
symbol_outcome form Run.out_of_fuel = Run.out_of_fuel

unfoldable pub eval_symbol : Value → Value → M SfResult
unfolding ml_env_lookup ml_sym_name
eval_symbol form env s = symbol_outcome form (ml_env_lookup env form s)

module _ (ev : Value → Value → M Value) where
  -- Special-form dispatch by the identity of the interned symbol.
  unfoldable pub special_form : Value → Value → Value → M SfResult
  unfolding handle_quote handle_if handle_define handle_set_bang handle_lambda handle_begin
      handle_let_family handle_and_or handle_cond
  special_form head rest env s =
      let y = s.syms in
      (if ml_value_eq head y.sym_quote
          then handle_quote rest
          else if ml_value_eq head y.sym_if
          then handle_if ev rest env
          else if ml_value_eq head y.sym_define
          then handle_define ev rest env
          else if ml_value_eq head y.sym_set_bang
          then handle_set_bang ev rest env
          else if ml_value_eq head y.sym_lambda
          then handle_lambda ev rest env
          else if ml_value_eq head y.sym_begin
          then handle_begin ev rest env
          else if ml_value_eq head y.sym_let
          then handle_let_family ev false false "let" rest env
          else if ml_value_eq head y.sym_let_star
          then handle_let_family ev true false "let*" rest env
          else if ml_value_eq head y.sym_letrec
          then handle_let_family ev true true "letrec" rest env
          else if ml_value_eq head y.sym_and
          then handle_and_or ev false rest env
          else if ml_value_eq head y.sym_or
          then handle_and_or ev true rest env
          else if ml_value_eq head y.sym_cond
          then handle_cond ev rest env
          else pure not_handled)
        s

  -- The arguments are popped after a primitive's call, whatever its status.
  unfoldable pub apply_prim : Mprim → List Value → M SfResult
  unfolding call_prim ml_gc_unprotect
  apply_prim p argv =
      if ltb (length argv) p.arity_min || ltb p.arity_max (length argv)
      then (do
        ml_set_error 0 0 (
            microlisp.State.Message.format "%s: wrong number of arguments (got %zu)"
              (Arg.bytes p.name ∷ Arg.num (length argv) ∷ []))
        ml_gc_unprotect (length argv)
        fail Status.arity)
      else (do
        value ← always (ml_gc_unprotect (length argv)) (call_prim p.fn argv)
        pure (sf_value value))

  -- The frame of the call is not on the protect stack while the body's first forms run.
  unfoldable pub apply_closure : Closure → List Value → M SfResult
  unfolding apply_closure_bind ml_gc_unprotect begin_tco
  apply_closure cl argv = do
    new_env ← always (ml_gc_unprotect (length argv)) (apply_closure_bind cl argv)
    begin_tco ev cl.body new_env

  abbrev pub apply_object : Option Obj → List Value → M SfResult
  apply_object (some (primitive p)) argv = apply_prim p argv
  apply_object (some (closure c)) argv = apply_closure c argv
  apply_object _ argv = do
    ml_gc_unprotect (length argv)
    reject Status.type "called value is not a procedure"

  unfoldable pub call_procedure : Value → Value → Value → M SfResult
  unfolding ml_gc_protect ml_gc_restore eval_arg_list get_obj apply_prim apply_closure
      ml_gc_unprotect
  call_procedure head rest env = do
    proc ← ev head env
    sp_proc ← ml_gc_savepoint
    ml_gc_protect proc
    argv ← eval_arg_list ev rest env
    o ← get_obj proc
    result ← apply_object o argv
    ml_gc_restore sp_proc
    pure result

  -- Where the head is no special form the call follows.
  abbrev pub or_call : Value → Value → Value → SfResult → M SfResult
  or_call head rest env not_handled = call_procedure head rest env
  or_call head rest env result = pure result

  unfoldable pub eval_pair : Value → Value → Value → M SfResult
  unfolding special_form call_procedure
  eval_pair head rest env =
      if ml_is_sym head
      then special_form head rest env >>= or_call head rest env
      else call_procedure head rest env

  -- Only pairs are forms; other objects stand for themselves.
  abbrev pub eval_object : Value → Value → Option Obj → M SfResult
  eval_object form env (some (pair head rest)) = eval_pair head rest env
  eval_object form env _ = pure (sf_value form)

  -- One round of the loop on a form.
  unfoldable pub eval_form : Value → Value → M SfResult
  unfolding eval_symbol get_obj eval_pair
  eval_form (fix x) env = pure (sf_value (fix x))
  eval_form (imm x) env = pure (sf_value (imm x))
  eval_form (sym i) env = eval_symbol (sym i) env
  eval_form (obj a) env = do o ← get_obj (obj a); eval_object (obj a) env o

  -- The form and the environment are in the slots `sp` and `sp + 1` of the protect stack.
  unfoldable pub eval_round : ℕ → M SfResult
  unfolding get_protect eval_form ml_gc_restore
  eval_round sp = do
    form ← get_protect sp
    env ← get_protect (sp + 1)
    on_error (ml_gc_restore sp) (eval_form form env)

-- A tail call goes on with the new form and environment in the slots.
abbrev pub next_round : M Value → ℕ → SfResult → M Value
next_round again sp (sf_value v) = ml_gc_restore sp >> pure v
next_round again sp (sf_tco form env) = set_protect sp form >> (set_protect (sp + 1) env >> again)
next_round again sp not_handled = faulty

-- `eval_body`, up to its loop.
unfoldable pub enter_body : (ℕ → M Value) → Value → Value → M Value
unfolding ml_gc_protect ml_gc_restore
enter_body loop form env = do
  sp ← ml_gc_savepoint
  ml_gc_protect form
  on_error (ml_gc_restore sp) (ml_gc_protect env)
  loop sp

-- The depth check and counter of `ml_eval` around a body.
unfoldable pub with_depth : M Value → M Value
with_depth body s =
    if leb s.max_eval_depth s.eval_depth
    then reject_with Status.eval_depth
        "eval recursion depth exceeded limit of %zu (non-tail-recursive code)"
        (Arg.num s.max_eval_depth ∷ []) s
    else always (modify λ t. record t { eval_depth = t.eval_depth - 1 }) body
        (record s { eval_depth = suc s.eval_depth })

unfoldable mutual
  unfolding eval_round set_protect ml_gc_restore enter_body with_depth

  pub eval_loop : ℕ → ℕ → M Value
  eval_loop zero sp s = Run.out_of_fuel
  eval_loop (suc fuel) sp s = (eval_round (ml_eval fuel) sp >>= next_round (eval_loop fuel sp) sp) s

  pub ml_eval : ℕ → Value → Value → M Value
  ml_eval zero form env s = Run.out_of_fuel
  ml_eval (suc fuel) form env s = with_depth (enter_body (eval_loop fuel) form env) s
