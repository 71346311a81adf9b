-- ===== src/Eval/Forms.antt =====
-- Special forms of src/eval.c other than the let family: handle_quote to handle_cond.
use microlisp.Base.{
  ℕ, zero, suc, Bool, true, false, not, ◌||◌, Option, none, some, [], ◌∷◌, ltb, ◌==◌, if◌then◌else◌,
}
use microlisp.Value.{Value, mv_nil, mv_undef, mv_true, mv_false, ml_value_eq, ml_is_sym, ml_truthy}
use microlisp.State.{
  Status, Arg, Run, M, ok, err, fault, pure, always, reject, reject_with, ◌>>=◌, ◌>>◌,
}
use microlisp.Gc.{ml_gc_protect, ml_gc_savepoint, ml_gc_restore}
use microlisp.Symtab.{ml_sym_name}
use microlisp.Env.{ml_env_define, ml_env_set}
use microlisp.Primitives.Data.{get_pair}
use microlisp.Eval.Lists.{must_pair, proper_list_length}
use microlisp.Eval.Apply.{make_closure}

-- How a handler ends: a value in `*out`, or a form and an environment to go on with.
pub data SfResult : Type 0 where
  not_handled : SfResult
  sf_value : Value → SfResult
  sf_tco : Value → Value → SfResult

-- `n == k` for the length of a proper list.
abbrev pub has_length : (ℕ → Bool) → Option ℕ → Bool
has_length p none = false
has_length p (some n) = p n

unfoldable pub handle_quote : Value → M SfResult
unfolding proper_list_length must_pair
handle_quote args = do
  n ← proper_list_length args
  if has_length (λ k. k == 1) n
      then (do (datum, _) ← must_pair args; pure (sf_value datum))
      else reject Status.syntax "quote requires exactly one argument"

module _ (ev : Value → Value → M Value) where
  -- The forms before the last are evaluated for effect; `count` bounds the rounds.
  unfoldable pub begin_loop : ℕ → Value → Value → M SfResult
  unfolding must_pair get_pair
  begin_loop zero forms env s = Run.out_of_fuel
  begin_loop (suc count) forms env s =
      (do
        (form, rest) ← must_pair forms
        more ← get_pair rest
        elim more [
          | some _ ↦ ev form env >>= (λ _. begin_loop count rest env)
          | none ↦ pure (sf_tco form env)
        ])
        s

  abbrev pub begin_of : Value → Value → Option ℕ → M SfResult
  begin_of forms env none = reject Status.syntax "body must be a proper list"
  begin_of forms env (some n) = begin_loop n forms env

  unfoldable pub begin_tco : Value → Value → M SfResult
  unfolding proper_list_length begin_loop
  begin_tco forms env =
      if ml_value_eq forms mv_nil
      then pure (sf_value mv_undef)
      else proper_list_length forms >>= begin_of forms env

  unfoldable pub handle_begin : Value → Value → M SfResult
  unfolding begin_tco
  handle_begin args env = begin_tco args env

  -- The branch that the test selects; with no else form a false test gives no value.
  unfoldable pub if_branch : ℕ → Value → Value → Value → Value → SfResult
  if_branch n test_v then_form else_form env =
      if ml_truthy test_v
      then sf_tco then_form env
      else if n == 3
      then sf_tco else_form env
      else sf_value mv_undef

  abbrev pub else_of : ℕ → Value → M Value
  else_of n rest =
      if n == 3
      then (do (_, more) ← must_pair rest; (else_form, _) ← must_pair more; pure else_form)
      else pure mv_undef

  abbrev pub if_of : Value → Value → Option ℕ → M SfResult
  if_of args env none = reject Status.syntax "if requires 2 or 3 arguments"
  if_of args env (some n) =
      if n == 2 || n == 3
      then (do
        (test_form, rest) ← must_pair args
        (then_form, _) ← must_pair rest
        else_form ← else_of n rest
        test_v ← ev test_form env
        pure (if_branch n test_v then_form else_form env))
      else reject Status.syntax "if requires 2 or 3 arguments"

  unfoldable pub handle_if : Value → Value → M SfResult
  unfolding proper_list_length must_pair if_branch
  handle_if args env = proper_list_length args >>= if_of args env

  -- The value is protected while it is bound.
  unfoldable pub define_value : Value → Value → Value → M SfResult
  unfolding ml_gc_protect ml_gc_restore ml_env_define
  define_value env name value = do
    sp ← ml_gc_savepoint
    ml_gc_protect value
    always (ml_gc_restore sp) (ml_env_define env name value)
    pure (sf_value mv_undef)

  -- (define <symbol> <expr>)
  unfoldable pub define_symbol : ℕ → Value → Value → Value → M SfResult
  unfolding must_pair define_value
  define_symbol n first rest env =
      if n == 2
      then (do (form, _) ← must_pair rest; value ← ev form env; define_value env first value)
      else reject Status.syntax "define with a name takes exactly one value expression"

  -- (define (<symbol> <params...>) <body>...)
  unfoldable pub define_procedure : Value → Value → Value → Value → M SfResult
  unfolding make_closure define_value
  define_procedure name params body env =
      if ml_is_sym name
      then (do cl ← make_closure params body env; define_value env name cl)
      else reject Status.syntax "define: name must be a symbol"

  abbrev pub define_target : ℕ → Value → Value → Value → Option (Value × Value) → M SfResult
  define_target n first rest env (some (name, params)) = define_procedure name params rest env
  define_target n first rest env none =
      reject Status.syntax "define: first argument must be a symbol or list"

  abbrev pub define_of : Value → Value → Option ℕ → M SfResult
  define_of args env none = reject Status.syntax "define requires a name and a body"
  define_of args env (some n) =
      if ltb n 2 then reject Status.syntax "define requires a name and a body" else (do
        (first, rest) ← must_pair args
        if ml_is_sym first
            then define_symbol n first rest env
            else get_pair first >>= define_target n first rest env)

  unfoldable pub handle_define : Value → Value → M SfResult
  unfolding proper_list_length must_pair get_pair define_symbol define_procedure
  handle_define args env = proper_list_length args >>= define_of args env

  -- The message for an unbound name replaces what was recorded before.
  abbrev pub set_outcome : Value → Run (Unit {0}) → Run SfResult
  set_outcome name (ok _ s) = ok (sf_value mv_undef) s
  set_outcome name (err Status.unbound s) =
      reject_with Status.unbound "set!: unbound variable `%.*s`"
        (Arg.bytes (ml_sym_name s name) ∷ []) s
  set_outcome name (err e s) = err e s
  set_outcome name fault = fault
  set_outcome name Run.out_of_fuel = Run.out_of_fuel

  unfoldable pub set_value : Value → Value → Value → M SfResult
  unfolding ml_gc_protect ml_gc_restore ml_env_set ml_sym_name
  set_value env name value = do
    sp ← ml_gc_savepoint
    ml_gc_protect value
    λ s. set_outcome name (always (ml_gc_restore sp) (ml_env_set env name value) s)

  unfoldable pub handle_set_bang : Value → Value → M SfResult
  unfolding proper_list_length must_pair set_value
  handle_set_bang args env = do
    n ← proper_list_length args
    if has_length (λ k. k == 2) n
        then (do
          (name, rest) ← must_pair args
          if ml_is_sym name
              then (do (form, _) ← must_pair rest; value ← ev form env; set_value env name value)
              else reject Status.syntax "set!: target must be a symbol")
        else reject Status.syntax "set! requires a name and a value"

  abbrev pub is_params : Option (Value × Value) → Value → Bool
  is_params (some _) params = true
  is_params none params = ml_value_eq params mv_nil || ml_is_sym params

  unfoldable pub handle_lambda : Value → Value → M SfResult
  unfolding proper_list_length must_pair get_pair make_closure
  handle_lambda args env = do
    n ← proper_list_length args
    if has_length (λ k. not (ltb k 2)) n
        then (do
          (params, body) ← must_pair args
          p ← get_pair params
          if is_params p params
              then (do cl ← make_closure params body env; pure (sf_value cl))
              else reject Status.syntax "lambda: parameter spec must be a list or symbol")
        else reject Status.syntax "lambda requires a parameter list and a body"

  -- The operands before the last, until one decides; `count` bounds the rounds.
  unfoldable pub and_or_loop : Bool → ℕ → Value → Value → M SfResult
  unfolding must_pair get_pair
  and_or_loop is_or zero args env s = Run.out_of_fuel
  and_or_loop is_or (suc count) args env s =
      (do
        (form, rest) ← must_pair args
        more ← get_pair rest
        elim more [
          | none ↦ pure (sf_tco form env)
          | some _ ↦ do
            v ← ev form env
            elim (if is_or then ml_truthy v else not (ml_truthy v)) [
              | true ↦ pure (sf_value v)
              | false ↦ and_or_loop is_or count rest env
            ]
        ])
        s

  abbrev pub and_or_of : Bool → Value → Value → Option ℕ → M SfResult
  and_or_of is_or args env none =
      reject_with Status.syntax "%s: argument list must be a proper list"
        (Arg.text (if is_or then "or" else "and") ∷ [])
  and_or_of is_or args env (some n) = and_or_loop is_or n args env

  unfoldable pub handle_and_or : Bool → Value → Value → M SfResult
  unfolding proper_list_length and_or_loop
  handle_and_or is_or args env =
      if ml_value_eq args mv_nil
      then pure (sf_value (if is_or then mv_false else mv_true))
      else proper_list_length args >>= and_or_of is_or args env

  -- What follows a clause whose test holds.
  unfoldable pub cond_body : Value → Value → Value → M SfResult
  unfolding begin_tco
  cond_body test_v body env =
      if ml_value_eq body mv_nil then pure (sf_value test_v) else begin_tco body env

  abbrev pub clause_of : Option (Value × Value) → M (Value × Value)
  clause_of none = reject Status.syntax "cond: clause must be a list"
  clause_of (some p) = pure p

  abbrev pub cond_round : (Value → M SfResult) → Value → Value → Option (Value × Value) → M SfResult
  cond_round again env cur none s = ok (sf_value mv_undef) s
  cond_round again env cur (some (clause, rest)) s =
      (do
        (test, body) ← get_pair clause >>= clause_of
        if ml_value_eq test s.syms.sym_else then begin_tco body env else do
          test_v ← ev test env
          if ml_truthy test_v then cond_body test_v body env else again rest)
        s

  unfoldable pub cond_loop : ℕ → Value → Value → M SfResult
  unfolding get_pair begin_tco cond_body
  cond_loop zero env cur s = Run.out_of_fuel
  cond_loop (suc count) env cur s = (get_pair cur >>= cond_round (cond_loop count env) env cur) s

  abbrev pub cond_of : Value → Value → Option ℕ → M SfResult
  cond_of args env none = reject Status.syntax "cond: clause list must be a proper list"
  cond_of args env (some n) = cond_loop (suc n) env args

  unfoldable pub handle_cond : Value → Value → M SfResult
  unfolding proper_list_length cond_loop
  handle_cond args env = proper_list_length args >>= cond_of args env
