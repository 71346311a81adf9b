-- ===== src/Eval/Let.antt =====
-- let, let* and letrec of src/eval.c: handle_let_family.
use Prim.Native.String.{String}
use microlisp.Base.{
  ℕ, zero, suc, Bool, false, ◌&&◌, ◌||◌, Option, none, some, [], ◌∷◌, ltb, if◌then◌else◌,
}
use microlisp.Value.{Value, mv_nil, mv_undef, ml_value_eq, ml_is_sym}
use microlisp.State.{Status, Arg, Run, M, pure, on_error, always, reject_with, ◌>>=◌, ◌>>◌}
use microlisp.Gc.{ml_gc_alloc_env, ml_gc_protect, ml_gc_savepoint, ml_gc_restore}
use microlisp.Env.{ml_env_define}
use microlisp.Primitives.Data.{get_pair}
use microlisp.Eval.Lists.{must_pair, proper_list_length}
use microlisp.Eval.Forms.{SfResult, begin_tco}

-- `(name expr)`: the name, and the list that holds the expression.
abbrev pub is_binding : Value → Option (Value × Value) → Bool
is_binding name none = false
is_binding name (some (init, end)) = ml_value_eq end mv_nil && ml_is_sym name

abbrev pub init_of : Option (Value × Value) → Value
init_of none = mv_undef
init_of (some (init, end)) = init

abbrev pub bad_binding : String → M (Value × Value)
bad_binding form_name =
    reject_with Status.syntax "%s: bindings must look like (name expr)" (Arg.text form_name ∷ [])

abbrev pub binding_of : String → Option (Value × Value) → M (Value × Value)
binding_of form_name none = bad_binding form_name
binding_of form_name (some (name, rest)) = do
  p ← get_pair rest
  if is_binding name p then pure (name, init_of p) else bad_binding form_name

-- The name and the init form of a binding, or the syntax error.
unfoldable pub get_binding : String → Value → M (Value × Value)
unfolding get_pair
get_binding form_name v = get_pair v >>= binding_of form_name

abbrev pub predefine_round :
    (Value → M (Unit {0})) → String → Value → Option (Value × Value) → M (Unit {0})
predefine_round again form_name inner none = pure tt
predefine_round again form_name inner (some (binding, rest)) = do
  (name, _) ← get_binding form_name binding
  ml_env_define inner name mv_undef
  again rest

-- letrec binds every name to the undefined value first.
unfoldable pub predefine : ℕ → String → Value → Value → M (Unit {0})
unfolding get_pair get_binding ml_env_define
predefine zero form_name inner cur s = Run.out_of_fuel
predefine (suc fuel) form_name inner cur s =
    (get_pair cur >>= predefine_round (predefine fuel form_name inner) form_name inner) s

module _ (ev : Value → Value → M Value) where
  -- One binding, its value protected while it is bound.
  unfoldable pub bind_init : Value → Value → Value → Value → M (Unit {0})
  unfolding ml_gc_protect ml_gc_restore ml_env_define
  bind_init inner init_env name init = do
    v ← ev init init_env
    sp2 ← ml_gc_savepoint
    ml_gc_protect v
    always (ml_gc_restore sp2) (ml_env_define inner name v)

  abbrev pub bindings_round :
      (Value → M (Unit {0})) → String → Value → Value → Option (Value × Value) → M (Unit {0})
  bindings_round again form_name inner init_env none = pure tt
  bindings_round again form_name inner init_env (some (binding, rest)) = do
    (name, init) ← get_binding form_name binding
    bind_init inner init_env name init
    again rest

  unfoldable pub bindings_loop : ℕ → String → Value → Value → Value → M (Unit {0})
  unfolding get_pair get_binding bind_init
  bindings_loop zero form_name inner init_env cur s = Run.out_of_fuel
  bindings_loop (suc fuel) form_name inner init_env cur s =
      (get_pair cur
          >>= bindings_round (bindings_loop fuel form_name inner init_env) form_name inner init_env)
        s

  -- The new frame is protected from here to the end of the body's first forms.
  unfoldable pub let_in : Bool → Bool → String → ℕ → Value → Value → Value → M SfResult
  unfolding ml_gc_alloc_env ml_gc_protect ml_gc_restore predefine bindings_loop begin_tco
  let_in starlike recursive form_name blen bindings body env = do
    inner ← ml_gc_alloc_env env
    sp ← ml_gc_savepoint
    ml_gc_protect inner
    on_error (ml_gc_restore sp)
        (if recursive then predefine (suc blen) form_name inner bindings else pure tt)
    on_error (ml_gc_restore sp) (
        bindings_loop (suc blen) form_name inner (if starlike || recursive then inner else env)
          bindings)
    always (ml_gc_restore sp) (begin_tco ev body inner)

  abbrev pub let_bindings : Bool → Bool → String → Value → Value → Value → Option ℕ → M SfResult
  let_bindings starlike recursive form_name bindings body env none =
      reject_with Status.syntax "%s: bindings must be a proper list" (Arg.text form_name ∷ [])
  let_bindings starlike recursive form_name bindings body env (some blen) =
      let_in starlike recursive form_name blen bindings body env

  abbrev pub let_refused : String → M SfResult
  let_refused form_name =
      reject_with Status.syntax "%s requires a bindings list and a body" (Arg.text form_name ∷ [])

  abbrev pub let_of : Bool → Bool → String → Value → Value → Option ℕ → M SfResult
  let_of starlike recursive form_name args env none = let_refused form_name
  let_of starlike recursive form_name args env (some n) =
      if ltb n 2 then let_refused form_name else (do
        (bindings, body) ← must_pair args
        blen ← proper_list_length bindings
        let_bindings starlike recursive form_name bindings body env blen)

  unfoldable pub handle_let_family : Bool → Bool → String → Value → Value → M SfResult
  unfolding proper_list_length must_pair let_in
  handle_let_family starlike recursive form_name args env =
      proper_list_length args >>= let_of starlike recursive form_name args env
