-- ===== src/Balance/Let.antt =====
-- The protect stack and the depth counters in let, let* and letrec of src/eval.c, for any evaluator
-- that they call.
use Prim.Native.String.{String}
use microlisp.Base.{ℕ, zero, suc, Bool, ◌||◌, Option, none, some, if◌then◌else◌, ltb}
use microlisp.Value.{Value, mv_undef}
use microlisp.State.{M}
use microlisp.Eval.Let.{
  is_binding, init_of, binding_of, get_binding, predefine_round, predefine, bind_init,
  bindings_round, bindings_loop, let_in, let_bindings, let_of, handle_let_family,
}
use microlisp.Balance.{
  Steady, Leaves-over, Leaves-and_then, Anything, endless, Steady-pure, Steady-bind, Steady-if,
  Steady-reject_with,
}
use microlisp.Balance.Stack.{Leaves-protecting, Leaves-finish}
use microlisp.Balance.Store.{Steady-get_pair, Steady-ml_gc_alloc_env}
use microlisp.Balance.Tables.{Steady-ml_env_define}
use microlisp.Balance.Apply.{Steady-must_pair, Steady-proper_list_length, kept_over}
use microlisp.Balance.Forms.{Steady-begin_tco}

Steady-binding_of :
    (form_name : String) (o : Option (Value × Value)) → Steady (binding_of form_name o)
Steady-binding_of form_name none = Steady-reject_with _ _ _
Steady-binding_of form_name (some (name, rest)) =
    Steady-bind (Steady-get_pair rest) (λ p.
      Steady-if (is_binding name p) (Steady-pure (name, init_of p)) (Steady-reject_with _ _ _))

Steady-get_binding : (form_name : String) (v : Value) → Steady (get_binding form_name v)
unfolding get_binding
Steady-get_binding form_name v = Steady-bind (Steady-get_pair v) (Steady-binding_of form_name)

Steady-predefine_round :
    (again : Value → M (Unit {0})) (form_name : String) (inner : Value) (o : Option (Value × Value))
    → ((v : Value) → Steady (again v))
    → Steady (predefine_round again form_name inner o)
Steady-predefine_round again form_name inner none ih = Steady-pure tt
Steady-predefine_round again form_name inner (some (binding, rest)) ih =
    Steady-bind (Steady-get_binding form_name binding)
      (λ (name, _). Steady-bind (Steady-ml_env_define inner name mv_undef) (λ _. ih rest))

Steady-predefine :
    (fuel : ℕ) (form_name : String) (inner cur : Value)
    → Steady (predefine fuel form_name inner cur)
unfolding predefine
Steady-predefine zero form_name inner cur = record { at = λ s. endless }
Steady-predefine (suc fuel) form_name inner cur = record {
  at =
      (Steady-bind (Steady-get_pair cur) (λ o.
        Steady-predefine_round (predefine fuel form_name inner) form_name inner o
          (Steady-predefine fuel form_name inner))).at;
}

module _ (ev : Value → Value → M Value)
    (steady_ev : (form env : Value) → Steady (ev form env)) where
  Steady-bind_init :
      (inner init_env name init : Value) → Steady (bind_init ev inner init_env name init)
  unfolding bind_init
  Steady-bind_init inner init_env name init = Steady-bind (steady_ev init init_env) (λ v. record {
    at = λ s. Leaves-protecting v s _ λ t o. Leaves-finish (
        Leaves-over {P = Anything} {Q = Anything} o tt tt
          ((Steady-ml_env_define inner name v).at t));
  })

  Steady-bindings_round :
      (again : Value → M (Unit {0})) (form_name : String) (inner init_env : Value)
      (o : Option (Value × Value))
      → ((v : Value) → Steady (again v))
      → Steady (bindings_round ev again form_name inner init_env o)
  Steady-bindings_round again form_name inner init_env none ih = Steady-pure tt
  Steady-bindings_round again form_name inner init_env (some (binding, rest)) ih =
      Steady-bind (Steady-get_binding form_name binding)
        (λ (name, init). Steady-bind (Steady-bind_init inner init_env name init) (λ _. ih rest))

  Steady-bindings_loop :
      (fuel : ℕ) (form_name : String) (inner init_env cur : Value)
      → Steady (bindings_loop ev fuel form_name inner init_env cur)
  unfolding bindings_loop
  Steady-bindings_loop zero form_name inner init_env cur = record { at = λ s. endless }
  Steady-bindings_loop (suc fuel) form_name inner init_env cur = record {
    at =
        (Steady-bind (Steady-get_pair cur) (λ o.
          Steady-bindings_round (bindings_loop ev fuel form_name inner init_env) form_name inner
            init_env o (Steady-bindings_loop fuel form_name inner init_env))).at;
  }

  Steady-let_in :
      (starlike recursive : Bool) (form_name : String) (blen : ℕ) (bindings body env : Value)
      → Steady (let_in ev starlike recursive form_name blen bindings body env)
  unfolding let_in
  Steady-let_in starlike recursive form_name blen bindings body env =
      Steady-bind (Steady-ml_gc_alloc_env env) λ inner. record {
        at = λ s. Leaves-protecting inner s _ λ t o.
            Leaves-and_then _ _
              (kept_over o (
                Steady-if recursive (Steady-predefine (suc blen) form_name inner bindings)
                  (Steady-pure tt)))
              λ _ u xs e o1.
                Leaves-and_then _ _
                  (kept_over o1 (
                    Steady-bindings_loop (suc blen) form_name inner
                      (if starlike || recursive then inner else env) bindings))
                  λ _ x ys e' o2. Leaves-finish (
                    Leaves-over {P = Anything} {Q = Anything} o2 tt tt
                      ((Steady-begin_tco ev steady_ev body inner).at x));
      }

  Steady-let_bindings :
      (starlike recursive : Bool) (form_name : String) (bindings body env : Value) (n : Option ℕ)
      → Steady (let_bindings ev starlike recursive form_name bindings body env n)
  Steady-let_bindings starlike recursive form_name bindings body env none = Steady-reject_with _ _ _
  Steady-let_bindings starlike recursive form_name bindings body env (some blen) =
      Steady-let_in starlike recursive form_name blen bindings body env

  Steady-let_of :
      (starlike recursive : Bool) (form_name : String) (args env : Value) (n : Option ℕ)
      → Steady (let_of ev starlike recursive form_name args env n)
  Steady-let_of starlike recursive form_name args env none = Steady-reject_with _ _ _
  Steady-let_of starlike recursive form_name args env (some n) =
      Steady-if (ltb n 2) (Steady-reject_with _ _ _) (
        Steady-bind (Steady-must_pair args) (λ (bindings, body).
          Steady-bind (Steady-proper_list_length bindings)
            (Steady-let_bindings starlike recursive form_name bindings body env)))

  pub Steady-handle_let_family :
      (starlike recursive : Bool) (form_name : String) (args env : Value)
      → Steady (handle_let_family ev starlike recursive form_name args env)
  unfolding handle_let_family
  Steady-handle_let_family starlike recursive form_name args env =
      Steady-bind (Steady-proper_list_length args)
        (Steady-let_of starlike recursive form_name args env)
