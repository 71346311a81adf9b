-- ===== src/Balance/Forms.antt =====
-- The protect stack and the depth counters in the special forms of src/eval.c, for any evaluator
-- that they call.
use microlisp.Base.{
  ℕ, zero, suc, refl, subst, Bool, true, false, not, ◌||◌, Option, none, some, ◌==◌, if◌then◌else◌,
  ltb,
}
use microlisp.Value.{Value, mv_nil, mv_undef, ml_value_eq, ml_is_sym, ml_truthy}
use microlisp.State.{Status, State, Run, M, pure, ◌>>=◌}
use microlisp.Eval.Forms.{
  SfResult, sf_value, sf_tco, has_length, handle_quote, begin_loop, begin_of, begin_tco,
  handle_begin, else_of, if_of, handle_if, define_value, define_symbol, define_procedure,
  define_target, define_of, handle_define, set_outcome, set_value, handle_set_bang, is_params,
  handle_lambda, and_or_loop, and_or_of, handle_and_or, cond_body, clause_of, cond_round, cond_loop,
  cond_of, handle_cond,
}
use microlisp.Balance.{
  Balanced, Steady, Over, Leaves-over, Anything, done, failed, faulted, endless, Steady-pure,
  Steady-bind, Steady-if, Steady-bool, Steady-reject, Steady-reject_with, steady,
}
use microlisp.Balance.Stack.{Leaves-protecting, Leaves-finish, Steady-scoped}
use microlisp.Balance.Store.{Steady-get_pair}
use microlisp.Balance.Tables.{Steady-ml_env_define, Steady-ml_env_set}
use microlisp.Balance.Apply.{Steady-must_pair, Steady-proper_list_length, Steady-make_closure}

ruleset lists = (steady, Steady-get_pair, Steady-must_pair, Steady-proper_list_length)

pub Steady-handle_quote : (args : Value) → Steady (handle_quote args)
unfolding handle_quote
Steady-handle_quote args = Steady-bind (Steady-proper_list_length args) (λ n.
    Steady-if (has_length (λ k. k == 1) n)
      (Steady-bind (Steady-must_pair args) (λ (datum, _). Steady-pure (sf_value datum)))
      (Steady-reject _ _))

module _ (ev : Value → Value → M Value)
    (steady_ev : (form env : Value) → Steady (ev form env)) where
  Steady-begin_loop : (count : ℕ) (forms env : Value) → Steady (begin_loop ev count forms env)
  unfolding begin_loop
  Steady-begin_loop zero forms env = record { at = λ s. endless }
  Steady-begin_loop (suc count) forms env = record {
    at =
        (Steady-bind (Steady-must_pair forms) (λ (form, rest).
          Steady-bind (Steady-get_pair rest)
            (λ more. more_forms rest more form (Steady-begin_loop count rest env)))).at;
  }
    where
      more_forms :
          (rest : Value) (more : Option (Value × Value)) (form : Value)
          → Steady (begin_loop ev count rest env)
          → Steady (elim more [
            | some _ ↦ ev form env >>= (λ _. begin_loop ev count rest env)
            | none ↦ pure (sf_tco form env)
          ])
      more_forms rest none form ih = Steady-pure _
      more_forms rest (some _) form ih = Steady-bind (steady_ev form env) (λ _. ih)

  Steady-begin_of : (forms env : Value) (n : Option ℕ) → Steady (begin_of ev forms env n)
  Steady-begin_of forms env none = Steady-reject _ _
  Steady-begin_of forms env (some n) = Steady-begin_loop n forms env

  pub Steady-begin_tco : (forms env : Value) → Steady (begin_tco ev forms env)
  unfolding begin_tco
  Steady-begin_tco forms env =
      Steady-if (ml_value_eq forms mv_nil) (Steady-pure _)
        (Steady-bind (Steady-proper_list_length forms) (Steady-begin_of forms env))

  pub Steady-handle_begin : (args env : Value) → Steady (handle_begin ev args env)
  unfolding handle_begin
  Steady-handle_begin args env = Steady-begin_tco args env

  Steady-else_of : (n : ℕ) (rest : Value) → Steady (else_of ev n rest)
  Steady-else_of n rest =
      Steady-if (n == 3)
        (Steady-bind (Steady-must_pair rest)
          (λ (_, more). Steady-bind (Steady-must_pair more) (λ (e, _). Steady-pure e)))
        (Steady-pure mv_undef)

  Steady-if_of : (args env : Value) (n : Option ℕ) → Steady (if_of ev args env n)
  Steady-if_of args env none = Steady-reject _ _
  Steady-if_of args env (some n) =
      Steady-if (n == 2 || n == 3)
        (Steady-bind (Steady-must_pair args) (λ (test, rest).
          Steady-bind (Steady-must_pair rest) (λ (then_form, _).
            Steady-bind (Steady-else_of n rest)
              (λ else_form. Steady-bind (steady_ev test env) (λ v. Steady-pure _)))))
        (Steady-reject _ _)

  pub Steady-handle_if : (args env : Value) → Steady (handle_if ev args env)
  unfolding handle_if
  Steady-handle_if args env = Steady-bind (Steady-proper_list_length args) (Steady-if_of args env)

  Steady-define_value : (env name value : Value) → Steady (define_value ev env name value)
  unfolding define_value
  Steady-define_value env name value = record {
    at =
        (Steady-scoped value (Steady-ml_env_define env name value)
          (λ _. Steady-pure (sf_value mv_undef))).at;
  }

  Steady-define_symbol :
      (n : ℕ) (first rest env : Value) → Steady (define_symbol ev n first rest env)
  unfolding define_symbol
  Steady-define_symbol n first rest env =
      Steady-if (n == 2)
        (Steady-bind (Steady-must_pair rest)
          (λ (form, _). Steady-bind (steady_ev form env) (λ v. Steady-define_value env first v)))
        (Steady-reject _ _)

  Steady-define_procedure :
      (name params body env : Value) → Steady (define_procedure ev name params body env)
  unfolding define_procedure
  Steady-define_procedure name params body env =
      Steady-if (ml_is_sym name)
        (Steady-bind (Steady-make_closure params body env) (λ cl. Steady-define_value env name cl))
        (Steady-reject _ _)

  Steady-define_target :
      (n : ℕ) (first rest env : Value) (o : Option (Value × Value))
      → Steady (define_target ev n first rest env o)
  Steady-define_target n first rest env (some (name, params)) =
      Steady-define_procedure name params rest env
  Steady-define_target n first rest env none = Steady-reject _ _

  Steady-define_of : (args env : Value) (n : Option ℕ) → Steady (define_of ev args env n)
  Steady-define_of args env none = Steady-reject _ _
  Steady-define_of args env (some n) = Steady-if (ltb n 2) (Steady-reject _ _) (
      Steady-bind (Steady-must_pair args) (λ (first, rest).
        Steady-if (ml_is_sym first) (Steady-define_symbol n first rest env)
          (Steady-bind (Steady-get_pair first) (Steady-define_target n first rest env))))

  pub Steady-handle_define : (args env : Value) → Steady (handle_define ev args env)
  unfolding handle_define
  Steady-handle_define args env =
      Steady-bind (Steady-proper_list_length args) (Steady-define_of args env)

  set_outcome-Balanced :
      (name : Value) (s : State) {r : Run (Unit {0})}
      → Balanced s r
      → Balanced s (set_outcome ev name r)
  set_outcome-Balanced name s (done ws e o) = done ws e o
  set_outcome-Balanced name s (failed {e = Status.unbound} {t} ws e o) =
      Leaves-over (subst (λ xs. Over s xs t) e o) refl refl ((Steady-reject_with _ _ _).at t)
  set_outcome-Balanced name s (failed ws e o) = failed ws e o
  set_outcome-Balanced name s faulted = faulted
  set_outcome-Balanced name s endless = endless

  Steady-set_value : (env name value : Value) → Steady (set_value ev env name value)
  unfolding set_value
  Steady-set_value env name value = record {
    at = λ s. Leaves-protecting value s _ λ t o. set_outcome-Balanced name s (
        Leaves-finish (
          Leaves-over {P = Anything} {Q = Anything} o tt tt
            ((Steady-ml_env_set env name value).at t)));
  }

  pub Steady-handle_set_bang : (args env : Value) → Steady (handle_set_bang ev args env)
  unfolding handle_set_bang
  Steady-handle_set_bang args env = Steady-bind (Steady-proper_list_length args) (λ n.
      Steady-if (has_length (λ k. k == 2) n)
        (Steady-bind (Steady-must_pair args) (λ (name, rest).
          Steady-if (ml_is_sym name)
            (Steady-bind (Steady-must_pair rest)
              (λ (form, _). Steady-bind (steady_ev form env) (λ v. Steady-set_value env name v)))
            (Steady-reject _ _)))
        (Steady-reject _ _))

  pub Steady-handle_lambda : (args env : Value) → Steady (handle_lambda ev args env)
  unfolding handle_lambda
  Steady-handle_lambda args env = Steady-bind (Steady-proper_list_length args) (λ n.
      Steady-if (has_length (λ k. not (ltb k 2)) n)
        (Steady-bind (Steady-must_pair args) (λ (params, body).
          Steady-bind (Steady-get_pair params) (λ p.
            Steady-if (is_params ev p params)
              (Steady-bind (Steady-make_closure params body env) (λ cl. Steady-pure (sf_value cl)))
              (Steady-reject _ _))))
        (Steady-reject _ _))

  Steady-and_or_loop :
      (is_or : Bool) (count : ℕ) (args env : Value) → Steady (and_or_loop ev is_or count args env)
  unfolding and_or_loop
  Steady-and_or_loop is_or zero args env = record { at = λ s. endless }
  Steady-and_or_loop is_or (suc count) args env = record {
    at =
        (Steady-bind (Steady-must_pair args) (λ (form, rest).
          Steady-bind (Steady-get_pair rest)
            (λ more. operand rest more form (Steady-and_or_loop is_or count rest env)))).at;
  }
    where
      operand :
          (rest : Value) (more : Option (Value × Value)) (form : Value)
          → Steady (and_or_loop ev is_or count rest env)
          → Steady (elim more [
            | none ↦ pure (sf_tco form env)
            | some _ ↦ do
              v ← ev form env
              elim (if is_or then ml_truthy v else not (ml_truthy v)) [
                | true ↦ pure (sf_value v)
                | false ↦ and_or_loop ev is_or count rest env
              ]
          ])
      operand rest none form ih = Steady-pure _
      operand rest (some _) form ih = Steady-bind (steady_ev form env) (λ v.
          Steady-bool (if is_or then ml_truthy v else not (ml_truthy v)) (Steady-pure (sf_value v))
            ih)

  Steady-and_or_of :
      (is_or : Bool) (args env : Value) (n : Option ℕ) → Steady (and_or_of ev is_or args env n)
  Steady-and_or_of is_or args env none = Steady-reject_with _ _ _
  Steady-and_or_of is_or args env (some n) = Steady-and_or_loop is_or n args env

  pub Steady-handle_and_or :
      (is_or : Bool) (args env : Value) → Steady (handle_and_or ev is_or args env)
  unfolding handle_and_or
  Steady-handle_and_or is_or args env =
      Steady-if (ml_value_eq args mv_nil) (Steady-pure _)
        (Steady-bind (Steady-proper_list_length args) (Steady-and_or_of is_or args env))

  Steady-cond_body : (test_v body env : Value) → Steady (cond_body ev test_v body env)
  unfolding cond_body
  Steady-cond_body test_v body env =
      Steady-if (ml_value_eq body mv_nil) (Steady-pure _) (Steady-begin_tco body env)

  Steady-clause_of : (o : Option (Value × Value)) → Steady (clause_of ev o)
  Steady-clause_of none = Steady-reject _ _
  Steady-clause_of (some p) = Steady-pure p

  Steady-cond_round :
      (again : Value → M SfResult) (env cur : Value) (o : Option (Value × Value))
      → ((v : Value) → Steady (again v))
      → Steady (cond_round ev again env cur o)
  Steady-cond_round again env cur none ih = record { at = (Steady-pure _).at }
  Steady-cond_round again env cur (some (clause, rest)) ih = record {
    at = λ s.
        (Steady-bind (Steady-bind (Steady-get_pair clause) Steady-clause_of) (λ (test, body).
            Steady-if (ml_value_eq test s.syms.sym_else) (Steady-begin_tco body env) (
              Steady-bind (steady_ev test env)
                (λ v. Steady-if (ml_truthy v) (Steady-cond_body v body env) (ih rest))))).at
          s;
  }

  Steady-cond_loop : (count : ℕ) (env cur : Value) → Steady (cond_loop ev count env cur)
  unfolding cond_loop
  Steady-cond_loop zero env cur = record { at = λ s. endless }
  Steady-cond_loop (suc count) env cur = record {
    at =
        (Steady-bind (Steady-get_pair cur) (λ o.
          Steady-cond_round (cond_loop ev count env) env cur o (Steady-cond_loop count env))).at;
  }

  Steady-cond_of : (args env : Value) (n : Option ℕ) → Steady (cond_of ev args env n)
  Steady-cond_of args env none = Steady-reject _ _
  Steady-cond_of args env (some n) = Steady-cond_loop (suc n) env args

  pub Steady-handle_cond : (args env : Value) → Steady (handle_cond ev args env)
  unfolding handle_cond
  Steady-handle_cond args env =
      Steady-bind (Steady-proper_list_length args) (Steady-cond_of args env)
