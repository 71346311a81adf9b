-- ===== src/Balance/Loop.antt =====
-- The protect stack and the depth counters in ml_eval and eval_body of src/eval.c.
use microlisp.Base.{
  ℕ, zero, suc, ◌+◌, ◌-◌, ◌≡◌, refl, ap, ◌∙◌, subst, ◌∷◌, ◌++◌, [], List, Option, Option-cases, inl,
  inr, ◌⊎◌, Bool-cases, some, length, set, set-length, get_elem?, leb, arith,
}
use microlisp.Value.{Value, Obj, obj, fix, imm, pair, ml_is_sym}
use microlisp.State.{Status, State, Run, M, ok, fault, pure, and_then, modify, ◌>>=◌, ◌>>◌}
use microlisp.Gc.{ml_gc_protect, ml_gc_restore}
use microlisp.Primitives.Data.{set_protect}
use microlisp.Equal.{get_obj}
use microlisp.Eval.Lists.{eval_arg_list}
use microlisp.Eval.Forms.{SfResult, not_handled, sf_value, sf_tco}
use microlisp.Eval.Loop.{
  get_protect, symbol_outcome, eval_symbol, apply_object, call_procedure, or_call, eval_pair,
  eval_object, eval_form, eval_round, next_round, enter_body, with_depth, eval_loop, ml_eval,
}
use microlisp.Balance.Calls.{
  Args, pushed, dropped, args_fault, args_endless, Steady-special_form, apply_object-Balanced,
  get_obj_cases, eval_arg_list-Args,
}
use microlisp.Balance.{
  Balanced, Steady, Over, Over_trans, Leaves, Leaves-over, Leaves-trans, Leaves-and_then,
  Balanced-finish, Nothing, Anything, done, failed, faulted, endless, Balanced-if, Steady-pure,
  Steady-reject_with,
}
use microlisp.Balance.Stack.{Leaves-protect, Leaves-protecting, Leaves-clean_up, Leaves-restore}
use microlisp.Balance.Tables.{Steady-ml_env_lookup}

pub loose {ℓ} :
    {A : Type ℓ} {P : List Value → Type 0} {s : State} {r : Run A}
    → Leaves P Nothing s r
    → Leaves P Anything s r
loose (done ws p o) = done ws p o
loose (failed ws q o) = failed ws tt o
loose faulted = faulted
loose endless = endless

module _ (ev : Value → Value → M Value)
    (steady_ev : (form env : Value) → Steady (ev form env)) where
  -- The arguments' values, once they are on the stack, go to `k`, which pops them.
  called-Args :
      (s u : State) (ws : List Value) {r : Run (List Value)} (k : List Value → M SfResult)
      → Over s ws u
      → Args u [] r
      → ((argv : List Value) (t : State) → Over u argv t → Leaves Nothing Anything s (k argv t))
      → Leaves Nothing Anything s (and_then r k)
  called-Args s u ws k o (pushed {ws = vs} {t} o') f = f vs t o'
  called-Args s u ws k o (dropped o') f = failed (ws ++ []) tt (Over_trans o o')
  called-Args s u ws k o args_fault f = faulted
  called-Args s u ws k o args_endless f = endless

  -- The call itself, and the savepoint below the procedure restored.
  applied :
      (s u : State) (ws : List Value) (proc : Value) (argv : List Value) (t : State)
      → Over s ws u
      → Over u argv t
      → Leaves Nothing Anything s (
          and_then (get_obj proc t) (λ x. apply_object ev x argv >>= λ result.
          ml_gc_restore (length s.gc_protect) >> pure result))
  applied s u ws proc argv t o o' = elim (get_obj_cases proc t) [
    | inl e ↦ rw e faulted
    | inr (x, e) ↦ rw e (
        Leaves-and_then _ _
          (Leaves-trans {P' = Anything} {Q' = Anything} o
            (apply_object-Balanced ev steady_ev x argv u t o') (λ _ _. tt) (λ _ _. tt))
          λ result y vs _ p. Leaves-restore (pure result) p (λ z q. done [] refl q))
  ]

  called_with :
      (proc rest env : Value) (s : State)
      → Leaves Nothing Anything s (
          (ml_gc_protect proc
              >> (eval_arg_list ev rest env >>= λ argv. get_obj proc >>= λ x.
                  apply_object ev x argv >>= λ result.
                  ml_gc_restore (length s.gc_protect) >> pure result))
            s)
  called_with proc rest env s = Leaves-and_then _ _ (loose (Leaves-protect proc s)) λ _ u ws _ o.
      called-Args s u ws _ o (eval_arg_list-Args ev steady_ev rest env u)
        (λ argv t o'. applied s u ws proc argv t o o')

  -- A call leaves the stack as it was, but an error may leave values that the caller drops.
  called :
      (head rest env : Value) (s : State)
      → Leaves Nothing Anything s (call_procedure ev head rest env s)
  unfolding call_procedure
  called head rest env s = Leaves-and_then _ _ (loose ((steady_ev head env).at s)) λ proc t ws e o.
      Leaves-trans (subst (λ xs. Over s xs t) e o) (called_with proc rest env t) (λ _ q. q)
        (λ _ _. tt)

  or_called :
      (head rest env : Value) (r : SfResult) (s : State)
      → Leaves Nothing Anything s (or_call ev head rest env r s)
  or_called head rest env not_handled s = called head rest env s
  or_called head rest env (sf_value v) s = loose ((Steady-pure _).at s)
  or_called head rest env (sf_tco f e) s = loose ((Steady-pure _).at s)

  pair_lem :
      (head rest env : Value) (s : State) → Leaves Nothing Anything s (eval_pair ev head rest env s)
  unfolding eval_pair
  pair_lem head rest env s = elim (Bool-cases (ml_is_sym head)) [
    | inr no_name ↦ rw no_name (called head rest env s)
    | inl name ↦ rw name (
        Leaves-and_then _ _ (loose ((Steady-special_form ev steady_ev head rest env).at s))
          λ r t ws e o.
            Leaves-trans (subst (λ xs. Over s xs t) e o) (or_called head rest env r t) (λ _ q. q)
              (λ _ _. tt))
  ]

  object_lem :
      (form env : Value) (x : Option Obj) (s : State)
      → Leaves Nothing Anything s (eval_object ev form env x s)
  object_lem form env (some (pair head rest)) s = pair_lem head rest env s
  object_lem form env _ s = loose ((Steady-pure (sf_value form)).at s)

  symbol_lem : (form env : Value) (s : State) → Balanced s (eval_symbol form env s)
  unfolding eval_symbol
  symbol_lem form env s = outcome ((Steady-ml_env_lookup env form).at s)
    where
      outcome : {r : Run Value} → Balanced s r → Balanced s (symbol_outcome form r)
      outcome (done ws e o) = done ws e o
      outcome (failed {e = Status.unbound} {t} ws e o) =
          Leaves-over (subst (λ xs. Over s xs t) e o) refl refl ((Steady-reject_with _ _ _).at t)
      outcome (failed ws e o) = failed ws e o
      outcome faulted = faulted
      outcome endless = endless

  form_lem : (form env : Value) (s : State) → Leaves Nothing Anything s (eval_form ev form env s)
  unfolding eval_form
  form_lem (fix x) env s = loose ((Steady-pure (sf_value (fix x))).at s)
  form_lem (imm x) env s = loose ((Steady-pure (sf_value (imm x))).at s)
  form_lem (Value.sym i) env s = loose (symbol_lem (Value.sym i) env s)
  form_lem (obj a) env s = elim (get_obj_cases (obj a) s) [
    | inl e ↦ rw e faulted
    | inr (x, e) ↦ rw e (object_lem (obj a) env x s)
  ]

get_protect_cases :
    (i : ℕ) (s : State) → (get_protect i s ≡ fault) ⊎ ((v : Value) × (get_protect i s ≡ ok v s))
unfolding get_protect
get_protect_cases i s = elim (Option-cases (get_elem? s.gc_protect i)) [
  | inl e ↦ inl (rw (e, get_protect) refl)
  | inr (v, e) ↦ inr (v, rw (e, get_protect) refl)
]

-- The two slots of eval_body above the stack of `s`.
abbrev Slots : Value → Value → List Value → Type 0
Slots f e ws = ws ≡ f ∷ e ∷ []

round_lem :
    (ev : Value → Value → M Value)
    → ((form env : Value) → Steady (ev form env))
    → (s t : State) (f e : Value) → Over s (f ∷ e ∷ []) t
    → Leaves (Slots f e) Nothing s (eval_round ev (length s.gc_protect) t)
unfolding eval_round
round_lem ev steady_ev s t f e o = elim (get_protect_cases (length s.gc_protect) t) [
  | inl x ↦ rw x faulted
  | inr (form, x) ↦ elim (get_protect_cases (length s.gc_protect + 1) t) [
    | inl y ↦ rw x (rw y faulted)
    | inr (env, y) ↦ rw x (
        rw y (
          Leaves-clean_up (
            Leaves-trans {Q' = Anything} o (form_lem ev steady_ev form env t)
              (λ ws n. ap (λ vs. f ∷ e ∷ vs) n) (λ _ _. tt))))
  ]
]

set_second :
    (xs : List Value) (a b c : Value)
    → set (xs ++ a ∷ b ∷ []) (suc (length xs)) c ≡ xs ++ a ∷ c ∷ []
set_second [] a b c = refl
set_second (x ∷ xs) a b c = ap (λ ys. x ∷ ys) (set_second xs a b c)

-- A tail call writes both slots.
Over_slots :
    (s t : State) (f e form env : Value)
    → Over s (f ∷ e ∷ []) t
    → Over s (form ∷ env ∷ []) (record t {
      gc_protect = set (set t.gc_protect (length s.gc_protect) form) (length s.gc_protect + 1) env;
    })
Over_slots s t f e form env o =
    let next : length s.gc_protect + 1 ≡ suc (length s.gc_protect) = omega arith in
    record {
      stack =
          ap (λ st. set (set st (length s.gc_protect) form) (length s.gc_protect + 1) env) o.stack
          ∙ ap (λ st. set st (length s.gc_protect + 1) env)
              (set-length s.gc_protect (e ∷ []) f form)
          ∙ ap (λ i. set (s.gc_protect ++ form ∷ e ∷ []) i env) next
          ∙ set_second s.gc_protect form e env;
      eval_depth = o.eval_depth;
      print_depth = o.print_depth;
      equal_depth = o.equal_depth;
    }

next_lem :
    (s : State) (again : M Value) (f e : Value) (r : SfResult) (t : State)
    → Over s (f ∷ e ∷ []) t
    → ((form env : Value) (u : State) → Over s (form ∷ env ∷ []) u → Balanced s (again u))
    → Balanced s (next_round again (length s.gc_protect) r t)
unfolding set_protect
next_lem s again f e (sf_value v) t o ih = Leaves-restore (pure v) o (λ u p. done [] refl p)
next_lem s again f e (sf_tco form env) t o ih = ih form env _ (Over_slots s t f e form env o)
next_lem s again f e not_handled t o ih = faulted

abbrev nested : State → State
nested s = record s { eval_depth = suc s.eval_depth }

unnested :
    (s t : State)
    → Over (nested s) [] t
    → (u : State) × (modify (λ x. record x { eval_depth = x.eval_depth - 1 }) t ≡ ok tt u)
      × Over s [] u
unnested s t o = (
  record t { eval_depth = t.eval_depth - 1 },
  refl,
  record {
    stack = o.stack;
    eval_depth = omega (arith, o.eval_depth);
    print_depth = o.print_depth;
    equal_depth = o.equal_depth;
  },
)

Steady-with_depth : (body : M Value) → Steady body → Steady (with_depth body)
unfolding with_depth
Steady-with_depth body h = record {
  at = λ s.
      Balanced-if (leb s.max_eval_depth s.eval_depth) ((Steady-reject_with _ _ _).at s)
        (Balanced-finish s (nested s) _ (unnested s) (h.at (nested s)));
}

-- The two pushes of eval_body, and the loop over them.
Steady-enter_body :
    (loop : ℕ → M Value) (form env : Value)
    → ((s t : State) (f e : Value)
        → Over s (f ∷ e ∷ []) t
        → Balanced s (loop (length s.gc_protect) t))
    → Steady (enter_body loop form env)
unfolding enter_body
Steady-enter_body loop form env h = record {
  at = λ s. Leaves-protecting form s _ λ t o.
      Leaves-and_then _ _
        (Leaves-clean_up (
          Leaves-trans {P' = Slots form env} {Q' = Anything} o (Leaves-protect env t)
            (λ ws e. ap (λ vs. form ∷ vs) e) (λ _ _. tt)))
        λ _ u ws e o'. h s u form env (subst (λ xs. Over s xs u) e o');
}

mutual
  unfolding eval_loop ml_eval

  loop_lem :
      (fuel : ℕ) (s t : State) (f e : Value)
      → Over s (f ∷ e ∷ []) t
      → Balanced s (eval_loop fuel (length s.gc_protect) t)
  loop_lem zero s t f e o = endless
  loop_lem (suc fuel) s t f e o =
      Leaves-and_then _ _ (round_lem (ml_eval fuel) (Steady-ml_eval fuel) s t f e o)
        λ r u ws slots o'.
          next_lem s (eval_loop fuel (length s.gc_protect)) f e r u
            (subst (λ xs. Over s xs u) slots o') (λ form env x p. loop_lem fuel s x form env p)

  pub Steady-ml_eval : (fuel : ℕ) (form env : Value) → Steady (ml_eval fuel form env)
  Steady-ml_eval zero form env = record { at = λ s. endless }
  Steady-ml_eval (suc fuel) form env = record {
    at = (Steady-with_depth _ (Steady-enter_body (eval_loop fuel) form env (loop_lem fuel))).at;
  }

-- Evaluating a form in an environment, with any fuel and from any state, leaves the protect stack and
-- the three depth counters exactly as they were, whether it ends in a value or in an error.
pub ml_eval_lem : (fuel : ℕ) (form env : Value) (s : State) → Balanced s (ml_eval fuel form env s)
ml_eval_lem fuel form env = (Steady-ml_eval fuel form env).at
