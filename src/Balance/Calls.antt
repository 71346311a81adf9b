-- ===== src/Balance/Calls.antt =====
-- The protect stack and the depth counters in the dispatch on special forms, in argument lists
-- and in calls (src/eval.c), for any evaluator that they call.
use microlisp.Base.{
  ℕ, zero, suc, ◌≡◌, refl, sym, ap, ◌∙◌, subst, append_assoc, append-nil, ◌∷◌, ◌++◌, [], List, true,
  false, ◌||◌, Option, Option-cases, inl, inr, ◌⊎◌, Bool-cases, none, some, length, length-append,
  ltb, arith,
}
use microlisp.Value.{
  Value, Obj, Mprim, Closure, obj, fix, imm, pair, string, closure, primitive, env as env_obj,
  ml_value_eq, ml_is_obj,
}
use microlisp.State.{
  Status, Message, Arg, State, Run, M, find, deref, ok, err, fault, out_of_fuel, pure, fail,
  clean_up, and_then, ml_set_error, reject, ◌>>◌,
}
use microlisp.Gc.{ml_gc_unprotect}
use microlisp.Primitives.Data.{get_pair, as_pair}
use microlisp.Equal.{get_obj}
use microlisp.Eval.Lists.{must_pair, arg_loop, args_in, args_of, eval_arg_list}
use microlisp.Eval.Forms.{SfResult, not_handled}
use microlisp.Eval.Loop.{special_form, apply_prim, apply_closure, apply_object}
use microlisp.Balance.{
  Balanced, Steady, Over, Over_trans, Leaves, Leaves-over, Leaves-and_then, Nothing, done, failed,
  faulted, endless, Steady-pure, Steady-if, Steady-reject,
}
use microlisp.Balance.Stack.{Leaves-protect, Balanced-unprotect, unprotected}
use microlisp.Balance.Store.{Steady-alloc_array}
use microlisp.Balance.Primitives.{Steady-call_prim}
use microlisp.Balance.Apply.{Steady-proper_list_length, Steady-apply_closure_bind}
use microlisp.Balance.Forms.{
  Steady-begin_tco, Steady-handle_quote, Steady-handle_begin, Steady-handle_if,
  Steady-handle_define, Steady-handle_set_bang, Steady-handle_lambda, Steady-handle_and_or,
  Steady-handle_cond,
}
use microlisp.Balance.Let.{Steady-handle_let_family}

-- A run that pushes the values that it returns, over those of `vs`, or drops all.
pub data Args (s : State) (vs : List Value) : Run (List Value) → Type 0 where
  pushed : {ws : List Value} {t : State} → Over s (vs ++ ws) t → Args s vs (ok ws t)
  dropped : {e : Status} {t : State} → Over s [] t → Args s vs (err e t)
  args_fault : Args s vs fault
  args_endless : Args s vs out_of_fuel

pub get_obj_cases :
    (v : Value) (s : State) → (get_obj v s ≡ fault) ⊎ ((o : Option Obj) × (get_obj v s ≡ ok o s))
unfolding get_obj deref
get_obj_cases (obj a) s = elim (Bool-cases (ml_is_obj (obj a))) [
  | inr null ↦ inr (none, rw (null, get_obj) refl)
  | inl is ↦ elim (Option-cases (find a s.heap)) [
    | inl gone ↦ inl (rw (is, get_obj) (rw (gone, deref) refl))
    | inr (c, e) ↦ inr (some c.body, rw (is, get_obj) (rw (e, deref) refl))
  ]
]
get_obj_cases (fix _) s = inr (none, refl)
get_obj_cases (imm _) s = inr (none, refl)
get_obj_cases (Value.sym _) s = inr (none, refl)

-- A pair is taken apart or the run faults: no error is reported.
pub must_pair_cases :
    (v : Value) (s : State)
    → (must_pair v s ≡ fault) ⊎ ((p : Value × Value) × (must_pair v s ≡ ok p s))
unfolding must_pair get_pair
must_pair_cases v s = elim (get_obj_cases v s) [
  | inl e ↦ inl (rw e refl)
  | inr (o, e) ↦ elim (Option-cases (as_pair o)) [
    | inl n ↦ inl (rw e (rw n refl))
    | inr (p, n) ↦ inr (p, rw e (rw n refl))
  ]
]

Args-and_then {ℓ} :
    {A : Type ℓ} {P : List Value → Type 0} {s : State} {vs : List Value} (r : Run A)
    (k : A → M (List Value))
    → Leaves P Nothing s r
    → ((a : A) (t : State) (ws : List Value) → P ws → Over s ws t → Args s vs (k a t))
    → Args s vs (and_then r k)
Args-and_then r k (done {a} {t} ws p o) f = f a t ws p o
Args-and_then {s = s} r k (failed {t = t} ws e o) f = dropped (subst (λ xs. Over s xs t) e o)
Args-and_then r k faulted f = args_fault
Args-and_then r k endless f = args_endless

-- A run over values that an error pops.
Leaves-popped {ℓ} :
    {A : Type ℓ} {P : List Value → Type 0} {s t : State} (vs : List Value) {r : Run A}
    → Over s vs t
    → Leaves P Nothing t r
    → Leaves
        (λ xs. (ws : List Value) × P ws × (xs ≡ vs ++ ws))
        Nothing
        s
        (clean_up (ml_gc_unprotect (length vs)) r)
Leaves-popped vs o (done ws p o') = done (vs ++ ws) (ws, p, refl) (Over_trans o o')
Leaves-popped {s = s} vs o (failed {t = u} ws e o') =
    let (x, run, o'') =
      unprotected vs
        (subst (λ xs. Over s xs u) (ap (λ w. vs ++ w) e ∙ append-nil vs) (Over_trans o o')) in
    rw run (failed [] refl o'')
Leaves-popped vs o faulted = faulted
Leaves-popped vs o endless = endless

Args-cons :
    {s : State} {vs : List Value} (v : Value) {r : Run (List Value)}
    → Args s (vs ++ v ∷ []) r
    → Args s vs (and_then r (λ ws. pure (v ∷ ws)))
Args-cons {s} {vs} v (pushed {ws} {t} o) =
    pushed (subst (λ xs. Over s xs t) (append_assoc vs (v ∷ []) ws) o)
Args-cons v (dropped o) = dropped o
Args-cons v args_fault = args_fault
Args-cons v args_endless = args_endless

module _ (ev : Value → Value → M Value)
    (steady_ev : (form env : Value) → Steady (ev form env)) where
  pub Steady-special_form : (head rest env : Value) → Steady (special_form ev head rest env)
  unfolding special_form
  Steady-special_form head rest env = record {
    at = λ s.
        let y = s.syms in
        (Steady-if (ml_value_eq head y.sym_quote) (Steady-handle_quote rest) (
            Steady-if (ml_value_eq head y.sym_if) (Steady-handle_if ev steady_ev rest env) (
              Steady-if (ml_value_eq head y.sym_define) (Steady-handle_define ev steady_ev rest env)
                (Steady-if (ml_value_eq head y.sym_set_bang)
                  (Steady-handle_set_bang ev steady_ev rest env)
                  (Steady-if (ml_value_eq head y.sym_lambda)
                    (Steady-handle_lambda ev steady_ev rest env)
                    (Steady-if (ml_value_eq head y.sym_begin)
                      (Steady-handle_begin ev steady_ev rest env)
                      (Steady-if (ml_value_eq head y.sym_let)
                        (Steady-handle_let_family ev steady_ev false false "let" rest env)
                        (Steady-if (ml_value_eq head y.sym_let_star)
                          (Steady-handle_let_family ev steady_ev true false "let*" rest env)
                          (Steady-if (ml_value_eq head y.sym_letrec)
                            (Steady-handle_let_family ev steady_ev true true "letrec" rest env)
                            (Steady-if (ml_value_eq head y.sym_and)
                              (Steady-handle_and_or ev steady_ev false rest env)
                              (Steady-if (ml_value_eq head y.sym_or)
                                (Steady-handle_and_or ev steady_ev true rest env)
                                (Steady-if (ml_value_eq head y.sym_cond)
                                  (Steady-handle_cond ev steady_ev rest env)
                                  (Steady-pure not_handled))))))))))))).at
          s;
  }

  -- The arguments pile up on the stack; an error pops those that are there.
  arg_loop-Args :
      (s : State) (env : Value) (left : ℕ) (vs : List Value) (cur : Value) (t : State)
      → Over s vs t
      → Args s vs (arg_loop ev env left (length vs) cur t)
  unfolding arg_loop
  arg_loop-Args s env zero vs cur t o = pushed (subst (λ xs. Over s xs t) (sym (append-nil vs)) o)
  arg_loop-Args s env (suc left) vs cur t o = elim (must_pair_cases cur t) [
    | inl e ↦ rw e args_fault
    | inr ((elem, rest), e) ↦ rw e (
        Args-and_then _ _ (Leaves-popped vs o ((steady_ev elem env).at t))
          λ v u ws (xs, nothing, e1) o1.
            let at : Over s vs u =
              subst (λ ys. Over s ys u) (e1 ∙ ap (λ x. vs ++ x) nothing ∙ append-nil vs) o1 in
            Args-and_then _ _ (Leaves-popped vs at (Leaves-protect v u))
              λ _ x ws' (xs', just, e2) o2.
                let n : length (vs ++ v ∷ []) ≡ suc (length vs) =
                  omega (arith, length-append vs (v ∷ [])) in
                Args-cons v (
                  rw (← n) (
                    arg_loop-Args s env left (vs ++ v ∷ []) rest x
                      (subst (λ ys. Over s ys x) (e2 ∙ ap (λ ys. vs ++ ys) just) o2))))
  ]

  args_in-Args :
      (args env : Value) (argc : ℕ) (p : Option ℕ) (s t : State)
      → Over s [] t
      → Args s [] (args_in ev args env argc p t)
  args_in-Args args env argc none s t o = dropped o
  args_in-Args args env argc (some _) s t o = arg_loop-Args s env argc [] args t o

  args_of-Args :
      (args env : Value) (n : Option ℕ) (s t : State)
      → Over s [] t
      → Args s [] (args_of ev args env n t)
  unfolding reject ml_set_error
  args_of-Args args env none s t o = dropped (record {
    stack = o.stack;
    eval_depth = o.eval_depth;
    print_depth = o.print_depth;
    equal_depth = o.equal_depth;
  })
  args_of-Args args env (some zero) s t o = pushed o
  args_of-Args args env (some (suc n)) s t o =
      Args-and_then _ _
        (Leaves-over {P = Nothing} {Q = Nothing} o refl refl ((Steady-alloc_array (suc n) 8).at t))
        λ p u ws e o'. args_in-Args args env (suc n) p s u (subst (λ xs. Over s xs u) e o')

  pub eval_arg_list-Args : (args env : Value) (s : State) → Args s [] (eval_arg_list ev args env s)
  unfolding eval_arg_list
  eval_arg_list-Args args env s =
      Args-and_then _ _ ((Steady-proper_list_length args).at s)
        λ n u ws e o. args_of-Args args env n s u (subst (λ xs. Over s xs u) e o)

  arity_error :
      (p : Mprim) (argv : List Value) (s t : State)
      → Over s argv t
      → Balanced {A = SfResult} s (
          and_then
            (ml_set_error 0 0
              (Message.format "%s: wrong number of arguments (got %zu)"
                (Arg.bytes p.name ∷ Arg.num (length argv) ∷ []))
              t)
            (λ _. ml_gc_unprotect (length argv) >> fail Status.arity))
  unfolding ml_set_error
  arity_error p argv s t o =
      let (u, e, o') =
        unprotected
          {t = record t {
            last_error = record {
              message =
                  Message.format "%s: wrong number of arguments (got %zu)"
                    (Arg.bytes p.name ∷ Arg.num (length argv) ∷ []);
              line = 0;
              column = 0;
            };
          }}
          argv
          (record {
            stack = o.stack;
            eval_depth = o.eval_depth;
            print_depth = o.print_depth;
            equal_depth = o.equal_depth;
          }) in
      rw e (failed [] refl o')

  Steady-apply_prim :
      (p : Mprim) (argv : List Value) (s t : State)
      → Over s argv t
      → Balanced s (apply_prim ev p argv t)
  unfolding apply_prim
  Steady-apply_prim p argv s t o =
      elim (Bool-cases (ltb (length argv) p.arity_min || ltb p.arity_max (length argv))) [
        | inl wrong ↦ rw wrong (arity_error p argv s t o)
        | inr fits ↦ rw fits (
            Leaves-and_then _ _ (Balanced-unprotect argv o ((Steady-call_prim p.fn argv).at t))
              (λ v u ws e o'. done ws e o'))
      ]

  Steady-apply_closure :
      (cl : Closure) (argv : List Value) (s t : State)
      → Over s argv t
      → Balanced s (apply_closure ev cl argv t)
  unfolding apply_closure
  Steady-apply_closure cl argv s t o =
      Leaves-and_then _ _ (Balanced-unprotect argv o ((Steady-apply_closure_bind cl argv).at t))
        λ new_env u ws e o'.
          Leaves-over (subst (λ xs. Over s xs u) e o') refl refl
            ((Steady-begin_tco ev steady_ev cl.body new_env).at u)

  no_procedure :
      (argv : List Value) (s t : State)
      → Over s argv t
      → Balanced {A = SfResult} s (
          (ml_gc_unprotect (length argv) >> reject Status.type "called value is not a procedure") t)
  no_procedure argv s t o =
      let (u, e, o') = unprotected argv o in
      rw e (Leaves-over o' refl refl ((Steady-reject {A = SfResult} _ _).at u))

  pub apply_object-Balanced :
      (x : Option Obj) (argv : List Value) (s t : State)
      → Over s argv t
      → Balanced s (apply_object ev x argv t)
  apply_object-Balanced (some (primitive p)) argv s t o = Steady-apply_prim p argv s t o
  apply_object-Balanced (some (closure c)) argv s t o = Steady-apply_closure c argv s t o
  apply_object-Balanced (some (pair _ _)) argv s t o = no_procedure argv s t o
  apply_object-Balanced (some (string _)) argv s t o = no_procedure argv s t o
  apply_object-Balanced (some (env_obj _)) argv s t o = no_procedure argv s t o
  apply_object-Balanced none argv s t o = no_procedure argv s t o
