-- ===== src/Balance/Apply.antt =====
-- The protect stack and the depth counters in lists, closures and their frames (src/eval.c).
use microlisp.Base.{
  ℕ, zero, suc, ◌%◌, ◌^◌, ◌≡◌, refl, sym, ap, ◌∙◌, subst, append_assoc, ◌∷◌, ◌++◌, [], List, Bool,
  Option, none, some, length, drop,
}
use microlisp.Value.{Value, Closure, mv_nil, ml_is_sym}
use microlisp.State.{State, Run, M, pure, on_error, always, ◌>>=◌, ◌>>◌}
use microlisp.Gc.{ml_gc_protect, ml_gc_unprotect, ml_gc_restore, ml_gc_alloc_pair}
use microlisp.Env.{addr_of}
use microlisp.Primitives.Data.{set_protect}
use microlisp.Eval.Lists.{the_pair, must_pair, proper, proper_list_length, build_loop, build_list}
use microlisp.Eval.Apply.{
  arity_end, arity_round, arity_loop, closure_arity, with_arity, set_arity, make_closure,
  check_arity, bind_loop, bind_rest, apply_closure_bind,
}
use microlisp.Balance.{
  Steady, Over, Leaves, Leaves-over, Leaves-trans, Leaves-and_then, Nothing, Anything, done, failed,
  endless, Steady-pure, Steady-faulty, Steady-bind, Steady-if, Steady-reject, steady,
}
use microlisp.Balance.Stack.{
  Leaves-protect, Leaves-protecting, Leaves-clean_up, Leaves-finish, Leaves-restore,
  Balanced-unprotect, Slot, write_slot_lem, Slot-clean_up,
}
use microlisp.Balance.Store.{
  Steady-deref, Steady-store, Steady-get_pair, Steady-ml_gc_alloc_pair, Steady-ml_gc_alloc_closure,
  Steady-ml_gc_alloc_env,
}
use microlisp.Balance.Tables.{Steady-ml_env_define}
use microlisp.Balance.Primitives.{Steady-length_loop}

Steady-the_pair : (o : Option (Value × Value)) → Steady (the_pair o)
Steady-the_pair (some p) = Steady-pure p
Steady-the_pair none = Steady-faulty

pub Steady-must_pair : (v : Value) → Steady (must_pair v)
unfolding must_pair
Steady-must_pair v = Steady-bind (Steady-get_pair v) Steady-the_pair

pub Steady-proper_list_length : (v : Value) → Steady (proper_list_length v)
unfolding proper_list_length
Steady-proper_list_length v = record {
  at = λ s.
      (Steady-bind (Steady-length_loop (suc (length s.heap)) 0 v) (λ r. Steady-pure (proper r))).at
        s;
}

-- Two values above the stack: the slot and the one that is being consed.
consed-Slot :
    (s : State) {t2 : State} (elem head w1 : Value)
    → Over s (w1 ∷ elem ∷ []) t2
    → Leaves Slot Nothing s (
        (on_error
              (ml_gc_restore (length s.gc_protect))
              (always (ml_gc_unprotect 1) (ml_gc_alloc_pair elem head))
            >>= λ cell. set_protect (length s.gc_protect) cell >> pure cell)
          t2)
consed-Slot s {t2} elem head w1 o2 =
    let below = record t2 { gc_protect = s.gc_protect ++ w1 ∷ [] } in
    let over_s : Over s (w1 ∷ []) below = record {
      stack = refl;
      eval_depth = o2.eval_depth;
      print_depth = o2.print_depth;
      equal_depth = o2.equal_depth;
    } in
    let over_below : Over below (elem ∷ []) t2 = record {
      stack = o2.stack ∙ sym (append_assoc s.gc_protect (w1 ∷ []) (elem ∷ []));
      eval_depth = refl;
      print_depth = refl;
      equal_depth = refl;
    } in
    Leaves-and_then _ _
      (Slot-clean_up w1 over_s
        (Balanced-unprotect (elem ∷ []) over_below ((Steady-ml_gc_alloc_pair elem head).at t2)))
      λ cell u xs (w2, e2) o'.
        Leaves-and_then _ _ (write_slot_lem w2 cell (subst (λ ys. Over s ys u) e2 o'))
          (λ _ x ys slot p. done ys slot p)

build_loop-Slot :
    (s : State) (vs : List Value) (t : State) (w : Value)
    → Over s (w ∷ []) t
    → Leaves Slot Nothing s (build_loop (length s.gc_protect) vs t)
unfolding build_loop
build_loop-Slot s [] t w o = done (w ∷ []) (w, refl) o
build_loop-Slot s (elem ∷ elems) t w o =
    Leaves-and_then (build_loop (length s.gc_protect) elems t) _ (build_loop-Slot s elems t w o)
      λ head t1 ws (w1, e1) o1.
        let at1 = subst (λ xs. Over s xs t1) e1 o1 in
        Leaves-and_then (on_error (ml_gc_restore (length s.gc_protect)) (ml_gc_protect elem) t1) _
          (Leaves-clean_up (
            Leaves-trans {P' = λ xs. xs ≡ w1 ∷ elem ∷ []} {Q' = Anything} at1
              (Leaves-protect elem t1) (λ xs e. ap (λ ys. w1 ∷ ys) e) (λ _ _. tt)))
          λ _ t2 xs e2 o2. consed-Slot s elem head w1 (subst (λ ys. Over s ys t2) e2 o2)

pub Steady-build_list : (vs : List Value) → Steady (build_list vs)
unfolding build_list
Steady-build_list vs = record {
  at = λ s. Leaves-protecting mv_nil s _ (λ t o.
      Leaves-and_then (build_loop (length s.gc_protect) vs t) _ (build_loop-Slot s vs t mv_nil o)
        (λ head u ws slot o'. Leaves-restore (pure head) o' (λ x p. done [] refl p)));
}

-- Closures.
Steady-arity_end : (n : ℕ) (cur : Value) → Steady (arity_end n cur)
unfolding arity_end
Steady-arity_end n cur = search steady

Steady-arity_round :
    (again : ℕ → Value → M (ℕ × Bool)) (n : ℕ) (cur : Value) (o : Option (Value × Value))
    → ((n : ℕ) (v : Value) → Steady (again n v))
    → Steady (arity_round again n cur o)
Steady-arity_round again n cur (some (p, rest)) ih =
    Steady-if (ml_is_sym p) (ih (suc n % 2 ^ 32) rest) (Steady-reject _ _)
Steady-arity_round again n cur none ih = Steady-arity_end n cur

Steady-arity_loop : (fuel n : ℕ) (cur : Value) → Steady (arity_loop fuel n cur)
unfolding arity_loop
Steady-arity_loop zero n cur = record { at = λ s. endless }
Steady-arity_loop (suc fuel) n cur = record {
  at =
      (Steady-bind (Steady-get_pair cur)
        (λ o. Steady-arity_round (arity_loop fuel) n cur o (Steady-arity_loop fuel))).at;
}

Steady-closure_arity : (params : Value) → Steady (closure_arity params)
unfolding closure_arity
Steady-closure_arity params = record {
  at = λ s. (Steady-arity_loop (suc (length s.heap)) 0 params).at s;
}

Steady-set_arity : (cl : Value) (n : ℕ) (variadic : Bool) → Steady (set_arity cl n variadic)
unfolding set_arity
Steady-set_arity cl n variadic =
    Steady-bind (Steady-deref cl) (λ o. Steady-store (addr_of cl) (with_arity n variadic o))

-- Three values protected one after the other; an error drops those that are.
three_lem :
    (s : State) (a b c : Value)
    → Leaves Anything Nothing s (
        on_error
          (ml_gc_restore (length s.gc_protect))
          (ml_gc_protect a >> (ml_gc_protect b >> ml_gc_protect c))
          s)
three_lem s a b c = Leaves-clean_up (
    Leaves-and_then (ml_gc_protect a s) _ (weaken (Leaves-protect a s)) λ _ t ws _ o.
      Leaves-trans {P = Anything} {Q = Anything} o
        (Leaves-and_then (ml_gc_protect b t) _ (weaken (Leaves-protect b t)) λ _ u xs _ o'.
          Leaves-trans {P = Anything} {Q = Anything} o' (weaken (Leaves-protect c u)) (λ _ _. tt)
            (λ _ _. tt))
        (λ _ _. tt) (λ _ _. tt))
  where
    weaken :
        {A : Type 0} {P Q : List Value → Type 0} {s : State} {r : Run A}
        → Leaves P Q s r
        → Leaves Anything Anything s r
    weaken (done ws p o) = done ws tt o
    weaken (failed ws q o) = failed ws tt o
    weaken Leaves.faulted = Leaves.faulted
    weaken endless = endless

pub Steady-make_closure : (params body env : Value) → Steady (make_closure params body env)
unfolding make_closure
Steady-make_closure params body env =
    Steady-bind (Steady-closure_arity params) λ (arity_min, variadic). record {
      at = λ s. Leaves-and_then _ _ (three_lem s params body env) λ _ t ws _ o.
          Leaves-and_then _ _
            (Leaves-finish (
              Leaves-over {P = Anything} {Q = Anything} o tt tt
                ((Steady-ml_gc_alloc_closure env params body).at t)))
            λ cl u xs e o'.
              Leaves-over (subst (λ ys. Over s ys u) e o') refl refl
                ((Steady-bind (Steady-set_arity cl arity_min variadic) (λ _. Steady-pure cl)).at u);
    }

-- Calls of closures.
Steady-check_arity : (cl : Closure) (argc : ℕ) → Steady (check_arity cl argc)
unfolding check_arity
Steady-check_arity cl argc = search steady

Steady-bind_loop :
    (env : Value) (left : ℕ) (cur : Value) (argv : List Value)
    → Steady (bind_loop env left cur argv)
unfolding bind_loop
Steady-bind_loop env zero cur argv = Steady-pure cur
Steady-bind_loop env (suc left) cur [] = Steady-faulty
Steady-bind_loop env (suc left) cur (v ∷ vs) = Steady-bind (Steady-must_pair cur) (λ (name, rest).
    Steady-bind (Steady-ml_env_define env name v) (λ _. Steady-bind_loop env left rest vs))

Steady-bind_rest : (env name : Value) (rest : List Value) → Steady (bind_rest env name rest)
unfolding bind_rest
Steady-bind_rest env name rest =
    Steady-if (ml_is_sym name)
      (Steady-bind (Steady-build_list rest) (λ l. Steady-ml_env_define env name l))
      (Steady-reject _ _)

-- A steady run over protected values, with the savepoint below them restored on an error.
pub kept_over {ℓ} :
    {A : Type ℓ} {s t : State} {ws : List Value} {m : M A}
    → Over s ws t
    → Steady m
    → Leaves (λ xs. xs ≡ ws) Nothing s (on_error (ml_gc_restore (length s.gc_protect)) m t)
kept_over {t = t} o h = Leaves-clean_up (Leaves-over o refl tt (h.at t))

pub Steady-apply_closure_bind :
    (cl : Closure) (argv : List Value) → Steady (apply_closure_bind cl argv)
unfolding apply_closure_bind
Steady-apply_closure_bind cl argv = Steady-bind (Steady-check_arity cl (length argv)) λ _.
    Steady-bind (Steady-ml_gc_alloc_env cl.env) λ env. record {
      at = λ s. Leaves-protecting env s _ λ t o.
          Leaves-and_then _ _ (kept_over o (Steady-bind_loop env cl.arity_min cl.params argv))
            λ cur u xs e o1.
              Leaves-and_then _ _
                (kept_over o1 (
                  Steady-if cl.variadic (Steady-bind_rest env cur (drop cl.arity_min argv))
                    (Steady-pure tt)))
                λ _ x ys e' o2. Leaves-restore (pure env) o2 (λ z p. done [] refl p);
    }
