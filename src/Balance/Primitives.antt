-- ===== src/Balance/Primitives.antt =====
-- The protect stack and the depth counters in the built-in procedures of src/primitives.c.
use Prim.Native.String.{String}
use microlisp.Base.{
  ℕ, zero, suc, refl, subst, ◌-◌, ◌^◌, ◌∷◌, [], List, Bool, true, false, not, Option, none, some,
  length, ltb, ℤ, pos,
}
use microlisp.Value.{
  Value, Obj, PrimFn, fix, string, mv_nil, mv_true, mv_false, mv_undef, ml_value_eq, ml_make_bool,
}
use microlisp.State.{Status, State, M, pure, on_error, ml_set_error, ◌>>◌}
use microlisp.Gc.{ml_gc_restore, ml_gc_alloc_pair}
use microlisp.Printer.{ml_print}
use microlisp.Primitives.Arith.{prim_add, prim_mul}
use microlisp.Primitives.Compare.{
  CmpOp, compare_fix, cmp_loop, cmp_chain, prim_num_eq, prim_num_lt, prim_num_gt, prim_num_le,
  prim_num_ge,
}
use microlisp.Primitives.Data.{
  car_of, cdr_of, prim_cons, prim_car, prim_cdr, list_loop, prim_list, length_round, length_loop,
  prim_length, predicate, predicate2, is_pair, is_string, is_procedure, prim_null_p, prim_pair_p,
  prim_number_p, prim_symbol_p, prim_string_p, prim_procedure_p, prim_boolean_p, prim_not,
  prim_eq_p, prim_eqv_p, prim_equal_p, set_protect,
}
use microlisp.Primitives.Output.{
  state_output_sink, state_output_flush, prim_display, prim_write, prim_newline, error_with,
  prim_error,
}
use microlisp.Primitives.Registry.{call_prim}
use microlisp.Balance.{
  Balanced, Steady, Over, Leaves, Leaves-and_then, Nothing, done, endless, Balanced-ok,
  Balanced-err, Balanced-if, Steady-pure, Steady-faulty, Steady-bind, Steady-if, Steady-reject,
  Steady-reject_with,
}
use microlisp.Balance.Stack.{Leaves-protecting, Leaves-restore, Slot, write_slot_lem, Slot-clean_up}
use microlisp.Balance.Store.{Steady-get_obj, Steady-get_pair, Steady-ml_gc_alloc_pair}
use microlisp.Balance.Values.{Steady-ml_value_eqv, Steady-ml_value_equal, Steady-ml_print}
use microlisp.Balance.Arith.{
  Steady-expect_fix, Steady-add_loop, Steady-mul_loop, Steady-prim_sub, Steady-prim_div,
  Steady-prim_quotient, Steady-prim_remainder, Steady-prim_modulo,
}

Steady-cmp_loop :
    (op : CmpOp) (name : String) (prev : ℤ) (vs : List Value) → Steady (cmp_loop op name prev vs)
unfolding cmp_loop
Steady-cmp_loop op name prev [] = Steady-pure mv_true
Steady-cmp_loop op name prev (v ∷ vs) = Steady-bind (Steady-expect_fix name v) (λ cur.
    Steady-if (compare_fix op prev cur) (Steady-cmp_loop op name cur vs) (Steady-pure mv_false))

Steady-cmp_chain : (op : CmpOp) (name : String) (vs : List Value) → Steady (cmp_chain op name vs)
unfolding cmp_chain
Steady-cmp_chain op name [] = Steady-faulty
Steady-cmp_chain op name (v ∷ vs) =
    Steady-bind (Steady-expect_fix name v) (λ p. Steady-cmp_loop op name p vs)

Steady-car_of : (o : Option (Value × Value)) → Steady (car_of o)
Steady-car_of (some (a, d)) = Steady-pure a
Steady-car_of none = Steady-reject Status.type _

Steady-cdr_of : (o : Option (Value × Value)) → Steady (cdr_of o)
Steady-cdr_of (some (a, d)) = Steady-pure d
Steady-cdr_of none = Steady-reject Status.type _

-- The list's head stays in its slot while the cells are made.
list_loop-Slot :
    (s : State) (head : Value) (vs : List Value) (t : State) (w : Value)
    → Over s (w ∷ []) t
    → Leaves Slot Nothing s (list_loop (length s.gc_protect) head vs t)
unfolding list_loop
list_loop-Slot s head [] t w o = done (w ∷ []) (w, refl) o
list_loop-Slot s head (v ∷ vs) t w o =
    Leaves-and_then (list_loop (length s.gc_protect) head vs t) _ (list_loop-Slot s head vs t w o)
      (λ rest t' ws (w', e) o'.
        let at = subst (λ xs. Over s xs t') e o' in
        Leaves-and_then
          (on_error (ml_gc_restore (length s.gc_protect)) (ml_gc_alloc_pair v rest) t') _
          (Slot-clean_up w' at ((Steady-ml_gc_alloc_pair v rest).at t'))
          (λ cell u xs (w'', e') o''.
            Leaves-and_then (set_protect (length s.gc_protect) cell u) (λ _. pure cell)
              (write_slot_lem w'' cell (subst (λ ys. Over s ys u) e' o''))
              (λ _ x ys slot p. done ys slot p)))

Steady-prim_list : (argv : List Value) → Steady (prim_list argv)
unfolding prim_list
Steady-prim_list argv = record {
  at = λ s. Leaves-protecting mv_nil s _ (λ t o.
      Leaves-and_then (list_loop (length s.gc_protect) mv_nil argv t) _
        (list_loop-Slot s mv_nil argv t mv_nil o)
        (λ head u ws slot o'. Leaves-restore (pure head) o' (λ x p. done [] refl p)));
}

pub Steady-length_loop : (fuel n : ℕ) (v : Value) → Steady (length_loop fuel n v)
unfolding length_loop
Steady-length_loop zero n v = record { at = λ s. endless }
Steady-length_loop (suc fuel) n v = record {
  at = (Steady-bind (Steady-get_pair v) (λ p. round p (Steady-length_loop fuel))).at;
}
  where
    round :
        (p : Option (Value × Value))
        → ((n : ℕ) (v : Value) → Steady (length_loop fuel n v))
        → Steady (length_round (length_loop fuel) n v p)
    round (some (a, d)) ih = ih (suc n) d
    round none ih = Steady-pure (n, v)

Steady-prim_length : (argv : List Value) → Steady (prim_length argv)
unfolding prim_length
Steady-prim_length [] = Steady-faulty
Steady-prim_length (v ∷ vs) = record {
  at = λ s.
      (Steady-bind (Steady-length_loop (suc (length s.heap)) 0 v) (λ (n, end).
          Steady-if (not (ml_value_eq end mv_nil)) (Steady-reject _ _)
            (Steady-if (ltb (2 ^ 59 - 1) n) (Steady-reject _ _) (Steady-pure (fix (pos n)))))).at
        s;
}

Steady-predicate :
    (test : Value → M Bool) (argv : List Value)
    → ((v : Value) → Steady (test v))
    → Steady (predicate test argv)
Steady-predicate test [] h = Steady-faulty
Steady-predicate test (v ∷ vs) h = Steady-bind (h v) (λ b. Steady-pure (ml_make_bool b))

Steady-predicate2 :
    (test : Value → Value → M Bool) (argv : List Value)
    → ((v w : Value) → Steady (test v w))
    → Steady (predicate2 test argv)
Steady-predicate2 test [] h = Steady-faulty
Steady-predicate2 test (v ∷ []) h = Steady-faulty
Steady-predicate2 test (v ∷ w ∷ vs) h = Steady-bind (h v w) (λ b. Steady-pure (ml_make_bool b))

pub Steady-sink : (bs : List ℕ) (u : Unit {0}) → Steady (state_output_sink bs u)
unfolding state_output_sink
Steady-sink bs u = record {
  at = λ s.
      Balanced-if (s.libc.write_ok s.writes) (Balanced-ok tt refl refl refl refl)
        (Balanced-err Status.io refl refl refl refl);
}

Steady-flush : Steady state_output_flush
unfolding state_output_flush
Steady-flush = record {
  at = λ s.
      Balanced-if (s.libc.write_ok s.writes) (Balanced-ok tt refl refl refl refl)
        (Balanced-err Status.io refl refl refl refl);
}

Steady-print :
    (w : Bool) (v : Value)
    → Steady (ml_print state_output_sink w v tt >> (state_output_flush >> pure mv_undef))
Steady-print w v =
    Steady-bind (Steady-ml_print state_output_sink Steady-sink w v tt)
      (λ _. Steady-bind Steady-flush (λ _. Steady-pure mv_undef))

Steady-error_with : (v : Value) (o : Option Obj) → Steady (error_with v o)
unfolding ml_set_error
Steady-error_with v (some (string bs)) = record {
  at = λ s. Balanced-err Status.user refl refl refl refl;
}
Steady-error_with (Value.sym i) _ = record { at = λ s. (Steady-reject_with Status.user _ _).at s }
Steady-error_with _ _ = Steady-reject Status.user "error"

Steady-prim_error : (argv : List Value) → Steady (prim_error argv)
unfolding prim_error
Steady-prim_error [] = Steady-reject Status.user "error"
Steady-prim_error (v ∷ vs) = Steady-bind (Steady-get_obj v) (Steady-error_with v)

-- A built-in procedure leaves the protect stack and the depth counters as it found them, whatever
-- its arguments are and however it ends.
pub Steady-call_prim : (fn : PrimFn) (argv : List Value) → Steady (call_prim fn argv)
unfolding call_prim prim_add prim_mul prim_num_eq prim_num_lt prim_num_gt prim_num_le prim_num_ge
    prim_cons prim_car prim_cdr prim_null_p prim_pair_p prim_number_p prim_symbol_p prim_string_p
    prim_procedure_p prim_boolean_p prim_not prim_eq_p prim_eqv_p prim_equal_p prim_display
    prim_write prim_newline
Steady-call_prim PrimFn.add argv = Steady-add_loop _ argv
Steady-call_prim PrimFn.sub argv = Steady-prim_sub argv
Steady-call_prim PrimFn.mul argv = Steady-mul_loop _ argv
Steady-call_prim PrimFn.div argv = Steady-prim_div argv
Steady-call_prim PrimFn.quotient argv = Steady-prim_quotient argv
Steady-call_prim PrimFn.remainder argv = Steady-prim_remainder argv
Steady-call_prim PrimFn.modulo argv = Steady-prim_modulo argv
Steady-call_prim PrimFn.num_eq argv = Steady-cmp_chain CmpOp.cmp_eq "=" argv
Steady-call_prim PrimFn.num_lt argv = Steady-cmp_chain CmpOp.cmp_lt "<" argv
Steady-call_prim PrimFn.num_gt argv = Steady-cmp_chain CmpOp.cmp_gt ">" argv
Steady-call_prim PrimFn.num_le argv = Steady-cmp_chain CmpOp.cmp_le "<=" argv
Steady-call_prim PrimFn.num_ge argv = Steady-cmp_chain CmpOp.cmp_ge ">=" argv
Steady-call_prim PrimFn.cons [] = Steady-faulty
Steady-call_prim PrimFn.cons (v ∷ []) = Steady-faulty
Steady-call_prim PrimFn.cons (v ∷ w ∷ vs) = Steady-ml_gc_alloc_pair v w
Steady-call_prim PrimFn.car [] = Steady-faulty
Steady-call_prim PrimFn.car (v ∷ vs) = Steady-bind (Steady-get_pair v) Steady-car_of
Steady-call_prim PrimFn.cdr [] = Steady-faulty
Steady-call_prim PrimFn.cdr (v ∷ vs) = Steady-bind (Steady-get_pair v) Steady-cdr_of
Steady-call_prim PrimFn.list argv = Steady-prim_list argv
Steady-call_prim PrimFn.length argv = Steady-prim_length argv
Steady-call_prim PrimFn.null_p argv = Steady-predicate _ argv (λ v. Steady-pure _)
Steady-call_prim PrimFn.pair_p argv =
    Steady-predicate _ argv (λ v. Steady-bind (Steady-get_obj v) (λ o. Steady-pure (is_pair o)))
Steady-call_prim PrimFn.number_p argv = Steady-predicate _ argv (λ v. Steady-pure _)
Steady-call_prim PrimFn.symbol_p argv = Steady-predicate _ argv (λ v. Steady-pure _)
Steady-call_prim PrimFn.string_p argv =
    Steady-predicate _ argv (λ v. Steady-bind (Steady-get_obj v) (λ o. Steady-pure (is_string o)))
Steady-call_prim PrimFn.procedure_p argv =
    Steady-predicate _ argv
      (λ v. Steady-bind (Steady-get_obj v) (λ o. Steady-pure (is_procedure o)))
Steady-call_prim PrimFn.boolean_p argv = Steady-predicate _ argv (λ v. Steady-pure _)
Steady-call_prim PrimFn.eq_p argv = Steady-predicate2 _ argv (λ v w. Steady-pure _)
Steady-call_prim PrimFn.eqv_p argv = Steady-predicate2 _ argv Steady-ml_value_eqv
Steady-call_prim PrimFn.equal_p argv = Steady-predicate2 _ argv Steady-ml_value_equal
Steady-call_prim PrimFn.not_ argv = Steady-predicate _ argv (λ v. Steady-pure _)
Steady-call_prim PrimFn.display [] = Steady-faulty
Steady-call_prim PrimFn.display (v ∷ vs) = Steady-print false v
Steady-call_prim PrimFn.write [] = Steady-faulty
Steady-call_prim PrimFn.write (v ∷ vs) = Steady-print true v
Steady-call_prim PrimFn.newline argv =
    Steady-bind (Steady-sink (10 ∷ []) tt)
      (λ _. Steady-bind Steady-flush (λ _. Steady-pure mv_undef))
Steady-call_prim PrimFn.error argv = Steady-prim_error argv

-- A call of any primitive leaves the protect stack and the depth counters exactly as they were,
-- whether it ends in a value or in an error.
pub call_prim_lem : (f : PrimFn) (argv : List Value) (s : State) → Balanced s (call_prim f argv s)
call_prim_lem f argv = (Steady-call_prim f argv).at
