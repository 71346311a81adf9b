-- ===== src/Balance/Api.antt =====
-- The protect stack and the depth counters in the entry points of src/state.c.
use microlisp.Base.{
  ℕ, zero, suc, ◌+◌, ◌-◌, ◌^◌, refl, Bool, true, false, Option, none, some, List, [], ◌==◌,
  if◌then◌else◌, ltb, length,
}
use microlisp.Value.{Value, mv_undef, mv_eof, ml_value_eq}
use microlisp.State.{Status, State, modify}
use microlisp.Eval.Loop.{ml_eval}
use microlisp.Reader.{Reader}
use microlisp.Api.{
  eval_forms, PrintBuf, buf_cap, buf_store, buf_alloc, print_buf_sink, nul_room, ml_print_to_alloc,
  print_result, microlisp_eval, no_error,
}
use microlisp.Balance.{
  Balanced, Steady, endless, Balanced-ok, Steady-pure, Steady-fail, Steady-bind, Steady-if,
}
use microlisp.Balance.Stack.{Steady-scoped}
use microlisp.Balance.Store.{Steady-ml_raw_alloc}
use microlisp.Balance.Values.{Steady-ml_print}
use microlisp.Balance.Loop.{Steady-ml_eval}
use microlisp.Balance.Reader.{Steady-ml_read}

Steady-buf_store :
    (old bytes : List ℕ) (room : ℕ) (p : Option ℕ) → Steady (buf_store old bytes room p)
Steady-buf_store old bytes room none = Steady-fail Status.nomem
Steady-buf_store old bytes room (some _) = Steady-pure _

Steady-buf_alloc : (old bytes : List ℕ) (p : Option ℕ) → Steady (buf_alloc old bytes p)
Steady-buf_alloc old bytes none = Steady-fail Status.nomem
Steady-buf_alloc old bytes (some room) =
    Steady-bind (Steady-ml_raw_alloc room) (Steady-buf_store old bytes room)

Steady-print_buf_sink : (bytes : List ℕ) (u : PrintBuf) → Steady (print_buf_sink bytes u)
unfolding print_buf_sink
Steady-print_buf_sink bytes (old, room) =
    let need : ℕ = length old + length bytes + 1 in
    Steady-if (ltb (2 ^ 64 - 1) need) (Steady-fail Status.nomem) (
      Steady-if (ltb room need)
        (Steady-buf_alloc old bytes (buf_cap 65 (if room == 0 then 64 else room) need))
        (Steady-pure _))

Steady-nul_room : (p : Option ℕ) → Steady (nul_room p)
Steady-nul_room none = Steady-fail Status.nomem
Steady-nul_room (some _) = Steady-pure []

Steady-ml_print_to_alloc : (v : Value) (w : Bool) → Steady (ml_print_to_alloc v w)
unfolding ml_print_to_alloc
Steady-ml_print_to_alloc v w =
    Steady-bind (Steady-ml_print print_buf_sink Steady-print_buf_sink w v ([], 0)) λ (bytes, room).
      Steady-if (room == 0) (Steady-bind (Steady-ml_raw_alloc 1) Steady-nul_room)
        (Steady-pure bytes)

Steady-print_result : (r : Value × Bool) → Steady (print_result r)
unfolding print_result
Steady-print_result (last, saw_form) =
    Steady-if saw_form
      (Steady-if (ml_value_eq last mv_undef) (Steady-pure none) (record {
        at =
            (Steady-scoped last (Steady-ml_print_to_alloc last true)
              (λ bytes. Steady-pure (some bytes))).at;
      }))
      (Steady-pure none)

Steady-eval_forms :
    (fuel left : ℕ) (r : Reader) (last : Value) (saw_form : Bool)
    → Steady (eval_forms fuel left r last saw_form)
unfolding eval_forms
Steady-eval_forms fuel zero r last saw_form = record { at = λ s. endless }
Steady-eval_forms fuel (suc left) r last saw_form = record {
  at =
      (Steady-bind (Steady-ml_read r) λ (form, r').
        Steady-if (ml_value_eq form mv_eof) (Steady-pure (last, saw_form)) (record {
          at =
              (Steady-scoped form {m = λ t. ml_eval fuel form t.toplevel_env t}
                (record { at = λ t. (Steady-ml_eval fuel form t.toplevel_env).at t })
                (λ v. Steady-eval_forms fuel left r' v true)).at;
        })).at;
}

Steady-microlisp_eval : (fuel : ℕ) (source : List ℕ) → Steady (microlisp_eval fuel source)
unfolding microlisp_eval
Steady-microlisp_eval fuel source =
    Steady-bind {m = modify λ s. record s { last_error = no_error }}
      (record { at = λ s. Balanced-ok tt refl refl refl refl })
      λ _.
        Steady-bind
          (Steady-eval_forms fuel (suc (length source))
            (record { rest = source; line = 1; column = 1; depth = 0 }) mv_undef false)
          Steady-print_result

-- Evaluating a source in any state leaves the protect stack and the three depth counters exactly as
-- they were, whether it ends in a result or in an error of the reader, the evaluator or the printer.
pub microlisp_eval_lem :
    (fuel : ℕ) (source : List ℕ) (s : State) → Balanced s (microlisp_eval fuel source s)
microlisp_eval_lem fuel source = (Steady-microlisp_eval fuel source).at
