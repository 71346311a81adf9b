-- ===== src/Tests.antt =====
-- Runs of the whole interpreter, small states, and the theorems on concrete inputs.
mod States
mod Witnesses
use microlisp.Base.{ℕ, true, Option, none, some, List, [], ◌∷◌, ◌++◌, ◌≡◌, refl, codes, ◌+ℤ◌}
use microlisp.State.{Status, Run, M, ok, err, fault, ◌>>◌, modify, reject_with}
use microlisp.Gc.{gc_visit, visit_object, gc_push_mark, children}
use microlisp.Value.{ml_truthy}
use microlisp.Api.{initial_state, build_state, microlisp_eval}
use microlisp.Cli.{Exit, main}
use microlisp.Tests.States.{empty_state, world}

abbrev stressed : M (Unit {0})
stressed = modify λ s. record s { gc_stress = true }

abbrev result : {A : Type 0} → Run A → Option A
result (ok a s) = some a
result _ = none

abbrev status : {A : Type 0} → Run A → Option Status
status (err e s) = some e
status _ = none

abbrev run_of : List ℕ → Run (Option (List ℕ))
run_of src = (build_state >> microlisp_eval 60 src) empty_state

abbrev stress_run : List ℕ → Run (Option (List ℕ))
stress_run src = (build_state >> stressed >> microlisp_eval 60 src) empty_state

list_test : result (run_of (codes "(car (list (quote a) 2))")) ≡ some (some (codes "a"))
unfolding build_state microlisp_eval initial_state
list_test = refl

let_test :
    result (run_of (codes "(let* ((a 1) (b (+ a 1))) (cond ((= b 3) 'x) (else (and a \"b\\n\"))))"))
    ≡ some (some (codes "\"b\\n\""))
unfolding build_state microlisp_eval initial_state ◌+ℤ◌ ml_truthy
let_test = refl

unbound_test : status (run_of (codes "(begin x)")) ≡ some Status.unbound
unfolding build_state microlisp_eval initial_state reject_with
unbound_test = refl

-- A call in a body, before its last form, that ends in a tail call.
frame_test : stress_run (codes "(define (g) (list 1)) (define (f x) (g) x) (f 42)") ≡ fault
unfolding build_state microlisp_eval initial_state gc_visit visit_object gc_push_mark children
frame_test = refl

abbrev stdout_of : Exit → Option (ℕ × List ℕ)
stdout_of (Exit.exited code written) = some (code, written 1)
stdout_of _ = none

main_test :
    stdout_of (main world 30 (codes "-e" ∷ codes "(car '(a b))" ∷ []))
    ≡ some (0, codes "a" ++ 10 ∷ [])
unfolding main
main_test = refl

prompt_test :
    stdout_of (main world 30 [])
    ≡ some (0, codes "microlisp> " ++ codes "(a)" ++ 10 ∷ codes "microlisp> " ++ 10 ∷ [])
unfolding main
prompt_test = refl

script_test : stdout_of (main world 30 (codes "a.scm" ∷ [])) ≡ some (2, [])
unfolding main
script_test = refl
