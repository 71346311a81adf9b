-- ===== src/Cli/Evaluation.antt =====
-- What an evaluated source text writes and how it decides the exit code, in src/main.c.
use microlisp.Base.{
  ℕ, suc, ◌≡◌, ◌≢◌, ◌⊎◌, inl, inr, refl, sym, ap, ◌∙◌, arith, Bool, true, false, Option, none, some,
  List, [], ◌∷◌, ◌++◌, ◌≤◌, ◌+◌, append-nil, append_assoc, if◌then◌else◌, Bool-cases, ltb, length,
}
use microlisp.State.{Status, Message, State, Run, ok, err, fault, out_of_fuel, and_then}
use microlisp.Api.{stdout, microlisp_eval}
use microlisp.Report.{exit_code_for}
use microlisp.Primitives.Output.{append_to}
use microlisp.Repl.{write_to, both_written, attempt, attempted}
use microlisp.Cli.{print_line, complain, source_outcome, eval_source}

-- A run that ends, if it does, in a code and with output that `P` allows, and in no status.
pub data Codes (P : ℕ → (ℕ → List ℕ) → Type 0) : Run ℕ → Type 0 where
  coded : {c : ℕ} {t : State} → P c t.written → Codes P (ok c t)
  lost : Codes P fault
  unended : Codes P out_of_fuel

-- The line that shows a result: none for no result and for an empty one.
abbrev pub line_of : Option (List ℕ) → List ℕ
line_of none = []
line_of (some []) = []
line_of (some (b ∷ bs)) = (b ∷ bs) ++ 10 ∷ []

-- How the evaluation of a source decides the exit code. With 0 it succeeded, and its line, if it is
-- asked for, is all that was written since; with 1 it ended in an error other than of output; with 2
-- in an error of output, or the result could not be written.
pub data Evaluated (fuel : ℕ) (source : List ℕ) (print_result : Bool) (s : State)
    : ℕ → (ℕ → List ℕ) → Type 0 where
  succeeded :
      {w : ℕ → List ℕ} (b : Option (List ℕ)) (t : State)
      → microlisp_eval fuel source s ≡ ok b t
      → w stdout ≡ t.written stdout ++ (if print_result then line_of b else [])
      → Evaluated fuel source print_result s 0 w
  unwritten :
      {w : ℕ → List ℕ} (b : Option (List ℕ)) (t : State) (n : ℕ)
      → microlisp_eval fuel source s ≡ ok b t
      → print_result ≡ true
      → n ≤ 2
      → t.libc.write_ok (n + t.writes) ≡ false
      → Evaluated fuel source print_result s 2 w
  failed_io :
      {w : ℕ → List ℕ} (t : State)
      → microlisp_eval fuel source s ≡ err Status.io t
      → Evaluated fuel source print_result s 2 w
  failed :
      {w : ℕ → List ℕ} (st : Status) (t : State)
      → microlisp_eval fuel source s ≡ err st t
      → st ≢ Status.io
      → Evaluated fuel source print_result s 1 w

-- A result is written, or one of the three writes of its line fails.
print_line_lem :
    {P : ℕ → (ℕ → List ℕ) → Type 0} (bytes : List ℕ) (t : State)
    → ((w : ℕ → List ℕ) → w stdout ≡ t.written stdout ++ (bytes ++ 10 ∷ []) → P 0 w)
    → ((n : ℕ) (w : ℕ → List ℕ) → n ≤ 2 → t.libc.write_ok (n + t.writes) ≡ false → P 2 w)
    → Codes P (print_line bytes t)
unfolding print_line write_to both_written
print_line_lem bytes t all bad = elim (Bool-cases (t.libc.write_ok t.writes)) [
  | inr failure ↦
      rw failure (coded (bad 0 _ (omega arith) (ap t.libc.write_ok (omega arith) ∙ failure)))
  | inl first ↦ rw first (elim (Bool-cases (t.libc.write_ok (suc t.writes))) [
    | inr failure ↦
        rw failure (coded (bad 1 _ (omega arith) (ap t.libc.write_ok (omega arith) ∙ failure)))
    | inl second ↦ rw second (elim (Bool-cases (t.libc.write_ok (suc (suc t.writes)))) [
      | inr failure ↦
          rw failure (coded (bad 2 _ (omega arith) (ap t.libc.write_ok (omega arith) ∙ failure)))
      | inl third ↦ rw third (
          coded (
            all
              (append_to stdout [] (append_to stdout (10 ∷ []) (append_to stdout bytes t.written)))
              (append-nil _ ∙ append_assoc (t.written stdout) bytes (10 ∷ []))))
    ])
  ])
]

exit_code_for-cases :
    (st : Status)
    → ((st ≡ Status.io) × (exit_code_for (some st) ≡ 2))
      ⊎ ((st ≢ Status.io) × (exit_code_for (some st) ≡ 1))
unfolding exit_code_for
exit_code_for-cases Status.io = inl (refl, refl)
exit_code_for-cases Status.invalid_arg = inr (cc, refl)
exit_code_for-cases Status.nomem = inr (cc, refl)
exit_code_for-cases Status.read_syntax = inr (cc, refl)
exit_code_for-cases Status.read_truncated = inr (cc, refl)
exit_code_for-cases Status.read_depth = inr (cc, refl)
exit_code_for-cases Status.unbound = inr (cc, refl)
exit_code_for-cases Status.type = inr (cc, refl)
exit_code_for-cases Status.arity = inr (cc, refl)
exit_code_for-cases Status.div_zero = inr (cc, refl)
exit_code_for-cases Status.overflow = inr (cc, refl)
exit_code_for-cases Status.user = inr (cc, refl)
exit_code_for-cases Status.syntax = inr (cc, refl)
exit_code_for-cases Status.eval_depth = inr (cc, refl)
exit_code_for-cases Status.print_depth = inr (cc, refl)
exit_code_for-cases Status.equal_depth = inr (cc, refl)

nonempty : (bs : List ℕ) → ltb 0 (suc (length bs)) ≡ true
nonempty bs = ground arith

module _ (render : Message → List ℕ) (fuel : ℕ) where
  pub complain_lem :
      {P : ℕ → (ℕ → List ℕ) → Type 0} (text : List ℕ) (c : ℕ) (s : State)
      → ((w : ℕ → List ℕ) → P c w)
      → Codes P (complain render fuel text c s)
  unfolding complain write_to
  complain_lem text c s p = elim (Bool-cases (s.libc.write_ok s.writes)) [
    | inl sent ↦ rw sent (coded (p _))
    | inr failure ↦ rw failure (coded (p _))
  ]

  outcome_lem :
      (source : List ℕ) (print_result : Bool) (s : State) (r : Run (Option (List ℕ)))
      → microlisp_eval fuel source s ≡ r
      → Codes
          (Evaluated fuel source print_result s)
          (and_then (attempted r) (source_outcome render fuel print_result))
  outcome_lem source print_result s (err st t) e = elim (exit_code_for-cases st) [
    | inl io ↦ complain_lem _ _ t (λ w. rw io.1 (failed_io t (rw (sym io.0) e)))
    | inr other ↦ complain_lem _ _ t (λ w. rw other.1 (failed st t e other.0))
  ]
  outcome_lem source print_result s fault e = lost
  outcome_lem source print_result s out_of_fuel e = unended
  outcome_lem source true s (ok none t) e = coded (succeeded none t e (sym (append-nil _)))
  outcome_lem source false s (ok none t) e = coded (succeeded none t e (sym (append-nil _)))
  outcome_lem source false s (ok (some bytes) t) e =
      coded (succeeded (some bytes) t e (sym (append-nil _)))
  outcome_lem source true s (ok (some []) t) e =
      coded (succeeded (some []) t e (sym (append-nil _)))
  outcome_lem source true s (ok (some (b ∷ bs)) t) e = rw (nonempty bs) (
      print_line_lem (b ∷ bs) t (λ w line. succeeded (some (b ∷ bs)) t e line)
        (λ n w small failure. unwritten (some (b ∷ bs)) t n e refl small failure))

  pub eval_source_lem :
      (source : List ℕ) (print_result : Bool) (s : State)
      → Codes (Evaluated fuel source print_result s) (eval_source render fuel source print_result s)
  unfolding eval_source attempt
  eval_source_lem source print_result s = outcome_lem source print_result s _ refl
