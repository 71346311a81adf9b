-- ===== src/Repl/Session.antt =====
-- What a session of the read-eval-print loop (microlisp_repl of src/state.c) leaves behind.
use microlisp.Base.{
  ℕ, ◌==◌, ◌≡◌, ◌⊎◌, inl, inr, refl, sym, subst, append-nil, ◌∙◌, Bool, true, false, Option, none,
  some, List, [], ◌∷◌, if◌then◌else◌, ltb, length,
}
use microlisp.State.{
  Status, Message, State, Run, M, ok, fault, out_of_fuel, pure, and_then, modify, ◌>>◌,
}
use microlisp.Repl.{
  write_to, both_written, attempted, attempt, write_prompt, io_unless, end_of_input, error_line,
  write_outcome, repl_line, repl_loop, microlisp_repl,
}
use microlisp.Balance.{Balanced, Over, Over_refl, Over_trans, done, failed, faulted, endless}
use microlisp.Balance.Api.{microlisp_eval_lem}

-- A run that reports no error of its own, ends with an answer that `P` allows, and leaves the protect
-- stack and the depth counters as they were.
pub data Answers {A : Type 0} (P : A → Type 0) (s : State) : Run A → Type 0 where
  answered : {a : A} {t : State} → P a → Over s [] t → Answers P s (ok a t)
  lost : Answers P s fault
  unended : Answers P s out_of_fuel

pub Answers-and_then :
    {A B : Type 0} {P : A → Type 0} {Q : B → Type 0} {s : State} {r : Run A} (k : A → M B)
    → Answers P s r
    → ((a : A) → P a → (t : State) → Answers Q t (k a t))
    → Answers Q s (and_then r k)
Answers-and_then {Q = Q} {s = s} k (answered {a} {t} p o) f = over (f a p t)
  where
    over : {r : Run _} → Answers Q t r → Answers Q s r
    over (answered q o') = answered q (Over_trans o o')
    over lost = lost
    over unended = unended
Answers-and_then k lost f = lost
Answers-and_then k unended f = unended

pub Answers-if :
    {A : Type 0} {P : A → Type 0} {s : State} (b : Bool) (m n : M A)
    → Answers P s (m s)
    → Answers P s (n s)
    → Answers P s ((if b then m else n) s)
Answers-if true m n h k = h
Answers-if false m n h k = k

abbrev pub Any : {A : Type 0} → A → Type 0
Any a = Unit {0}

-- MICROLISP_OK or MICROLISP_ERR_IO.
abbrev pub OkOrIo : Option Status → Type 0
OkOrIo st = (st ≡ none) ⊎ (st ≡ some Status.io)

pub same : {A : Type 0} {P : A → Type 0} (a : A) (s : State) → P a → Answers P s (ok a s)
same a s p = answered p (Over_refl s)

-- A step that writes none of the stack and the counters.
pub Answers-ok :
    {A : Type 0} {P : A → Type 0} {s t : State} (a : A)
    → P a
    → t.gc_protect ≡ s.gc_protect
    → t.eval_depth ≡ s.eval_depth
    → t.print_depth ≡ s.print_depth
    → t.equal_depth ≡ s.equal_depth
    → Answers P s (ok a t)
Answers-ok {s = s} a p e f g h = answered p (record {
  stack = e ∙ sym (append-nil s.gc_protect);
  eval_depth = f;
  print_depth = g;
  equal_depth = h;
})

pub Answers-either :
    {A : Type 0} {P : A → Type 0} {s : State} (b : Bool) {r r' : Run A}
    → Answers P s r
    → Answers P s r'
    → Answers P s (if b then r else r')
Answers-either true h k = h
Answers-either false h k = k

pub write_to-Answers :
    (file : ℕ) (bytes : List ℕ) (s : State) → Answers Any s (write_to file bytes s)
unfolding write_to
write_to-Answers file bytes s =
    Answers-either (s.libc.write_ok s.writes) (Answers-ok true tt refl refl refl refl)
      (Answers-ok false tt refl refl refl refl)

pub both_written-Answers :
    (file : ℕ) (first second : List ℕ) (s : State)
    → Answers Any s (both_written file first second s)
unfolding both_written
both_written-Answers file first second s =
    Answers-and_then _ (write_to-Answers file first s)
      λ written _ t. Answers-if written _ _ (write_to-Answers file second t) (same false t tt)

write_prompt-Answers :
    (out : ℕ) (p : Option (List ℕ)) (s : State) → Answers Any s (write_prompt out p s)
unfolding write_prompt
write_prompt-Answers out none s = same true s tt
write_prompt-Answers out (some p) s = both_written-Answers out p [] s

io_unless-Answers : (b : Bool) (s : State) → Answers OkOrIo s (io_unless b s)
io_unless-Answers true s = same none s (inl refl)
io_unless-Answers false s = same (some Status.io) s (inr refl)

end_of_input-Answers :
    (out : ℕ) (p : Option (List ℕ)) (s : State) → Answers OkOrIo s (end_of_input out p s)
unfolding end_of_input
end_of_input-Answers out none s = same none s (inl refl)
end_of_input-Answers out (some p) s =
    Answers-and_then _ (write_to-Answers out (10 ∷ []) s) (λ b _ t. io_unless-Answers b t)

-- The error of a balanced run is an answer.
pub attempted-Answers :
    {A : Type 0} {s : State} {r : Run A} → Balanced s r → Answers Any s (attempted r)
attempted-Answers {s = s} (done {t = t} ws e o) = answered tt (subst (λ xs. Over s xs t) e o)
attempted-Answers {s = s} (failed {t = t} ws e o) = answered tt (subst (λ xs. Over s xs t) e o)
attempted-Answers faulted = lost
attempted-Answers endless = unended

module _ (render : Message → List ℕ) where
  write_outcome-Answers :
      (out : ℕ) (r : Status ⊎ Option (List ℕ)) (s : State)
      → Answers Any s (write_outcome render out r s)
  unfolding write_outcome
  write_outcome-Answers out (inl st) s =
      write_to-Answers out (error_line render st s.last_error.message) s
  write_outcome-Answers out (inr none) s = same true s tt
  write_outcome-Answers out (inr (some bytes)) s =
      Answers-either (ltb 0 (length bytes)) (both_written-Answers out bytes (10 ∷ []) s)
        (same true s tt)

  module _ (fuel : ℕ) (out : ℕ) (prompt : Option (List ℕ)) where
    repl_line-Answers :
        (line : List ℕ) (s : State) → Answers Any s (repl_line render fuel out prompt line s)
    unfolding repl_line attempt
    repl_line-Answers line s = Answers-if (length line == 0) _ _ (same true s tt) (
        Answers-and_then _ (attempted-Answers (microlisp_eval_lem fuel line s))
          (λ r _ t. write_outcome-Answers out r t))

    repl_loop-Answers :
        (lines : List (List ℕ)) (s : State)
        → Answers OkOrIo s (repl_loop render fuel out prompt lines s)
    unfolding repl_loop
    repl_loop-Answers [] s = Answers-and_then _ (write_prompt-Answers out prompt s) λ prompted _ t.
        Answers-if prompted _ _ (end_of_input-Answers out prompt t) (io_unless-Answers false t)
    repl_loop-Answers (line ∷ lines) s =
        Answers-and_then _ (write_prompt-Answers out prompt s) λ prompted _ t.
          Answers-if prompted _ _
            (Answers-and_then _ (repl_line-Answers line t) λ written _ u.
              Answers-if written _ _ (repl_loop-Answers lines u) (io_unless-Answers false u))
            (io_unless-Answers false t)

-- How a session ends, if it does.
pub data Session (s : State) : Run (Option Status) → Type 0 where
  ended :
      {st : Option Status} {t : State}
      → OkOrIo st
      → Over s [] t
      → t.output ≡ s.output
      → Session s (ok st t)
  crashed : Session s fault
  running : Session s out_of_fuel

ended-Session :
    (s : State) (out : ℕ) {r : Run (Option Status)}
    → Answers OkOrIo (record s { output = out }) r
    → Session s (and_then r (λ status. modify (λ t. record t { output = s.output }) >> pure status))
ended-Session s out (answered p o) =
    ended p
      (record {
        stack = o.stack;
        eval_depth = o.eval_depth;
        print_depth = o.print_depth;
        equal_depth = o.equal_depth;
      })
      refl
ended-Session s out lost = crashed
ended-Session s out unended = running

-- Whatever the lines are and whichever of them fail, a session that ends does so with MICROLISP_OK
-- or MICROLISP_ERR_IO, and leaves the protect stack, the depth counters and the stream of the
-- program's output as they were.
pub microlisp_repl_lem :
    (render : Message → List ℕ) (fuel out : ℕ) (prompt : Option (List ℕ)) (lines : List (List ℕ))
    (s : State)
    → Session s (microlisp_repl render fuel out prompt lines s)
unfolding microlisp_repl
microlisp_repl_lem render fuel out prompt lines s =
    ended-Session s out (repl_loop-Answers render fuel out prompt lines (record s { output = out }))
