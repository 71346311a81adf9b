-- ===== src/Repl.antt =====
-- The read-eval-print loop of src/state.c. `fgets` is given by the lines that it yields, each up to
-- its first NUL, until it returns NULL; a write to a stream succeeds in full or writes nothing.
-- `render` is vsnprintf's text for an error message.
pub mod Session
use microlisp.Base.{
  ℕ, suc, Bool, true, false, ◌≡◌, ◌⊎◌, inl, inr, Option, none, some, List, [], ◌∷◌, ◌++◌, ◌==◌,
  if◌then◌else◌, ltb, length, codes,
}
use microlisp.State.{
  Status, Message, State, Run, M, ok, err, fault, out_of_fuel, pure, modify, ◌>>=◌, ◌>>◌,
}
use microlisp.Primitives.Output.{append_to}
use microlisp.Report.{microlisp_status_string}
use microlisp.Api.{microlisp_eval}

-- A write of some bytes: whether it succeeded. `fflush` counts as a write of nothing.
unfoldable pub write_to : ℕ → List ℕ → M Bool
write_to file bytes s =
    let t : State = record s { writes = suc s.writes } in
    if s.libc.write_ok s.writes
    then ok true (record t { written = append_to file bytes s.written })
    else ok false t

-- `a || b` on two writes, negated: the second is tried only if the first succeeded.
unfoldable pub both_written : ℕ → List ℕ → List ℕ → M Bool
unfolding write_to
both_written file first second = do
  written ← write_to file first
  if written then write_to file second else pure false

-- A call whose status the caller looks at.
abbrev pub attempted {ℓ} : {A : Type ℓ} → Run A → Run (Status ⊎ A)
attempted (ok a s) = ok (inr a) s
attempted (err e s) = ok (inl e) s
attempted fault = fault
attempted out_of_fuel = out_of_fuel

unfoldable pub attempt {ℓ} : {A : Type ℓ} → M A → M (Status ⊎ A)
attempt m s = attempted (m s)

-- The prompt, if there is one: whether it was written.
unfoldable pub write_prompt : ℕ → Option (List ℕ) → M Bool
unfolding both_written
write_prompt out none = pure true
write_prompt out (some prompt) = both_written out prompt []

-- The end of the input: a line feed behind a prompt.
abbrev pub io_unless : Bool → M (Option Status)
io_unless true = pure none
io_unless false = pure (some Status.io)

unfoldable pub end_of_input : ℕ → Option (List ℕ) → M (Option Status)
unfolding write_to
end_of_input out none = pure none
end_of_input out (some prompt) = write_to out (10 ∷ []) >>= io_unless

module _ (render : Message → List ℕ) where
  -- "error (%s): %s\n"
  abbrev pub error_line : Status → Message → List ℕ
  error_line st message =
      codes "error ("
      ++ codes (microlisp_status_string (some st))
      ++ codes "): "
      ++ render message
      ++ 10 ∷ []

  -- The result of a line, or its error: whether all was written.
  unfoldable pub write_outcome : ℕ → Status ⊎ Option (List ℕ) → M Bool
  unfolding write_to both_written microlisp_status_string
  write_outcome out (inl st) s = write_to out (error_line st s.last_error.message) s
  write_outcome out (inr none) s = ok true s
  write_outcome out (inr (some bytes)) s =
      if ltb 0 (length bytes) then both_written out bytes (10 ∷ []) s else ok true s

  -- `fuel` bounds the evaluation of each form.
  module _ (fuel : ℕ) (out : ℕ) (prompt : Option (List ℕ)) where
    unfoldable pub repl_line : List ℕ → M Bool
    unfolding microlisp_eval attempt write_outcome
    repl_line line =
        if length line == 0
        then pure true
        else (attempt (microlisp_eval fuel line) >>= write_outcome out)

    unfoldable pub repl_loop : List (List ℕ) → M (Option Status)
    unfolding write_prompt end_of_input repl_line
    repl_loop [] = do
      prompted ← write_prompt out prompt
      if prompted then end_of_input out prompt else pure (some Status.io)
    repl_loop (line ∷ lines) = do
      prompted ← write_prompt out prompt
      if prompted
          then (do
            written ← repl_line line
            if written then repl_loop lines else pure (some Status.io))
          else pure (some Status.io)

  -- `out` takes what the program itself writes too, until the loop ends. The result is the loop's
  -- status, `none` for MICROLISP_OK.
  unfoldable pub microlisp_repl : ℕ → ℕ → Option (List ℕ) → List (List ℕ) → M (Option Status)
  unfolding repl_loop
  microlisp_repl fuel out prompt lines s =
      (do
        status ← repl_loop fuel out prompt lines
        modify λ t. record t { output = s.output }
        pure status)
        (record s { output = out })
