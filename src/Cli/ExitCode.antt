-- ===== src/Cli/ExitCode.antt =====
-- The exit codes of src/main.c.
use microlisp.Base.{
  ℕ, ◌≡◌, ◌⊎◌, inl, inr, refl, ap, Bool, true, false, Option, none, some, List, if◌then◌else◌,
  codes,
}
use microlisp.State.{Status, State, Run, ok, pure, and_then, ◌>>◌}
use microlisp.Api.{stdout}
use microlisp.Report.{exit_code_for}
use microlisp.Lifecycle.{Creation, microlisp_state_destroy}
use microlisp.Repl.{microlisp_repl}
use microlisp.Cli.{
  Command, Slurped, slurp, File, World, Exit, exit_of, run_repl, slurped_source, opened_source,
  open_input, run_script_file, run_command, run_created, new_state, execute, parse_args, main,
}
use microlisp.Repl.Session.{Session, ended, microlisp_repl_lem}
use microlisp.Cli.Evaluation.{Codes, coded, lost, unended, Evaluated, complain_lem, eval_source_lem}

-- How a run of source text, or of none, gives the exit code. An expression goes before a script, and
-- a script before the loop.
pub data RunExit (w : World) (fuel : ℕ)
    : Option (List ℕ) → Option (List ℕ) → Bool → ℕ → (ℕ → List ℕ) → Type 0 where
  no_state :
      {e p : Option (List ℕ)} {i : Bool} {out : ℕ → List ℕ} (st : Status)
      → new_state w fuel ≡ Creation.refused st
      → RunExit w fuel e p i 1 out
  expression :
      {x : List ℕ} {p : Option (List ℕ)} {i : Bool} {c : ℕ} {out : ℕ → List ℕ} (s : State)
      → new_state w fuel ≡ Creation.created s
      → Evaluated fuel x true s c out
      → RunExit w fuel (some x) p i c out
  unopened :
      {path : List ℕ} {i : Bool} {out : ℕ → List ℕ} (s : State)
      → new_state w fuel ≡ Creation.created s
      → open_input w.stdin_file w.fopen path ≡ none
      → RunExit w fuel none (some path) i 2 out
  unread :
      {path : List ℕ} {i : Bool} {out : ℕ → List ℕ} (f : File) (n : ℕ) (s : State)
      → new_state w fuel ≡ Creation.created s
      → open_input w.stdin_file w.fopen path ≡ some f
      → slurp f.fread f.ferror w.has_memory ≡ Slurped.gave_up n
      → RunExit w fuel none (some path) i 2 out
  script :
      {path : List ℕ} {i : Bool} {c : ℕ} {out : ℕ → List ℕ} (f : File) (bytes : List ℕ) (s : State)
      → new_state w fuel ≡ Creation.created s
      → open_input w.stdin_file w.fopen path ≡ some f
      → slurp f.fread f.ferror w.has_memory ≡ Slurped.slurped bytes
      → Evaluated fuel bytes false s c out
      → RunExit w fuel none (some path) i c out
  session :
      {c : ℕ} {out : ℕ → List ℕ} (st : Option Status) (s t : State)
      → new_state w fuel ≡ Creation.created s
      → microlisp_repl w.render fuel stdout
          (if w.tty then some (codes "microlisp> ") else none)
          w.lines
          s
        ≡ ok st t
      → ((st ≡ none) × (c ≡ 0)) ⊎ ((st ≡ some Status.io) × (c ≡ 2))
      → RunExit w fuel none none true c out
  idle : {out : ℕ → List ℕ} → RunExit w fuel none none false 0 out

-- The exit code that goes with a command: 0 for what only prints, 2 for a command line that is
-- refused, and that of the run else.
abbrev pub CodeOf : World → ℕ → Command → ℕ → (ℕ → List ℕ) → Type 0
CodeOf w fuel Command.print_usage c out = c ≡ 0
CodeOf w fuel Command.print_version c out = c ≡ 0
CodeOf w fuel Command.missing_expression c out = c ≡ 2
CodeOf w fuel (Command.unknown_option a) c out = c ≡ 2
CodeOf w fuel Command.extra_arguments c out = c ≡ 2
CodeOf w fuel (Command.run e p i) c out = RunExit w fuel e p i c out

abbrev pub Runs : Command → Type 0
Runs (Command.run e p i) = Unit {0}
Runs _ = ⊥

pub data Exits (w : World) (fuel : ℕ) (c : Command) : Exit → Type 0 where
  exits :
      {code : ℕ} {out : ℕ → List ℕ}
      → CodeOf w fuel c code out
      → Exits w fuel c (Exit.exited code out)
  crashes : Runs c → Exits w fuel c Exit.crashed
  runs_on : Runs c → Exits w fuel c Exit.running

Codes-map :
    {P Q : ℕ → (ℕ → List ℕ) → Type 0} {r : Run ℕ}
    → ((c : ℕ) (out : ℕ → List ℕ) → P c out → Q c out)
    → Codes P r
    → Codes Q r
Codes-map f (coded p) = coded (f _ _ p)
Codes-map f lost = lost
Codes-map f unended = unended

destroyed :
    (w : World) (fuel : ℕ) (e p : Option (List ℕ)) (i : Bool) {r : Run ℕ}
    → Codes (RunExit w fuel e p i) r
    → Exits w fuel
        (Command.run e p i)
        (exit_of (and_then r (λ rc. microlisp_state_destroy >> pure rc)))
unfolding microlisp_state_destroy
destroyed w fuel e p i (coded c) = exits c
destroyed w fuel e p i lost = crashes tt
destroyed w fuel e p i unended = runs_on tt

repl_code :
    {s : State} {r : Run (Option Status)} {P : ℕ → (ℕ → List ℕ) → Type 0}
    → Session s r
    → ((st : Option Status) (t : State) (c : ℕ) (out : ℕ → List ℕ)
        → r ≡ ok st t
        → ((st ≡ none) × (c ≡ 0)) ⊎ ((st ≡ some Status.io) × (c ≡ 2))
        → P c out)
    → Codes P (and_then r (λ st. pure (exit_code_for st)))
unfolding exit_code_for
repl_code (ended {st} {t} (inl none_left) o same_stream) f =
    coded (f st t _ _ refl (inl (none_left, ap exit_code_for none_left)))
repl_code (ended {st} {t} (inr io) o same_stream) f =
    coded (f st t _ _ refl (inr (io, ap exit_code_for io)))
repl_code Session.crashed f = lost
repl_code Session.running f = unended

module _ (w : World) (fuel : ℕ) where
  slurped_lem :
      (path : List ℕ) (f : File) (i : Bool) (s : State) (b : Slurped)
      → new_state w fuel ≡ Creation.created s
      → open_input w.stdin_file w.fopen path ≡ some f
      → slurp f.fread f.ferror w.has_memory ≡ b
      → Codes
          (RunExit w fuel none (some path) i)
          (slurped_source w.render fuel w.stdin_file w.fopen w.has_memory b s)
  slurped_lem path f i s (Slurped.slurped bytes) made opened read =
      Codes-map (λ c out. script f bytes s made opened read)
        (eval_source_lem w.render fuel bytes false s)
  slurped_lem path f i s (Slurped.gave_up n) made opened read =
      complain_lem w.render fuel _ 2 s (λ out. unread f n s made opened read)
  slurped_lem path f i s Slurped.endless_slurp made opened read = unended

  opened_lem :
      (path : List ℕ) (f : Option File) (i : Bool) (s : State)
      → new_state w fuel ≡ Creation.created s
      → open_input w.stdin_file w.fopen path ≡ f
      → Codes
          (RunExit w fuel none (some path) i)
          (opened_source w.render fuel w.stdin_file w.fopen w.has_memory path f s)
  opened_lem path none i s made opened =
      complain_lem w.render fuel _ 2 s (λ out. unopened s made opened)
  opened_lem path (some f) i s made opened = slurped_lem path f i s _ made opened refl

  command_lem :
      (e p : Option (List ℕ)) (i : Bool) (s : State)
      → new_state w fuel ≡ Creation.created s
      → Codes
          (RunExit w fuel e p i)
          (run_command w.render fuel w.stdin_file w.fopen w.has_memory w.tty w.lines e p i s)
  unfolding run_script_file run_repl
  command_lem (some x) p i s made =
      Codes-map (λ c out. expression s made) (eval_source_lem w.render fuel x true s)
  command_lem none (some path) i s made = opened_lem path _ i s made refl
  command_lem none none true s made =
      repl_code (microlisp_repl_lem w.render fuel stdout _ w.lines s)
        (λ st t c out ran code. session st s t made ran code)
  command_lem none none false s made = coded idle

  created_lem :
      (e p : Option (List ℕ)) (i : Bool) (c : Creation)
      → new_state w fuel ≡ c
      → Exits w fuel (Command.run e p i) (run_created w fuel e p i c)
  created_lem e p i (Creation.created s) made = destroyed w fuel e p i (command_lem e p i s made)
  created_lem e p i (Creation.refused st) made = exits (no_state st made)
  created_lem e p i Creation.broken made = crashes tt
  created_lem e p i Creation.unfinished made = runs_on tt

  execute_lem : (c : Command) → Exits w fuel c (execute w fuel c)
  execute_lem Command.print_usage = exits refl
  execute_lem Command.print_version = exits refl
  execute_lem Command.missing_expression = exits refl
  execute_lem (Command.unknown_option a) = exits refl
  execute_lem Command.extra_arguments = exits refl
  execute_lem (Command.run e p i) = created_lem e p i _ refl

  -- How the program exits. It exits with 0 where it was asked for its usage or version, whether or
  -- not they could be written, and with 2 where the command line is refused. A run of source text
  -- that ends exits with 1 where no state could be made and with 2 where the script cannot be opened
  -- or read. Its evaluation gives 0 if it succeeded and the line of an expression's result is on
  -- stdout, 2 if it ended in an error of output or that line could not be written, and 1 if it ended
  -- in another error. A session gives 0 if it ended with MICROLISP_OK and 2 if with MICROLISP_ERR_IO.
  -- Only a run of source text may go on for ever or crash.
  pub main_lem :
      (args : List (List ℕ)) → Exits w fuel (parse_args false none true args) (main w fuel args)
  unfolding main
  main_lem args = execute_lem (parse_args false none true args)
