-- ===== src/Cli.antt =====
-- The command line of src/main.c. Arguments are their bytes without the NUL. A stream is a number:
-- stdin 0, stdout 1, stderr 2. `fread`, `ferror`, `fopen`, `isatty` and `realloc` are parameters.
pub mod Slurp
pub mod Evaluation
pub mod ExitCode
pub mod Arguments
use Prim.Native.String.{String}
use microlisp.Base.{
  ℕ, zero, suc, ◌+◌, ◌-◌, ◌*◌, ◌/◌, ◌^◌, Bool, true, false, ◌&&◌, ◌||◌, Option, none, some, List,
  [], ◌∷◌, ◌++◌, ◌==◌, ◌⊎◌, inl, inr, if◌then◌else◌, ltb, length, codes, bytes_equal,
}
use microlisp.State.{
  Status, Message, State, Allocator, Libc, Run, M, ok, err, fault, out_of_fuel, pure, ◌>>=◌, ◌>>◌,
}
use microlisp.Api.{Options, stdout, microlisp_eval}
use microlisp.Report.{microlisp_status_string, exit_code_for}
use microlisp.Lifecycle.{Creation, null_options, microlisp_state_create, microlisp_state_destroy}
use microlisp.Repl.{write_to, both_written, attempt, error_line, microlisp_repl}

-- `cap * 2` unless it overflows or there is no memory.
unfoldable pub grow_buf : (ℕ → Bool) → ℕ → Option ℕ
grow_buf has_memory cap =
    if ltb ((2 ^ 64 - 1) / 2) cap
    then none
    else if has_memory (cap * 2)
    then some (cap * 2)
    else none

-- The bytes of a stream, or 1 for an error of it and 2 for lack of memory.
pub data Slurped : Type 0 where
  slurped : List ℕ → Slurped
  gave_up : ℕ → Slurped
  endless_slurp : Slurped

-- `fread n room` are the bytes that a call with that room gives after `n` bytes, and `ferror n` tells
-- whether the stream is in error then.
module _ (fread : ℕ → ℕ → List ℕ) (ferror : ℕ → Bool) (has_memory : ℕ → Bool) where
  abbrev pub grown_then : (ℕ → Slurped) → Option ℕ → Slurped
  grown_then again none = Slurped.gave_up 2
  grown_then again (some cap) = again cap

  unfoldable pub slurp_loop : ℕ → List ℕ → ℕ → Slurped
  unfolding grow_buf
  slurp_loop zero buf cap = Slurped.endless_slurp
  slurp_loop (suc fuel) buf cap =
      let room : ℕ = cap - length buf in
      let got = fread (length buf) room in
      let all = buf ++ got in
      let more = grown_then (slurp_loop fuel all) (grow_buf has_memory cap) in
      if ltb (length got) room
      then (if ferror (length all) then Slurped.gave_up 1 else Slurped.slurped all)
      else more

  -- The capacity doubles 51 times from 4096 before it reaches 2^63.
  unfoldable pub slurp : Slurped
  unfolding slurp_loop
  slurp = if has_memory 4096 then slurp_loop 53 [] 4096 else Slurped.gave_up 2

-- What the arguments ask for.
pub data Command : Type 0 where
  print_usage print_version missing_expression extra_arguments : Command
  unknown_option : List ℕ → Command
  run : Option (List ℕ) → Option (List ℕ) → Bool → Command

-- `i < argc - 1`, where `left` are the arguments from the i-th.
unfoldable pub parsed : Option (List ℕ) → Option (List ℕ) → Bool → List (List ℕ) → Command
parsed eval_expr script_path run_interactive left =
    if ltb 1 (length left)
    then Command.extra_arguments
    else Command.run eval_expr script_path run_interactive

-- A dash with something behind it.
abbrev pub is_option : List ℕ → Bool
is_option [] = false
is_option (c ∷ []) = false
is_option (c ∷ d ∷ cs) = c == 45

-- The loop over the arguments; `awaiting` behind an `-e`, whose argument is the next one.
unfoldable pub parse_args : Bool → Option (List ℕ) → Bool → List (List ℕ) → Command
unfolding parsed
parse_args true eval_expr run_interactive [] = Command.missing_expression
parse_args true eval_expr run_interactive (a ∷ rest) = parse_args false (some a) false rest
parse_args false eval_expr run_interactive [] = parsed eval_expr none run_interactive []
parse_args false eval_expr run_interactive (a ∷ rest) =
    let after_expression = parse_args true eval_expr run_interactive rest in
    if bytes_equal a (codes "--")
    then parsed eval_expr none run_interactive rest
    else if bytes_equal a (codes "-h") || bytes_equal a (codes "--help")
    then Command.print_usage
    else if bytes_equal a (codes "-V") || bytes_equal a (codes "--version")
    then Command.print_version
    else if bytes_equal a (codes "-e")
    then after_expression
    else if is_option a
    then Command.unknown_option a
    else parsed eval_expr (some a) false (a ∷ rest)

abbrev pub stderr : ℕ
stderr = 2

-- A result with its line feed, and a flush of the stream: the exit code.
unfoldable pub print_line : List ℕ → M ℕ
unfolding write_to both_written
print_line bytes = do
  written ← both_written stdout bytes (10 ∷ [])
  flushed ← if written then write_to stdout [] else pure false
  if flushed then pure 0 else pure 2

-- An open stream.
pub record File : Type 0 where
  pub fread : ℕ → ℕ → List ℕ
  pub ferror : ℕ → Bool

unfoldable pub open_input : File → (List ℕ → Option File) → List ℕ → Option File
open_input stdin_file fopen path =
    if bytes_equal path (codes "-") then some stdin_file else fopen path

module _ (render : Message → List ℕ) (fuel : ℕ) where
  -- A message for the user on stderr, whether it can be written or not, and an exit code.
  unfoldable pub complain : List ℕ → ℕ → M ℕ
  unfolding write_to
  complain text code = do _ ← write_to stderr (codes "microlisp: " ++ text); pure code

  abbrev pub source_outcome : Bool → Status ⊎ Option (List ℕ) → M ℕ
  source_outcome print_result (inl st) =
      λ s. complain (error_line render st s.last_error.message) (exit_code_for (some st)) s
  source_outcome print_result (inr none) = pure 0
  source_outcome print_result (inr (some bytes)) =
      if print_result && ltb 0 (length bytes) then print_line bytes else pure 0

  unfoldable pub eval_source : List ℕ → Bool → M ℕ
  unfolding attempt microlisp_eval complain print_line exit_code_for
  eval_source source print_result =
      attempt (microlisp_eval fuel source) >>= source_outcome print_result

  -- There is a prompt only where stdin is a terminal.
  unfoldable pub run_repl : Bool → List (List ℕ) → M ℕ
  unfolding microlisp_repl exit_code_for
  run_repl tty lines = do
    st ← microlisp_repl render fuel stdout (if tty then some (codes "microlisp> ") else none) lines
    pure (exit_code_for st)

  module _ (stdin_file : File) (fopen : List ℕ → Option File) (has_memory : ℕ → Bool) where
    abbrev pub slurped_source : Slurped → M ℕ
    slurped_source (Slurped.slurped bytes) = eval_source bytes false
    slurped_source (Slurped.gave_up _) = complain (codes "read error\n") 2
    slurped_source Slurped.endless_slurp = λ _. out_of_fuel

    abbrev pub opened_source : List ℕ → Option File → M ℕ
    opened_source path none = complain (codes "cannot open `" ++ path ++ codes "`\n") 2
    opened_source path (some f) = slurped_source (slurp f.fread f.ferror has_memory)

    unfoldable pub run_script_file : List ℕ → M ℕ
    unfolding open_input slurp eval_source
    run_script_file path = opened_source path (open_input stdin_file fopen path)

    module _ (tty : Bool) (lines : List (List ℕ)) where
      -- An expression goes before a script, and a script before the loop.
      abbrev pub run_command : Option (List ℕ) → Option (List ℕ) → Bool → M ℕ
      run_command (some expression) script interactive = eval_source expression true
      run_command none (some path) interactive = run_script_file path
      run_command none none true = run_repl tty lines
      run_command none none false = pure 0

-- The exit code, and what was written to each stream.
pub data Exit : Type 0 where
  exited : ℕ → (ℕ → List ℕ) → Exit
  crashed running : Exit

abbrev pub exit_of : Run ℕ → Exit
exit_of (ok code s) = Exit.exited code s.written
exit_of (err e s) = Exit.crashed
exit_of fault = Exit.crashed
exit_of out_of_fuel = Exit.running

abbrev pub usage_text : List ℕ
usage_text =
    codes "Usage:\n"
    ++ codes "  microlisp                Interactive REPL on stdin\n"
    ++ codes "  microlisp FILE           Run FILE as a script\n"
    ++ codes "  microlisp -              Run stdin as a script\n"
    ++ codes "  microlisp -e EXPR        Evaluate EXPR and print its result\n"
    ++ codes "  microlisp --help | -h\n"
    ++ codes "  microlisp --version | -V\n"

-- The world around the program.
pub record World : Type 0 where
  pub malloc : Allocator
  pub state_size : ℕ
  pub libc : Libc
  pub render : Message → List ℕ
  pub version : List ℕ
  pub stdin_file : File
  pub fopen : List ℕ → Option File
  pub has_memory : ℕ → Bool
  pub tty : Bool
  pub lines : List (List ℕ)

module _ (w : World) (fuel : ℕ) where
  -- What the program's n-th write leaves on each stream where no state is made.
  abbrev pub sent : ℕ → ℕ → List ℕ → ℕ → List ℕ
  sent n file text f =
      let all = if w.libc.write_ok n then text else [] in if f == file then all else []

  -- A message on stderr with the usage behind it.
  abbrev pub misused : List ℕ → Exit
  misused text = Exit.exited 2 (λ f. sent 0 stderr text f ++ sent 1 stderr usage_text f)

  abbrev pub run_created : Option (List ℕ) → Option (List ℕ) → Bool → Creation → Exit
  run_created e p i (Creation.created s) = exit_of (
      (run_command w.render fuel w.stdin_file w.fopen w.has_memory w.tty w.lines e p i >>= λ rc.
      microlisp_state_destroy >> pure rc)
        s)
  run_created e p i (Creation.refused st) = Exit.exited 1 (
      sent 0 stderr (
        codes "microlisp: cannot create interpreter state ("
        ++ codes (microlisp_status_string (some st))
        ++ codes ")\n"))
  run_created e p i Creation.broken = Exit.crashed
  run_created e p i Creation.unfinished = Exit.running

  abbrev pub new_state : Creation
  new_state = microlisp_state_create w.malloc w.state_size w.libc none null_options

  -- The exit code of what only prints is 0, also where the write fails.
  abbrev pub execute : Command → Exit
  execute Command.print_usage = Exit.exited 0 (sent 0 stdout usage_text)
  execute Command.print_version =
      Exit.exited 0 (sent 0 stdout (codes "microlisp " ++ w.version ++ 10 ∷ []))
  execute Command.missing_expression = misused (codes "microlisp: -e requires an argument\n")
  execute (Command.unknown_option a) =
      misused (codes "microlisp: unknown option `" ++ a ++ codes "`\n")
  execute Command.extra_arguments =
      Exit.exited 2 (sent 0 stderr (codes "microlisp: extra arguments after script path\n"))
  execute (Command.run e p i) = run_created e p i new_state

  -- `main` on the arguments behind the program's name.
  unfoldable pub main : List (List ℕ) → Exit
  unfolding parse_args microlisp_state_create microlisp_state_destroy run_script_file run_repl
      eval_source microlisp_status_string
  main args = execute (parse_args false none true args)
