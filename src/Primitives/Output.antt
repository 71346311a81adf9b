-- ===== src/Primitives/Output.antt =====
-- display, write, newline and error of src/primitives.c.
use microlisp.Base.{
  ℕ, suc, true, false, Option, some, List, [], ◌∷◌, ◌++◌, ◌==◌, if◌then◌else◌, take,
}
use microlisp.Value.{Value, Obj, string, sym, mv_undef}
use microlisp.State.{
  Status, Arg, Message, State, M, ok, err, pure, fail, faulty, ml_set_error, reject, reject_with,
  ◌>>=◌, ◌>>◌,
}
use microlisp.Equal.{get_obj}
use microlisp.Symtab.{ml_sym_name}
use microlisp.Printer.{ml_print}

abbrev pub append_to : ℕ → List ℕ → (ℕ → List ℕ) → ℕ → List ℕ
append_to file bytes written f = if f == file then written f ++ bytes else written f

-- `fwrite` or `fputc` on the configured stream.
unfoldable pub state_output_sink : List ℕ → Unit {0} → M (Unit {0})
state_output_sink bytes _ s =
    let t : State = record s { writes = suc s.writes } in
    if s.libc.write_ok s.writes
    then ok tt (record t { written = append_to s.output bytes s.written })
    else err Status.io t

-- `fflush` counts as a write of nothing.
unfoldable pub state_output_flush : M (Unit {0})
state_output_flush s =
    let t : State = record s { writes = suc s.writes } in
    if s.libc.write_ok s.writes then ok tt t else err Status.io t

unfoldable pub prim_display : List Value → M Value
unfolding ml_print state_output_sink state_output_flush
prim_display [] = faulty
prim_display (v ∷ _) = do ml_print state_output_sink false v tt; state_output_flush; pure mv_undef

unfoldable pub prim_write : List Value → M Value
unfolding ml_print state_output_sink state_output_flush
prim_write [] = faulty
prim_write (v ∷ _) = do ml_print state_output_sink true v tt; state_output_flush; pure mv_undef

unfoldable pub prim_newline : List Value → M Value
unfolding state_output_sink state_output_flush
prim_newline _ = do state_output_sink (10 ∷ []) tt; state_output_flush; pure mv_undef

-- The message is the string's bytes, cut to the buffer, or the symbol's name.
abbrev pub error_with : Value → Option Obj → M Value
error_with v (some (string bytes)) = do
  ml_set_error 0 0 (Message.copied (take 255 bytes))
  fail Status.user
error_with (sym i) _ =
    λ s. reject_with Status.user "%.*s" (Arg.bytes (ml_sym_name s (sym i)) ∷ []) s
error_with _ _ = reject Status.user "error"

unfoldable pub prim_error : List Value → M Value
unfolding get_obj ml_set_error ml_sym_name
prim_error [] = reject Status.user "error"
prim_error (v ∷ _) = get_obj v >>= error_with v
