-- ===== src/Report.antt =====
-- What an embedder sees of a status: src/status.c, the error accessors of src/state.c, and
-- exit_code_for of src/main.c. A status is `none` for MICROLISP_OK.
pub mod Names
use Prim.Native.String.{String}
use microlisp.Base.{ℕ, Option, none, some, List, []}
use microlisp.State.{Status, Message, ErrorInfo, State}

-- The values of the enumeration.
unfoldable pub status_code : Option Status → ℕ
status_code none = 0
status_code (some Status.invalid_arg) = 1
status_code (some Status.nomem) = 2
status_code (some Status.read_syntax) = 3
status_code (some Status.read_truncated) = 4
status_code (some Status.read_depth) = 5
status_code (some Status.unbound) = 6
status_code (some Status.type) = 7
status_code (some Status.arity) = 8
status_code (some Status.div_zero) = 9
status_code (some Status.overflow) = 10
status_code (some Status.user) = 11
status_code (some Status.io) = 12
status_code (some Status.syntax) = 13
status_code (some Status.eval_depth) = 14
status_code (some Status.print_depth) = 15
status_code (some Status.equal_depth) = 16

unfoldable pub microlisp_status_string : Option Status → String
microlisp_status_string none = "MICROLISP_OK"
microlisp_status_string (some Status.invalid_arg) = "MICROLISP_ERR_INVALID_ARG"
microlisp_status_string (some Status.nomem) = "MICROLISP_ERR_NOMEM"
microlisp_status_string (some Status.read_syntax) = "MICROLISP_ERR_READ_SYNTAX"
microlisp_status_string (some Status.read_truncated) = "MICROLISP_ERR_READ_TRUNCATED"
microlisp_status_string (some Status.read_depth) = "MICROLISP_ERR_READ_DEPTH"
microlisp_status_string (some Status.unbound) = "MICROLISP_ERR_UNBOUND"
microlisp_status_string (some Status.type) = "MICROLISP_ERR_TYPE"
microlisp_status_string (some Status.arity) = "MICROLISP_ERR_ARITY"
microlisp_status_string (some Status.div_zero) = "MICROLISP_ERR_DIV_ZERO"
microlisp_status_string (some Status.overflow) = "MICROLISP_ERR_OVERFLOW"
microlisp_status_string (some Status.user) = "MICROLISP_ERR_USER"
microlisp_status_string (some Status.io) = "MICROLISP_ERR_IO"
microlisp_status_string (some Status.syntax) = "MICROLISP_ERR_SYNTAX"
microlisp_status_string (some Status.eval_depth) = "MICROLISP_ERR_EVAL_DEPTH"
microlisp_status_string (some Status.print_depth) = "MICROLISP_ERR_PRINT_DEPTH"
microlisp_status_string (some Status.equal_depth) = "MICROLISP_ERR_EQUAL_DEPTH"

unfoldable pub exit_code_for : Option Status → ℕ
exit_code_for none = 0
exit_code_for (some Status.io) = 2
exit_code_for (some Status.invalid_arg) = 1
exit_code_for (some Status.nomem) = 1
exit_code_for (some Status.read_syntax) = 1
exit_code_for (some Status.read_truncated) = 1
exit_code_for (some Status.read_depth) = 1
exit_code_for (some Status.unbound) = 1
exit_code_for (some Status.type) = 1
exit_code_for (some Status.arity) = 1
exit_code_for (some Status.div_zero) = 1
exit_code_for (some Status.overflow) = 1
exit_code_for (some Status.user) = 1
exit_code_for (some Status.syntax) = 1
exit_code_for (some Status.eval_depth) = 1
exit_code_for (some Status.print_depth) = 1
exit_code_for (some Status.equal_depth) = 1

-- `none` is the empty text for a NULL state.
unfoldable pub microlisp_state_error : Option State → Message
microlisp_state_error none = Message.copied []
microlisp_state_error (some s) = s.last_error.message

unfoldable pub microlisp_state_error_position : Option State → ℕ × ℕ
microlisp_state_error_position none = (0, 0)
microlisp_state_error_position (some s) = (s.last_error.line, s.last_error.column)
