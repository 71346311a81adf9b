-- ===== src/Report/Names.antt =====
-- The texts of src/status.c.
use microlisp.Base.{ℕ, ◌≡◌, refl, sym, ap, ◌∙◌, Option, none, some, List, [], ◌∷◌, get_elem?, codes}
use microlisp.State.{Status}
use microlisp.Symtab.{index_from}
use microlisp.Report.{status_code, microlisp_status_string}

abbrev table : List (List ℕ)
table =
    codes "MICROLISP_OK"
    ∷ codes "MICROLISP_ERR_INVALID_ARG"
    ∷ codes "MICROLISP_ERR_NOMEM"
    ∷ codes "MICROLISP_ERR_READ_SYNTAX"
    ∷ codes "MICROLISP_ERR_READ_TRUNCATED"
    ∷ codes "MICROLISP_ERR_READ_DEPTH"
    ∷ codes "MICROLISP_ERR_UNBOUND"
    ∷ codes "MICROLISP_ERR_TYPE"
    ∷ codes "MICROLISP_ERR_ARITY"
    ∷ codes "MICROLISP_ERR_DIV_ZERO"
    ∷ codes "MICROLISP_ERR_OVERFLOW"
    ∷ codes "MICROLISP_ERR_USER"
    ∷ codes "MICROLISP_ERR_IO"
    ∷ codes "MICROLISP_ERR_SYNTAX"
    ∷ codes "MICROLISP_ERR_EVAL_DEPTH"
    ∷ codes "MICROLISP_ERR_PRINT_DEPTH"
    ∷ codes "MICROLISP_ERR_EQUAL_DEPTH"
    ∷ []

-- A status's place in the table of texts is its number.
place :
    (a : Option Status)
    → index_from 0 (codes (microlisp_status_string a)) table ≡ some (status_code a)
unfolding index_from microlisp_status_string status_code
place none = refl
place (some Status.invalid_arg) = refl
place (some Status.nomem) = refl
place (some Status.read_syntax) = refl
place (some Status.read_truncated) = refl
place (some Status.read_depth) = refl
place (some Status.unbound) = refl
place (some Status.type) = refl
place (some Status.arity) = refl
place (some Status.div_zero) = refl
place (some Status.overflow) = refl
place (some Status.user) = refl
place (some Status.io) = refl
place (some Status.syntax) = refl
place (some Status.eval_depth) = refl
place (some Status.print_depth) = refl
place (some Status.equal_depth) = refl

abbrev statuses : List (Option Status)
statuses =
    none
    ∷ some Status.invalid_arg
    ∷ some Status.nomem
    ∷ some Status.read_syntax
    ∷ some Status.read_truncated
    ∷ some Status.read_depth
    ∷ some Status.unbound
    ∷ some Status.type
    ∷ some Status.arity
    ∷ some Status.div_zero
    ∷ some Status.overflow
    ∷ some Status.user
    ∷ some Status.io
    ∷ some Status.syntax
    ∷ some Status.eval_depth
    ∷ some Status.print_depth
    ∷ some Status.equal_depth
    ∷ []

abbrev or_none : Option (Option Status) → Option Status
or_none none = none
or_none (some a) = a

abbrev status_of : ℕ → Option Status
status_of n = or_none (get_elem? statuses n)

status_of-status_code : (a : Option Status) → status_of (status_code a) ≡ a
unfolding status_code
status_of-status_code none = refl
status_of-status_code (some Status.invalid_arg) = refl
status_of-status_code (some Status.nomem) = refl
status_of-status_code (some Status.read_syntax) = refl
status_of-status_code (some Status.read_truncated) = refl
status_of-status_code (some Status.read_depth) = refl
status_of-status_code (some Status.unbound) = refl
status_of-status_code (some Status.type) = refl
status_of-status_code (some Status.arity) = refl
status_of-status_code (some Status.div_zero) = refl
status_of-status_code (some Status.overflow) = refl
status_of-status_code (some Status.user) = refl
status_of-status_code (some Status.io) = refl
status_of-status_code (some Status.syntax) = refl
status_of-status_code (some Status.eval_depth) = refl
status_of-status_code (some Status.print_depth) = refl
status_of-status_code (some Status.equal_depth) = refl

some_injective : (m n : ℕ) → some m ≡ some n → m ≡ n
some_injective m n e = cc

-- Two statuses with the same text are the same status.
pub microlisp_status_string-injective :
    (a b : Option Status) → microlisp_status_string a ≡ microlisp_status_string b → a ≡ b
microlisp_status_string-injective a b e =
    let same = sym (place a) ∙ ap (λ t. index_from 0 (codes t) table) e ∙ place b in
    sym (status_of-status_code a)
    ∙ ap status_of (some_injective (status_code a) (status_code b) same)
    ∙ status_of-status_code b
