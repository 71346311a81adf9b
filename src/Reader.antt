-- ===== src/Reader.antt =====
-- The reader of src/reader.c: bytes, positions and atoms. `Forms` has lists, quotes and dispatch.
-- A reader holds the input that is left, `input[pos..len)`. A caller of the reader gives up at the
-- first error, so what an error leaves in the reader is not modelled.
pub mod Forms
pub mod Numbers
use Prim.Native.String.{String}
use microlisp.Base.{
  ℕ, zero, suc, ◌+◌, ◌-◌, ◌*◌, ◌^◌, Bool, true, false, not, ◌&&◌, ◌||◌, Option, none, some, List,
  [], ◌∷◌, ◌++◌, ltb, leb, ◌==◌, if◌then◌else◌, length, ℤ, pos, negate,
}
use microlisp.Value.{Value, fix, mv_true, mv_false}
use microlisp.Word.{fits_fixnum}
use microlisp.State.{
  Status, Arg, Message, State, Run, M, ok, err, pure, fail, ml_set_error, ml_raw_alloc, ◌>>=◌, ◌>>◌,
}
use microlisp.Gc.{mul_overflow, alloc_checked, ml_gc_alloc_string}
use microlisp.Symtab.{ml_sym_intern}

pub record Reader : Type 0 where
  pub rest : List ℕ
  pub line : ℕ
  pub column : ℕ
  pub depth : ℕ

abbrev pub head_of : List ℕ → Option ℕ
head_of [] = none
head_of (c ∷ cs) = some c

-- `none` for -1, the end of the input.
abbrev pub peek : Reader → Option ℕ
peek r = head_of r.rest

abbrev pub next_line : ℕ → ℕ → ℕ
next_line c line = if c == 10 then suc line else line

abbrev pub next_column : ℕ → ℕ → ℕ
next_column c column = if c == 10 then 1 else suc column

abbrev pub advance_over : List ℕ → Reader → Option ℕ × Reader
advance_over [] r = (none, r)
advance_over (c ∷ cs) r =
    (some c, record r { rest = cs; line = next_line c r.line; column = next_column c r.column })

unfoldable pub advance : Reader → Option ℕ × Reader
advance r = advance_over r.rest r

unfoldable pub is_whitespace : ℕ → Bool
is_whitespace c = c == 32 || c == 9 || c == 10 || c == 13 || c == 12 || c == 11

-- ( ) ; " ' end a token, as do blanks and the end of the input.
unfoldable pub is_terminator : Option ℕ → Bool
unfolding is_whitespace
is_terminator none = true
is_terminator (some c) = is_whitespace c || c == 40 || c == 41 || c == 59 || c == 34 || c == 39

unfoldable pub is_digit : ℕ → Bool
is_digit c = leb 48 c && leb c 57

unfoldable pub hex_digit : ℕ → Option ℕ
hex_digit c =
    if leb 48 c && leb c 57
    then some (c - 48)
    else if leb 97 c && leb c 102
    then some (10 + c - 97)
    else if leb 65 c && leb c 70
    then some (10 + c - 65)
    else none

-- The bytes passed over, inside a comment or outside one.
unfoldable pub skip_bytes : Bool → List ℕ → ℕ → ℕ → List ℕ × ℕ × ℕ
unfolding is_whitespace
skip_bytes comment [] line column = ([], line, column)
skip_bytes comment (c ∷ cs) line column =
    let later =
      skip_bytes ((comment && not (c == 10)) || (not comment && c == 59)) cs (next_line c line)
        (next_column c column) in
    if comment || is_whitespace c || c == 59 then later else (c ∷ cs, line, column)

unfoldable pub skip_ws_and_comments : Reader → Reader
unfolding skip_bytes
skip_ws_and_comments r =
    let (rest, line, column) = skip_bytes false r.rest r.line r.column in
    record r { rest = rest; line = line; column = column }

-- `ml_set_error(s, line, column, ...); return status;`
unfoldable pub reject_at {ℓ} : {A : Type ℓ} → Status → ℕ → ℕ → String → M A
unfolding ml_set_error
reject_at st line column fmt = do ml_set_error line column (Message.format fmt []); fail st

-- The byte for an escape of one letter.
unfoldable pub escaped : ℕ → Option ℕ
escaped e =
    if e == b'n'
    then some 10
    else if e == b't'
    then some 9
    else if e == b'r'
    then some 13
    else if e == b'0'
    then some 0
    else if e == 34
    then some 34
    else if e == 92
    then some 92
    else none

abbrev pub hex_pair : Option ℕ → Option ℕ → Option ℕ
hex_pair (some h) (some l) = some (h * 16 + l)
hex_pair _ _ = none

abbrev pub hex_of : Option ℕ → Option ℕ
hex_of none = none
hex_of (some c) = hex_digit c

abbrev pub hex_value : Option ℕ × Reader → M (ℕ × Reader)
hex_value (some b, r) = pure (b, r)
hex_value (none, r) =
    reject_at Status.read_syntax r.line r.column "malformed \\xHH escape: need two hex digits"

-- What follows a backslash: the byte that is meant.
abbrev pub read_escape : ℕ → ℕ → Option ℕ × Reader → M (ℕ × Reader)
read_escape start_line start_column (none, r) =
    reject_at Status.read_truncated start_line start_column "unterminated escape sequence in string"
read_escape start_line start_column (some e, r) =
    let (hi, r1) = advance r in
    let (lo, r2) = advance r1 in
    let hex = hex_value (hex_pair (hex_of hi) (hex_of lo), r2) in
    if e == b'x' then hex else elim (escaped e) [
      | some c ↦ pure (c, r)
      | none ↦ (do
        ml_set_error r.line r.column (Message.format "unknown string escape \\%c" (Arg.num e ∷ []))
        fail Status.read_syntax)
    ]

abbrev pub buf_grown : ℕ → Option ℕ → M ℕ
buf_grown cap none = fail Status.nomem
buf_grown cap (some _) = pure (cap * 2)

-- Room for one more byte in the scratch buffer: the capacity.
unfoldable pub buf_room : ℕ → ℕ → M ℕ
unfolding ml_raw_alloc
buf_room len cap =
    if len == cap then alloc_checked (mul_overflow cap 2) >>= buf_grown cap else pure cap

module _ (start_line start_column : ℕ) where
  abbrev pub string_byte : ℕ → Reader → M (ℕ × Reader)
  string_byte c r = if c == 92 then read_escape start_line start_column (advance r) else pure (c, r)

  -- One round of the loop over a string's bytes.
  abbrev pub string_round :
      (List ℕ → ℕ → Reader → M (List ℕ × Reader))
      → List ℕ
      → ℕ
      → Option ℕ × Reader
      → M (List ℕ × Reader)
  string_round again buf cap (none, r) =
      reject_at Status.read_truncated start_line start_column "unterminated string literal"
  string_round again buf cap (some c, r) = if c == 34 then pure (buf, r) else do
    (b, r') ← string_byte c r
    cap' ← buf_room (length buf) cap
    again (buf ++ b ∷ []) cap' r'

  -- The bytes up to the closing quote. Each round takes at least one byte.
  unfoldable pub string_loop : ℕ → List ℕ → ℕ → Reader → M (List ℕ × Reader)
  unfolding advance hex_digit escaped reject_at ml_set_error buf_room
  string_loop zero buf cap r s = Run.out_of_fuel
  string_loop (suc fuel) buf cap r s = string_round (string_loop fuel) buf cap (advance r) s

abbrev pub scratch : ℕ → ℕ → Reader → Option ℕ → M (List ℕ × Reader)
scratch line column r none = fail Status.nomem
scratch line column r (some _) = string_loop line column (suc (length r.rest)) [] 32 r

-- On entry the reader is at the opening quote.
unfoldable pub read_string : Reader → M (Value × Reader)
unfolding advance ml_raw_alloc string_loop ml_gc_alloc_string
read_string r = do
  buf ← ml_raw_alloc 32
  (bytes, r') ← scratch r.line r.column (advance r).1 buf
  v ← ml_gc_alloc_string bytes
  pure (v, r')

abbrev pub is_byte : ℕ → Option ℕ → Bool
is_byte b none = false
is_byte b (some c) = c == b

-- On entry the reader is at `#`.
unfoldable pub read_hash : Reader → M (Value × Reader)
unfolding advance is_terminator reject_at ml_set_error
read_hash r =
    let (c, r') = advance (advance r).1 in
    if is_byte b't' c && is_terminator (peek r')
    then pure (mv_true, r')
    else if is_byte b'f' c && is_terminator (peek r')
    then pure (mv_false, r')
    else reject_at Status.read_syntax r.line r.column
        "unknown # form (only #t and #f are supported)"

-- The digits at the front of the input. No digit is a line feed.
unfoldable pub digits_of : List ℕ → List ℕ
unfolding is_digit
digits_of [] = []
digits_of (c ∷ cs) = let more = digits_of cs in if is_digit c then c ∷ more else []

abbrev pub after {ℓ} : {A : Type ℓ} → List A → List ℕ → List ℕ
after [] cs = cs
after (_ ∷ xs) [] = []
after (_ ∷ xs) (_ ∷ cs) = after xs cs

-- value * 10 + digit, while it fits int64_t.
unfoldable pub decimal_loop : ℕ → List ℕ → Option ℕ
decimal_loop value [] = some value
decimal_loop value (c ∷ cs) =
    let next : ℕ = value * 10 + (c - 48) in
    let more = decimal_loop next cs in if ltb next (2 ^ 63) then more else none

abbrev pub signed : Bool → ℕ → ℤ
signed true value = negate (pos value)
signed false value = pos value

-- The literal's value, checked for what follows it and for the fixnum range.
abbrev pub number_end : ℕ → ℕ → Bool → Option ℕ → Reader → M (Value × Reader)
number_end line column negative none r =
    reject_at Status.overflow line column "integer literal exceeds 60-bit fixnum range"
number_end line column negative (some value) r =
    if not (is_terminator (peek r))
    then reject_at Status.read_syntax r.line r.column
        "integer literal not followed by a token terminator"
    else if fits_fixnum (signed negative value)
    then pure (fix (signed negative value), r)
    else reject_at Status.overflow line column "integer literal exceeds 60-bit fixnum range"

abbrev pub digits_then : Reader → Bool → List ℕ → M (Value × Reader)
digits_then r negative [] = reject_at Status.read_syntax r.line r.column "expected digit after sign"
digits_then r negative (d ∷ ds) =
    number_end r.line r.column negative (decimal_loop 0 (d ∷ ds))
      (record r { rest = after (d ∷ ds) r.rest; column = r.column + length (d ∷ ds) })

-- On entry the sign, if there is one, has been consumed.
unfoldable pub read_number : Reader → Bool → M (Value × Reader)
unfolding digits_of decimal_loop is_terminator fits_fixnum negate reject_at ml_set_error
read_number r negative = digits_then r negative (digits_of r.rest)

-- The bytes up to the next terminator, which every line feed is.
unfoldable pub symbol_bytes : List ℕ → List ℕ
unfolding is_terminator
symbol_bytes [] = []
symbol_bytes (c ∷ cs) =
    let more = symbol_bytes cs in if is_terminator (some c) then [] else c ∷ more

unfoldable pub read_symbol : Reader → M (Value × Reader)
unfolding symbol_bytes ml_sym_intern
read_symbol r =
    let name = symbol_bytes r.rest in
    do
      v ← ml_sym_intern name
      pure (v, record r { rest = after name r.rest; column = r.column + length name })
