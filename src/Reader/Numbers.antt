-- ===== src/Reader/Numbers.antt =====
-- What read_number of src/reader.c makes of a decimal literal.
use microlisp.Base.{
  ℕ, ◌+◌, ◌-◌, ◌*◌, ◌^◌, ◌≡◌, Bool, true, false, Option, none, some, List, [], ◌∷◌, if◌then◌else◌,
  ltb, length,
}
use microlisp.Value.{fix}
use microlisp.Word.{fits_fixnum}
use microlisp.State.{Status, State, Message, ok, err}
use microlisp.Reader.{Reader, is_digit, signed, read_number}

abbrev pub AllDigits : List ℕ → Type 0
AllDigits [] = Unit {0}
AllDigits (c ∷ cs) = (is_digit c ≡ true) × AllDigits cs

-- The number that digits stand for, each by its place.
abbrev pub value : List ℕ → ℕ
value [] = 0
value (c ∷ cs) = (c - 48) * 10 ^ length cs + value cs

abbrev bounded : ℕ → Option ℕ
bounded n = if ltb n (2 ^ 63) then some n else none

-- A literal is read as the number, or refused as too large.
pub data Literal (r : Reader) (negative : Bool) (ds rest : List ℕ) (s : State) : Type 0 where
  reads :
      fits_fixnum (signed negative (value ds)) ≡ true
      → read_number r negative s
        ≡ ok
            (
              fix (signed negative (value ds)),
              record r { rest = rest; column = r.column + length ds },
            )
            s
      → Literal r negative ds rest s
  overflows :
      (t : State)
      → fits_fixnum (signed negative (value ds)) ≡ false
      → read_number r negative s ≡ err Status.overflow t
      → Literal r negative ds rest s

abbrev refused : Reader → State → State
refused r s = record s {
  last_error = record {
    message = Message.format "integer literal exceeds 60-bit fixnum range" [];
    line = r.line;
    column = r.column;
  };
}
