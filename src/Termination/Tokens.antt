-- ===== src/Termination/Tokens.antt =====
-- The bytes that strings, numbers, symbols and # forms of src/reader.c take.
use Prim.Native.String.{String}
use microlisp.Base.{
  ℕ, zero, suc, ◌*◌, ◌≤◌, ◌<◌, ◌≡◌, refl, ap, Bool, false, not, ◌&&◌, Option, none, some, List, [],
  ◌∷◌, ◌++◌, ◌==◌, length, arith,
}
use microlisp.Value.{mv_true, mv_false}
use microlisp.Word.{fits_fixnum}
use microlisp.State.{Status, Message, Arg, M, pure, fail, ml_set_error, ◌>>◌}
use microlisp.Gc.{mul_overflow}
use microlisp.Reader.{
  Reader, advance, advance_over, peek, head_of, is_byte, is_terminator, reject_at, escaped,
  hex_pair, hex_of, hex_value, read_escape, buf_grown, buf_room, string_byte, string_round,
  string_loop, scratch, read_string, read_hash, digits_of, digits_then, number_end, signed,
  read_number, read_symbol, symbol_bytes, after,
}
use microlisp.Termination.{
  fails, Yields, Total, Yields-bind, Yields-pure, Yields-fail, Yields-if, Yields-mono,
}
use microlisp.Termination.Atoms.{
  ml_raw_alloc-Total, alloc_checked-Total, ml_gc_alloc_string-Total, ml_sym_intern-Total,
}

-- The bytes that are left.
abbrev pub left : Reader → ℕ
left r = length r.rest

-- The reader that comes with an answer has at most, or less than, so many bytes left.
abbrev pub AtMost {ℓ} : {A : Type ℓ} → ℕ → A × Reader → Type 0
AtMost n (a, r) = left r ≤ n

abbrev pub Below {ℓ} : {A : Type ℓ} → ℕ → A × Reader → Type 0
Below n (a, r) = left r < n

pub reject_at-Yields {ℓ} :
    {A : Type ℓ} {P : A → Type 0} (x : Status) (line column : ℕ) (fmt : String)
    → Yields {A = A} P (reject_at x line column fmt)
unfolding reject_at ml_set_error
reject_at-Yields x line column fmt = record { at = λ s. fails }

-- One byte is taken, if there is one.
abbrev pub Stepped : ℕ → Option ℕ × Reader → Type 0
Stepped n (none, r) = left r ≤ n
Stepped n (some c, r) = left r < n

over_Stepped : (cs : List ℕ) (r : Reader) → r.rest ≡ cs → Stepped (left r) (advance_over cs r)
over_Stepped [] r e = omega arith
over_Stepped (c ∷ cs) r e = omega (arith, ap length e)

pub advance-Stepped : (r : Reader) → Stepped (left r) (advance r)
unfolding advance
advance-Stepped r = over_Stepped r.rest r refl

step_max : (n : ℕ) (p : Option ℕ × Reader) → Stepped n p → left p.1 ≤ n
step_max n (none, r) h = h
step_max n (some c, r) h = omega (arith, h)

pub advance_max : (r : Reader) → left (advance r).1 ≤ left r
advance_max r = step_max (left r) (advance r) (advance-Stepped r)

hex_value-Yields :
    (n : ℕ) (b : Option ℕ) (r : Reader) → left r ≤ n → Yields (AtMost n) (hex_value (b, r))
hex_value-Yields n (some b) r h = Yields-pure (b, r) h
hex_value-Yields n none r h = reject_at-Yields _ _ _ _

read_escape-Yields :
    (line column n : ℕ) (p : Option ℕ × Reader)
    → left p.1 ≤ n
    → Yields (AtMost n) (read_escape line column p)
unfolding ml_set_error
read_escape-Yields line column n (none, r) h = reject_at-Yields _ _ _ _
read_escape-Yields line column n (some e, r) h =
    let (hi, r1) = advance r in
    let (lo, r2) = advance r1 in
    Yields-if (e == b'x')
      (λ _.
        hex_value-Yields n (hex_pair (hex_of hi) (hex_of lo)) r2
          (omega (arith, h, advance_max r, advance_max (advance r).1)))
      (λ _. one (escaped e))
  where
    one :
        (o : Option ℕ)
        → Yields {A = ℕ × Reader} (AtMost n) (elim o [
          | some c ↦ pure (c, r)
          | none ↦
              (ml_set_error r.line r.column
                  (Message.format "unknown string escape \\%c" (Arg.num e ∷ []))
                >> fail Status.read_syntax)
        ])
    one (some c) = Yields-pure (c, r) h
    one none = record { at = λ s. fails }

buf_grown-Total : (cap : ℕ) (p : Option ℕ) → Total (buf_grown cap p)
buf_grown-Total cap none = Yields-fail Status.nomem
buf_grown-Total cap (some _) = Yields-pure (cap * 2) tt

buf_room-Total : (len cap : ℕ) → Total (buf_room len cap)
unfolding buf_room
buf_room-Total len cap =
    Yields-if (len == cap)
      (λ _. Yields-bind (alloc_checked-Total (mul_overflow cap 2)) λ p _. buf_grown-Total cap p)
      (λ _. Yields-pure cap tt)

module _ (line column : ℕ) where
  string_byte-Yields : (c : ℕ) (r : Reader) → Yields (AtMost (left r)) (string_byte line column c r)
  string_byte-Yields c r =
      Yields-if (c == 92) (λ _. read_escape-Yields line column (left r) (advance r) (advance_max r))
        (λ _. Yields-pure (c, r) (omega arith))

  string_round-Yields :
      (again : List ℕ → ℕ → Reader → M (List ℕ × Reader)) (n : ℕ)
      → ((buf : List ℕ) (cap : ℕ) (r : Reader) → left r < n → Yields (AtMost n) (again buf cap r))
      → (buf : List ℕ) (cap : ℕ) (p : Option ℕ × Reader) → Stepped n p
      → Yields (AtMost n) (string_round line column again buf cap p)
  string_round-Yields again n ih buf cap (none, r) h = reject_at-Yields _ _ _ _
  string_round-Yields again n ih buf cap (some c, r) h =
      Yields-if (c == 34) (λ _. Yields-pure (buf, r) (omega (arith, h)))
        (λ _. Yields-bind (string_byte-Yields c r) λ (b, r') taken.
          Yields-bind (buf_room-Total (length buf) cap)
            λ cap' _. ih (buf ++ b ∷ []) cap' r' (omega (arith, h, taken)))

  string_loop-Yields :
      (fuel : ℕ) (buf : List ℕ) (cap : ℕ) (r : Reader)
      → left r < fuel
      → Yields (AtMost (left r)) (string_loop line column fuel buf cap r)
  unfolding string_loop
  string_loop-Yields zero buf cap r h = absurd (omega (arith, h))
  string_loop-Yields (suc fuel) buf cap r h = record {
    at =
        (string_round-Yields (string_loop line column fuel) (left r)
          (λ buf cap r' less.
            Yields-mono (string_loop-Yields fuel buf cap r' (omega (arith, h, less)))
              (λ (bs, x) most. omega (arith, most, less)))
          buf cap (advance r) (advance-Stepped r)).at;
  }

scratch-Yields :
    (line column : ℕ) (r : Reader) (p : Option ℕ)
    → Yields (AtMost (left r)) (scratch line column r p)
scratch-Yields line column r none = Yields-fail Status.nomem
scratch-Yields line column r (some _) =
    string_loop-Yields line column (suc (left r)) [] 32 r (omega arith)

-- A byte that is there is taken.
abbrev pub Some : Option ℕ → Type 0
Some none = ⊥
Some (some c) = Unit {0}

over_less :
    (cs : List ℕ) (r : Reader)
    → Some (head_of cs)
    → r.rest ≡ cs
    → left (advance_over cs r).1 < left r
over_less [] r at e = absurd at
over_less (c ∷ cs) r at e = omega (arith, ap length e)

pub advance_less : (r : Reader) → Some (peek r) → left (advance r).1 < left r
unfolding advance
advance_less r at = over_less r.rest r at refl

pub read_string-Yields : (r : Reader) → Some (peek r) → Yields (Below (left r)) (read_string r)
unfolding read_string
read_string-Yields r at = Yields-bind (ml_raw_alloc-Total 32) λ buf _.
    Yields-bind (scratch-Yields r.line r.column (advance r).1 buf) λ (bytes, r') most.
      Yields-bind (ml_gc_alloc_string-Total bytes)
        λ v _. Yields-pure (v, r') (omega (arith, most, advance_less r at))

pub read_hash-Yields : (r : Reader) → Some (peek r) → Yields (Below (left r)) (read_hash r)
unfolding read_hash
read_hash-Yields r at =
    let (c, r') = advance (advance r).1 in
    let less : left r' < left r = omega (arith, advance_less r at, advance_max (advance r).1) in
    Yields-if (is_byte b't' c && is_terminator (peek r')) (λ _. Yields-pure (mv_true, r') less)
      (λ _.
        Yields-if (is_byte b'f' c && is_terminator (peek r')) (λ _. Yields-pure (mv_false, r') less)
          (λ _. reject_at-Yields _ _ _ _))

after_max : (xs cs : List ℕ) → length (after xs cs) ≤ length cs
after_max [] cs = omega arith
after_max (x ∷ xs) [] = omega arith
after_max (x ∷ xs) (c ∷ cs) = omega (arith, after_max xs cs)

after_less : (x : ℕ) (xs cs : List ℕ) → Some (head_of cs) → length (after (x ∷ xs) cs) < length cs
after_less x xs [] at = absurd at
after_less x xs (c ∷ cs) at = omega (arith, after_max xs cs)

number_end-Yields :
    (line column n : ℕ) (negative : Bool) (v : Option ℕ) (r : Reader)
    → left r < n
    → Yields (Below n) (number_end line column negative v r)
number_end-Yields line column n negative none r h = reject_at-Yields _ _ _ _
number_end-Yields line column n negative (some value) r h =
    Yields-if (not (is_terminator (peek r))) (λ _. reject_at-Yields _ _ _ _)
      (λ _.
        Yields-if (fits_fixnum (signed negative value)) (λ _. Yields-pure _ h)
          (λ _. reject_at-Yields _ _ _ _))

digit_there : (d : ℕ) (ds cs : List ℕ) → d ∷ ds ≡ digits_of cs → Some (head_of cs)
unfolding digits_of
digit_there d ds [] e = cc
digit_there d ds (c ∷ cs) e = tt

-- A number takes a digit at least, since otherwise it is refused.
digits_then-Yields :
    (r : Reader) (negative : Bool) (ds : List ℕ)
    → ds ≡ digits_of r.rest
    → Yields (Below (left r)) (digits_then r negative ds)
digits_then-Yields r negative [] e = reject_at-Yields _ _ _ _
digits_then-Yields r negative (d ∷ ds) e =
    number_end-Yields _ _ (left r) negative _ _ (after_less d ds r.rest (digit_there d ds r.rest e))

pub read_number-Yields :
    (r : Reader) (negative : Bool) → Yields (Below (left r)) (read_number r negative)
unfolding read_number
read_number-Yields r negative = digits_then-Yields r negative (digits_of r.rest) refl

end_is_terminator : ¬ (is_terminator none ≡ false)
unfolding is_terminator
end_is_terminator e = cc

-- A symbol has a byte, where the first one is no terminator.
name_there :
    (cs : List ℕ)
    → is_terminator (head_of cs) ≡ false
    → length (after (symbol_bytes cs) cs) < length cs
unfolding symbol_bytes
name_there [] e = absurd (end_is_terminator e)
name_there (c ∷ cs) e = rw e (omega (arith, after_max (symbol_bytes cs) cs))

pub read_symbol-Yields :
    (r : Reader) → is_terminator (peek r) ≡ false → Yields (Below (left r)) (read_symbol r)
unfolding read_symbol
read_symbol-Yields r e =
    Yields-bind (ml_sym_intern-Total (symbol_bytes r.rest))
      λ v _. Yields-pure _ (name_there r.rest e)
