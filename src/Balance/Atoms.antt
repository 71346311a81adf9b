-- ===== src/Balance/Atoms.antt =====
-- The protect stack and the depth counters in strings, numbers, symbols and # forms (src/reader.c).
use Prim.Native.String.{String}
use microlisp.Base.{
  ℕ, zero, suc, ◌*◌, refl, Bool, not, ◌&&◌, Option, none, some, List, [], ◌∷◌, ◌++◌, ◌==◌, length,
}
use microlisp.Word.{fits_fixnum}
use microlisp.State.{Status, Message, Arg, M, pure, fail, ml_set_error, ◌>>◌}
use microlisp.Gc.{mul_overflow, alloc_checked}
use microlisp.Reader.{
  Reader, advance, peek, is_byte, is_terminator, reject_at, escaped, hex_pair, hex_of, hex_value,
  read_escape, buf_grown, buf_room, string_byte, string_round, string_loop, scratch, read_string,
  read_hash, digits_of, digits_then, number_end, signed, decimal_loop, read_number, read_symbol,
  symbol_bytes,
}
use microlisp.Balance.{
  Steady, endless, Balanced-err, Steady-pure, Steady-fail, Steady-bind, Steady-if,
}
use microlisp.Balance.Store.{Steady-ml_raw_alloc, Steady-ml_gc_alloc_string}
use microlisp.Balance.Tables.{Steady-ml_sym_intern}

pub Steady-reject_at {ℓ} :
    {A : Type ℓ} (x : Status) (line column : ℕ) (fmt : String)
    → Steady {A = A} (reject_at x line column fmt)
unfolding reject_at ml_set_error
Steady-reject_at x line column fmt = record { at = λ s. Balanced-err x refl refl refl refl }

Steady-hex_value : (b : Option ℕ) (r : Reader) → Steady (hex_value (b, r))
Steady-hex_value (some b) r = Steady-pure (b, r)
Steady-hex_value none r = Steady-reject_at _ _ _ _

Steady-read_escape : (line column : ℕ) (p : Option ℕ × Reader) → Steady (read_escape line column p)
unfolding ml_set_error
Steady-read_escape line column (none, r) = Steady-reject_at _ _ _ _
Steady-read_escape line column (some e, r) =
    let (hi, r1) = advance r in
    let (lo, r2) = advance r1 in
    Steady-if (e == b'x') (Steady-hex_value (hex_pair (hex_of hi) (hex_of lo)) r2) (one (escaped e))
  where
    one :
        (o : Option ℕ)
        → Steady {A = ℕ × Reader} (elim o [
          | some c ↦ pure (c, r)
          | none ↦
              (ml_set_error r.line r.column
                  (Message.format "unknown string escape \\%c" (Arg.num e ∷ []))
                >> fail Status.read_syntax)
        ])
    one (some c) = Steady-pure (c, r)
    one none = record { at = λ s. Balanced-err Status.read_syntax refl refl refl refl }

Steady-alloc_checked : (p : Option ℕ) → Steady (alloc_checked p)
Steady-alloc_checked none = Steady-pure none
Steady-alloc_checked (some n) = Steady-ml_raw_alloc n

Steady-buf_grown : (cap : ℕ) (p : Option ℕ) → Steady (buf_grown cap p)
Steady-buf_grown cap none = Steady-fail Status.nomem
Steady-buf_grown cap (some _) = Steady-pure (cap * 2)

Steady-buf_room : (len cap : ℕ) → Steady (buf_room len cap)
unfolding buf_room
Steady-buf_room len cap =
    Steady-if (len == cap)
      (Steady-bind (Steady-alloc_checked (mul_overflow cap 2)) (Steady-buf_grown cap))
      (Steady-pure cap)

module _ (line column : ℕ) where
  Steady-string_byte : (c : ℕ) (r : Reader) → Steady (string_byte line column c r)
  Steady-string_byte c r =
      Steady-if (c == 92) (Steady-read_escape line column (advance r)) (Steady-pure (c, r))

  Steady-string_round :
      (again : List ℕ → ℕ → Reader → M (List ℕ × Reader))
      → ((buf : List ℕ) (cap : ℕ) (r : Reader) → Steady (again buf cap r))
      → (buf : List ℕ) (cap : ℕ) (p : Option ℕ × Reader)
      → Steady (string_round line column again buf cap p)
  Steady-string_round again ih buf cap (none, r) = Steady-reject_at _ _ _ _
  Steady-string_round again ih buf cap (some c, r) = Steady-if (c == 34) (Steady-pure (buf, r)) (
      Steady-bind (Steady-string_byte c r) (λ (b, r').
        Steady-bind (Steady-buf_room (length buf) cap) (λ cap'. ih (buf ++ b ∷ []) cap' r')))

  Steady-string_loop :
      (fuel : ℕ) (buf : List ℕ) (cap : ℕ) (r : Reader)
      → Steady (string_loop line column fuel buf cap r)
  unfolding string_loop
  Steady-string_loop zero buf cap r = record { at = λ s. endless }
  Steady-string_loop (suc fuel) buf cap r = record {
    at =
        (Steady-string_round (string_loop line column fuel) (Steady-string_loop fuel) buf cap
          (advance r)).at;
  }

Steady-scratch : (line column : ℕ) (r : Reader) (p : Option ℕ) → Steady (scratch line column r p)
Steady-scratch line column r none = Steady-fail Status.nomem
Steady-scratch line column r (some _) = Steady-string_loop line column (suc (length r.rest)) [] 32 r

pub Steady-read_string : (r : Reader) → Steady (read_string r)
unfolding read_string
Steady-read_string r = Steady-bind (Steady-ml_raw_alloc 32) (λ buf.
    Steady-bind (Steady-scratch r.line r.column (advance r).1 buf)
      (λ (bytes, r'). Steady-bind (Steady-ml_gc_alloc_string bytes) (λ v. Steady-pure (v, r'))))

pub Steady-read_hash : (r : Reader) → Steady (read_hash r)
unfolding read_hash
Steady-read_hash r =
    let (c, r') = advance (advance r).1 in
    Steady-if (is_byte b't' c && is_terminator (peek r')) (Steady-pure _) (
      Steady-if (is_byte b'f' c && is_terminator (peek r')) (Steady-pure _)
        (Steady-reject_at _ _ _ _))

Steady-number_end :
    (line column : ℕ) (negative : Bool) (v : Option ℕ) (r : Reader)
    → Steady (number_end line column negative v r)
Steady-number_end line column negative none r = Steady-reject_at _ _ _ _
Steady-number_end line column negative (some value) r =
    Steady-if (not (is_terminator (peek r))) (Steady-reject_at _ _ _ _)
      (Steady-if (fits_fixnum (signed negative value)) (Steady-pure _) (Steady-reject_at _ _ _ _))

Steady-digits_then :
    (r : Reader) (negative : Bool) (ds : List ℕ) → Steady (digits_then r negative ds)
Steady-digits_then r negative [] = Steady-reject_at _ _ _ _
Steady-digits_then r negative (d ∷ ds) = Steady-number_end _ _ negative (decimal_loop 0 (d ∷ ds)) _

pub Steady-read_number : (r : Reader) (negative : Bool) → Steady (read_number r negative)
unfolding read_number
Steady-read_number r negative = Steady-digits_then r negative (digits_of r.rest)

pub Steady-read_symbol : (r : Reader) → Steady (read_symbol r)
unfolding read_symbol
Steady-read_symbol r = Steady-bind (Steady-ml_sym_intern (symbol_bytes r.rest)) (λ v. Steady-pure _)
