-- ===== src/Word.antt =====
-- The tagged machine words of src/microlisp_internal.h: an `mvalue` is a number below 2^64 whose
-- low three bits are its tag.
pub mod Tags
use microlisp.Base.{
  ℕ, suc, ◌+◌, ◌-◌, ◌*◌, ◌/◌, ◌%◌, ◌^◌, ◌<◌, ◌≡◌, ◌↔◌, Bool, true, ℤ, pos, negsuc, arith, ltb, ◌==◌,
  if◌then◌else◌,
}
use microlisp.Value.{Imm, Value, obj, fix, imm, sym}

abbrev pub m_tag_of : ℕ → ℕ
m_tag_of v = v % 8

abbrev pub imm_id : Imm → ℕ
imm_id Imm.nil = 0
imm_id Imm.yes_ = 1
imm_id Imm.no_ = 2
imm_id Imm.eof = 3
imm_id Imm.undef = 4

unfoldable pub m_make_imm : ℕ → ℕ
m_make_imm id = (id * 8) % 2 ^ 64 + 2

-- The cast from int64_t to uint64_t.
abbrev pub to_unsigned : ℤ → ℕ
to_unsigned (pos n) = n
to_unsigned (negsuc n) = 2 ^ 64 - 1 - n

unfoldable pub ml_make_fix : ℤ → ℕ
ml_make_fix x = (to_unsigned x * 8) % 2 ^ 64 + 1

-- The cast to int64_t, then an arithmetic shift, which rounds down.
unfoldable pub ml_fix_int : ℕ → ℤ
ml_fix_int v = if ltb v (2 ^ 63) then pos (v / 8) else negsuc ((2 ^ 64 - 1 - v) / 8)

unfoldable pub ml_make_sym : ℕ → ℕ
ml_make_sym idx = (idx * 8) % 2 ^ 64 + 3

unfoldable pub ml_sym_index : ℕ → ℕ
ml_sym_index v = (v / 8) % 2 ^ 32

-- M_FIX_MIN <= x <= M_FIX_MAX, with the bounds -(2^59) and 2^59 - 1.
unfoldable pub fits_fixnum : ℤ → Bool
fits_fixnum (pos n) = ltb n (2 ^ 59)
fits_fixnum (negsuc n) = ltb n (2 ^ 59)

-- The word of a value. An object's word is its address.
unfoldable pub to_word : Value → ℕ
unfolding m_make_imm ml_make_fix ml_make_sym
to_word (obj a) = a
to_word (fix x) = ml_make_fix x
to_word (imm i) = m_make_imm (imm_id i)
to_word (sym idx) = ml_make_sym idx

-- The values that words represent: aligned addresses, fixnums in range and 32-bit symbol indices.
abbrev pub IsWord : Value → Type 0
IsWord (obj a) = (a < 2 ^ 64) × (a % 8 ≡ 0)
IsWord (fix x) = fits_fixnum x ≡ true
IsWord (imm i) = Unit
IsWord (sym idx) = idx < 2 ^ 32
