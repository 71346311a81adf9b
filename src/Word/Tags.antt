-- ===== src/Word/Tags.antt =====
-- The words of src/microlisp_internal.h: decoding, and equality of words.
use microlisp.Base.{ℕ, ◌^◌, ◌<◌, ◌≡◌, ◌↔◌, ap, true, ℤ, pos, negsuc, arith}
use microlisp.Value.{Value, obj, fix, imm, sym, ml_value_eq, ml_value_eq_refl, ml_value_eq→eq}
use microlisp.Word.{
  m_tag_of, m_make_imm, ml_make_fix, ml_fix_int, ml_make_sym, ml_sym_index, fits_fixnum, to_word,
  IsWord,
}

-- A fixnum in range is read back from its word, the word has the fixnum tag, and it fits 64 bits.
pub fix_int-make_fix :
    (x : ℤ)
    → fits_fixnum x ≡ true
    → (ml_fix_int (ml_make_fix x) ≡ x) × (m_tag_of (ml_make_fix x) ≡ 1) × (ml_make_fix x < 2 ^ 64)
unfolding ml_fix_int ml_make_fix fits_fixnum
fix_int-make_fix (pos n) h = (ground arith, ground arith, ground arith)
fix_int-make_fix (negsuc n) h = (ground arith, ground arith, ground arith)

pub sym_index-make_sym : (idx : ℕ) → idx < 2 ^ 32 → ml_sym_index (ml_make_sym idx) ≡ idx
unfolding ml_sym_index ml_make_sym
sym_index-make_sym idx h = omega arith

-- No two values share a word.
pub to_word-injective : (v w : Value) → IsWord v → IsWord w → to_word v ≡ to_word w → v ≡ w
unfolding to_word m_make_imm ml_make_fix ml_make_sym fits_fixnum
to_word-injective (obj a) (obj b) hv hw e = ap obj e
to_word-injective (fix (pos a)) (fix (pos b)) hv hw e = ground arith
to_word-injective (fix (pos a)) (fix (negsuc b)) hv hw e = ground arith
to_word-injective (fix (negsuc a)) (fix (pos b)) hv hw e = ground arith
to_word-injective (fix (negsuc a)) (fix (negsuc b)) hv hw e = ground arith
to_word-injective (imm i) (imm j) hv hw e = ground arith
to_word-injective (sym a) (sym b) hv hw e = ap sym (omega arith)
to_word-injective (obj a) (fix (pos b)) hv hw e = ground arith
to_word-injective (obj a) (fix (negsuc b)) hv hw e = ground arith
to_word-injective (obj a) (imm j) hv hw e = ground arith
to_word-injective (obj a) (sym b) hv hw e = ground arith
to_word-injective (fix (pos a)) (obj b) hv hw e = ground arith
to_word-injective (fix (negsuc a)) (obj b) hv hw e = ground arith
to_word-injective (imm i) (obj b) hv hw e = ground arith
to_word-injective (sym a) (obj b) hv hw e = ground arith
to_word-injective (fix x) (imm j) hv hw e = ground arith
to_word-injective (fix x) (sym b) hv hw e = ground arith
to_word-injective (imm i) (fix y) hv hw e = ground arith
to_word-injective (imm i) (sym b) hv hw e = ground arith
to_word-injective (sym a) (fix y) hv hw e = ground arith
to_word-injective (sym a) (imm j) hv hw e = ground arith

-- Two values that words represent have the same word exactly when the model's test holds, and then
-- they are the same value: the tags keep the four kinds apart.
pub to_word-eq_iff :
    (v w : Value) → IsWord v → IsWord w → (to_word v ≡ to_word w) ↔ (ml_value_eq v w ≡ true)
to_word-eq_iff v w hv hw = (
  λ e. rw (to_word-injective v w hv hw e) (ml_value_eq_refl w),
  λ h. ap to_word (ml_value_eq→eq v w h),
)
