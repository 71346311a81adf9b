-- ===== src/Value.antt =====
-- Values and heap objects of src/microlisp_internal.h. A `Value` is what the machine word `mvalue`
-- stands for; `Word` relates the two. An object is named by its address, `obj 0` is the null
-- pointer, and what an `mobj` points at is in the heap of `State`.
use microlisp.Base.{
  ℕ, ◌≡◌, refl, Bool, true, false, not, List, ℤ, arith, ◌==◌, eqb_ℤ, eqb_ℤ→eq, eqb_ℤ_refl, ==_refl,
}

-- The immediate constants, in the order of their ids.
pub data Imm : Type 0 where
  nil yes_ no_ eof undef : Imm

pub data Value : Type 0 where
  obj : ℕ → Value
  fix : ℤ → Value
  imm : Imm → Value
  sym : ℕ → Value

abbrev pub mv_nil : Value
mv_nil = imm Imm.nil

abbrev pub mv_true : Value
mv_true = imm Imm.yes_

abbrev pub mv_false : Value
mv_false = imm Imm.no_

abbrev pub mv_eof : Value
mv_eof = imm Imm.eof

abbrev pub mv_undef : Value
mv_undef = imm Imm.undef

abbrev pub imm_equal : Imm → Imm → Bool
imm_equal Imm.nil Imm.nil = true
imm_equal Imm.yes_ Imm.yes_ = true
imm_equal Imm.no_ Imm.no_ = true
imm_equal Imm.eof Imm.eof = true
imm_equal Imm.undef Imm.undef = true
imm_equal _ _ = false

-- `a == b` on two words.
unfoldable pub ml_value_eq : Value → Value → Bool
ml_value_eq (obj a) (obj b) = a == b
ml_value_eq (fix a) (fix b) = eqb_ℤ a b
ml_value_eq (imm a) (imm b) = imm_equal a b
ml_value_eq (sym a) (sym b) = a == b
ml_value_eq _ _ = false

unfoldable pub ml_is_obj : Value → Bool
ml_is_obj (obj a) = not (a == 0)
ml_is_obj _ = false

unfoldable pub ml_is_fix : Value → Bool
ml_is_fix (fix _) = true
ml_is_fix _ = false

unfoldable pub ml_is_sym : Value → Bool
ml_is_sym (sym _) = true
ml_is_sym _ = false

unfoldable pub ml_is_bool : Value → Bool
unfolding ml_value_eq
ml_is_bool (imm Imm.yes_) = true
ml_is_bool (imm Imm.no_) = true
ml_is_bool _ = false

-- Scheme: only #f is false.
unfoldable pub ml_truthy : Value → Bool
unfolding ml_value_eq
ml_truthy v = not (ml_value_eq v mv_false)

abbrev pub ml_make_bool : Bool → Value
ml_make_bool true = mv_true
ml_make_bool false = mv_false

-- The C functions that an `mprim` can point at.
pub data PrimFn : Type 0 where
  add sub mul div quotient remainder modulo : PrimFn
  num_eq num_lt num_gt num_le num_ge : PrimFn
  cons car cdr list length : PrimFn
  null_p pair_p number_p symbol_p string_p procedure_p boolean_p eq_p eqv_p equal_p not_ : PrimFn
  display write newline error : PrimFn

-- An environment frame: the parallel arrays `names` and `values` as one list of pairs.
pub record Frame : Type 0 where
  pub parent : Value
  pub bindings : List (Value × Value)
  pub capacity : ℕ

pub record Closure : Type 0 where
  pub env : Value
  pub params : Value
  pub body : Value
  pub variadic : Bool
  pub arity_min : ℕ

pub record Mprim : Type 0 where
  pub name : List ℕ
  pub fn : PrimFn
  pub arity_min : ℕ
  pub arity_max : ℕ

pub data Obj : Type 0 where
  pair : Value → Value → Obj
  string : List ℕ → Obj
  closure : Closure → Obj
  primitive : Mprim → Obj
  env : Frame → Obj

-- A heap object with its header: the address, the mark and the payload.
pub record Cell : Type 0 where
  pub addr : ℕ
  pub marked : Bool
  pub body : Obj

pub imm_equal_refl : (a : Imm) → imm_equal a a ≡ true
imm_equal_refl Imm.nil = refl
imm_equal_refl _ = refl

pub ml_value_eq_refl : (a : Value) → ml_value_eq a a ≡ true
unfolding ml_value_eq
ml_value_eq_refl (obj a) = ==_refl a
ml_value_eq_refl (fix a) = eqb_ℤ_refl a
ml_value_eq_refl (imm a) = imm_equal_refl a
ml_value_eq_refl (sym a) = ==_refl a

pub ml_value_eq→eq : (a b : Value) → ml_value_eq a b ≡ true → a ≡ b
unfolding ml_value_eq
ml_value_eq→eq (obj a) (obj b) h = ground arith
ml_value_eq→eq (fix a) (fix b) h = ground (arith, eqb_ℤ→eq a b)
ml_value_eq→eq (imm a) (imm b) h = ground arith
ml_value_eq→eq (sym a) (sym b) h = ground arith
ml_value_eq→eq _ _ h = cc
