-- ===== src/Primitives/Arith.antt =====
-- Arithmetic: prim_add to prim_modulo of src/primitives.c.
pub mod Laws
pub mod Division
pub mod Bounds
use Prim.Native.String.{String}
use microlisp.Base.{
  ℕ, suc, ◌-◌, ◌^◌, Bool, true, false, not, ◌&&◌, ◌||◌, Option, none, some, List, [], ◌∷◌, ltb,
  ◌==◌, if◌then◌else◌, ℤ, pos, negsuc, ◌+ℤ◌, ◌-ℤ◌, ◌*ℤ◌, negate, quot, rem, eqb_ℤ, ltb_ℤ,
}
use microlisp.Value.{Value, fix}
use microlisp.Word.{fits_fixnum}
use microlisp.State.{
  Status, Arg, Message, State, Run, M, err, pure, faulty, reject, reject_with, ◌>>=◌, ◌>>◌,
}

-- EXPECT_FIX and ml_fix_int.
unfoldable pub expect_fix : String → Value → M ℤ
expect_fix what (fix x) = pure x
expect_fix what _ = reject_with Status.type "%s: expected number" (Arg.text what ∷ [])

-- The range of int64_t, in which the checked builtins of the compiler work.
unfoldable pub fits_int64 : ℤ → Bool
fits_int64 (pos n) = ltb n (2 ^ 63)
fits_int64 (negsuc n) = ltb n (2 ^ 63)

-- An exact result if it fits int64_t and the fixnum range.
unfoldable pub checked : String → ℤ → M ℤ
unfolding fits_int64 fits_fixnum
checked message z =
    if not (fits_int64 z) || not (fits_fixnum z) then reject Status.overflow message else pure z

unfoldable pub add_loop : ℤ → List Value → M Value
unfolding expect_fix checked
add_loop acc [] = pure (fix acc)
add_loop acc (v ∷ vs) = do
  x ← expect_fix "+" v
  sum ← checked "+: integer overflow" (acc +ℤ x)
  add_loop sum vs

unfoldable pub prim_add : List Value → M Value
unfolding add_loop
prim_add argv = add_loop (pos 0) argv

unfoldable pub sub_loop : ℤ → List Value → M Value
unfolding expect_fix checked
sub_loop acc [] = pure (fix acc)
sub_loop acc (v ∷ vs) = do
  x ← expect_fix "-" v
  diff ← checked "-: integer overflow" (acc -ℤ x)
  sub_loop diff vs

-- One argument is negated; with more, the rest are taken from the first.
unfoldable pub prim_sub : List Value → M Value
unfolding sub_loop
prim_sub [] = faulty
prim_sub (v ∷ []) = do
  x ← expect_fix "-" v
  if fits_fixnum (negate x)
      then pure (fix (negate x))
      else reject Status.overflow "-: integer overflow"
prim_sub (v ∷ w ∷ vs) = do x ← expect_fix "-" v; sub_loop x (w ∷ vs)

unfoldable pub mul_loop : ℤ → List Value → M Value
unfolding expect_fix checked
mul_loop acc [] = pure (fix acc)
mul_loop acc (v ∷ vs) = do
  x ← expect_fix "*" v
  prod ← checked "*: integer overflow" (acc *ℤ x)
  mul_loop prod vs

unfoldable pub prim_mul : List Value → M Value
unfolding mul_loop
prim_mul argv = mul_loop (pos 1) argv

abbrev is_zero : ℤ → Bool
is_zero x = eqb_ℤ x (pos 0)

-- Not zero, or the error.
unfoldable pub divisor : String → ℤ → M ℤ
divisor message x = if is_zero x then reject Status.div_zero message else pure x

-- A quotient that is in the fixnum range.
unfoldable pub in_range : String → ℤ → M ℤ
unfolding fits_fixnum
in_range message z = if fits_fixnum z then pure z else reject Status.overflow message

unfoldable pub div_loop : ℤ → List Value → M Value
unfolding expect_fix divisor in_range
div_loop acc [] = pure (fix acc)
div_loop acc (v ∷ vs) = do
  x ← expect_fix "/" v
  d ← divisor "/: division by zero" x
  q ← in_range "/: integer overflow" (quot acc d)
  div_loop q vs

-- 1/v in integer arithmetic is 0 except for v in {1, -1}.
abbrev pub reciprocal : ℤ → ℤ
reciprocal x = if eqb_ℤ x (pos 1) then pos 1 else if eqb_ℤ x (negsuc 0) then negsuc 0 else pos 0

unfoldable pub prim_div : List Value → M Value
unfolding div_loop
prim_div [] = faulty
prim_div (v ∷ []) = do
  x ← expect_fix "/" v
  d ← divisor "/: division by zero" x
  pure (fix (reciprocal d))
prim_div (v ∷ w ∷ vs) = do x ← expect_fix "/" v; div_loop x (w ∷ vs)

unfoldable pub prim_quotient : List Value → M Value
unfolding expect_fix divisor in_range
prim_quotient (v ∷ w ∷ _) = do
  a ← expect_fix "quotient" v
  b ← expect_fix "quotient" w
  d ← divisor "quotient: division by zero" b
  q ← in_range "quotient: integer overflow" (quot a d)
  pure (fix q)
prim_quotient _ = faulty

-- INT64_MIN % -1 is singled out; no fixnum is INT64_MIN.
unfoldable pub prim_remainder : List Value → M Value
unfolding expect_fix divisor
prim_remainder (v ∷ w ∷ _) = do
  a ← expect_fix "remainder" v
  b ← expect_fix "remainder" w
  d ← divisor "remainder: division by zero" b
  if eqb_ℤ a (negsuc (2 ^ 63 - 1)) && eqb_ℤ d (negsuc 0)
      then pure (fix (pos 0))
      else pure (fix (rem a d))
prim_remainder _ = faulty

abbrev is_negative : ℤ → Bool
is_negative (pos _) = false
is_negative (negsuc _) = true

abbrev differ : Bool → Bool → Bool
differ true b = not b
differ false b = b

-- The remainder, moved by the divisor where their signs disagree.
unfoldable pub floor_mod : ℤ → ℤ → ℤ
floor_mod a b =
    let r = rem a b in
    if not (is_zero r) && differ (is_negative r) (is_negative b) then r +ℤ b else r

unfoldable pub prim_modulo : List Value → M Value
unfolding expect_fix divisor floor_mod
prim_modulo (v ∷ w ∷ _) = do
  a ← expect_fix "modulo" v
  b ← expect_fix "modulo" w
  d ← divisor "modulo: division by zero" b
  pure (fix (floor_mod a d))
prim_modulo _ = faulty
