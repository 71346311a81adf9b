-- ===== src/Balance/Arith.antt =====
-- The protect stack and the depth counters in the arithmetic procedures of src/primitives.c.
use Prim.Native.String.{String}
use microlisp.Base.{◌∷◌, [], List, ℤ, ◌+ℤ◌, ◌-ℤ◌, ◌*ℤ◌, quot}
use microlisp.Value.{Value, obj, fix, imm}
use microlisp.State.{Status}
use microlisp.Primitives.Arith.{
  expect_fix, checked, divisor, in_range, add_loop, sub_loop, prim_sub, mul_loop, div_loop,
  prim_div, prim_quotient, prim_remainder, prim_modulo,
}
use microlisp.Balance.{Steady, Steady-pure, Steady-faulty, Steady-bind, Steady-reject_with, steady}

pub Steady-expect_fix : (what : String) (v : Value) → Steady (expect_fix what v)
unfolding expect_fix
Steady-expect_fix what (fix x) = Steady-pure x
Steady-expect_fix what (obj _) = Steady-reject_with Status.type _ _
Steady-expect_fix what (imm _) = Steady-reject_with Status.type _ _
Steady-expect_fix what (Value.sym _) = Steady-reject_with Status.type _ _

Steady-checked : (message : String) (z : ℤ) → Steady (checked message z)
unfolding checked
Steady-checked message z = search steady

Steady-divisor : (message : String) (z : ℤ) → Steady (divisor message z)
unfolding divisor
Steady-divisor message z = search steady

Steady-in_range : (message : String) (z : ℤ) → Steady (in_range message z)
unfolding in_range
Steady-in_range message z = search steady

ruleset numbers = (steady, Steady-expect_fix, Steady-checked, Steady-divisor, Steady-in_range)

pub Steady-add_loop : (acc : ℤ) (vs : List Value) → Steady (add_loop acc vs)
unfolding add_loop
Steady-add_loop acc [] = Steady-pure (fix acc)
Steady-add_loop acc (v ∷ vs) =
    Steady-bind (Steady-expect_fix "+" v)
      (λ x. Steady-bind (Steady-checked _ (acc +ℤ x)) (λ z. Steady-add_loop z vs))

Steady-sub_loop : (acc : ℤ) (vs : List Value) → Steady (sub_loop acc vs)
unfolding sub_loop
Steady-sub_loop acc [] = Steady-pure (fix acc)
Steady-sub_loop acc (v ∷ vs) =
    Steady-bind (Steady-expect_fix "-" v)
      (λ x. Steady-bind (Steady-checked _ (acc -ℤ x)) (λ z. Steady-sub_loop z vs))

pub Steady-mul_loop : (acc : ℤ) (vs : List Value) → Steady (mul_loop acc vs)
unfolding mul_loop
Steady-mul_loop acc [] = Steady-pure (fix acc)
Steady-mul_loop acc (v ∷ vs) =
    Steady-bind (Steady-expect_fix "*" v)
      (λ x. Steady-bind (Steady-checked _ (acc *ℤ x)) (λ z. Steady-mul_loop z vs))

Steady-div_loop : (acc : ℤ) (vs : List Value) → Steady (div_loop acc vs)
unfolding div_loop
Steady-div_loop acc [] = Steady-pure (fix acc)
Steady-div_loop acc (v ∷ vs) = Steady-bind (Steady-expect_fix "/" v) (λ x.
    Steady-bind (Steady-divisor _ x)
      (λ d. Steady-bind (Steady-in_range _ (quot acc d)) (λ q. Steady-div_loop q vs)))

pub Steady-prim_sub : (argv : List Value) → Steady (prim_sub argv)
unfolding prim_sub
Steady-prim_sub [] = Steady-faulty
Steady-prim_sub (v ∷ []) = search numbers
Steady-prim_sub (v ∷ w ∷ vs) = search (numbers, Steady-sub_loop)

pub Steady-prim_div : (argv : List Value) → Steady (prim_div argv)
unfolding prim_div
Steady-prim_div [] = Steady-faulty
Steady-prim_div (v ∷ []) = search numbers
Steady-prim_div (v ∷ w ∷ vs) = search (numbers, Steady-div_loop)

pub Steady-prim_quotient : (argv : List Value) → Steady (prim_quotient argv)
unfolding prim_quotient
Steady-prim_quotient [] = Steady-faulty
Steady-prim_quotient (v ∷ []) = Steady-faulty
Steady-prim_quotient (v ∷ w ∷ vs) = search numbers

pub Steady-prim_remainder : (argv : List Value) → Steady (prim_remainder argv)
unfolding prim_remainder
Steady-prim_remainder [] = Steady-faulty
Steady-prim_remainder (v ∷ []) = Steady-faulty
Steady-prim_remainder (v ∷ w ∷ vs) = search numbers

pub Steady-prim_modulo : (argv : List Value) → Steady (prim_modulo argv)
unfolding prim_modulo
Steady-prim_modulo [] = Steady-faulty
Steady-prim_modulo (v ∷ []) = Steady-faulty
Steady-prim_modulo (v ∷ w ∷ vs) = search numbers
