-- ===== src/Primitives/Arith/Laws.antt =====
-- Sums and differences: prim_add and prim_sub of src/primitives.c.
use microlisp.Base.{
  ◌≡◌, refl, sym, ap, ◌∙◌, subst, inl, inr, true, false, Bool-cases, not, ◌||◌, List, [], ◌∷◌, ◌++◌,
  map, ℤ, pos, negsuc, ◌+ℤ◌, ◌-ℤ◌, negate, +ℤ_parts, eq_of_parts, arith,
}
use microlisp.Value.{Value, fix, ml_is_fix}
use microlisp.Word.{fits_fixnum}
use microlisp.State.{Status, State, Run, ok, err, reject, reject_with}
use microlisp.Primitives.Arith.{
  expect_fix, checked, fits_int64, add_loop, prim_add, sub_loop, prim_sub,
}

-- The mathematical sum, from the right.
abbrev pub sum : List ℤ → ℤ
sum [] = pos 0
sum (x ∷ xs) = x +ℤ sum xs

abbrev pub fixes : List ℤ → List Value
fixes xs = map fix xs

-- How adding up arguments ends: with their exact sum, which is a fixnum; at the first prefix whose
-- sum from `start` is no fixnum; or at the first argument that is no number.
pub data Sums (start : ℤ) (argv : List Value) (s : State) : Run Value → Type 0 where
  exact :
      (xs : List ℤ)
      → argv ≡ fixes xs
      → fits_fixnum (start +ℤ sum xs) ≡ true
      → Sums start argv s (ok (fix (start +ℤ sum xs)) s)
  overflows :
      {t : State} (xs : List ℤ) (rest : List Value)
      → argv ≡ fixes xs ++ rest
      → fits_fixnum (start +ℤ sum xs) ≡ false
      → t.heap ≡ s.heap
      → Sums start argv s (err Status.overflow t)
  no_number :
      {t : State} (xs : List ℤ) (v : Value) (rest : List Value)
      → argv ≡ fixes xs ++ v ∷ rest
      → ml_is_fix v ≡ false
      → t.heap ≡ s.heap
      → Sums start argv s (err Status.type t)

+ℤ_assoc : (a b c : ℤ) → a +ℤ b +ℤ c ≡ a +ℤ (b +ℤ c)
+ℤ_assoc a b c =
    eq_of_parts (a +ℤ b +ℤ c) (a +ℤ (b +ℤ c))
      (omega (arith, +ℤ_parts a b, +ℤ_parts (a +ℤ b) c, +ℤ_parts b c, +ℤ_parts a (b +ℤ c)))

+ℤ_zero : (a : ℤ) → a +ℤ pos 0 ≡ a
unfolding ◌+ℤ◌
+ℤ_zero a = ground arith

-- The int64_t test adds nothing to the fixnum test.
checked_fits : (z : ℤ) → fits_fixnum z ≡ true → (not (fits_int64 z) || not (fits_fixnum z)) ≡ false
unfolding fits_int64 fits_fixnum
checked_fits (pos n) h = ground arith
checked_fits (negsuc n) h = ground arith

checked_over : (z : ℤ) → fits_fixnum z ≡ false → (not (fits_int64 z) || not (fits_fixnum z)) ≡ true
checked_over z h = ground arith

Sums-next :
    (start x : ℤ) (argv : List Value) (s : State) {r : Run Value}
    → Sums (start +ℤ x) argv s r
    → Sums start (fix x ∷ argv) s r
Sums-next start x argv s (exact xs e f) =
    subst (λ z. Sums start (fix x ∷ argv) s (ok (fix z) s)) (sym (+ℤ_assoc start x (sum xs)))
      (exact (x ∷ xs) (ap (λ vs. fix x ∷ vs) e)
        (ap fits_fixnum (sym (+ℤ_assoc start x (sum xs))) ∙ f))
Sums-next start x argv s (overflows xs rest e f h) =
    overflows (x ∷ xs) rest (ap (λ vs. fix x ∷ vs) e)
      (ap fits_fixnum (sym (+ℤ_assoc start x (sum xs))) ∙ f) h
Sums-next start x argv s (no_number xs v rest e f h) =
    no_number (x ∷ xs) v rest (ap (λ vs. fix x ∷ vs) e) f h

loop_lem :
    (start : ℤ) (argv : List Value) (s : State)
    → fits_fixnum start ≡ true
    → Sums start argv s (add_loop start argv s)
unfolding add_loop expect_fix checked reject reject_with ml_is_fix
loop_lem start [] s h =
    subst (λ z. Sums start [] s (ok (fix z) s)) (+ℤ_zero start)
      (exact [] refl (ap fits_fixnum (+ℤ_zero start) ∙ h))
loop_lem start (fix x ∷ argv) s h = elim (Bool-cases (fits_fixnum (start +ℤ x))) [
  | inl fits ↦
      rw (checked_fits (start +ℤ x) fits)
        (Sums-next start x argv s (loop_lem (start +ℤ x) argv s fits))
  | inr over ↦
      rw (checked_over (start +ℤ x) over)
        (overflows (x ∷ []) argv refl (ap (λ z. fits_fixnum (start +ℤ z)) (+ℤ_zero x) ∙ over) refl)
]
loop_lem start (Value.obj v ∷ argv) s h = no_number [] (Value.obj v) argv refl refl refl
loop_lem start (Value.imm v ∷ argv) s h = no_number [] (Value.imm v) argv refl refl refl
loop_lem start (Value.sym v ∷ argv) s h = no_number [] (Value.sym v) argv refl refl refl

-- Adding arguments yields their exact sum and leaves the state as it was; or it reports overflow,
-- when some prefix of the arguments has a sum that is no fixnum, or a type error, when an argument
-- is no number and those before it are.
pub prim_add_lem : (argv : List Value) (s : State) → Sums (pos 0) argv s (prim_add argv s)
unfolding prim_add fits_fixnum
prim_add_lem argv s = loop_lem (pos 0) argv s refl

zero_minus : (x : ℤ) → pos 0 -ℤ x ≡ negate x
unfolding ◌-ℤ◌ negate
zero_minus x = ground arith

-- A difference of one argument is the difference of zero and it.
pub prim_sub_unary :
    (v : Value) (s : State) → prim_sub (v ∷ []) s ≡ prim_sub (fix (pos 0) ∷ v ∷ []) s
unfolding prim_sub sub_loop expect_fix checked reject reject_with
prim_sub_unary (fix x) s =
    let same : pos 0 -ℤ x ≡ negate x = zero_minus x in
    elim (Bool-cases (fits_fixnum (negate x))) [
      | inl fits ↦ rw same (rw (checked_fits (negate x) fits) (rw fits refl))
      | inr over ↦ rw same (rw (checked_over (negate x) over) (rw over refl))
    ]
prim_sub_unary (Value.obj v) s = refl
prim_sub_unary (Value.imm v) s = refl
prim_sub_unary (Value.sym v) s = refl
