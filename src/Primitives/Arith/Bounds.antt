-- ===== src/Primitives/Arith/Bounds.antt =====
-- The range of the results of the arithmetic primitives of src/primitives.c.
use Prim.Native.String.{String}
use microlisp.Base.{
  ◌<◌, ◌≡◌, ◌≢◌, refl, sym, subst, Bool, if◌then◌else◌, true, false, not, ◌&&◌, ◌||◌, List, [], ◌∷◌,
  ℤ, pos, negsuc, negate, quot, rem, ◌-◌, ◌^◌, ◌+ℤ◌, ◌-ℤ◌, ◌*ℤ◌, eqb_ℤ, arith,
}
use microlisp.Value.{Value, PrimFn, fix}
use microlisp.Word.{fits_fixnum, IsWord}
use microlisp.State.{
  Status, State, Run, M, ok, err, pure, and_then, reject, reject_with, ml_set_error, ◌>>=◌,
}
use microlisp.Primitives.Registry.{call_prim}
use microlisp.Primitives.Arith.{
  expect_fix, fits_int64, checked, add_loop, prim_add, sub_loop, prim_sub, mul_loop, prim_mul,
  divisor, in_range, is_zero, div_loop, reciprocal, prim_div, prim_quotient, prim_remainder,
  prim_modulo, floor_mod,
}
use microlisp.Primitives.Arith.Division.{abs, Small-rem, Floored-of, reciprocal_fits}

-- A run that ends in an answer that `P` allows or in an error: it neither faults nor goes on.
pub data Settles {A : Type 0} (P : A → Type 0) : Run A → Type 0 where
  gives : {a : A} {t : State} → P a → Settles P (ok a t)
  fails : {e : Status} {t : State} → Settles P (err e t)

-- The same from every state.
record Gives {A : Type 0} (P : A → Type 0) (m : M A) : Type 0 where
  at : (s : State) → Settles P (m s)

Gives-pure : {A : Type 0} {P : A → Type 0} (a : A) → P a → Gives P (pure a)
Gives-pure a p = record { at = λ s. gives p }

Settles-and_then :
    {A B : Type 0} {P : A → Type 0} {Q : B → Type 0} {r : Run A} {k : A → M B}
    → Settles P r
    → ((a : A) → P a → Gives Q (k a))
    → Settles Q (and_then r k)
Settles-and_then (gives {a} {t} p) f = (f a p).at t
Settles-and_then fails f = fails

Gives-bind :
    {A B : Type 0} {P : A → Type 0} {Q : B → Type 0} {m : M A} {k : A → M B}
    → Gives P m
    → ((a : A) → P a → Gives Q (k a))
    → Gives Q (m >>= k)
Gives-bind h f = record { at = λ s. Settles-and_then (h.at s) f }

Gives-if :
    {A : Type 0} {P : A → Type 0} (b : Bool) {m n : M A}
    → (b ≡ true → Gives P m)
    → (b ≡ false → Gives P n)
    → Gives P (if b then m else n)
Gives-if true h k = h refl
Gives-if false h k = k refl

-- An integer that a fixnum holds.
abbrev Fits : ℤ → Type 0
Fits x = fits_fixnum x ≡ true

abbrev pub IsFixnum : Value → Type 0
IsFixnum (fix x) = fits_fixnum x ≡ true
IsFixnum _ = ⊥

abbrev pub AllWords : List Value → Type 0
AllWords [] = Unit {0}
AllWords (v ∷ vs) = IsWord v × AllWords vs

reject-Gives :
    {A : Type 0} {P : A → Type 0} (x : Status) (fmt : String) → Gives {A = A} P (reject x fmt)
unfolding reject ml_set_error
reject-Gives x fmt = record { at = λ s. fails }

expect_fix-Gives : (what : String) (v : Value) → IsWord v → Gives Fits (expect_fix what v)
unfolding expect_fix reject_with ml_set_error
expect_fix-Gives what (fix x) w = Gives-pure x w
expect_fix-Gives what (Value.obj a) w = record { at = λ s. fails }
expect_fix-Gives what (Value.imm i) w = record { at = λ s. fails }
expect_fix-Gives what (Value.sym i) w = record { at = λ s. fails }

checked-Gives : (message : String) (z : ℤ) → Gives Fits (checked message z)
unfolding checked
checked-Gives message z =
    Gives-if (not (fits_int64 z) || not (fits_fixnum z)) (λ _. reject-Gives _ _)
      (λ e. Gives-pure z (both e))
  where
    both : (not (fits_int64 z) || not (fits_fixnum z)) ≡ false → fits_fixnum z ≡ true
    both e = ground arith

add_loop-Gives :
    (acc : ℤ) (argv : List Value) → Fits acc → AllWords argv → Gives IsFixnum (add_loop acc argv)
unfolding add_loop
add_loop-Gives acc [] f w = Gives-pure (fix acc) f
add_loop-Gives acc (v ∷ vs) f (w, ws) =
    Gives-bind (expect_fix-Gives "+" v w)
      λ x _. Gives-bind (checked-Gives _ (acc +ℤ x)) λ sum g. add_loop-Gives sum vs g ws

sub_loop-Gives :
    (acc : ℤ) (argv : List Value) → Fits acc → AllWords argv → Gives IsFixnum (sub_loop acc argv)
unfolding sub_loop
sub_loop-Gives acc [] f w = Gives-pure (fix acc) f
sub_loop-Gives acc (v ∷ vs) f (w, ws) =
    Gives-bind (expect_fix-Gives "-" v w)
      λ x _. Gives-bind (checked-Gives _ (acc -ℤ x)) λ diff g. sub_loop-Gives diff vs g ws

mul_loop-Gives :
    (acc : ℤ) (argv : List Value) → Fits acc → AllWords argv → Gives IsFixnum (mul_loop acc argv)
unfolding mul_loop
mul_loop-Gives acc [] f w = Gives-pure (fix acc) f
mul_loop-Gives acc (v ∷ vs) f (w, ws) =
    Gives-bind (expect_fix-Gives "*" v w)
      λ x _. Gives-bind (checked-Gives _ (acc *ℤ x)) λ prod g. mul_loop-Gives prod vs g ws

prim_sub-Gives :
    (v : Value) (vs : List Value) → AllWords (v ∷ vs) → Gives IsFixnum (prim_sub (v ∷ vs))
unfolding prim_sub
prim_sub-Gives v [] (w, _) = Gives-bind (expect_fix-Gives "-" v w) λ x _.
    Gives-if (fits_fixnum (negate x)) (λ e. Gives-pure (fix (negate x)) e) (λ _. reject-Gives _ _)
prim_sub-Gives v (u ∷ vs) (w, ws) =
    Gives-bind (expect_fix-Gives "-" v w) λ x f. sub_loop-Gives x (u ∷ vs) f ws

-- A divisor that fits and is not zero.
abbrev Divisor : ℤ → Type 0
Divisor d = Fits d × (d ≢ pos 0)

divisor-Gives : (message : String) (x : ℤ) → Fits x → Gives Divisor (divisor message x)
unfolding divisor
divisor-Gives message x f =
    Gives-if (is_zero x) (λ _. reject-Gives _ _)
      (λ n. Gives-pure x (f, λ e. subst (λ t. ¬ (is_zero t ≡ false)) (sym e) (λ h. cc) n))

in_range-Gives : (message : String) (z : ℤ) → Gives Fits (in_range message z)
unfolding in_range
in_range-Gives message z = Gives-if (fits_fixnum z) (λ e. Gives-pure z e) (λ _. reject-Gives _ _)

div_loop-Gives :
    (acc : ℤ) (argv : List Value) → Fits acc → AllWords argv → Gives IsFixnum (div_loop acc argv)
unfolding div_loop
div_loop-Gives acc [] f w = Gives-pure (fix acc) f
div_loop-Gives acc (v ∷ vs) f (w, ws) = Gives-bind (expect_fix-Gives "/" v w) λ x g.
    Gives-bind (divisor-Gives _ x g)
      λ d _. Gives-bind (in_range-Gives _ (quot acc d)) λ q h. div_loop-Gives q vs h ws

prim_div-Gives :
    (v : Value) (vs : List Value) → AllWords (v ∷ vs) → Gives IsFixnum (prim_div (v ∷ vs))
unfolding prim_div
prim_div-Gives v [] (w, _) = Gives-bind (expect_fix-Gives "/" v w) λ x f.
    Gives-bind (divisor-Gives _ x f) λ d _. Gives-pure (fix (reciprocal d)) (reciprocal_fits d)
prim_div-Gives v (u ∷ vs) (w, ws) =
    Gives-bind (expect_fix-Gives "/" v w) λ x f. div_loop-Gives x (u ∷ vs) f ws

smaller_lem : (b r : ℤ) → abs r < abs b → Fits b → Fits r
unfolding fits_fixnum
smaller_lem b r h f = ground arith

prim_quotient-Gives :
    (v u : Value) → AllWords (v ∷ u ∷ []) → Gives IsFixnum (prim_quotient (v ∷ u ∷ []))
unfolding prim_quotient
prim_quotient-Gives v u (w, (x, _)) = Gives-bind (expect_fix-Gives _ v w) λ a _.
    Gives-bind (expect_fix-Gives _ u x) λ b g.
      Gives-bind (divisor-Gives _ b g)
        λ d _. Gives-bind (in_range-Gives _ (quot a d)) λ q h. Gives-pure (fix q) h

zero_in : Fits (pos 0)
unfolding fits_fixnum
zero_in = refl

one_in : Fits (pos 1)
unfolding fits_fixnum
one_in = refl

prim_remainder-Gives :
    (v u : Value) → AllWords (v ∷ u ∷ []) → Gives IsFixnum (prim_remainder (v ∷ u ∷ []))
unfolding prim_remainder
prim_remainder-Gives v u (w, (x, _)) = Gives-bind (expect_fix-Gives _ v w) λ a _.
    Gives-bind (expect_fix-Gives _ u x) λ b g. Gives-bind (divisor-Gives _ b g) λ d (h, n).
      Gives-if (eqb_ℤ a (negsuc (2 ^ 63 - 1)) && eqb_ℤ d (negsuc 0))
        (λ _. Gives-pure (fix (pos 0)) zero_in)
        (λ _. Gives-pure (fix (rem a d)) (smaller_lem d (rem a d) (Small-rem a d n).0 h))

prim_modulo-Gives :
    (v u : Value) → AllWords (v ∷ u ∷ []) → Gives IsFixnum (prim_modulo (v ∷ u ∷ []))
unfolding prim_modulo floor_mod
prim_modulo-Gives v u (w, (x, _)) = Gives-bind (expect_fix-Gives _ v w) λ a _.
    Gives-bind (expect_fix-Gives _ u x) λ b g. Gives-bind (divisor-Gives _ b g) λ d (h, n).
      Gives-pure (fix (floor_mod a d))
        (smaller_lem d (floor_mod a d) (Floored-of a d (rem a d) n (Small-rem a d n) refl).1 h)

-- The primitives of numbers that give a number, on as many arguments as k_primitives admits.
pub data Takes : PrimFn → List Value → Type 0 where
  add_takes : {argv : List Value} → Takes PrimFn.add argv
  sub_takes : {v : Value} {vs : List Value} → Takes PrimFn.sub (v ∷ vs)
  mul_takes : {argv : List Value} → Takes PrimFn.mul argv
  div_takes : {v : Value} {vs : List Value} → Takes PrimFn.div (v ∷ vs)
  quotient_takes : {v u : Value} → Takes PrimFn.quotient (v ∷ u ∷ [])
  remainder_takes : {v u : Value} → Takes PrimFn.remainder (v ∷ u ∷ [])
  modulo_takes : {v u : Value} → Takes PrimFn.modulo (v ∷ u ∷ [])

call_prim-Gives :
    (f : PrimFn) (argv : List Value)
    → Takes f argv
    → AllWords argv
    → Gives IsFixnum (call_prim f argv)
unfolding call_prim prim_add prim_mul
call_prim-Gives _ argv add_takes w = add_loop-Gives (pos 0) argv zero_in w
call_prim-Gives _ _ (sub_takes {v} {vs}) w = prim_sub-Gives v vs w
call_prim-Gives _ argv mul_takes w = mul_loop-Gives (pos 1) argv one_in w
call_prim-Gives _ _ (div_takes {v} {vs}) w = prim_div-Gives v vs w
call_prim-Gives _ _ (quotient_takes {v} {u}) w = prim_quotient-Gives v u w
call_prim-Gives _ _ (remainder_takes {v} {u}) w = prim_remainder-Gives v u w
call_prim-Gives _ _ (modulo_takes {v} {u}) w = prim_modulo-Gives v u w

-- An arithmetic primitive, on values that fit their words and on as many of them as its entry in
-- k_primitives admits, ends in a fixnum in the range of 60 bits or in an error, without a fault.
pub call_prim-IsFixnum :
    (f : PrimFn) (argv : List Value) (s : State)
    → Takes f argv
    → AllWords argv
    → Settles IsFixnum (call_prim f argv s)
call_prim-IsFixnum f argv s i w = (call_prim-Gives f argv i w).at s
