-- ===== src/Primitives/Arith/Division.antt =====
-- Integer division: prim_quotient, prim_remainder and prim_modulo of src/primitives.c.
use Prim.Native.Nat.{◌/◌, ◌<◌}
use Prim.Native.String.{String}
use native.Mathlib.Nat.{
  mod-add-div', mod-lt, div-eq_of_lt, div-mul-le_self, div-le_self, mul-le-mul_left,
}
use microlisp.Base.{
  ℕ, zero, suc, ◌+◌, ◌-◌, ◌^◌, ◌≡◌, ◌≢◌, refl, ap, ◌⊎◌, inl, inr, true, false, Bool-cases, not,
  ◌&&◌, [], ◌∷◌, ltb, if◌then◌else◌, ℤ, pos, negsuc, pos_part, neg_part, ◌+ℤ◌, ◌*ℤ◌, quot, rem,
  eqb_ℤ, eqb_ℤ→eq, subst, arith,
}
use microlisp.Value.{Value, fix}
use microlisp.Word.{fits_fixnum}
use microlisp.State.{Status, State, Message, ok, err, reject, reject_with, ml_set_error}
use microlisp.Primitives.Arith.{
  expect_fix, divisor, in_range, prim_quotient, prim_remainder, prim_modulo, prim_div, div_loop,
  reciprocal, floor_mod, is_zero, is_negative, differ,
}

abbrev pub abs : ℤ → ℕ
abs a = pos_part a + neg_part a

abbrev recomposed : ℤ → ℤ → ℤ
recomposed a b = quot a b *ℤ b +ℤ rem a b

recompose : (a b : ℤ) → b ≢ pos 0 → recomposed a b ≡ a
unfolding quot rem ◌*ℤ◌ ◌+ℤ◌
recompose (pos a) (pos b) n = ground (arith, mod-add-div' a b)
recompose (pos a) (negsuc b) n = ground (arith, mod-add-div' a (suc b))
recompose (negsuc a) (pos b) n = ground (arith, mod-add-div' (suc a) b)
recompose (negsuc a) (negsuc b) n = ground (arith, mod-add-div' (suc a) (suc b))

abbrev pub Small : ℤ → ℤ → ℤ → Type 0
Small a b r =
    (abs r < abs b)
    × (is_negative a ≡ false → neg_part r ≡ 0)
    × (is_negative a ≡ true → pos_part r ≡ 0)

pos_of_ne : (b : ℕ) → pos b ≢ pos 0 → 0 < b
pos_of_ne zero n = absurd (n refl)
pos_of_ne (suc b) n = omega arith

pub Small-rem : (a b : ℤ) → b ≢ pos 0 → Small a b (rem a b)
unfolding rem
Small-rem (pos a) (pos b) n =
    let below = mod-lt a {m = b} (pos_of_ne b n) in (omega arith, λ _. refl, λ h. cc)
Small-rem (pos a) (negsuc b) n =
    let below = mod-lt a {m = suc b} (omega arith) in (omega arith, λ _. refl, λ h. cc)
Small-rem (negsuc a) (pos b) n =
    let below = mod-lt (suc a) {m = b} (pos_of_ne b n) in (ground arith, λ h. cc, λ _. ground arith)
Small-rem (negsuc a) (negsuc b) n =
    let below = mod-lt (suc a) {m = suc b} (omega arith) in
    (ground arith, λ h. cc, λ _. ground arith)

-- The remainder with the divisor's sign.
abbrev pub Floored : ℤ → ℤ → ℤ → Type 0
Floored a b m =
    ((m ≡ rem a b) ⊎ (m ≡ rem a b +ℤ b))
    × (abs m < abs b)
    × (is_negative b ≡ false → neg_part m ≡ 0)
    × (is_negative b ≡ true → pos_part m ≡ 0)

pub Floored-of :
    (a b r : ℤ)
    → b ≢ pos 0
    → Small a b r
    → r ≡ rem a b
    → Floored a b (if not (is_zero r) && differ (is_negative r) (is_negative b) then r +ℤ b else r)
unfolding ◌+ℤ◌
Floored-of a (pos b) (pos zero) n (small, _, _) e = (inl e, ground arith, λ _. refl, λ h. cc)
Floored-of a (negsuc b) (pos zero) n (small, _, _) e = (inl e, ground arith, λ h. cc, λ _. refl)
Floored-of a (pos b) (pos (suc r)) n (small, _, _) e = ground arith
Floored-of a (negsuc b) (pos (suc r)) n (small, _, _) e = ground arith
Floored-of a (pos b) (negsuc r) n (small, _, _) e = ground arith
Floored-of a (negsuc b) (negsuc r) n (small, _, _) e = ground arith

-- No quotient of fixnums leaves the range but that of the least one by -1.
quot_fits :
    (a b : ℤ)
    → fits_fixnum a ≡ true
    → b ≢ pos 0
    → (fits_fixnum (quot a b) ≡ true)
      ⊎ ((a ≡ negsuc (2 ^ 59 - 1)) × (b ≡ negsuc 0) × (fits_fixnum (quot a b) ≡ false))
unfolding fits_fixnum quot
quot_fits (pos a) (pos b) f n = let below = div-le_self a b in inl (ground arith)
quot_fits (pos a) (negsuc b) f n = let below = div-le_self a (suc b) in inl (ground arith)
quot_fits (negsuc a) (pos b) f n = let below = div-le_self (suc a) b in inl (ground arith)
quot_fits (negsuc a) (negsuc zero) f n =
    let whole : suc a / 1 ≡ suc a = omega arith in
    elim (Bool-cases (ltb (suc a) (2 ^ 59))) [
      | inl fits ↦ inl (rw whole fits)
      | inr least ↦ inr (ap negsuc (ground arith), refl, rw whole least)
    ]
quot_fits (negsuc a) (negsuc (suc b)) f n =
    let product = div-mul-le_self (suc a) (suc (suc b)) in
    let double = mul-le-mul_left {m = 2} {n = suc (suc b)} (suc a / suc (suc b)) (omega arith) in
    inl (ground arith)

-- What the three procedures do on two fixnums, the second not zero.
pub record Divides (a b : ℤ) (s : State) : Type 0 where
  pub q : ℤ
  pub r : ℤ
  pub m : ℤ
  pub recomposes : q *ℤ b +ℤ r ≡ a
  pub remainder : prim_remainder (fix a ∷ fix b ∷ []) s ≡ ok (fix r) s
  pub remainder_small : Small a b r
  pub modulo : prim_modulo (fix a ∷ fix b ∷ []) s ≡ ok (fix m) s
  pub modulo_of : (m ≡ r) ⊎ (m ≡ r +ℤ b)
  pub modulo_small : abs m < abs b
  pub modulo_sign :
      (is_negative b ≡ false → neg_part m ≡ 0) × (is_negative b ≡ true → pos_part m ≡ 0)
  pub quotient :
      ((fits_fixnum q ≡ true) × (prim_quotient (fix a ∷ fix b ∷ []) s ≡ ok (fix q) s))
      ⊎ ((a ≡ negsuc (2 ^ 59 - 1))
          × (b ≡ negsuc 0)
          × ((t : State) × (prim_quotient (fix a ∷ fix b ∷ []) s ≡ err Status.overflow t)))

nonzero : (b : ℤ) → b ≢ pos 0 → is_zero b ≡ false
nonzero b n = elim (Bool-cases (is_zero b)) [
  | inl z ↦ absurd (n (eqb_ℤ→eq b (pos 0) z))
  | inr z ↦ z
]

not_int64_min : (a : ℤ) → fits_fixnum a ≡ true → eqb_ℤ a (negsuc (2 ^ 63 - 1)) ≡ false
unfolding fits_fixnum
not_int64_min a f = ground arith

out_of_range :
    (message : String) (z : ℤ) (s : State)
    → fits_fixnum z ≡ false
    → (t : State) × (in_range message z s ≡ err Status.overflow t)
unfolding in_range reject ml_set_error
out_of_range message z s h = (
  record s { last_error = record { message = Message.format message []; line = 0; column = 0 } },
  rw h refl,
)

-- For a fixnum and an integer that is not zero: `quotient` and `remainder` recompose the dividend, the
-- remainder is smaller than the divisor in magnitude and has the dividend's sign or is zero;
-- `modulo` is that remainder or that plus the divisor, is smaller than the divisor in magnitude,
-- and has the divisor's sign or is zero; none of them changes the state or fails, but that
-- `quotient` reports overflow where the quotient is no fixnum, which is the case of the least
-- fixnum by -1 and no other.
pub division_lem : (a b : ℤ) (s : State) → fits_fixnum a ≡ true → b ≢ pos 0 → Divides a b s
unfolding prim_quotient prim_remainder prim_modulo expect_fix divisor floor_mod
division_lem a b s f n =
    let z = nonzero b n in
    let small = Small-rem a b n in
    let (m_of, m_small, m_sign, m_sign') = Floored-of a b (rem a b) n small refl in
    record {
      q = quot a b;
      r = rem a b;
      m = floor_mod a b;
      recomposes = recompose a b n;
      remainder = rw z (rw (not_int64_min a f) refl);
      remainder_small = small;
      modulo = rw z refl;
      modulo_of = m_of;
      modulo_small = m_small;
      modulo_sign = (m_sign, m_sign');
      quotient = elim (quot_fits a b f n) [
        | inl e ↦ inl (e, rw z (rw e refl))
        | inr (ea, eb, e) ↦
            let (t, over) = out_of_range "quotient: integer overflow" (quot a b) s e in
            inr (ea, eb, (t, rw z (rw over refl)))
      ];
    }

reciprocal_lem : (x : ℤ) → x ≢ pos 0 → quot (pos 1) x ≡ reciprocal x
unfolding quot
reciprocal_lem (pos zero) n = absurd (n refl)
reciprocal_lem (pos (suc zero)) n = refl
reciprocal_lem (pos (suc (suc b))) n =
    let none_left : 1 / suc (suc b) ≡ 0 = div-eq_of_lt {n = 1} {m = suc (suc b)} (omega arith) in
    ground arith
reciprocal_lem (negsuc zero) n = refl
reciprocal_lem (negsuc (suc b)) n =
    let none_left : 1 / suc (suc b) ≡ 0 = div-eq_of_lt {n = 1} {m = suc (suc b)} (omega arith) in
    ground arith

pub reciprocal_fits : (x : ℤ) → fits_fixnum (reciprocal x) ≡ true
unfolding fits_fixnum
reciprocal_fits x = elim (Bool-cases (eqb_ℤ x (pos 1))) [
  | inl one ↦ rw one refl
  | inr other ↦ elim (Bool-cases (eqb_ℤ x (negsuc 0))) [
    | inl minus ↦ rw other (rw minus refl)
    | inr rest ↦ rw other (rw rest refl)
  ]
]

-- A quotient of one argument is the quotient of one and it, errors included.
pub prim_div_unary :
    (v : Value) (s : State) → prim_div (v ∷ []) s ≡ prim_div (fix (pos 1) ∷ v ∷ []) s
unfolding prim_div div_loop expect_fix divisor in_range reject reject_with
prim_div_unary (fix x) s = elim (Bool-cases (is_zero x)) [
  | inl z ↦ rw z refl
  | inr z ↦
      let e = reciprocal_lem x (λ h. let z' = subst (λ y. is_zero y ≡ false) h z in cc) in
      rw z (rw e (rw (reciprocal_fits x) refl))
]
prim_div_unary (Value.obj v) s = refl
prim_div_unary (Value.imm v) s = refl
prim_div_unary (Value.sym v) s = refl
