-- ===== src/Primitives/Compare/Laws.antt =====
-- What a comparison chain decides: cmp_chain of src/primitives.c.
use Prim.Native.String.{String}
use microlisp.Base.{
  ◌≡◌, ◌≢◌, refl, ◌↔◌, Bool, true, false, Bool-cases, inl, inr, List, [], ◌∷◌, map, ℤ, pos_part,
  neg_part, ◌≤ℤ◌, eqb_ℤ, ltb_ℤ, eqb_ℤ→eq, eqb_ℤ_refl, arith, subst, sym, eq_of_parts, ◌+◌,
}
use microlisp.Value.{fix, ml_make_bool}
use microlisp.State.{State, ok}
use microlisp.Primitives.Arith.{expect_fix}
use microlisp.Primitives.Compare.{CmpOp, compare_fix, cmp_loop, cmp_chain}

-- The relation of integers that each operator stands for.
abbrev pub Related : CmpOp → ℤ → ℤ → Type 0
Related CmpOp.cmp_eq a b = a ≡ b
Related CmpOp.cmp_lt a b = (a ≤ℤ b) × (a ≢ b)
Related CmpOp.cmp_gt a b = (b ≤ℤ a) × (a ≢ b)
Related CmpOp.cmp_le a b = a ≤ℤ b
Related CmpOp.cmp_ge a b = b ≤ℤ a

-- Every number is related to the next.
abbrev pub Chain : CmpOp → ℤ → List ℤ → Type 0
Chain op a [] = Unit {0}
Chain op a (b ∷ bs) = Related op a b × Chain op b bs

lt_lem : (a b : ℤ) → (ltb_ℤ a b ≡ true) ↔ ((a ≤ℤ b) × (a ≢ b))
lt_lem a b = (
  λ h. (ground arith, λ e. let h' = subst (λ z. ltb_ℤ z b ≡ true) e h in ground arith),
  λ (le, ne).
      let apart : pos_part a + neg_part b ≢ pos_part b + neg_part a = λ e. ne (eq_of_parts a b e) in
      ground arith,
)

compare_fix_lem : (op : CmpOp) (a b : ℤ) → (compare_fix op a b ≡ true) ↔ Related op a b
unfolding compare_fix
compare_fix_lem CmpOp.cmp_eq a b =
    (λ h. eqb_ℤ→eq a b h, λ e. subst (λ z. eqb_ℤ a z ≡ true) e (eqb_ℤ_refl a))
compare_fix_lem CmpOp.cmp_lt a b = lt_lem a b
compare_fix_lem CmpOp.cmp_gt a b =
    let lt = lt_lem b a in
    (λ h. ((lt.0 h).0, λ e. (lt.0 h).1 (sym e)), λ (le, ne). lt.1 (le, λ e. ne (sym e)))
compare_fix_lem CmpOp.cmp_le a b = ground arith
compare_fix_lem CmpOp.cmp_ge a b = ground arith

loop_lem :
    (op : CmpOp) (name : String) (a : ℤ) (bs : List ℤ) (s : State)
    → (v : Bool) × (cmp_loop op name a (map fix bs) s ≡ ok (ml_make_bool v) s)
      × ((v ≡ true) ↔ Chain op a bs)
unfolding cmp_loop expect_fix
loop_lem op name a [] s = (true, refl, (λ _. tt, λ _. refl))
loop_lem op name a (b ∷ bs) s = elim (Bool-cases (compare_fix op a b)) [
  | inl related ↦
      let (v, run, decides) = loop_lem op name b bs s in
      (
        v,
        rw related run,
        (λ e. ((compare_fix_lem op a b).0 related, decides.0 e), λ (r, rest). decides.1 rest),
      )
  | inr unrelated ↦
      (false, rw unrelated refl, (λ h. cc, λ (r, rest). let h = (compare_fix_lem op a b).1 r in cc))
]

-- On one or more numbers, a comparison chain returns a boolean and leaves the state as it was; the
-- boolean is #t exactly if every number stands in the operator's relation to the next.
pub cmp_chain_lem :
    (op : CmpOp) (name : String) (a : ℤ) (bs : List ℤ) (s : State)
    → (v : Bool) × (cmp_chain op name (fix a ∷ map fix bs) s ≡ ok (ml_make_bool v) s)
      × ((v ≡ true) ↔ Chain op a bs)
unfolding cmp_chain expect_fix
cmp_chain_lem op name a bs s = loop_lem op name a bs s
