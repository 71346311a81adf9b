-- ===== src/Primitives/Compare.antt =====
-- Comparison chains: cmp_chain of src/primitives.c and the five procedures on it.
pub mod Laws
use Prim.Native.String.{String}
use microlisp.Base.{Bool, true, false, not, List, [], ◌∷◌, if◌then◌else◌, ℤ, eqb_ℤ, ltb_ℤ}
use microlisp.Value.{Value, mv_true, mv_false}
use microlisp.State.{State, Run, M, pure, faulty, ◌>>=◌}
use microlisp.Primitives.Arith.{expect_fix}

pub data CmpOp : Type 0 where
  cmp_eq cmp_lt cmp_gt cmp_le cmp_ge : CmpOp

unfoldable pub compare_fix : CmpOp → ℤ → ℤ → Bool
compare_fix CmpOp.cmp_eq prev cur = eqb_ℤ prev cur
compare_fix CmpOp.cmp_lt prev cur = ltb_ℤ prev cur
compare_fix CmpOp.cmp_gt prev cur = ltb_ℤ cur prev
compare_fix CmpOp.cmp_le prev cur = not (ltb_ℤ cur prev)
compare_fix CmpOp.cmp_ge prev cur = not (ltb_ℤ prev cur)

-- The loop stops at the first pair that fails, and does not look at the later arguments.
unfoldable pub cmp_loop : CmpOp → String → ℤ → List Value → M Value
unfolding compare_fix expect_fix
cmp_loop op name prev [] = pure mv_true
cmp_loop op name prev (v ∷ vs) = do
  cur ← expect_fix name v
  if compare_fix op prev cur then cmp_loop op name cur vs else pure mv_false

unfoldable pub cmp_chain : CmpOp → String → List Value → M Value
unfolding cmp_loop
cmp_chain op name [] = faulty
cmp_chain op name (v ∷ vs) = do prev ← expect_fix name v; cmp_loop op name prev vs

unfoldable pub prim_num_eq : List Value → M Value
unfolding cmp_chain
prim_num_eq argv = cmp_chain CmpOp.cmp_eq "=" argv

unfoldable pub prim_num_lt : List Value → M Value
unfolding cmp_chain
prim_num_lt argv = cmp_chain CmpOp.cmp_lt "<" argv

unfoldable pub prim_num_gt : List Value → M Value
unfolding cmp_chain
prim_num_gt argv = cmp_chain CmpOp.cmp_gt ">" argv

unfoldable pub prim_num_le : List Value → M Value
unfolding cmp_chain
prim_num_le argv = cmp_chain CmpOp.cmp_le "<=" argv

unfoldable pub prim_num_ge : List Value → M Value
unfolding cmp_chain
prim_num_ge argv = cmp_chain CmpOp.cmp_ge ">=" argv
