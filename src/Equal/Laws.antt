-- ===== src/Equal/Laws.antt =====
-- What ml_value_equal of src/value.c decides, on values whose pairs are all live.
use microlisp.Base.{
  ℕ, zero, suc, ◌-◌, ◌<◌, ◌≡◌, refl, sym, subst, ◌⊎◌, inl, inr, Bool, false, Bool-cases, none, some,
  [], ◌∷◌, leb, arith,
}
use microlisp.Value.{Value, Obj, pair, string, ml_value_eq, ml_value_eq→eq, ml_is_obj}
use microlisp.State.{Status, State, Run, ok, and_then, reject_with, Arg}
use microlisp.Equal.{
  get_obj, strings_equal, ml_value_eqv, equal_call, equal_loop, equal_parts, ml_value_equal,
}
use microlisp.Equal.Parts.{
  At, Equal, Live, PairsLive, Decides, Decides-map, get_obj_lem, atom_lem, Parts, Parts-of_Equal,
  deeper, objects_lem, no_object, strings_lem, at_objects, identical, strings, pairs, holds, fails,
  too_deep,
}

-- The calls at one level, if those one level down are right.
module _ (again : Value → Value → State → Run Bool) (s : State) (closed : PairsLive s.heap) where
  abbrev Level : Value → Value → Type 0
  Level a b = Decides s (Equal s.heap a b) (and_then (ml_value_eqv a b s) (equal_parts again a b))

  Equal-of_Parts :
      {a b : Value} (x y : Obj)
      → At s.heap a x
      → At s.heap b y
      → strings_equal (some x) (some y) ≡ false
      → Parts s.heap x y
      → Equal s.heap a b
  Equal-of_Parts (pair a d) (pair a' d') i j ne (e, f) = pairs a d a' d' i j e f
  Equal-of_Parts {a} {b} (string x) (string y) i j ne e =
      strings x i (subst (λ z. At s.heap b (string z)) (sym e) j)
  Equal-of_Parts _ _ i j ne e = absurd e

  level_lem :
      (a b : Value)
      → Live s.heap a
      → Live s.heap b
      → ((c d : Value)
          → Live s.heap c
          → Live s.heap d
          → Decides (deeper s) (Equal s.heap c d) (again c d (deeper s)))
      → Level a b
  unfolding ml_value_eqv
  level_lem a b la lb ih = elim (Bool-cases (ml_value_eq a b)) [
    | inl same ↦
        rw (same, ml_value_eqv) (holds (subst (Equal s.heap a) (ml_value_eq→eq a b same) identical))
    | inr ne ↦ go ne (get_obj_lem a s la) (get_obj_lem b s lb)
  ]
    where
      go :
          ml_value_eq a b ≡ false
          → ((ml_is_obj a ≡ false) × (get_obj a s ≡ ok none s))
            ⊎ ((o : Obj) × At s.heap a o × (get_obj a s ≡ ok (some o) s))
          → ((ml_is_obj b ≡ false) × (get_obj b s ≡ ok none s))
            ⊎ ((o : Obj) × At s.heap b o × (get_obj b s ≡ ok (some o) s))
          → Level a b
      go ne (inl (atom, ea)) (inl (_, eb)) =
          rw (at_objects again a b s ne ea eb) (fails (atom_lem (inl atom) ne))
      go ne (inl (atom, ea)) (inr (y, j, eb)) =
          rw (at_objects again a b s ne ea eb) (fails (atom_lem (inl atom) ne))
      go ne (inr (x, i, ea)) (inl (atom, eb)) =
          let (n, m) = no_object again x s in
          rw (at_objects again a b s ne ea eb) (rw (n, m) (fails (atom_lem (inr atom) ne)))
      go ne (inr (x, i, ea)) (inr (y, j, eb)) =
          rw (at_objects again a b s ne ea eb)
            (elim (Bool-cases (strings_equal (some x) (some y))) [
              | inl same ↦
                  let (z, ex, ey) = strings_lem x y same in
                  rw same (holds (strings z (rw ex at i) (rw ey at j)))
              | inr n ↦ rw n (
                  Decides-map (Equal-of_Parts x y i j n) (Parts-of_Equal x y i j ne) (
                    objects_lem again s x y n (λ p d p' d' ex ey.
                      let (lp, ld) = closed a p d (rw ex at i) in
                      let (lp', ld') = closed b p' d' (rw ey at j) in
                      (ih p p' lp lp', ih d d' ld ld'))))
            ])

limit_lem :
    (s : State) {P : Type 0}
    → Decides s P (
        reject_with Status.equal_depth "equal?: comparison depth exceeded limit of %zu"
          (Arg.num s.max_equal_depth ∷ [])
          s)
unfolding reject_with
limit_lem s = too_deep refl refl

loop_lem :
    (fuel : ℕ) (a b : Value) (s : State)
    → PairsLive s.heap
    → Live s.heap a
    → Live s.heap b
    → s.max_equal_depth - s.equal_depth < fuel
    → Decides s (Equal s.heap a b) (equal_loop fuel a b s)
unfolding equal_loop equal_call
loop_lem zero a b s closed la lb h = ground arith
loop_lem (suc fuel) a b s closed la lb h = elim (Bool-cases (leb s.max_equal_depth s.equal_depth)) [
  | inl full ↦ rw full (limit_lem s)
  | inr room ↦ rw room (
      level_lem (equal_loop fuel) s closed a b la lb
        (λ c d lc ld. loop_lem fuel c d (deeper s) closed lc ld (ground arith)))
]

-- On two values in a heap where no pair, and neither value, refers to a missing object, the
-- comparison returns. It answers true exactly if the values are structurally equal, with the state
-- as it was, or it reports that the depth limit is exceeded, with the depth and heap as they were.
pub ml_value_equal_lem :
    (a b : Value) (s : State)
    → PairsLive s.heap
    → Live s.heap a
    → Live s.heap b
    → Decides s (Equal s.heap a b) (ml_value_equal a b s)
unfolding ml_value_equal
ml_value_equal_lem a b s closed la lb =
    loop_lem (suc (s.max_equal_depth - s.equal_depth)) a b s closed la lb (omega arith)
