-- ===== src/Equal/Parts.antt =====
-- Structural equality of the values of src/value.c, and its comparison of two objects.
use microlisp.Base.{
  Option, ℕ, suc, ◌-◌, ◌≡◌, refl, sym, ap, subst, ◌⊎◌, inl, inr, Bool, true, false, Bool-cases,
  none, some, List, if◌then◌else◌, bytes_equal_refl, bytes_equal→eq, arith,
}
use microlisp.Value.{
  Value, Obj, Cell, obj, pair, string, closure, primitive, env, ml_value_eq, ml_value_eq_refl,
  ml_is_obj,
}
use microlisp.State.{
  Status, State, Run, ok, err, find, deref, and_then, always, finish, clean_up, pure, ◌>>◌,
}
use microlisp.Equal.{
  get_obj, strings_equal, eqv_string, equal_second, ml_value_eqv, equal_pairs, equal_parts,
  enter_equal, leave_equal,
}

-- The value points at a live object with the payload.
abbrev pub At : List Cell → Value → Obj → Type 0
At h v o =
    (p : ℕ) × (c : Cell) × (v ≡ obj p) × (ml_is_obj v ≡ true) × (find p h ≡ some c) × (c.body ≡ o)

-- Structural equality: the same value, equal strings, or pairs with equal components.
pub data Equal (h : List Cell) : Value → Value → Type 0 where
  identical : {a : Value} → Equal h a a
  strings : {a b : Value} (x : List ℕ) → At h a (string x) → At h b (string x) → Equal h a b
  pairs :
      {a b : Value} (car cdr car' cdr' : Value)
      → At h a (pair car cdr)
      → At h b (pair car' cdr')
      → Equal h car car'
      → Equal h cdr cdr'
      → Equal h a b

-- A value that is no pointer to a missing object.
abbrev pub Live : List Cell → Value → Type 0
Live h v = ml_is_obj v ≡ true → (o : Obj) × At h v o

abbrev pub PairsLive : List Cell → Type 0
PairsLive h = (v car cdr : Value) → At h v (pair car cdr) → Live h car × Live h cdr

-- A run that settles whether `P` holds and leaves the state as it was, or reports that the limit on
-- the depth is exceeded, with the depth as it was.
pub data Decides (s : State) (P : Type 0) : Run Bool → Type 0 where
  holds : P → Decides s P (ok true s)
  fails : ¬ P → Decides s P (ok false s)
  too_deep :
      {t : State}
      → t.equal_depth ≡ s.equal_depth
      → t.heap ≡ s.heap
      → Decides s P (err Status.equal_depth t)

pub Decides-map :
    {s : State} {P Q : Type 0} {r : Run Bool} → (P → Q) → (Q → P) → Decides s P r → Decides s Q r
Decides-map f g (holds p) = holds (f p)
Decides-map f g (fails n) = fails (λ q. n (g q))
Decides-map f g (too_deep d h) = too_deep d h

-- A value points at one object only.
At-unique : (h : List Cell) {v : Value} {x y : Obj} → At h v x → At h v y → x ≡ y
At-unique h (p, c, e, _, f, b) (q, d, e', _, f', b') = cc

pub get_obj_lem :
    (v : Value) (s : State)
    → Live s.heap v
    → ((ml_is_obj v ≡ false) × (get_obj v s ≡ ok none s))
      ⊎ ((o : Obj) × At s.heap v o × (get_obj v s ≡ ok (some o) s))
unfolding get_obj deref
get_obj_lem v s live = elim (Bool-cases (ml_is_obj v)) [
  | inr atom ↦ inl (atom, rw (atom, get_obj) refl)
  | inl is ↦
      let (o, at) = live is in
      let (p, c, e, _, f, b) = at in
      inr (o, at, rw (is, get_obj) (rw e (rw (f, deref) (ap (λ x. ok (some x) s) b))))
]

-- A value that is no object equals only itself.
pub atom_lem :
    {h : List Cell} {a b : Value}
    → (ml_is_obj a ≡ false) ⊎ (ml_is_obj b ≡ false)
    → ml_value_eq a b ≡ false
    → ¬ (Equal h a b)
atom_lem {h} {a} side ne identical = let same = ml_value_eq_refl a in cc
atom_lem (inl n) ne (strings x (p, c, e, i, _, _) j) = cc
atom_lem (inr n) ne (strings x i (p, c, e, j, _, _)) = cc
atom_lem (inl n) ne (pairs a d a' d' (p, c, e, i, _, _) j _ _) = cc
atom_lem (inr n) ne (pairs a d a' d' i (p, c, e, j, _, _) _ _) = cc

-- What two objects must be to be equal, if they are not the same one.
abbrev pub Parts : List Cell → Obj → Obj → Type 0
Parts h (string x) (string y) = x ≡ y
Parts h (pair a d) (pair a' d') = Equal h a a' × Equal h d d'
Parts h _ _ = ⊥

pub Parts-of_Equal :
    {h : List Cell} {a b : Value} (x y : Obj)
    → At h a x
    → At h b y
    → ml_value_eq a b ≡ false
    → Equal h a b
    → Parts h x y
Parts-of_Equal {h} {a} x y i j ne identical = let same = ml_value_eq_refl a in cc
Parts-of_Equal {h} x y i j ne (strings z i' j') = rw (At-unique h i i', At-unique h j j') refl
Parts-of_Equal {h} x y i j ne (pairs a d a' d' i' j' e f) =
    rw (At-unique h i i', At-unique h j j') (e, f)

left : (s : State) → record s { equal_depth = suc s.equal_depth - 1 } ≡ s
left s = ap (λ n. record s { equal_depth = n }) (omega arith)

abbrev pub deeper : State → State
deeper s = record s { equal_depth = suc s.equal_depth }

-- The run of a comparison one level down, once the level is left again.
left_lem :
    {s : State} {P : Type 0} (v : Bool)
    → Decides s P (ok v s)
    → Decides s P (ok v (record s { equal_depth = suc s.equal_depth - 1 }))
left_lem {s} {P} v d = subst (λ t. Decides s P (ok v t)) (sym (left s)) d

cdr_lem :
    (s : State) {P Q : Type 0} {r : Run Bool}
    → P
    → Decides (deeper s) Q r
    → Decides s (P × Q) (finish leave_equal r)
unfolding leave_equal
cdr_lem s p (holds q) = left_lem true (holds (p, q))
cdr_lem s p (fails n) = left_lem false (fails (λ (_, q). n q))
cdr_lem s p (too_deep d h) = too_deep (omega (arith, d)) h

car_lem :
    (s : State) {P Q : Type 0} {r : Run Bool} (rest : State → Run Bool)
    → Decides (deeper s) P r
    → Decides (deeper s) Q (rest (deeper s))
    → Decides s (P × Q) (
        and_then
          (clean_up leave_equal r)
          (λ car_eq. if car_eq then always leave_equal rest else leave_equal >> pure false))
unfolding leave_equal
car_lem s rest (holds p) d = cdr_lem s p d
car_lem s rest (fails n) d = left_lem false (fails (λ (p, _). n p))
car_lem s rest (too_deep e h) d = too_deep (omega (arith, e)) h

-- The components of two live objects that are not the same one and are not equal strings.
pub objects_lem :
    (again : Value → Value → State → Run Bool) (s : State) (x y : Obj)
    → strings_equal (some x) (some y) ≡ false
    → ((a d a' d' : Value)
        → x ≡ pair a d
        → y ≡ pair a' d'
        → Decides (deeper s) (Equal s.heap a a') (again a a' (deeper s))
          × Decides (deeper s) (Equal s.heap d d') (again d d' (deeper s)))
    → Decides s (Parts s.heap x y) (equal_pairs again (some x) (some y) s)
unfolding enter_equal leave_equal
objects_lem again s (pair a d) (pair a' d') ne ih =
    let (first, second) = ih a d a' d' refl refl in car_lem s (again d d') first second
objects_lem again s (string x) (string y) ne ih = fails (λ e. let same = bytes_equal_refl x in cc)
objects_lem again s _ _ ne ih = fails (λ e. e)

pub no_object :
    (again : Value → Value → State → Run Bool) (x : Obj) (s : State)
    → (strings_equal (some x) none ≡ false) × (equal_pairs again (some x) none s ≡ ok false s)
no_object again (pair _ _) s = (refl, refl)
no_object again (string _) s = (refl, refl)
no_object again (closure _) s = (refl, refl)
no_object again (primitive _) s = (refl, refl)
no_object again (env _) s = (refl, refl)

pub strings_lem :
    (x y : Obj)
    → strings_equal (some x) (some y) ≡ true
    → (z : List ℕ) × (x ≡ string z) × (y ≡ string z)
strings_lem (string x) (string y) e = (x, refl, ap string (sym (bytes_equal→eq x y e)))
strings_lem _ _ e = cc

eqv_string_lem :
    (b : Value) (x : Option Obj) {y : Option Obj} (s : State)
    → get_obj b s ≡ ok y s
    → eqv_string b x s ≡ ok (strings_equal x y) s
eqv_string_lem b none s e = refl
eqv_string_lem b (some (pair a d)) s e = refl
eqv_string_lem b (some (string x)) s e = rw e refl
eqv_string_lem b (some (closure c)) s e = refl
eqv_string_lem b (some (primitive p)) s e = refl
eqv_string_lem b (some (env f)) s e = refl

equal_second_lem :
    (again : Value → Value → State → Run Bool) (b : Value) (x : Option Obj) {y : Option Obj}
    (s : State)
    → get_obj b s ≡ ok y s
    → equal_second again b x s ≡ equal_pairs again x y s
equal_second_lem again b none s e = refl
equal_second_lem again b (some (pair a d)) s e = rw e refl
equal_second_lem again b (some (string x)) s e = refl
equal_second_lem again b (some (closure c)) s e = refl
equal_second_lem again b (some (primitive p)) s e = refl
equal_second_lem again b (some (env f)) s e = refl

-- What the first level does with two values that are not the same, once what they point at is known.
pub at_objects :
    (again : Value → Value → State → Run Bool) (a b : Value) {x y : Option Obj} (s : State)
    → ml_value_eq a b ≡ false
    → get_obj a s ≡ ok x s
    → get_obj b s ≡ ok y s
    → and_then (ml_value_eqv a b s) (equal_parts again a b)
      ≡ (if strings_equal x y then ok true s else equal_pairs again x y s)
unfolding ml_value_eqv
at_objects again a b {x} {y} s ne ea eb = rw ne (
    rw ea (
      rw (eqv_string_lem b x s eb) (elim (Bool-cases (strings_equal x y)) [
        | inl same ↦ rw same refl
        | inr differ ↦ rw differ (rw ea (equal_second_lem again b x s eb))
      ])))
