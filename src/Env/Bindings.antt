-- ===== src/Env/Bindings.antt =====
-- A frame's bindings after a name is rebound or added, and the heap after one object is written.
use microlisp.Base.{
  ℕ, ◌≡◌, ◌≢◌, refl, sym, ap, ◌∙◌, true, false, Bool-cases, Option-cases, inl, inr, subst, none,
  some, List, [], ◌∷◌, ◌++◌, if◌then◌else◌, length, arith,
}
use microlisp.Value.{Value, Obj, Cell, ml_value_eq, ml_value_eq_refl, ml_value_eq→eq}
use microlisp.State.{find, replace}
use microlisp.Env.{lookup_frame, replace_frame}

abbrev pub Bindings : Type 0
Bindings = List (Value × Value)

-- The bindings `new` are `old` with `name` bound to `v`.
pub record Rebound (name v : Value) (old new : Bindings) : Type 0 where
  pub bound : lookup_frame name new ≡ some v
  pub others : (m : Value) → m ≢ name → lookup_frame m new ≡ lookup_frame m old

value_ne : (a b : Value) → b ≢ a → ml_value_eq a b ≡ false
value_ne a b ne = elim (Bool-cases (ml_value_eq a b)) [
  | inl same ↦ absurd (ne (sym (ml_value_eq→eq a b same)))
  | inr other ↦ other
]

Rebound-head :
    (n name v w : Value) (bs : Bindings)
    → ml_value_eq n name ≡ true
    → Rebound name v ((n, w) ∷ bs) ((n, v) ∷ bs)
unfolding lookup_frame
Rebound-head n name v w bs same = record {
  bound = rw same refl;
  others = λ m ne. rw (value_ne n m (λ e. ne (e ∙ ml_value_eq→eq n name same))) refl;
}

Rebound-tail :
    (n name v w : Value) (bs bs' : Bindings)
    → ml_value_eq n name ≡ false
    → Rebound name v bs bs'
    → Rebound name v ((n, w) ∷ bs) ((n, w) ∷ bs')
unfolding lookup_frame
Rebound-tail n name v w bs bs' other r = record {
  bound = rw other r.bound;
  others = λ m ne. ap (λ later. if ml_value_eq n m then some w else later) (r.others m ne);
}

pub Rebound-replace :
    (name v : Value) (old new : Bindings)
    → replace_frame name v old ≡ some new
    → Rebound name v old new
unfolding replace_frame lookup_frame
Rebound-replace name v [] new h = cc
Rebound-replace name v ((n, w) ∷ bs) new h = elim (Bool-cases (ml_value_eq n name)) [
  | inl same ↦
      let e : (n, v) ∷ bs ≡ new = ground arith in
      subst (Rebound name v ((n, w) ∷ bs)) e (Rebound-head n name v w bs same)
  | inr other ↦ elim (Option-cases (replace_frame name v bs)) [
    | inl missing ↦ ground arith
    | inr (bs', e) ↦
        let e' : (n, w) ∷ bs' ≡ new = ground arith in
        subst (Rebound name v ((n, w) ∷ bs)) e'
          (Rebound-tail n name v w bs bs' other (Rebound-replace name v bs bs' e))
  ]
]

pub Rebound-append :
    (name v : Value) (old : Bindings)
    → replace_frame name v old ≡ none
    → Rebound name v old (old ++ (name, v) ∷ [])
unfolding replace_frame lookup_frame
Rebound-append name v [] h = record {
  bound = rw (ml_value_eq_refl name) refl;
  others = λ m ne. rw (value_ne name m ne) refl;
}
Rebound-append name v ((n, w) ∷ bs) h = elim (Bool-cases (ml_value_eq n name)) [
  | inl same ↦ ground arith
  | inr other ↦ Rebound-tail n name v w bs (bs ++ (name, v) ∷ []) other (
      Rebound-append name v bs (elim (Option-cases (replace_frame name v bs)) [
        | inl missing ↦ missing
        | inr (bs', e) ↦ ground arith
      ]))
]

pub find-replace_self :
    (p : ℕ) (o : Obj) (h : List Cell) (c : Cell)
    → find p h ≡ some c
    → find p (replace p o h) ≡ some (record c { body = o })
unfolding find replace
find-replace_self p o [] c e = cc
find-replace_self p o (d ∷ h) c e = ground (arith, find-replace_self p o h c)

pub find-replace_ne :
    (p q : ℕ) (o : Obj) (h : List Cell) → q ≢ p → find q (replace p o h) ≡ find q h
unfolding find replace
find-replace_ne p q o [] ne = refl
find-replace_ne p q o (d ∷ h) ne = ground (arith, find-replace_ne p q o h)

pub length-replace : (p : ℕ) (o : Obj) (h : List Cell) → length (replace p o h) ≡ length h
unfolding replace
length-replace p o [] = refl
length-replace p o (d ∷ h) = ground (arith, length-replace p o h)

-- A name can be rebound exactly if it is bound.
pub lookup_frame-none :
    (name v : Value) (bs : Bindings) → replace_frame name v bs ≡ none → lookup_frame name bs ≡ none
unfolding replace_frame lookup_frame
lookup_frame-none name v [] h = refl
lookup_frame-none name v ((n, w) ∷ bs) h = elim (Bool-cases (ml_value_eq n name)) [
  | inl same ↦ ground arith
  | inr other ↦ elim (Option-cases (replace_frame name v bs)) [
    | inl missing ↦ rw other (lookup_frame-none name v bs missing)
    | inr (bs', e) ↦ ground arith
  ]
]

pub lookup_frame-some :
    (name v : Value) (bs bs' : Bindings)
    → replace_frame name v bs ≡ some bs'
    → (w : Value) × (lookup_frame name bs ≡ some w)
unfolding replace_frame lookup_frame
lookup_frame-some name v [] bs' h = cc
lookup_frame-some name v ((n, w) ∷ bs) bs' h = elim (Bool-cases (ml_value_eq n name)) [
  | inl same ↦ (w, rw same refl)
  | inr other ↦ elim (Option-cases (replace_frame name v bs)) [
    | inl missing ↦ ground arith
    | inr (rest, e) ↦ let (u, found) = lookup_frame-some name v bs rest e in (u, rw other found)
  ]
]
