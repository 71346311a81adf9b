-- ===== src/Gc/Protect.antt =====
-- The protect stack of src/gc.c: ml_gc_protect, ml_gc_unprotect and ml_gc_restore.
use microlisp.Base.{
  ◌-◌, ◌≡◌, refl, sym, ap, subst, ◌∙◌, inl, inr, false, Bool-cases, Option-cases, List, [], ◌∷◌,
  ◌++◌, append-nil, append_assoc, ltb, ◌==◌, length, length-append, take, take-length-append, arith,
}
use microlisp.Value.{Value}
use microlisp.State.{Status, State, Run, M, ok, err, and_then, pure, ◌>>◌}
use microlisp.Gc.{grown_cap, ml_gc_protect, ml_gc_unprotect, ml_gc_restore}
use microlisp.Gc.Worklist.{alloc_array_lem}

-- Protecting values one after the other.
unfoldable pub protect_all : List Value → M (Unit {0})
unfolding ml_gc_protect
protect_all [] = pure tt
protect_all (v ∷ vs) = ml_gc_protect v >> protect_all vs

-- The stack of `s` with the values of `vs` above it.
pub record Above (s : State) (vs : List Value) (t : State) : Type 0 where
  pub stack : t.gc_protect ≡ s.gc_protect ++ vs
  pub heap : t.heap ≡ s.heap

-- The stack is back at what it was in `s`, and nothing else has changed since `t`.
abbrev pub BackTo : State → State → Run (Unit {0}) → Type 0
BackTo s t r = r ≡ ok tt (record t { gc_protect = s.gc_protect })

pub data Protects (s : State) (vs : List Value) : Run (Unit {0}) → Type 0 where
  protected :
      {t : State}
      → Above s vs t
      → BackTo s t (ml_gc_restore (length s.gc_protect) t)
      → BackTo s t (ml_gc_unprotect (length vs) t)
      → Protects s vs (ok tt t)
  no_memory :
      {t : State} (ws : List Value)
      → Above s ws t
      → BackTo s t (ml_gc_restore (length s.gc_protect) t)
      → Protects s vs (err Status.nomem t)

shorter : (xs ys : List Value) → ltb (length xs) (length (xs ++ ys)) ≡ false → xs ++ ys ≡ xs
shorter xs [] h = append-nil xs
shorter xs (y ∷ ys) h = let n = length-append xs (y ∷ ys) in ground arith

pub restore_lem :
    (s : State) {t : State} (vs : List Value)
    → t.gc_protect ≡ s.gc_protect ++ vs
    → BackTo s t (ml_gc_restore (length s.gc_protect) t)
unfolding ml_gc_restore
restore_lem s {t} vs e0 = elim (Bool-cases (ltb (length s.gc_protect) (length t.gc_protect))) [
  | inl more ↦ rw more (
      ap (λ st. ok tt (record t { gc_protect = st }))
        (ap (take (length s.gc_protect)) e0 ∙ take-length-append s.gc_protect vs))
  | inr same ↦
      let e : ltb (length s.gc_protect) (length (s.gc_protect ++ vs)) ≡ false =
        subst (λ st. ltb (length s.gc_protect) (length st) ≡ false) e0 same in
      rw same (ap (λ st. ok tt (record t { gc_protect = st })) (e0 ∙ shorter s.gc_protect vs e))
]

pub unprotect_lem :
    (s : State) {t : State} (vs : List Value)
    → t.gc_protect ≡ s.gc_protect ++ vs
    → BackTo s t (ml_gc_unprotect (length vs) t)
unfolding ml_gc_unprotect
unprotect_lem s {t} vs e0 =
    let n : length (s.gc_protect ++ vs) - length vs ≡ length s.gc_protect =
      omega (arith, length-append s.gc_protect vs) in
    ap (λ st. ok tt (record t { gc_protect = st }))
      (ap (λ st. take (length st - length vs) st) e0
        ∙ ap (λ k. take k (s.gc_protect ++ vs)) n
        ∙ take-length-append s.gc_protect vs)

-- What one push does.
data Pushes (s : State) (v : Value) : Run (Unit {0}) → Type 0 where
  pushed : {t : State} → Above s (v ∷ []) t → Pushes s v (ok tt t)
  full : {t : State} → Above s [] t → Pushes s v (err Status.nomem t)

push_lem : (v : Value) (s : State) → Pushes s v (ml_gc_protect v s)
unfolding ml_gc_protect
push_lem v s = elim (Bool-cases (length s.gc_protect == s.gc_protect_cap)) [
  | inr room ↦ rw (room, ml_gc_protect) (pushed (record { stack = refl; heap = refl }))
  | inl none_left ↦
      let (r, k, e) = alloc_array_lem (grown_cap 32 s.gc_protect_cap) 8 s in
      elim (Option-cases r) [
        | inl n ↦
            rw (none_left, ml_gc_protect)
              (rw e (rw n (full (record { stack = sym (append-nil s.gc_protect); heap = refl }))))
        | inr (_, n) ↦
            rw (none_left, ml_gc_protect)
              (rw e (rw n (pushed (record { stack = refl; heap = refl }))))
      ]
]

data Climbs (s : State) (vs : List Value) : Run (Unit {0}) → Type 0 where
  climbed : {t : State} → Above s vs t → Climbs s vs (ok tt t)
  stuck : {t : State} (ws : List Value) → Above s ws t → Climbs s vs (err Status.nomem t)

Above-step :
    {s t u : State} {v : Value} (vs : List Value)
    → Above s (v ∷ []) t
    → Above t vs u
    → Above s (v ∷ vs) u
Above-step {s} {t} {u} {v} vs a b = record {
  stack = b.stack ∙ ap (λ st. st ++ vs) a.stack ∙ append_assoc s.gc_protect (v ∷ []) vs;
  heap = b.heap ∙ a.heap;
}

Climbs-step :
    {s t : State} {v : Value} (vs : List Value) {r : Run (Unit {0})}
    → Above s (v ∷ []) t
    → Climbs t vs r
    → Climbs s (v ∷ vs) r
Climbs-step vs a (climbed b) = climbed (Above-step vs a b)
Climbs-step {v = v} vs a (stuck ws b) = stuck (v ∷ ws) (Above-step ws a b)

Climbs-push :
    (s : State) (v : Value) (vs : List Value) {r : Run (Unit {0})}
    → Pushes s v r
    → ((t : State) → Climbs t vs (protect_all vs t))
    → Climbs s (v ∷ vs) (and_then r (λ _. protect_all vs))
Climbs-push s v vs (pushed {t} a) ih = Climbs-step vs a (ih t)
Climbs-push s v vs (full a) ih = stuck [] a

climb_lem : (vs : List Value) (s : State) → Climbs s vs (protect_all vs s)
unfolding protect_all
climb_lem [] s = climbed (record { stack = sym (append-nil s.gc_protect); heap = refl })
climb_lem (v ∷ vs) s = Climbs-push s v vs (push_lem v s) (climb_lem vs)

Climbs-Protects :
    {s : State} {vs : List Value} {r : Run (Unit {0})} → Climbs s vs r → Protects s vs r
Climbs-Protects {s} {vs} (climbed a) =
    protected a (restore_lem s vs a.stack) (unprotect_lem s vs a.stack)
Climbs-Protects {s} (stuck ws a) = no_memory ws a (restore_lem s ws a.stack)

-- Protecting any values one after the other puts them on top of the protect stack in their order,
-- or reports that memory is exhausted with some on top of it, and leaves the heap as it was.
-- Restoring the savepoint taken before brings the stack back to what it was either way, and where
-- all are protected, so does unprotecting as many.
pub protect_all_lem : (vs : List Value) (s : State) → Protects s vs (protect_all vs s)
protect_all_lem vs s = Climbs-Protects (climb_lem vs s)
