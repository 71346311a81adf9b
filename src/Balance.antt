-- ===== src/Balance.antt =====
-- The protect stack and the depth counters along a run, after the discipline of ml_gc_savepoint,
-- ml_gc_protect and ml_gc_restore in src/*.c: rules for the parts of a run.
pub mod Stack
pub mod Store
pub mod Tables
pub mod Values
pub mod Arith
pub mod Primitives
pub mod Apply
pub mod Forms
pub mod Let
pub mod Calls
pub mod Loop
pub mod Atoms
pub mod Reader
pub mod Api
use Prim.Native.String.{String}
use microlisp.Base.{
  ℕ, suc, ◌-◌, ◌≡◌, refl, sym, ap, subst, ◌∙◌, Bool, true, false, Bool-cases, Option-cases, ◌==◌,
  inl, inr, Option, none, some, List, [], ◌∷◌, ◌++◌, append-nil, append_assoc, length,
  if◌then◌else◌, set, set-length, arith,
}
use microlisp.Value.{Value}
use microlisp.State.{
  Status, State, Run, M, ok, err, fault, out_of_fuel, and_then, clean_up, finish, on_error, always,
  pure, Arg, reject, reject_with, ml_set_error, ◌>>=◌, ◌>>◌,
}
use microlisp.Primitives.Data.{set_protect}
use microlisp.Gc.Worklist.{alloc_array_lem}
use microlisp.Gc.Protect.{restore_lem, unprotect_lem}
use microlisp.Gc.{grown_cap, alloc_array, ml_gc_protect, ml_gc_restore, ml_gc_unprotect}

-- `t` has the stack of `s` with the values `ws` above it, and the counters of `s`.
pub record Over (s : State) (ws : List Value) (t : State) : Type 0 where
  pub stack : t.gc_protect ≡ s.gc_protect ++ ws
  pub eval_depth : t.eval_depth ≡ s.eval_depth
  pub print_depth : t.print_depth ≡ s.print_depth
  pub equal_depth : t.equal_depth ≡ s.equal_depth

pub Over_refl : (s : State) → Over s [] s
Over_refl s = record {
  stack = sym (append-nil s.gc_protect);
  eval_depth = refl;
  print_depth = refl;
  equal_depth = refl;
}

pub Over_trans :
    {s t u : State} {vs ws : List Value} → Over s vs t → Over t ws u → Over s (vs ++ ws) u
Over_trans {s} {t} {u} {vs} {ws} a b = record {
  stack = b.stack ∙ ap (λ st. st ++ ws) a.stack ∙ append_assoc s.gc_protect vs ws;
  eval_depth = b.eval_depth ∙ a.eval_depth;
  print_depth = b.print_depth ∙ a.print_depth;
  equal_depth = b.equal_depth ∙ a.equal_depth;
}

-- A run that ends over `s`, with values above that `P` or, on an error, `Q` allows.
pub data Leaves {ℓ} {A : Type ℓ} (P Q : List Value → Type 0) (s : State) : Run A → Type ℓ where
  done : {a : A} {t : State} (ws : List Value) → P ws → Over s ws t → Leaves P Q s (ok a t)
  failed : {e : Status} {t : State} (ws : List Value) → Q ws → Over s ws t → Leaves P Q s (err e t)
  faulted : Leaves P Q s fault
  endless : Leaves P Q s out_of_fuel

abbrev pub Nothing : List Value → Type 0
Nothing ws = ws ≡ []

abbrev pub Anything : List Value → Type 0
Anything ws = Unit {0}

-- The stack and the counters are exactly as before, also on an error.
abbrev pub Balanced {ℓ} : {A : Type ℓ} → State → Run A → Type ℓ
Balanced s r = Leaves Nothing Nothing s r

pub record Steady {ℓ} {A : Type ℓ} (m : M A) : Type ℓ where
  pub at : (s : State) → Balanced s (m s)

pub Leaves-and_then {ℓ κ} :
    {A : Type ℓ} {B : Type κ} {P P' Q : List Value → Type 0} {s : State} (r : Run A) (k : A → M B)
    → Leaves P Q s r
    → ((a : A) (t : State) (ws : List Value) → P ws → Over s ws t → Leaves P' Q s (k a t))
    → Leaves P' Q s (and_then r k)
Leaves-and_then r k (done {a} {t} ws p o) f = f a t ws p o
Leaves-and_then r k (failed ws q o) f = failed ws q o
Leaves-and_then r k faulted f = faulted
Leaves-and_then r k endless f = endless

-- A balanced run from a state over `s`.
pub Leaves-over {ℓ} :
    {A : Type ℓ} {P Q : List Value → Type 0} {s t : State} {vs : List Value} {r : Run A}
    → Over s vs t
    → P vs
    → Q vs
    → Balanced t r
    → Leaves P Q s r
Leaves-over {P = P} {s = s} {vs = vs} o p q (done {t = u} ws e o') =
    done vs p (subst (λ xs. Over s xs u) (ap (λ w. vs ++ w) e ∙ append-nil vs) (Over_trans o o'))
Leaves-over {s = s} {vs = vs} o p q (failed {t = u} ws e o') =
    failed vs q (subst (λ xs. Over s xs u) (ap (λ w. vs ++ w) e ∙ append-nil vs) (Over_trans o o'))
Leaves-over o p q faulted = faulted
Leaves-over o p q endless = endless

-- The rules for runs that are balanced from every state.
pub Steady-pure {ℓ} : {A : Type ℓ} (a : A) → Steady (pure a)
Steady-pure a = record { at = λ s. done [] refl (Over_refl s) }

pub Steady-fail {ℓ} : {A : Type ℓ} (e : Status) → Steady {A = A} (err e)
Steady-fail e = record { at = λ s. failed [] refl (Over_refl s) }

pub Steady-faulty {ℓ} : {A : Type ℓ} → Steady {A = A} (λ _. fault)
Steady-faulty = record { at = λ s. faulted }

pub Steady-bind {ℓ κ} :
    {A : Type ℓ} {B : Type κ} {m : M A} {k : A → M B}
    → Steady m
    → ((a : A) → Steady (k a))
    → Steady (m >>= k)
Steady-bind {m = m} {k} h f = record {
  at = λ s.
      Leaves-and_then (m s) k (h.at s)
        (λ a t ws e o. Leaves-over (subst (λ xs. Over s xs t) e o) refl refl ((f a).at t));
}

pub Steady-if {ℓ} :
    {A : Type ℓ} (b : Bool) {m n : M A} → Steady m → Steady n → Steady (if b then m else n)
Steady-if true h k = h
Steady-if false h k = k

-- A step that writes none of the stack and the counters.
pub Balanced-ok {ℓ} :
    {A : Type ℓ} {s t : State} (a : A)
    → t.gc_protect ≡ s.gc_protect
    → t.eval_depth ≡ s.eval_depth
    → t.print_depth ≡ s.print_depth
    → t.equal_depth ≡ s.equal_depth
    → Balanced s (ok a t)
Balanced-ok {s = s} a p e f g = done [] refl (record {
  stack = p ∙ sym (append-nil s.gc_protect);
  eval_depth = e;
  print_depth = f;
  equal_depth = g;
})

pub Balanced-err {ℓ} :
    {A : Type ℓ} {s t : State} (x : Status)
    → t.gc_protect ≡ s.gc_protect
    → t.eval_depth ≡ s.eval_depth
    → t.print_depth ≡ s.print_depth
    → t.equal_depth ≡ s.equal_depth
    → Balanced {A = A} s (err x t)
Balanced-err {s = s} x p e f g = failed [] refl (record {
  stack = p ∙ sym (append-nil s.gc_protect);
  eval_depth = e;
  print_depth = f;
  equal_depth = g;
})

-- Tests of a run.
pub Balanced-if {ℓ} :
    {A : Type ℓ} {s : State} (b : Bool) {r r' : Run A}
    → Balanced s r
    → Balanced s r'
    → Balanced s (if b then r else r')
Balanced-if true h k = h
Balanced-if false h k = k

pub Balanced-option {ℓ κ} :
    {A : Type ℓ} {B : Type κ} {s : State} (o : Option B) {r : Run A} {f : B → Run A}
    → Balanced s r
    → ((b : B) → Balanced s (f b))
    → Balanced s (elim o [ none ↦ r | some b ↦ f b ])
Balanced-option none h k = h
Balanced-option (some b) h k = k b

pub Steady-option {ℓ κ} :
    {A : Type ℓ} {B : Type κ} (o : Option B) {m : M A} {f : B → M A}
    → Steady m
    → ((b : B) → Steady (f b))
    → Steady (elim o [ none ↦ m | some b ↦ f b ])
Steady-option none h k = h
Steady-option (some b) h k = k b

pub Steady-bool {ℓ} :
    {A : Type ℓ} (b : Bool) {m n : M A}
    → Steady m
    → Steady n
    → Steady (elim b [ true ↦ m | false ↦ n ])
Steady-bool true h k = h
Steady-bool false h k = k

pub Steady-reject {ℓ} : {A : Type ℓ} (x : Status) (fmt : String) → Steady {A = A} (reject x fmt)
unfolding reject ml_set_error
Steady-reject x fmt = record { at = λ s. Balanced-err x refl refl refl refl }

pub Steady-reject_with {ℓ} :
    {A : Type ℓ} (x : Status) (fmt : String) (args : List Arg)
    → Steady {A = A} (reject_with x fmt args)
unfolding reject_with ml_set_error
Steady-reject_with x fmt args = record { at = λ s. Balanced-err x refl refl refl refl }

pub ruleset steady = (
  Steady-pure, Steady-fail, Steady-faulty, Steady-bind, Steady-if, Steady-option, Steady-bool,
  Steady-reject, Steady-reject_with,
)

-- A cleanup that brings runs over `s'` back over `s`, such as a counter's decrement.
module _ (s s' : State) (c : M (Unit {0}))
    (back : (t : State) → Over s' [] t → (u : State) × (c t ≡ ok tt u) × Over s [] u) where
  pub Balanced-finish {ℓ} : {A : Type ℓ} {r : Run A} → Balanced s' r → Balanced s (finish c r)
  Balanced-finish (done {t = t} ws e o) =
      let (u, run, o') = back t (subst (λ xs. Over s' xs t) e o) in rw run (done [] refl o')
  Balanced-finish (failed {t = t} ws e o) =
      let (u, run, o') = back t (subst (λ xs. Over s' xs t) e o) in rw run (failed [] refl o')
  Balanced-finish faulted = faulted
  Balanced-finish endless = endless

  -- The same where only an error runs the cleanup, and then the rest.
  pub Balanced-clean_up {ℓ κ} :
      {A : Type ℓ} {B : Type κ} {r : Run A} (k : A → M B)
      → Balanced s' r
      → ((a : A) (t : State) → Over s' [] t → Balanced s (k a t))
      → Balanced s (and_then (clean_up c r) k)
  Balanced-clean_up k (done {a} {t} ws e o) f = f a t (subst (λ xs. Over s' xs t) e o)
  Balanced-clean_up k (failed {t = t} ws e o) f =
      let (u, run, o') = back t (subst (λ xs. Over s' xs t) e o) in rw run (failed [] refl o')
  Balanced-clean_up k faulted f = faulted
  Balanced-clean_up k endless f = endless

-- A run from a state over `s`.
pub Leaves-trans {ℓ} :
    {A : Type ℓ} {P Q P' Q' : List Value → Type 0} {s t : State} {vs : List Value} {r : Run A}
    → Over s vs t
    → Leaves P Q t r
    → ((ws : List Value) → P ws → P' (vs ++ ws))
    → ((ws : List Value) → Q ws → Q' (vs ++ ws))
    → Leaves P' Q' s r
Leaves-trans {vs = vs} o (done ws p o') f g = done (vs ++ ws) (f ws p) (Over_trans o o')
Leaves-trans {vs = vs} o (failed ws q o') f g = failed (vs ++ ws) (g ws q) (Over_trans o o')
Leaves-trans o faulted f g = faulted
Leaves-trans o endless f g = endless
