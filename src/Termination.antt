-- ===== src/Termination.antt =====
-- The ends of runs, where the model's fuel stands for a loop of src/gc.c or src/reader.c: rules for
-- the parts of a run.
pub mod Collector
pub mod Atoms
pub mod Tokens
pub mod Reader
use Prim.Native.String.{String}
use microlisp.Base.{ℕ, ◌≡◌, refl, Bool, true, false, if◌then◌else◌}
use microlisp.State.{
  Status, State, Run, M, ok, err, fault, pure, fail, and_then, clean_up, finish, on_error, always,
  reject, ml_set_error, ◌>>=◌, ◌>>◌,
}

-- A run that does not run out of fuel, with an answer that `P` allows if it answers; an error or a
-- fault, which stands for undefined behaviour, is an end too.
pub data Ends {ℓ} {A : Type ℓ} (P : A → Type 0) : Run A → Type ℓ where
  answers : {a : A} {t : State} → P a → Ends P (ok a t)
  fails : {e : Status} {t : State} → Ends P (err e t)
  faults : Ends P fault

-- The same from every state.
pub record Yields {ℓ} {A : Type ℓ} (P : A → Type 0) (m : M A) : Type ℓ where
  pub at : (s : State) → Ends P (m s)

abbrev pub Always {ℓ} : {A : Type ℓ} → A → Type 0
Always a = Unit {0}

abbrev pub Total {ℓ} : {A : Type ℓ} → M A → Type ℓ
Total m = Yields Always m

pub Ends-and_then {ℓ κ} :
    {A : Type ℓ} {B : Type κ} {P : A → Type 0} {Q : B → Type 0} {r : Run A} {k : A → M B}
    → Ends P r
    → ((a : A) → P a → Yields Q (k a))
    → Ends Q (and_then r k)
Ends-and_then (answers {a} {t} p) f = (f a p).at t
Ends-and_then fails f = fails
Ends-and_then faults f = faults

pub Yields-bind {ℓ κ} :
    {A : Type ℓ} {B : Type κ} {P : A → Type 0} {Q : B → Type 0} {m : M A} {k : A → M B}
    → Yields P m
    → ((a : A) → P a → Yields Q (k a))
    → Yields Q (m >>= k)
Yields-bind h f = record { at = λ s. Ends-and_then (h.at s) f }

Ends-mono {ℓ} :
    {A : Type ℓ} {P Q : A → Type 0} {r : Run A} → ((a : A) → P a → Q a) → Ends P r → Ends Q r
Ends-mono f (answers {a} p) = answers (f a p)
Ends-mono f fails = fails
Ends-mono f faults = faults

pub Yields-mono {ℓ} :
    {A : Type ℓ} {P Q : A → Type 0} {m : M A} → Yields P m → ((a : A) → P a → Q a) → Yields Q m
Yields-mono h f = record { at = λ s. Ends-mono f (h.at s) }

pub Yields-pure {ℓ} : {A : Type ℓ} {P : A → Type 0} (a : A) → P a → Yields P (pure a)
Yields-pure a p = record { at = λ s. answers p }

pub Yields-fail {ℓ} : {A : Type ℓ} {P : A → Type 0} (e : Status) → Yields {A = A} P (err e)
Yields-fail e = record { at = λ s. fails }

pub Yields-faulty {ℓ} : {A : Type ℓ} {P : A → Type 0} → Yields {A = A} P (λ _. fault)
Yields-faulty = record { at = λ s. faults }

pub Yields-if {ℓ} :
    {A : Type ℓ} {P : A → Type 0} (b : Bool) {m n : M A}
    → (b ≡ true → Yields P m)
    → (b ≡ false → Yields P n)
    → Yields P (if b then m else n)
Yields-if true h k = h refl
Yields-if false h k = k refl

pub Yields-on_error {ℓ} :
    {A : Type ℓ} {P : A → Type 0} {c : M (Unit {0})} {m : M A}
    → Total c
    → Yields P m
    → Yields P (on_error c m)
Yields-on_error {P = P} {c} {m} h k = record { at = λ s. end_of (k.at s) }
  where
    cleaned : (e : Status) {r : Run (Unit {0})} → Ends Always r → Ends P (and_then r (λ _. err e))
    cleaned e (answers _) = fails
    cleaned e fails = fails
    cleaned e faults = faults

    end_of : {r : Run _} → Ends P r → Ends P (clean_up c r)
    end_of (answers p) = answers p
    end_of (fails {e} {t}) = cleaned e (h.at t)
    end_of faults = faults

pub Yields-always {ℓ} :
    {A : Type ℓ} {P : A → Type 0} {c : M (Unit {0})} {m : M A}
    → Total c
    → Yields P m
    → Yields P (always c m)
Yields-always {P = P} {c} {m} h k = record { at = λ s. end_of (k.at s) }
  where
    cleaned : (e : Status) {r : Run (Unit {0})} → Ends Always r → Ends P (and_then r (λ _. err e))
    cleaned e (answers _) = fails
    cleaned e fails = fails
    cleaned e faults = faults

    kept : (a : _) {r : Run (Unit {0})} → P a → Ends Always r → Ends P (and_then r (λ _. ok a))
    kept a p (answers _) = answers p
    kept a p fails = fails
    kept a p faults = faults

    end_of : {r : Run _} → Ends P r → Ends P (finish c r)
    end_of (answers {a} {t} p) = kept a p (h.at t)
    end_of (fails {e} {t}) = cleaned e (h.at t)
    end_of faults = faults
