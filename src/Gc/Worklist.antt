-- ===== src/Gc/Worklist.antt =====
-- The worklist of src/gc.c: gc_push_mark, and what a visit may change.
use microlisp.Base.{
  ℕ, suc, ◌*◌, ◌^◌, ◌≤◌, ◌⊎◌, ltb, arith, ◌≡◌, ◌≢◌, refl, ap, ◌∙◌, inl, inr, Bool, true, false,
  ◌||◌, Option, none, some, List, [], ◌∷◌, ◌==◌, if◌then◌else◌, length, map, Bool-cases,
  Option-cases,
}
use microlisp.Value.{Value, obj, fix, imm, sym as symbol}
use microlisp.State.{State, Run, M, ok, pure, and_then, ml_raw_alloc}
use microlisp.Gc.{mul_overflow, grown_cap, alloc_array, gc_push_mark}

abbrev pub on_list : ℕ → List ℕ → Bool
on_list a [] = false
on_list a (b ∷ bs) = (a == b) || on_list a bs

-- `P` holds of the object that a value refers to, if it refers to one.
abbrev pub RefersTo : (ℕ → Type 0) → Value → Type 0
RefersTo P (obj a) = a ≢ 0 → P a
RefersTo P _ = Unit

abbrev pub Refers : (ℕ → Type 0) → List Value → Type 0
Refers P [] = Unit
Refers P (v ∷ vs) = RefersTo P v × Refers P vs

pub RefersTo-mono :
    {P Q : ℕ → Type 0} (v : Value) → ((a : ℕ) → P a → Q a) → RefersTo P v → RefersTo Q v
RefersTo-mono (obj a) k r = λ ne. k a (r ne)
RefersTo-mono (fix _) k r = tt
RefersTo-mono (imm _) k r = tt
RefersTo-mono (symbol _) k r = tt

pub Refers-mono :
    {P Q : ℕ → Type 0} (vs : List Value) → ((a : ℕ) → P a → Q a) → Refers P vs → Refers Q vs
Refers-mono [] k r = tt
Refers-mono (v ∷ vs) k r = (RefersTo-mono v k r.0, Refers-mono vs k r.1)

-- `s` with the fields that marking writes taken from `t`.
abbrev pub with_marks : State → State → State
with_marks s t = record s {
  allocs = t.allocs;
  heap = t.heap;
  gc_marklist = t.gc_marklist;
  gc_marklist_cap = t.gc_marklist_cap;
}

-- Marking wrote nothing else.
abbrev pub Untouched : State → State → Type 0
Untouched s t = t ≡ with_marks s t

pub Untouched-trans : (s t u : State) → Untouched s t → Untouched t u → Untouched s u
Untouched-trans s t u p q = q ∙ ap (λ r. with_marks r u) p

-- A visit ran to its end in `P`, or the worklist could not grow and the state is in `Q`.
pub data Visits (P Q : State → Type 0) : Run Bool → Type 0 where
  done : {s : State} → P s → Visits P Q (ok true s)
  stopped : {s : State} → Q s → Visits P Q (ok false s)

pub Visits-mono :
    {P Q P' Q' : State → Type 0} {r : Run Bool}
    → Visits P Q r
    → ((s : State) → P s → P' s)
    → ((s : State) → Q s → Q' s)
    → Visits P' Q' r
Visits-mono (done p) f g = done (f _ p)
Visits-mono (stopped q) f g = stopped (g _ q)

pub alloc_array_lem :
    (n size : ℕ) (s : State)
    → (r : Option ℕ) × (k : ℕ) × (alloc_array n size s ≡ ok r (record s { allocs = k }))
unfolding alloc_array ml_raw_alloc
alloc_array_lem n size s = elim (Option-cases (mul_overflow n size)) [
  | inl e ↦ (none, s.allocs, rw (e, alloc_array))
  | inr (bytes, e) ↦ elim (Bool-cases (bytes == 0)) [
    | inl z ↦ (none, s.allocs, rw (e, alloc_array) (rw z))
    | inr z ↦ (
      s.allocator s.allocs (map (λ c. c.addr) s.heap) bytes,
      suc s.allocs,
      rw (e, alloc_array) (rw z),
    )
  ]
]

-- Why a request for `bytes` bytes, after which there have been `k` calls of the allocator, yields
-- nothing: the number of bytes is no size_t or 0, or the last of the calls returned NULL.
abbrev pub Refused : State → ℕ → ℕ → Type 0
Refused s bytes k =
    (2 ^ 64 ≤ bytes)
    ⊎ (bytes ≡ 0)
    ⊎ ((j : ℕ) × (k ≡ suc j) × (s.allocator j (map (λ c. c.addr) s.heap) bytes ≡ none))

-- The request for the worklist's next capacity, 8 bytes to an entry, was refused.
abbrev pub Starved : State → Type 0
Starved t = Refused t (grown_cap 64 t.gc_marklist_cap * 8) t.allocs

abbrev pub Pushed : ℕ → State → State → Type 0
Pushed a s t = (t.heap ≡ s.heap) × (t.gc_marklist ≡ a ∷ s.gc_marklist) × Untouched s t

abbrev pub NotPushed : State → State → Type 0
NotPushed s t = (t.heap ≡ s.heap) × Untouched s t × Starved t

alloc_array_cases :
    (n size : ℕ) (s : State)
    → ((k : ℕ) × Refused s (n * size) k
        × (alloc_array n size s ≡ ok none (record s { allocs = k })))
      ⊎ ((p k : ℕ) × (alloc_array n size s ≡ ok (some p) (record s { allocs = k })))
unfolding alloc_array ml_raw_alloc
alloc_array_cases n size s = elim (Bool-cases (ltb (n * size) (2 ^ 64))) [
  | inr over ↦ inl (s.allocs, inl (ground arith), rw over refl)
  | inl fits ↦ elim (Bool-cases (n * size == 0)) [
    | inl z ↦ inl (s.allocs, inr (inl (ground arith)), rw fits (rw z refl))
    | inr z ↦ elim (Option-cases (s.allocator s.allocs (map (λ c. c.addr) s.heap) (n * size))) [
      | inl e ↦ inl (suc s.allocs, inr (inr (s.allocs, refl, e)), rw fits (rw z (rw e refl)))
      | inr (p, e) ↦ inr (p, suc s.allocs, rw fits (rw z (rw e refl)))
    ]
  ]
]

pub gc_push_mark_lem : (a : ℕ) (s : State) → Visits (Pushed a s) (NotPushed s) (gc_push_mark a s)
unfolding gc_push_mark
gc_push_mark_lem a s = elim (Bool-cases (length s.gc_marklist == s.gc_marklist_cap)) [
  | inr room ↦ rw room (done (refl, refl, refl))
  | inl full ↦ elim (alloc_array_cases (grown_cap 64 s.gc_marklist_cap) 8 s) [
    | inl (k, starved, e) ↦ rw full (rw e (stopped (refl, refl, starved)))
    | inr (p, k, e) ↦ rw full (rw e (done (refl, refl, refl)))
  ]
]

-- One visit and, unless it stopped, another.
pub Visits-bind :
    {P Q P' Q' : State → Type 0} {r : Run Bool} (again : M Bool)
    → Visits P Q r
    → ((t : State) → P t → Visits P' Q' (again t))
    → ((t : State) → Q t → Q' t)
    → Visits P' Q' (and_then r λ visited. if visited then again else pure false)
Visits-bind again (done p) k f = k _ p
Visits-bind again (stopped q) k f = stopped (f _ q)
