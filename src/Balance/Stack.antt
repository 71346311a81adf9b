-- ===== src/Balance/Stack.antt =====
-- The rules for values above the protect stack: pushed by ml_gc_protect, and dropped by
-- ml_gc_restore, ml_gc_unprotect or the end of a scope.
use microlisp.Base.{
  ℕ, ◌≡◌, refl, sym, ap, subst, ◌∙◌, Bool-cases, Option-cases, ◌==◌, inl, inr, List, [], ◌∷◌, ◌++◌,
  append-nil, length, set, set-length,
}
use microlisp.Value.{Value}
use microlisp.State.{State, Run, M, ok, clean_up, finish, always, ◌>>=◌, ◌>>◌}
use microlisp.Primitives.Data.{set_protect}
use microlisp.Gc.Worklist.{alloc_array_lem}
use microlisp.Gc.Protect.{restore_lem, unprotect_lem}
use microlisp.Gc.{grown_cap, ml_gc_protect, ml_gc_restore, ml_gc_unprotect}
use microlisp.Balance.{
  Over, Over_trans, Leaves, done, failed, faulted, endless, Nothing, Anything, Balanced, Steady,
  Leaves-and_then, Leaves-over, Balanced-finish,
}

-- Values above the stack are dropped by restoring the savepoint taken below them.
restored :
    {s t : State} (ws : List Value)
    → Over s ws t
    → (u : State) × (ml_gc_restore (length s.gc_protect) t ≡ ok tt u) × Over s [] u
restored {s} {t} ws o = (
  record t { gc_protect = s.gc_protect },
  restore_lem s ws o.stack,
  record {
    stack = sym (append-nil s.gc_protect);
    eval_depth = o.eval_depth;
    print_depth = o.print_depth;
    equal_depth = o.equal_depth;
  },
)

pub Leaves-clean_up {ℓ} :
    {A : Type ℓ} {P : List Value → Type 0} {s : State} {r : Run A}
    → Leaves P Anything s r
    → Leaves P Nothing s (clean_up (ml_gc_restore (length s.gc_protect)) r)
Leaves-clean_up (done ws p o) = done ws p o
Leaves-clean_up (failed ws q o) = let (u, e, o') = restored ws o in rw e (failed [] refl o')
Leaves-clean_up faulted = faulted
Leaves-clean_up endless = endless

pub Leaves-finish {ℓ} :
    {A : Type ℓ} {P Q : List Value → Type 0} {s : State} {r : Run A}
    → Leaves P Q s r
    → Balanced s (finish (ml_gc_restore (length s.gc_protect)) r)
Leaves-finish (done ws p o) = let (u, e, o') = restored ws o in rw e (done [] refl o')
Leaves-finish (failed ws q o) = let (u, e, o') = restored ws o in rw e (failed [] refl o')
Leaves-finish faulted = faulted
Leaves-finish endless = endless

-- The pops of a known number of values.
pub unprotected :
    {s t : State} (ws : List Value)
    → Over s ws t
    → (u : State) × (ml_gc_unprotect (length ws) t ≡ ok tt u) × Over s [] u
unprotected {s} {t} ws o = (
  record t { gc_protect = s.gc_protect },
  unprotect_lem s ws o.stack,
  record {
    stack = sym (append-nil s.gc_protect);
    eval_depth = o.eval_depth;
    print_depth = o.print_depth;
    equal_depth = o.equal_depth;
  },
)

abbrev pub Just : Value → List Value → Type 0
Just v ws = ws ≡ v ∷ []

Over_push :
    (s : State) (v : Value) (k c : ℕ)
    → Over s
        (v ∷ [])
        (record s { allocs = k; gc_protect = s.gc_protect ++ v ∷ []; gc_protect_cap = c })
Over_push s v k c = record {
  stack = refl;
  eval_depth = refl;
  print_depth = refl;
  equal_depth = refl;
}

Over_allocs : (s : State) (k : ℕ) → Over s [] (record s { allocs = k })
Over_allocs s k = record {
  stack = sym (append-nil s.gc_protect);
  eval_depth = refl;
  print_depth = refl;
  equal_depth = refl;
}

pub Leaves-protect : (v : Value) (s : State) → Leaves (Just v) Nothing s (ml_gc_protect v s)
unfolding ml_gc_protect
Leaves-protect v s = elim (Bool-cases (length s.gc_protect == s.gc_protect_cap)) [
  | inr room ↦
      rw (room, ml_gc_protect) (done (v ∷ []) refl (Over_push s v s.allocs s.gc_protect_cap))
  | inl full ↦
      let (r, k, e) = alloc_array_lem (grown_cap 32 s.gc_protect_cap) 8 s in
      elim (Option-cases r) [
        | inl n ↦ rw (full, ml_gc_protect) (rw e (rw n (failed [] refl (Over_allocs s k))))
        | inr (_, n) ↦
            rw (full, ml_gc_protect)
              (rw e (rw n (done (v ∷ []) refl (Over_push s v k (grown_cap 32 s.gc_protect_cap)))))
      ]
]

-- A value protected for a while: the rest runs over it, and may leave anything above it.
pub Leaves-protecting {ℓ} :
    {A : Type ℓ} {P' : List Value → Type 0} (v : Value) (s : State) (m : M A)
    → ((t : State) → Over s (v ∷ []) t → Leaves P' Nothing s (m t))
    → Leaves P' Nothing s ((ml_gc_protect v >> m) s)
Leaves-protecting v s m f =
    Leaves-and_then (ml_gc_protect v s) (λ _. m) (Leaves-protect v s)
      (λ _ t ws e o. f t (subst (λ xs. Over s xs t) e o))

-- A balanced run over one protected value, which is popped afterwards.
pub Balanced-unprotect {ℓ} :
    {A : Type ℓ} {s t : State} (vs : List Value) {r : Run A}
    → Over s vs t
    → Balanced t r
    → Balanced s (finish (ml_gc_unprotect (length vs)) r)
Balanced-unprotect {s = s} {t} vs o b =
    Balanced-finish s t (ml_gc_unprotect (length vs))
      (λ u o'. unprotected vs (subst (λ xs. Over s xs u) (append-nil vs) (Over_trans o o'))) b

-- A run with a value protected, from the savepoint to the restoring of it.
pub Steady-scoped {ℓ κ} :
    {A : Type ℓ} {B : Type κ} (v : Value) {m : M A} {k : A → M B}
    → Steady m
    → ((a : A) → Steady (k a))
    → Steady (λ s. (ml_gc_protect v >> (always (ml_gc_restore (length s.gc_protect)) m >>= k)) s)
Steady-scoped v {m} {k} h f = record {
  at = λ s. Leaves-protecting v s (always (ml_gc_restore (length s.gc_protect)) m >>= k) (λ t o.
      Leaves-and_then (always (ml_gc_restore (length s.gc_protect)) m t) k
        (Leaves-finish (Leaves-over {P = Anything} {Q = Anything} o tt tt (h.at t)))
        (λ a u ws e o'. Leaves-over (subst (λ xs. Over s xs u) e o') refl refl ((f a).at u)));
}

-- One value above the stack, in the slot at the savepoint `length s.gc_protect`.
abbrev pub Slot : List Value → Type 0
Slot ws = (v : Value) × (ws ≡ v ∷ [])

pub write_slot_lem :
    {s t : State} (w v : Value)
    → Over s (w ∷ []) t
    → Leaves Slot Nothing s (set_protect (length s.gc_protect) v t)
unfolding set_protect
write_slot_lem {s} {t} w v o =
    done (v ∷ []) (v, refl)
      (record {
        stack = ap (λ st. set st (length s.gc_protect) v) o.stack ∙ set-length s.gc_protect [] w v;
        eval_depth = o.eval_depth;
        print_depth = o.print_depth;
        equal_depth = o.equal_depth;
      })

-- A balanced run over a slot, with the savepoint restored on an error.
pub Slot-clean_up {ℓ} :
    {A : Type ℓ} {s t : State} (w : Value) {r : Run A}
    → Over s (w ∷ []) t
    → Balanced t r
    → Leaves Slot Nothing s (clean_up (ml_gc_restore (length s.gc_protect)) r)
Slot-clean_up w o b = Leaves-clean_up (Leaves-over o (w, refl) tt b)

pub Leaves-restore {ℓ} :
    {A : Type ℓ} {P Q : List Value → Type 0} {s u : State} {ws : List Value} (m : M A)
    → Over s ws u
    → ((t : State) → Over s [] t → Leaves P Q s (m t))
    → Leaves P Q s ((ml_gc_restore (length s.gc_protect) >> m) u)
Leaves-restore {ws = ws} m o f = let (t, e, o') = restored ws o in rw e (f t o')
