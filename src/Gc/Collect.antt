-- ===== src/Gc/Collect.antt =====
-- What a collection does to the heap (src/gc.c, ml_gc_collect and maybe_collect).
use microlisp.Base.{
  ℕ, ◌≡◌, ◌≢◌, refl, sym, ap, subst, ◌∙◌, ◌⊎◌, inl, inr, Bool, true, false, none, some, List, [],
  ◌∷◌, map, arith, if◌then◌else◌, length, Bool-cases,
}
use microlisp.Value.{Value, Obj, Cell, obj, fix, imm, sym as symbol}
use microlisp.State.{State, Run, ok, and_then, modify, ◌>>◌}
use microlisp.Gc.{children, clear_marks, sweep_list, sweep, abandon, next_threshold, ml_gc_collect}
use microlisp.Gc.Heap.{
  marked_at, body_at, Distinct, AllClear, body_at_of_clear_marks, body_at-sweep_list,
  Distinct-sweep_list, AllClear-sweep_list, clear_marks_self,
}
use microlisp.Gc.Worklist.{RefersTo, Refers, Starved, Visits, done, stopped}
use microlisp.Gc.Visit.{Stops}
use microlisp.Gc.Mark.{Drained, mark_lem}

abbrev pub In : Value → List Value → Type 0
In v [] = ⊥
In v (x ∷ xs) = (v ≡ x) ⊎ In v xs

-- The objects that the values `roots` lead to in the heap `h`.
pub data Reach (h : List Cell) (roots : List Value) : ℕ → Type 0 where
  root : {a : ℕ} → In (obj a) roots → a ≢ 0 → Reach h roots a
  step :
      {a b : ℕ} (o : Obj)
      → Reach h roots a
      → body_at a h ≡ some o
      → In (obj b) (children o)
      → b ≢ 0
      → Reach h roots b

-- The roots of a collection: the top-level environment and the protect stack.
abbrev pub roots : State → List Value
roots s = s.toplevel_env ∷ s.gc_protect

-- Between operations: one object to an address, no mark set, no dangling reference that can be
-- reached, and a true count of the objects.
pub record WellFormed (s : State) : Type 0 where
  pub distinct : Distinct s.heap
  pub clear : AllClear s.heap
  pub closed : (a : ℕ) → Reach s.heap (roots s) a → (o : Obj) × (body_at a s.heap ≡ some o)
  pub counted : s.gc_live_objects ≡ length s.heap

RefersTo-of : {P : ℕ → Type 0} (v : Value) → ((a : ℕ) → v ≡ obj a → a ≢ 0 → P a) → RefersTo P v
RefersTo-of (obj a) k = λ ne. k a refl ne
RefersTo-of (fix _) k = tt
RefersTo-of (imm _) k = tt
RefersTo-of (symbol _) k = tt

pub Refers-of_In :
    {P : ℕ → Type 0} (vs : List Value) → ((a : ℕ) → In (obj a) vs → a ≢ 0 → P a) → Refers P vs
Refers-of_In [] k = tt
Refers-of_In (v ∷ vs) k =
    (RefersTo-of v (λ a e. k a (inl (sym e))), Refers-of_In vs (λ a i. k a (inr i)))

pub In_Refers :
    (P : ℕ → Type 0) (a : ℕ) (vs : List Value) → Refers P vs → In (obj a) vs → a ≢ 0 → P a
In_Refers P a [] r i ne = absurd i
In_Refers P a (v ∷ vs) r (inl e) ne = (subst (RefersTo P) (sym e) r.0) ne
In_Refers P a (v ∷ vs) r (inr i) ne = In_Refers P a vs r.1 i ne

pub Reach-mono :
    (h g : List Cell) (rs : List Value)
    → ((a : ℕ) (o : Obj) → body_at a g ≡ some o → body_at a h ≡ some o)
    → (a : ℕ) → Reach g rs a
    → Reach h rs a
Reach-mono h g rs k a (root i ne) = root i ne
Reach-mono h g rs k a (step o r e i ne) = step o (Reach-mono h g rs k _ r) (k _ o e) i ne

-- What a collection writes.
abbrev pub CollectsOnly : State → State → Type 0
CollectsOnly s t = t ≡ record s {
  allocs = t.allocs;
  heap = t.heap;
  gc_live_objects = t.gc_live_objects;
  gc_threshold = t.gc_threshold;
  gc_marklist = t.gc_marklist;
  gc_marklist_cap = t.gc_marklist_cap;
}

-- A collection that ran to its end: an object is in the heap afterwards exactly if it was there and
-- the roots lead to it, and it is as it was.
pub record Swept (s t : State) : Type 0 where
  pub kept : (a : ℕ) → Reach s.heap (roots s) a → body_at a t.heap ≡ body_at a s.heap
  pub only : (a : ℕ) (o : Obj) → body_at a t.heap ≡ some o → Reach s.heap (roots s) a
  pub same : (a : ℕ) (o : Obj) → body_at a t.heap ≡ some o → body_at a s.heap ≡ some o
  pub well_formed : WellFormed t
  pub threshold : t.gc_threshold ≡ next_threshold t.gc_live_objects
  pub writes : CollectsOnly s t

-- A collection that gave up because the worklist could not grow: the heap is unchanged.
pub record Abandoned (s t : State) : Type 0 where
  pub heap : t.heap ≡ s.heap
  pub live : t.gc_live_objects ≡ s.gc_live_objects
  pub threshold : t.gc_threshold ≡ s.gc_threshold
  pub starved : Starved t
  pub well_formed : WellFormed t
  pub writes : CollectsOnly s t

pub data Collects (s : State) : Run (Unit {0}) → Type 0 where
  swept : {t : State} → Swept s t → Collects s (ok tt t)
  abandoned : {t : State} → Abandoned s t → Collects s (ok tt t)

addresses-clear_marks : (h : List Cell) → map (λ c. c.addr) (clear_marks h) ≡ map (λ c. c.addr) h
unfolding clear_marks
addresses-clear_marks [] = refl
addresses-clear_marks (c ∷ h) = ap (λ t. c.addr ∷ t) (addresses-clear_marks h)

cleared_Starved :
    (t : State) → Starved t → Starved (record t { heap = clear_marks t.heap; gc_marklist = [] })
cleared_Starved t starved = rw (addresses-clear_marks t.heap) starved

module _ (s : State) (w : WellFormed s) where
  abbrev Reached : ℕ → Type 0
  Reached = Reach s.heap (roots s)

  roots-Refers : Refers Reached (roots s)
  roots-Refers = Refers-of_In (roots s) (λ a i ne. root i ne)

  children-Refers :
      (a : ℕ) (o : Obj) → Reached a → body_at a s.heap ≡ some o → Refers Reached (children o)
  children-Refers a o r e = Refers-of_In (children o) (λ b i ne. step o r e i ne)

  -- Drained marks reach as far as the roots lead.
  reach-marked :
      (t : State)
      → Drained s.heap Reached s t
      → Refers (λ b. marked_at b t.heap ≡ true) (roots s)
      → (a : ℕ) → Reached a
      → marked_at a t.heap ≡ true
  reach-marked t d rs a (root i ne) = In_Refers _ a (roots s) rs i ne
  reach-marked t d rs b (step {a} o r e i ne) =
      In_Refers _ b (children o) (d.inv.black a o (reach-marked t d rs a r) refl refl e) i ne

  module _ (t : State) (d : Drained s.heap Reached s t) where
    same_body : (a : ℕ) → body_at a t.heap ≡ body_at a s.heap
    same_body a = body_at_of_clear_marks a t.heap s.heap d.inv.shape

    swept_body :
        (a : ℕ)
        → body_at a (sweep_list t.heap) ≡ (if marked_at a t.heap then body_at a s.heap else none)
    swept_body a = rw (← same_body a) (body_at-sweep_list a t.heap d.inv.distinct)

    swept_only : (a : ℕ) (o : Obj) → body_at a (sweep_list t.heap) ≡ some o → Reached a
    swept_only a o e = elim (Bool-cases (marked_at a t.heap)) [
      | inl m ↦ d.inv.sound a m
      | inr n ↦ absurd (ground (arith, swept_body a))
    ]

    swept_same :
        (a : ℕ) (o : Obj) → body_at a (sweep_list t.heap) ≡ some o → body_at a s.heap ≡ some o
    swept_same a o e = ground (arith, swept_body a)

    roots_same : roots t ≡ roots s
    roots_same = ap roots d.untouched

  swept_lem :
      (t : State)
      → Drained s.heap Reached s t
      → Refers (λ b. marked_at b t.heap ≡ true) (roots s)
      → Collects s (
          and_then
            (sweep t)
            λ _. modify λ u. record u { gc_threshold = next_threshold u.gc_live_objects })
  unfolding sweep
  swept_lem t d rs =
      let kept : (a : ℕ) → Reached a → body_at a (sweep_list t.heap) ≡ body_at a s.heap =
        λ a r. rw (swept_body t d a, reach-marked t d rs a r) in
      swept (record {
        kept = kept;
        only = swept_only t d;
        same = swept_same t d;
        well_formed = record {
          distinct = Distinct-sweep_list t.heap d.inv.distinct;
          clear = AllClear-sweep_list t.heap;
          closed = λ a r.
              let r' = subst (λ rts. Reach (sweep_list t.heap) rts a) (roots_same t d) r in
              let reached = Reach-mono s.heap (sweep_list t.heap) (roots s) (swept_same t d) a r' in
              let (o, e) = w.closed a reached in (o, kept a reached ∙ e);
          counted = refl;
        };
        threshold = refl;
        writes =
            ap {A = State}
              (λ u. record u {
                heap = sweep_list t.heap;
                gc_live_objects = length (sweep_list t.heap);
                gc_threshold = next_threshold (length (sweep_list t.heap));
              })
              d.untouched;
      })

  abandoned_lem : (t : State) → Stops s.heap Reached s t → Collects s (abandon t)
  unfolding abandon
  abandoned_lem t q =
      let unchanged = q.shape ∙ clear_marks_self s.heap w.clear in
      let live = ap (λ u. u.gc_live_objects) q.untouched in
      let roots_eq = ap roots q.untouched in
      abandoned (record {
        heap = unchanged;
        live = live;
        threshold = ap (λ u. u.gc_threshold) q.untouched;
        starved = cleared_Starved t q.starved;
        well_formed = record {
          distinct = rw unchanged w.distinct;
          clear = rw unchanged w.clear;
          closed = rw (unchanged, roots_eq) w.closed;
          counted = rw (unchanged, live) w.counted;
        };
        writes =
            ap {A = State}
              (λ u. record u {
                heap = clear_marks t.heap;
                gc_live_objects = t.gc_live_objects;
                gc_threshold = t.gc_threshold;
                gc_marklist = [];
              })
              q.untouched;
      })

  collect_of :
      {r : Run Bool}
      → Visits
          (λ t. Drained s.heap Reached s t × Refers (λ b. marked_at b t.heap ≡ true) (roots s))
          (Stops s.heap Reached s)
          r
      → Collects s (
          and_then r λ marked. elim marked [
            | true ↦
                (sweep >> modify λ u. record u { gc_threshold = next_threshold u.gc_live_objects })
            | false ↦ abandon
          ])
  collect_of (done {s = t} (d, rs)) = swept_lem t d rs
  collect_of (stopped {s = t} q) = abandoned_lem t q

  -- From a well-formed state a collection returns, never following a dangling reference. Either it
  -- sweeps: exactly the objects that the roots lead to stay, each as it was, the live count is their
  -- number, the threshold is twice that and at least 4096, and the state is well-formed again. Or the
  -- heap, the count and the threshold are as before, and the worklist could not grow: the request
  -- for its next capacity overflowed, or the last call of the allocator returned NULL.
  pub ml_gc_collect_lem : Collects s (ml_gc_collect s)
  unfolding ml_gc_collect
  ml_gc_collect_lem =
      collect_of
        (mark_lem s.heap Reached w.closed children-Refers s refl w.distinct w.clear roots-Refers)
