-- ===== src/Gc/Alloc.antt =====
-- The object allocators of src/gc.c (ml_gc_alloc_pair and its siblings) and the protect stack.
use microlisp.Base.{
  ℕ, suc, ◌≡◌, ◌≢◌, refl, sym, ap, subst, ◌∙◌, ◌⊎◌, inl, inr, true, false, ◌||◌, none, some, List,
  ◌∷◌, map, arith, ◌%◌, ◌==◌, ==_iff, leb, Bool-cases, Option-cases,
}
use microlisp.Value.{Value, Obj, Cell, obj}
use microlisp.State.{Status, Allocator, State, Run, ok, err, and_then, ◌>>=◌, find, ml_raw_alloc}
use microlisp.Gc.{children, maybe_collect, link_object, link_new, alloc_object}
use microlisp.Gc.Heap.{body_at}
use microlisp.Gc.Collect.{
  In, Reach, root, step, roots, WellFormed, Collects, swept, abandoned, ml_gc_collect_lem,
}

-- What include/microlisp/microlisp.h asks of the caller's `alloc`: a block that it returns is not
-- NULL, is aligned to 8 bytes, and is none of those in use.
abbrev pub IsAllocator : Allocator → Type 0
IsAllocator f =
    (k : ℕ) (h : List Cell) (size p : ℕ)
    → f k (map (λ c. c.addr) h) size ≡ some p
    → (p ≢ 0) × (p % 8 ≡ 0) × (find p h ≡ none)

-- An object's references that the roots lead to, and so survive a collection.
abbrev pub Rooted : State → List Value → Type 0
Rooted s vs = (a : ℕ) → In (obj a) vs → a ≢ 0 → Reach s.heap (roots s) a

-- The new object `v` with payload `o`: the state is well-formed, and stays so with `v` for a root.
pub record Allocated (o : Obj) (v : Value) (t : State) : Type 0 where
  pub address : ℕ
  pub is_obj : v ≡ obj address
  pub ne_null : address ≢ 0
  pub aligned : address % 8 ≡ 0
  pub payload : body_at address t.heap ≡ some o
  pub well_formed : WellFormed t
  pub closed : (a : ℕ) → Reach t.heap (v ∷ roots t) a → (o' : Obj) × (body_at a t.heap ≡ some o')

-- What the roots led to is as it was.
abbrev pub Survives : State → State → Type 0
Survives s t =
    (a : ℕ) (o : Obj)
    → Reach s.heap (roots s) a
    → body_at a s.heap ≡ some o
    → body_at a t.heap ≡ some o

pub data Allocates (s : State) (o : Obj) : Run Value → Type 0 where
  allocated :
      {v : Value} {t : State}
      → Allocated o v t
      → roots t ≡ roots s
      → Survives s t
      → Allocates s o (ok v t)
  refused :
      {t : State}
      → WellFormed t
      → roots t ≡ roots s
      → Survives s t
      → Allocates s o (err Status.nomem t)

-- What precedes the allocation: the roots and what they lead to are as before.
pub record Prepared (s t : State) : Type 0 where
  pub well_formed : WellFormed t
  pub same_roots : roots t ≡ roots s
  pub allocator : t.allocator ≡ s.allocator
  pub reached : (a : ℕ) → Reach s.heap (roots s) a → Reach t.heap (roots t) a
  pub survives : Survives s t

Reach-swept :
    (h g : List Cell) (rs : List Value)
    → ((a : ℕ) → Reach h rs a → body_at a g ≡ body_at a h)
    → (a : ℕ) → Reach h rs a
    → Reach g rs a
Reach-swept h g rs k a (root i ne) = root i ne
Reach-swept h g rs k a (step {a = b} o r e i ne) =
    step o (Reach-swept h g rs k b r) (k b r ∙ e) i ne

pub data Prepares (s : State) : Run (Unit {0}) → Type 0 where
  prepared : {t : State} → Prepared s t → Prepares s (ok tt t)

Collects-Prepares : {s : State} {r : Run (Unit {0})} → Collects s r → Prepares s r
Collects-Prepares {s} (swept {t} c) =
    let same = ap roots c.writes in
    prepared (record {
      well_formed = c.well_formed;
      same_roots = same;
      allocator = ap (λ u. u.allocator) c.writes;
      reached = λ a r. rw same (Reach-swept s.heap t.heap (roots s) c.kept a r);
      survives = λ a o r e. c.kept a r ∙ e;
    })
Collects-Prepares {s} (abandoned {t} c) =
    let same = ap roots c.writes in
    prepared (record {
      well_formed = c.well_formed;
      same_roots = same;
      allocator = ap (λ u. u.allocator) c.writes;
      reached = λ a r. rw (same, c.heap) r;
      survives = λ a o r e. rw c.heap e;
    })

pub maybe_collect-Prepares : (s : State) → WellFormed s → Prepares s (maybe_collect s)
unfolding maybe_collect
maybe_collect-Prepares s w =
    elim (Bool-cases (s.gc_stress || leb s.gc_threshold s.gc_live_objects)) [
      | inl due ↦ rw due (Collects-Prepares (ml_gc_collect_lem s w))
      | inr later ↦ rw later (
          prepared (record {
            well_formed = w;
            same_roots = refl;
            allocator = refl;
            reached = λ a r. r;
            survives = λ a o r e. e;
          }))
    ]

-- One more root reaches no less.
Reach-root :
    (h : List Cell) (rs : List Value) (v : Value) (a : ℕ) → Reach h rs a → Reach h (v ∷ rs) a
Reach-root h rs v a (root i ne) = root (inr i) ne
Reach-root h rs v a (step o r e i ne) = step o (Reach-root h rs v _ r) e i ne

-- A new object `p` in front of the heap `h`.
module _ (h : List Cell) (p : ℕ) (o : Obj) (fresh : find p h ≡ none) where
  abbrev linked : List Cell
  linked = record { addr = p; marked = false; body = o } ∷ h

  body_at-linked_self : body_at p linked ≡ some o
  unfolding body_at find
  body_at-linked_self = ground arith

  body_at-linked_ne : (b : ℕ) (o' : Obj) → body_at b h ≡ some o' → body_at b linked ≡ some o'
  unfolding body_at find
  body_at-linked_ne b o' e = ground (arith, ==_iff p b)

  body_at_fresh : body_at p h ≡ none
  unfolding body_at
  body_at_fresh = rw fresh

  body_at-linked_cases :
      (b : ℕ) (o' : Obj)
      → body_at b linked ≡ some o'
      → ((b ≡ p) × (o' ≡ o)) ⊎ (body_at b h ≡ some o')
  unfolding body_at find
  body_at-linked_cases b o' e = elim (Bool-cases (p == b)) [
    | inl same ↦ inl (ground arith, ground arith)
    | inr other ↦ inr (ground arith)
  ]

  -- What the roots and the new object lead to is the new object and what the roots led to.
  Reach-linked :
      (rs : List Value)
      → ((a : ℕ) → In (obj a) (children o) → a ≢ 0 → Reach h rs a)
      → (a : ℕ) → Reach linked (obj p ∷ rs) a
      → (a ≡ p) ⊎ Reach h rs a
  Reach-linked rs refs a (root (inl e) ne) = inl (ground arith)
  Reach-linked rs refs a (root (inr i) ne) = inr (root i ne)
  Reach-linked rs refs a (step {a = b} o' r e i ne) =
      from (Reach-linked rs refs b r) (body_at-linked_cases b o' e)
    where
      new : o' ≡ o → Reach h rs a
      new eo = refs a (subst (λ x. In (obj a) (children x)) eo i) ne

      from :
          (b ≡ p) ⊎ Reach h rs b
          → ((b ≡ p) × (o' ≡ o)) ⊎ (body_at b h ≡ some o')
          → (a ≡ p) ⊎ Reach h rs a
      from _ (inl (_, eo)) = inr (new eo)
      from (inl eb) (inr e') = cc body_at_fresh
      from (inr rb) (inr e') = inr (step o' rb e' i ne)

module _ (s : State) (o : Obj) (contract : IsAllocator s.allocator) where
  link_lem :
      (k p : ℕ) (t : State)
      → Prepared s t
      → Rooted s (children o)
      → (p ≢ 0) × (p % 8 ≡ 0) × (find p t.heap ≡ none)
      → Allocates s o (link_object p o (record t { allocs = k }))
  unfolding link_object
  link_lem k p t ready refs (ne, aligned, fresh) =
      let refs' : (a : ℕ) → In (obj a) (children o) → a ≢ 0 → Reach t.heap (roots t) a =
        λ a i n. ready.reached a (refs a i n) in
      let w = ready.well_formed in
      let closed : (a : ℕ)
          → Reach (linked t.heap p o fresh) (obj p ∷ roots t) a
          → (o' : Obj) × (body_at a (linked t.heap p o fresh) ≡ some o') =
        λ a r. elim (Reach-linked t.heap p o fresh (roots t) refs' a r) [
          | inl e ↦ (o, rw e (body_at-linked_self t.heap p o fresh))
          | inr r' ↦ let (o', e) = w.closed a r' in (o', body_at-linked_ne t.heap p o fresh a o' e)
        ] in
      let at8 : (p % 8 == 0) ≡ true = ground arith in
      rw at8 (
        allocated
          (record {
            address = p;
            is_obj = refl;
            ne_null = ne;
            aligned = aligned;
            payload = body_at-linked_self t.heap p o fresh;
            well_formed = record {
              distinct = (fresh, w.distinct);
              clear = (refl, w.clear);
              closed = λ a r. closed a (Reach-root _ (roots t) (obj p) a r);
              counted = ap suc w.counted;
            };
            closed = closed;
          })
          ready.same_roots
          (λ a o' r e. body_at-linked_ne t.heap p o fresh a o' (ready.survives a o' r e)))

  alloc_prepared :
      (size : ℕ) {r : Run (Unit {0})}
      → size ≢ 0
      → Rooted s (children o)
      → Prepares s r
      → Allocates s o (and_then r λ _. ml_raw_alloc size >>= link_new o)
  unfolding ml_raw_alloc
  alloc_prepared size ne refs (prepared {t} ready) =
      let answer = t.allocator t.allocs (map (λ c. c.addr) t.heap) size in
      let nonzero : (size == 0) ≡ false = ground arith in
      rw nonzero (elim (Option-cases answer) [
        | inl e ↦ rw e (
            refused
              (record {
                distinct = ready.well_formed.distinct;
                clear = ready.well_formed.clear;
                closed = ready.well_formed.closed;
                counted = ready.well_formed.counted;
              })
              ready.same_roots ready.survives)
        | inr (p, e) ↦ rw e (
            link_lem (suc t.allocs) p t ready refs (
              contract t.allocs t.heap size p (
                ap (λ (f : Allocator). f t.allocs (map (λ c. c.addr) t.heap) size)
                  (sym ready.allocator)
                ∙ e)))
      ])

  -- With an allocator that keeps its contract, an allocation of an object all of whose references are
  -- rooted returns and faults nowhere. It yields a new object with that payload at an address aligned
  -- to 8 bytes, in a well-formed state that stays so once the object is made a root, or it reports
  -- that memory is exhausted in a well-formed state. The roots are as before, and so is every object
  -- that they led to.
  pub alloc_object_lem :
      (size : ℕ)
      → size ≢ 0
      → WellFormed s
      → Rooted s (children o)
      → Allocates s o (alloc_object size o s)
  unfolding alloc_object
  alloc_object_lem size ne w refs = alloc_prepared size ne refs (maybe_collect-Prepares s w)
