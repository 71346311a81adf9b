-- ===== src/Gc/Visit.antt =====
-- Visiting references (src/gc.c, gc_visit): the three-colour invariant.
use microlisp.Base.{
  ℕ, ◌+◌, ◌≡◌, refl, sym, subst, ◌∙◌, inl, inr, true, false, some, List, [], ◌∷◌, arith, ◌==◌,
  ==_iff, length, Bool-cases,
}
use microlisp.Value.{Value, Obj, Cell, obj, fix, imm, sym as symbol}
use microlisp.State.{State, find}
use microlisp.Gc.{set_mark, visit_object, gc_visit, visit_all, children, clear_marks}
use microlisp.Gc.Heap.{
  marked_at, body_at, unmarked, Distinct, marked_at-set_mark_self, marked_at-set_mark_ne,
  unmarked-set_mark, Distinct-set_mark, clear_marks-set_mark, body_at_of_clear_marks,
  find_of_body_at,
}
use microlisp.Gc.Worklist.{
  on_list, Starved, RefersTo, Refers, RefersTo-mono, Refers-mono, Untouched, Untouched-trans,
  Visits, done, Visits-mono, Visits-bind, gc_push_mark_lem,
}

grow_marks :
    (a b : ℕ) (h : List Cell) (c : Cell)
    → find a h ≡ some c
    → marked_at b h ≡ true
    → marked_at b (set_mark a h) ≡ true
grow_marks a b h c e m = elim (Bool-cases (a == b)) [
  | inl same ↦
      subst (λ x. marked_at x (set_mark a h) ≡ true) ((==_iff a b).0 same)
        (marked_at-set_mark_self a h c e)
  | inr other ↦ marked_at-set_mark_ne a b h other ∙ m
]

-- `h0` is the heap before the collection, and `R` the objects reachable from the roots.
module _ (h0 : List Cell) (R : ℕ → Type 0) where
  -- Between visits: a marked object is reachable, and its references are marked unless it is still
  -- on the worklist `w` or among those in hand (`pending`).
  pub record Marking (pending : List ℕ) (h : List Cell) (w : List ℕ) : Type 0 where
    pub shape : clear_marks h ≡ clear_marks h0
    pub distinct : Distinct h
    pub sound : (b : ℕ) → marked_at b h ≡ true → R b
    pub listed : (b : ℕ) → on_list b w ≡ true → marked_at b h ≡ true
    pub black :
        (b : ℕ) (o : Obj)
        → marked_at b h ≡ true
        → on_list b pending ≡ false
        → on_list b w ≡ false
        → body_at b h0 ≡ some o
        → Refers (λ c. marked_at c h ≡ true) (children o)

  -- The progress of a visit from `s` to `t`.
  pub record Advances (pending : List ℕ) (s t : State) : Type 0 where
    pub inv : Marking pending t.heap t.gc_marklist
    pub keeps : (b : ℕ) → marked_at b s.heap ≡ true → marked_at b t.heap ≡ true
    pub budget : unmarked t.heap + length t.gc_marklist ≡ unmarked s.heap + length s.gc_marklist
    pub untouched : Untouched s t

  pub record Stops (s t : State) : Type 0 where
    pub shape : clear_marks t.heap ≡ clear_marks h0
    pub untouched : Untouched s t
    pub starved : Starved t

  Marking-set_mark :
      {pending : List ℕ} {h : List Cell} {w : List ℕ} (a : ℕ) (c : Cell)
      → Marking pending h w
      → R a
      → find a h ≡ some c
      → Marking pending (set_mark a h) (a ∷ w)
  Marking-set_mark {pending} {h} {w} a c m r e = record {
    shape = clear_marks-set_mark a h ∙ m.shape;
    distinct = Distinct-set_mark a h m.distinct;
    sound = λ b k. elim (Bool-cases (a == b)) [
      | inl same ↦ subst R ((==_iff a b).0 same) r
      | inr other ↦ m.sound b (sym (marked_at-set_mark_ne a b h other) ∙ k)
    ];
    listed = λ b k. elim (Bool-cases (b == a)) [
      | inl same ↦ rw ((==_iff b a).0 same) (marked_at-set_mark_self a h c e)
      | inr other ↦ grow_marks a b h c e (m.listed b (rw other at k))
    ];
    black = λ b o k p l body.
        Refers-mono (children o) (λ x. grow_marks a x h c e)
          (m.black b o (older b k l) p (not_listed b l) body);
  }
    where
      apart : (b : ℕ) → on_list b (a ∷ w) ≡ false → (a == b) ≡ false
      apart b l = ground (arith)

      not_listed : (b : ℕ) → on_list b (a ∷ w) ≡ false → on_list b w ≡ false
      not_listed b l = ground arith

      older :
          (b : ℕ)
          → marked_at b (set_mark a h) ≡ true
          → on_list b (a ∷ w) ≡ false
          → marked_at b h ≡ true
      older b k l = sym (marked_at-set_mark_ne a b h (apart b l)) ∙ k

  visit_object_lem :
      (pending : List ℕ) (a : ℕ) (s : State) (o : Obj)
      → Marking pending s.heap s.gc_marklist
      → R a
      → body_at a h0 ≡ some o
      → Visits
          (λ t. Advances pending s t × (marked_at a t.heap ≡ true))
          (Stops s)
          (visit_object a s)
  unfolding visit_object
  visit_object_lem pending a s o m r e =
      let (c, found, _, flag) =
        find_of_body_at a s.heap o (body_at_of_clear_marks a s.heap h0 m.shape ∙ e) in
      rw (found, visit_object)
        (elim (Bool-cases c.marked) [
          | inl marked ↦ rw marked (
              done (
                record { inv = m; keeps = λ b k. k; budget = refl; untouched = refl },
                sym flag ∙ marked,
              ))
          | inr clear ↦ rw clear (
              Visits-mono (gc_push_mark_lem a (record s { heap = set_mark a s.heap }))
                (λ t (eh, ew, u). (
                  record {
                    inv = rw (eh, ew) (Marking-set_mark a c m r found);
                    keeps = λ b k. rw eh (grow_marks a b s.heap c found k);
                    budget = rw (eh, ew) (omega (arith, unmarked-set_mark a s.heap c found clear));
                    untouched = Untouched-trans s (record s { heap = set_mark a s.heap }) t refl u;
                  },
                  rw eh (marked_at-set_mark_self a s.heap c found),
                ))
                (λ t (eh, u, no_room). record {
                  starved = no_room;
                  shape = rw eh (clear_marks-set_mark a s.heap ∙ m.shape);
                  untouched = Untouched-trans s (record s { heap = set_mark a s.heap }) t refl u;
                }))
        ])

  gc_visit_lem :
      (pending : List ℕ) (v : Value) (s : State)
      → ((a : ℕ) → R a → (o : Obj) × (body_at a h0 ≡ some o))
      → Marking pending s.heap s.gc_marklist
      → RefersTo R v
      → Visits
          (λ t. Advances pending s t × RefersTo (λ a. marked_at a t.heap ≡ true) v)
          (Stops s)
          (gc_visit v s)
  unfolding gc_visit
  gc_visit_lem pending (obj a) s live m r = elim (Bool-cases (a == 0)) [
    | inl null ↦ rw null (
        done (
          record { inv = m; keeps = λ b k. k; budget = refl; untouched = refl },
          λ ne. absurd (ne ((==_iff a 0).0 null)),
        ))
    | inr some_object ↦ rw some_object (
        let reached : R a = r (λ e. ground arith) in
        let (o, e) = live a reached in
        Visits-mono (visit_object_lem pending a s o m reached e) (λ t (adv, k). (adv, λ _. k))
          (λ t q. q))
  ]
  gc_visit_lem pending (fix x) s live m r =
      done (record { inv = m; keeps = λ b k. k; budget = refl; untouched = refl }, tt)
  gc_visit_lem pending (imm x) s live m r =
      done (record { inv = m; keeps = λ b k. k; budget = refl; untouched = refl }, tt)
  gc_visit_lem pending (symbol x) s live m r =
      done (record { inv = m; keeps = λ b k. k; budget = refl; untouched = refl }, tt)

  Advances-trans :
      (pending : List ℕ) (s t u : State)
      → Advances pending s t
      → Advances pending t u
      → Advances pending s u
  Advances-trans pending s t u p q = record {
    inv = q.inv;
    keeps = λ b k. q.keeps b (p.keeps b k);
    budget = q.budget ∙ p.budget;
    untouched = Untouched-trans s t u p.untouched q.untouched;
  }

  -- Visiting references that are all reachable marks every one of them, or stops.
  pub visit_all_lem :
      (pending : List ℕ) (vs : List Value) (s : State)
      → ((a : ℕ) → R a → (o : Obj) × (body_at a h0 ≡ some o))
      → Marking pending s.heap s.gc_marklist
      → Refers R vs
      → Visits
          (λ t. Advances pending s t × Refers (λ a. marked_at a t.heap ≡ true) vs)
          (Stops s)
          (visit_all vs s)
  unfolding visit_all
  visit_all_lem pending [] s live m r =
      done (record { inv = m; keeps = λ b k. k; budget = refl; untouched = refl }, tt)
  visit_all_lem pending (v ∷ vs) s live m r =
      Visits-bind (visit_all vs) (gc_visit_lem pending v s live m r.0)
        (λ t (adv, k).
          Visits-mono (visit_all_lem pending vs t live adv.inv r.1)
            (λ u (adv', ks).
              (Advances-trans pending s t u adv adv', (RefersTo-mono v adv'.keeps k, ks)))
            (λ u q. record {
              starved = q.starved;
              shape = q.shape;
              untouched = Untouched-trans s t u adv.untouched q.untouched;
            }))
        (λ t q. q)
