-- ===== src/Gc/Mark.antt =====
-- The drain loop of src/gc.c: its fuel is enough, and it closes the marks under reference.
use microlisp.Base.{
  ℕ, zero, suc, ◌+◌, ◌<◌, ◌≡◌, refl, ap, subst, ◌∙◌, inl, inr, Bool, true, some, List, [], ◌∷◌,
  arith, ◌==◌, ==_iff, ==_refl, length, Bool-cases,
}
use microlisp.Value.{Obj, Cell, obj}
use microlisp.State.{State, M, ok, deref}
use microlisp.Gc.{children, drain_round, gc_drain_worklist, mark, clear_marks}
use microlisp.Gc.Heap.{
  marked_at, body_at, unmarked, Distinct, AllClear, body_at_of_clear_marks, find_of_body_at,
  unmarked_all, marked_at_clear,
}
use microlisp.Gc.Worklist.{
  Refers, Refers-mono, Untouched, Untouched-trans, Visits, done, Visits-mono, Visits-bind,
}
use microlisp.Gc.Visit.{Marking, Stops, visit_all_lem}

deref_lem : (a : ℕ) (s : State) (o : Obj) → body_at a s.heap ≡ some o → deref (obj a) s ≡ ok o s
unfolding deref
deref_lem a s o e =
    let (c, found, is, _) = find_of_body_at a s.heap o e in rw (found, deref) (rw is)

module _ (h0 : List Cell) (R : ℕ → Type 0) where
  -- The worklist is empty: the marked objects are closed under reference.
  pub record Drained (s t : State) : Type 0 where
    pub inv : Marking h0 R [] t.heap []
    pub keeps : (b : ℕ) → marked_at b s.heap ≡ true → marked_at b t.heap ≡ true
    pub untouched : Untouched s t

  -- The object in hand has had its references marked.
  settle :
      (a : ℕ) (o : Obj) (h : List Cell) (w : List ℕ)
      → Marking h0 R (a ∷ []) h w
      → body_at a h0 ≡ some o
      → Refers (λ c. marked_at c h ≡ true) (children o)
      → Marking h0 R [] h w
  settle a o h w m e refs = record {
    shape = m.shape;
    distinct = m.distinct;
    sound = m.sound;
    listed = m.listed;
    black = λ b o' k _ l e'. elim (Bool-cases (b == a)) [
      | inl same ↦
          let eb = (==_iff b a).0 same in
          let eo : o ≡ o' = cc in
          subst (λ x. Refers (λ c. marked_at c h ≡ true) (children x)) eo refs
      | inr other ↦ m.black b o' k (ground arith) l e'
    ];
  }

  -- The top of the worklist is taken in hand.
  take_top :
      (a : ℕ) (h : List Cell) (w : List ℕ) → Marking h0 R [] h (a ∷ w) → Marking h0 R (a ∷ []) h w
  take_top a h w m = record {
    shape = m.shape;
    distinct = m.distinct;
    sound = m.sound;
    listed = λ b k. m.listed b (ground arith);
    black = λ b o k p l e. m.black b o k refl (ground arith) e;
  }

  module _ (live : (a : ℕ) → R a → (o : Obj) × (body_at a h0 ≡ some o))
      (closed : (a : ℕ) (o : Obj) → R a → body_at a h0 ≡ some o → Refers R (children o)) where
    drain_round_lem :
        (again : M Bool) (n : ℕ) (w : List ℕ) (s : State)
        → ((t : State)
            → Marking h0 R [] t.heap t.gc_marklist
            → unmarked t.heap + length t.gc_marklist < n
            → Visits (Drained t) (Stops h0 R t) (again t))
        → Marking h0 R [] s.heap w
        → unmarked s.heap + length w < suc n
        → Visits (Drained s) (Stops h0 R s) (drain_round again w s)
    unfolding drain_round
    drain_round_lem again n [] s ih m f =
        done (record { inv = m; keeps = λ b k. k; untouched = refl })
    drain_round_lem again n (a ∷ rest) s ih m f =
        let s1 = record s { gc_marklist = rest } in
        let reached : R a = m.sound a (m.listed a (ground (arith, ==_refl a))) in
        let (o, e) = live a reached in
        let here = body_at_of_clear_marks a s.heap h0 m.shape ∙ e in
        rw (deref_lem a s1 o here) (
          Visits-bind again
            (visit_all_lem h0 R (a ∷ []) (children o) s1 live (take_top a s.heap rest m)
              (closed a o reached e))
            (λ t (adv, refs).
              let settled = settle a o t.heap t.gc_marklist adv.inv e refs in
              let so_far = Untouched-trans s s1 t refl adv.untouched in
              Visits-mono (ih t settled (omega (arith, adv.budget)))
                (λ x d. record {
                  inv = d.inv;
                  keeps = λ b k. d.keeps b (adv.keeps b k);
                  untouched = Untouched-trans s t x so_far d.untouched;
                })
                (λ x q. record {
                  starved = q.starved;
                  shape = q.shape;
                  untouched = Untouched-trans s t x so_far q.untouched;
                }))
            (λ t q. record {
              starved = q.starved;
              shape = q.shape;
              untouched = Untouched-trans s s1 t refl q.untouched;
            }))

    -- With fuel for each unmarked or listed object the loop ends in the invariant.
    pub drain_lem :
        (fuel : ℕ) (s : State)
        → Marking h0 R [] s.heap s.gc_marklist
        → unmarked s.heap + length s.gc_marklist < fuel
        → Visits (Drained s) (Stops h0 R s) (gc_drain_worklist fuel s)
    unfolding gc_drain_worklist
    drain_lem zero s m f = absurd (omega arith)
    drain_lem (suc fuel) s m f =
        drain_round_lem (gc_drain_worklist fuel) fuel s.gc_marklist s (drain_lem fuel) m f

    -- Marking from reachable roots, with no mark set before.
    pub mark_lem :
        (s : State)
        → s.heap ≡ h0
        → Distinct s.heap
        → AllClear s.heap
        → Refers R (s.toplevel_env ∷ s.gc_protect)
        → Visits
            (λ t.
              Drained s t × Refers (λ b. marked_at b t.heap ≡ true) (s.toplevel_env ∷ s.gc_protect))
            (Stops h0 R s)
            (mark s)
    unfolding mark
    mark_lem s eh d clear roots =
        let s1 = record s { gc_marklist = [] } in
        let start : Marking h0 R [] s.heap [] = record {
          shape = ap clear_marks eh;
          distinct = d;
          sound = λ b k. cc (marked_at_clear b s.heap clear);
          listed = λ b k. cc;
          black = λ b o k. cc (marked_at_clear b s.heap clear);
        } in
        Visits-bind (gc_drain_worklist (suc (length s.heap)))
          (visit_all_lem h0 R [] (s.toplevel_env ∷ s.gc_protect) s1 live start roots)
          (λ t (adv, refs).
            let so_far = Untouched-trans s s1 t refl adv.untouched in
            Visits-mono
              (drain_lem (suc (length s.heap)) t adv.inv
                (omega (arith, adv.budget, unmarked_all s.heap clear)))
              (λ x dr. (
                record {
                  inv = dr.inv;
                  keeps = λ b k. dr.keeps b (adv.keeps b k);
                  untouched = Untouched-trans s t x so_far dr.untouched;
                },
                Refers-mono (s.toplevel_env ∷ s.gc_protect) dr.keeps refs,
              ))
              (λ x q. record {
                starved = q.starved;
                shape = q.shape;
                untouched = Untouched-trans s t x so_far q.untouched;
              }))
          (λ t q. record {
            starved = q.starved;
            shape = q.shape;
            untouched = Untouched-trans s s1 t refl q.untouched;
          })
