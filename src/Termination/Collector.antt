-- ===== src/Termination/Collector.antt =====
-- The rounds of the collector's drain in src/gc.c. An object is listed when it gets its mark, so what
-- is counted is the objects that are unmarked or listed.
use microlisp.Base.{
  ℕ, zero, suc, ◌+◌, ◌≤◌, ◌<◌, ◌≡◌, refl, ap, inl, inr, ◌⊎◌, Bool, true, false, Bool-cases,
  Option-cases, List, [], ◌∷◌, ◌==◌, if◌then◌else◌, length, arith,
}
use microlisp.Value.{Value, Obj, obj, fix, imm}
use microlisp.State.{State, Run, M, ok, fault, pure, and_then, modify, find, deref, ◌>>◌}
use microlisp.Gc.{
  set_mark, visit_object, gc_visit, visit_all, drain_round, gc_drain_worklist, children, mark,
  abandon, sweep, next_threshold, ml_gc_collect,
}
use microlisp.Gc.Heap.{unmarked, unmarked-set_mark, unmarked_max}
use microlisp.Gc.Worklist.{Visits, Pushed, NotPushed, gc_push_mark_lem}
use microlisp.Termination.{Ends, answers, faults, Total, Always, Yields-bind}

-- The rounds that are left at most.
abbrev cost : State → ℕ
cost s = unmarked s.heap + length s.gc_marklist

-- A visit that comes to an end, and uses no more than `n`.
data Within (n : ℕ) : Run Bool → Type 0 where
  went : {t : State} → cost t ≤ n → Within n (ok true t)
  stopped : {t : State} → Within n (ok false t)
  faulted : Within n fault

Within-bind :
    {n : ℕ} {r : Run Bool} (again : M Bool)
    → Within n r
    → ((t : State) → cost t ≤ n → Within n (again t))
    → Within n (and_then r λ visited. if visited then again else pure false)
Within-bind again (went {t} c) f = f t c
Within-bind again stopped f = stopped
Within-bind again faulted f = faulted

pushed :
    (a : ℕ) (s : State) (n : ℕ) {r : Run Bool}
    → cost s < n
    → Visits (Pushed a s) (NotPushed s) r
    → Within n r
pushed a s n small (Visits.done (h, w, _)) = went (omega (arith, ap unmarked h, ap length w, small))
pushed a s n small (Visits.stopped q) = stopped

visit_object-Within : (a : ℕ) (s : State) → Within (cost s) (visit_object a s)
unfolding visit_object
visit_object-Within a s = elim (Option-cases (find a s.heap)) [
  | inl gone ↦ rw (gone, visit_object) faulted
  | inr (c, e) ↦ elim (Bool-cases c.marked) [
    | inl black ↦ rw (e, visit_object) (rw black (went (omega arith)))
    | inr white ↦
        let less = unmarked-set_mark a s.heap c e white in
        rw (e, visit_object)
          (rw white (
            pushed a (record s { heap = set_mark a s.heap }) (cost s) (omega (arith, less))
              (gc_push_mark_lem a (record s { heap = set_mark a s.heap }))))
  ]
]

gc_visit-Within : (v : Value) (s : State) → Within (cost s) (gc_visit v s)
unfolding gc_visit
gc_visit-Within (obj a) s = elim (Bool-cases (a == 0)) [
  | inl null ↦ rw null (went (omega arith))
  | inr is ↦ rw is (visit_object-Within a s)
]
gc_visit-Within (fix _) s = went (omega arith)
gc_visit-Within (imm _) s = went (omega arith)
gc_visit-Within (Value.sym _) s = went (omega arith)

Within-mono : {m n : ℕ} {r : Run Bool} → Within m r → m ≤ n → Within n r
Within-mono (went c) h = went (omega (arith, c, h))
Within-mono stopped h = stopped
Within-mono faulted h = faulted

visit_all-Within : (vs : List Value) (s : State) (n : ℕ) → cost s ≤ n → Within n (visit_all vs s)
unfolding visit_all
visit_all-Within [] s n h = went h
visit_all-Within (v ∷ vs) s n h =
    Within-bind (visit_all vs) (Within-mono (gc_visit-Within v s) h)
      (λ t c. visit_all-Within vs t n c)

-- The drain, on more rounds than it can need.
went-Ends : {n : ℕ} {r : Run Bool} → Within n r → Ends Always r
went-Ends (went c) = answers tt
went-Ends stopped = answers tt
went-Ends faulted = faults

after_visit :
    {n : ℕ} {r : Run Bool} (again : M Bool)
    → Within n r
    → ((t : State) → cost t ≤ n → Ends Always (again t))
    → Ends Always (and_then r λ visited. if visited then again else pure false)
after_visit again (went {t} c) f = f t c
after_visit again stopped f = answers tt
after_visit again faulted f = faults

deref_cases : (v : Value) (s : State) → (deref v s ≡ fault) ⊎ ((o : Obj) × (deref v s ≡ ok o s))
unfolding deref
deref_cases (obj a) s = elim (Option-cases (find a s.heap)) [
  | inl gone ↦ inl (rw (gone, deref) refl)
  | inr (c, e) ↦ inr (c.body, rw (e, deref) refl)
]
deref_cases (fix _) s = inl refl
deref_cases (imm _) s = inl refl
deref_cases (Value.sym _) s = inl refl

round-Ends :
    (again : M Bool) (fuel : ℕ) (s : State) (w : List ℕ)
    → ((u : State) → cost u < fuel → Ends Always (again u))
    → unmarked s.heap + length w ≤ fuel
    → Ends Always (drain_round again w s)
unfolding drain_round
round-Ends again fuel s [] f h = answers tt
round-Ends again fuel s (a ∷ rest) f h =
    let t : State = record s { gc_marklist = rest } in
    elim (deref_cases (obj a) t) [
      | inl e ↦ rw e faults
      | inr (o, e) ↦ rw e (
          after_visit again (visit_all-Within (children o) t (cost t) (omega arith))
            (λ u c. f u (omega (arith, c, h))))
    ]

drain-Ends : (fuel : ℕ) (s : State) → cost s < fuel → Ends Always (gc_drain_worklist fuel s)
unfolding gc_drain_worklist
drain-Ends zero s h = absurd (omega (arith, h))
drain-Ends (suc fuel) s h =
    round-Ends (gc_drain_worklist fuel) fuel s s.gc_marklist (drain-Ends fuel) (omega (arith, h))

mark-Total : Total mark
unfolding mark
mark-Total = record { at = λ s. marked s }
  where
    marked : (s : State) → Ends Always (mark s)
    marked s =
        let t : State = record s { gc_marklist = [] } in
        let most = unmarked_max s.heap in
        after_visit (gc_drain_worklist (suc (length s.heap)))
          (visit_all-Within (s.toplevel_env ∷ s.gc_protect) t (length s.heap) (omega (arith, most)))
          (λ u c. drain-Ends (suc (length s.heap)) u (omega (arith, c)))

pub ml_gc_collect-Total : Total ml_gc_collect
unfolding ml_gc_collect sweep abandon
ml_gc_collect-Total = Yields-bind mark-Total λ marked _. swept marked
  where
    swept :
        (b : Bool)
        → Total (elim b [
          | true ↦
              (sweep >> modify (λ s. record s { gc_threshold = next_threshold s.gc_live_objects }))
          | false ↦ abandon
        ])
    swept true = record { at = λ s. answers tt }
    swept false = record { at = λ s. answers tt }

-- A collection never runs out of the rounds that its drain is given, from any state, also with cycles,
-- marks that are left over or references to missing objects: it returns, or ends in a fault, which
-- stands for undefined behaviour and is not ruled out here.
pub ml_gc_collect-Ends : (s : State) → Ends Always (ml_gc_collect s)
ml_gc_collect-Ends = ml_gc_collect-Total.at
