-- ===== src/Balance/Store.antt =====
-- The protect stack and the depth counters in the collector and the allocators of src/gc.c.
use microlisp.Base.{
  ℕ, ◌%◌, zero, suc, ◌≡◌, refl, sym, ◌∙◌, append-nil, ◌||◌, Bool, true, false, Option, none, some,
  List, [], ◌∷◌, leb, ◌==◌, length,
}
use microlisp.Value.{Value, Obj, Mprim, obj}
use microlisp.State.{Status, State, Run, M, find, deref, store, ml_raw_alloc}
use microlisp.Gc.{
  alloc_array, alloc_checked, mul_overflow, grown_cap, push_grown, gc_push_mark, visit_object,
  gc_visit, visit_all, children, drain_round, gc_drain_worklist, mark, abandon, sweep,
  ml_gc_collect, maybe_collect, link_object, link_new, alloc_object, ml_gc_alloc_pair,
  ml_gc_alloc_string, ml_gc_alloc_closure, ml_gc_alloc_primitive, ml_gc_alloc_env, set_mark,
  add_overflow,
}
use microlisp.Equal.{get_obj}
use microlisp.Primitives.Data.{get_pair}
use microlisp.Balance.{
  Balanced, Steady, Leaves-over, Steady-fail, Steady-bool, Steady-option, Steady-if, faulted,
  endless, Balanced-ok, Balanced-if, Balanced-option, Steady-pure, Steady-bind, steady,
}

pub Steady-deref : (v : Value) → Steady (deref v)
unfolding deref
Steady-deref (obj a) = record {
  at = λ s. Balanced-option (find a s.heap) faulted (λ c. Balanced-ok c.body refl refl refl refl);
}
Steady-deref (Value.fix _) = record { at = λ s. faulted }
Steady-deref (Value.imm _) = record { at = λ s. faulted }
Steady-deref (Value.sym _) = record { at = λ s. faulted }

pub Steady-get_obj : (v : Value) → Steady (get_obj v)
unfolding get_obj
Steady-get_obj v = search (steady, Steady-deref)

pub Steady-get_pair : (v : Value) → Steady (get_pair v)
unfolding get_pair
Steady-get_pair v = search (steady, Steady-get_obj)

pub Steady-store : (a : ℕ) (o : Obj) → Steady (store a o)
unfolding store
Steady-store a o = record { at = λ s. Balanced-ok tt refl refl refl refl }

pub Steady-ml_raw_alloc : (size : ℕ) → Steady (ml_raw_alloc size)
unfolding ml_raw_alloc
Steady-ml_raw_alloc size = record {
  at = λ s.
      Balanced-if (size == 0) (Balanced-ok none refl refl refl refl)
        (Balanced-ok _ refl refl refl refl);
}

Steady-alloc_checked : (o : Option ℕ) → Steady (alloc_checked o)
Steady-alloc_checked none = Steady-pure none
Steady-alloc_checked (some size) = Steady-ml_raw_alloc size

pub Steady-alloc_array : (n size : ℕ) → Steady (alloc_array n size)
unfolding alloc_array
Steady-alloc_array n size = Steady-alloc_checked (mul_overflow n size)

-- The collector.
Steady-push_grown : (a : ℕ) (p : Option ℕ) → Steady (push_grown a p)
Steady-push_grown a none = record { at = λ s. Balanced-ok false refl refl refl refl }
Steady-push_grown a (some _) = record { at = λ s. Balanced-ok true refl refl refl refl }

Steady-gc_push_mark : (a : ℕ) → Steady (gc_push_mark a)
unfolding gc_push_mark
Steady-gc_push_mark a = record {
  at = λ s.
      let grow =
        Steady-bind (Steady-alloc_array (grown_cap 64 s.gc_marklist_cap) 8) (Steady-push_grown a) in
      Balanced-if (length s.gc_marklist == s.gc_marklist_cap) (grow.at s)
        (Balanced-ok true refl refl refl refl);
}

-- A run from a state that differs elsewhere only.
pub from_same {ℓ} :
    {A : Type ℓ} (s t : State) {r : Run A}
    → t.gc_protect ≡ s.gc_protect
    → t.eval_depth ≡ s.eval_depth
    → t.print_depth ≡ s.print_depth
    → t.equal_depth ≡ s.equal_depth
    → Balanced t r
    → Balanced s r
from_same s t p e f g b =
    Leaves-over
      (record {
        stack = p ∙ sym (append-nil s.gc_protect);
        eval_depth = e;
        print_depth = f;
        equal_depth = g;
      })
      refl refl b

Steady-visit_object : (a : ℕ) → Steady (visit_object a)
unfolding visit_object
Steady-visit_object a = record {
  at = λ s. Balanced-option (find a s.heap) faulted (λ c.
      Balanced-if c.marked (Balanced-ok true refl refl refl refl) (
        from_same s (record s { heap = set_mark a s.heap }) refl refl refl refl
          ((Steady-gc_push_mark a).at (record s { heap = set_mark a s.heap }))));
}

Steady-gc_visit : (v : Value) → Steady (gc_visit v)
unfolding gc_visit
Steady-gc_visit (obj a) = Steady-if (a == 0) (Steady-pure true) (Steady-visit_object a)
Steady-gc_visit (Value.fix _) = Steady-pure true
Steady-gc_visit (Value.imm _) = Steady-pure true
Steady-gc_visit (Value.sym _) = Steady-pure true

Steady-visit_all : (vs : List Value) → Steady (visit_all vs)
unfolding visit_all
Steady-visit_all [] = Steady-pure true
Steady-visit_all (v ∷ vs) =
    Steady-bind (Steady-gc_visit v) (λ b. Steady-if b (Steady-visit_all vs) (Steady-pure false))

drain_round-Balanced :
    (again : M Bool) (w : List ℕ) (s : State) → Steady again → Balanced s (drain_round again w s)
unfolding drain_round
drain_round-Balanced again [] s ih = Balanced-ok true refl refl refl refl
drain_round-Balanced again (a ∷ rest) s ih =
    let m = Steady-bind (Steady-deref (obj a)) (λ o.
      Steady-bind (Steady-visit_all (children o)) (λ b. Steady-if b ih (Steady-pure false))) in
    from_same s (record s { gc_marklist = rest }) refl refl refl refl
      (m.at (record s { gc_marklist = rest }))

Steady-drain : (fuel : ℕ) → Steady (gc_drain_worklist fuel)
unfolding gc_drain_worklist
Steady-drain zero = record { at = λ s. endless }
Steady-drain (suc fuel) = record {
  at = λ s. drain_round-Balanced (gc_drain_worklist fuel) s.gc_marklist s (Steady-drain fuel);
}

Steady-mark : Steady mark
unfolding mark
Steady-mark = record {
  at = λ s.
      let m =
        Steady-bind (Steady-visit_all (s.toplevel_env ∷ s.gc_protect))
          (λ b. Steady-if b (Steady-drain (suc (length s.heap))) (Steady-pure false)) in
      from_same s (record s { gc_marklist = [] }) refl refl refl refl
        (m.at (record s { gc_marklist = [] }));
}

pub Steady-ml_gc_collect : Steady ml_gc_collect
unfolding ml_gc_collect sweep abandon
Steady-ml_gc_collect = Steady-bind Steady-mark (λ b.
    Steady-bool b (record { at = λ s. Balanced-ok tt refl refl refl refl })
      (record { at = λ s. Balanced-ok tt refl refl refl refl }))

pub Steady-maybe_collect : Steady maybe_collect
unfolding maybe_collect
Steady-maybe_collect = record {
  at = λ s.
      Balanced-if (s.gc_stress || leb s.gc_threshold s.gc_live_objects) (Steady-ml_gc_collect.at s)
        (Balanced-ok tt refl refl refl refl);
}

Steady-link_new : (o : Obj) (p : Option ℕ) → Steady (link_new o p)
unfolding link_object
Steady-link_new o none = Steady-fail Status.nomem
Steady-link_new o (some a) = record {
  at = λ s. Balanced-if (a % 8 == 0) (Balanced-ok (obj a) refl refl refl refl) faulted;
}

ruleset gc =
    (steady, Steady-maybe_collect, Steady-ml_raw_alloc, Steady-link_new, Steady-alloc_array)

pub Steady-alloc_object : (size : ℕ) (o : Obj) → Steady (alloc_object size o)
unfolding alloc_object
Steady-alloc_object size o = search gc

pub Steady-ml_gc_alloc_pair : (a d : Value) → Steady (ml_gc_alloc_pair a d)
unfolding ml_gc_alloc_pair
Steady-ml_gc_alloc_pair a d = Steady-alloc_object 32 _

pub Steady-ml_gc_alloc_string : (bs : List ℕ) → Steady (ml_gc_alloc_string bs)
unfolding ml_gc_alloc_string
Steady-ml_gc_alloc_string bs = Steady-bind Steady-maybe_collect (λ _.
    Steady-option (add_overflow 24 (length bs)) (Steady-fail Status.nomem)
      (λ total. Steady-bind (Steady-ml_raw_alloc total) (Steady-link_new (Obj.string bs))))

pub Steady-ml_gc_alloc_closure : (e p b : Value) → Steady (ml_gc_alloc_closure e p b)
unfolding ml_gc_alloc_closure
Steady-ml_gc_alloc_closure e p b = Steady-alloc_object 48 _

pub Steady-ml_gc_alloc_primitive : (p : Mprim) → Steady (ml_gc_alloc_primitive p)
unfolding ml_gc_alloc_primitive
Steady-ml_gc_alloc_primitive p = Steady-alloc_object 40 _

pub Steady-ml_gc_alloc_env : (e : Value) → Steady (ml_gc_alloc_env e)
unfolding ml_gc_alloc_env
Steady-ml_gc_alloc_env e = Steady-alloc_object 56 _
