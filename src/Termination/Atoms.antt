-- ===== src/Termination/Atoms.antt =====
-- The ends of allocation, of symbols and of the protect stack (src/gc.c, src/symtab.c).
use microlisp.Base.{
  ℕ, ◌+◌, ◌%◌, ◌^◌, Bool, true, false, ◌||◌, Option, none, some, List, ◌==◌, if◌then◌else◌, leb,
  ltb, length,
}
use microlisp.Value.{Value, Obj, pair, string}
use microlisp.State.{Status, State, Run, ok, fail, ml_raw_alloc, ◌>>=◌, ◌>>◌}
use microlisp.Gc.{
  maybe_collect, link_object, link_new, alloc_object, ml_gc_alloc_pair, ml_gc_alloc_string,
  add_overflow, mul_overflow, alloc_array, alloc_checked, grown_cap, protect_grown, ml_gc_protect,
  ml_gc_unprotect, ml_gc_restore,
}
use microlisp.Symtab.{ml_sym_intern, index_from, sym_room, sym_grown, sym_fresh, sym_append}
use microlisp.Termination.{
  Ends, answers, fails, faults, Total, Always, Yields-bind, Yields-pure, Yields-fail,
}
use microlisp.Termination.Collector.{ml_gc_collect-Total}

pub Ends-either :
    {A : Type 0} {P : A → Type 0} (b : Bool) {r r' : Run A}
    → Ends P r
    → Ends P r'
    → Ends P (if b then r else r')
Ends-either true h k = h
Ends-either false h k = k

pub ml_raw_alloc-Total : (size : ℕ) → Total (ml_raw_alloc size)
unfolding ml_raw_alloc
ml_raw_alloc-Total size = record { at = λ s. Ends-either (size == 0) (answers tt) (answers tt) }

pub alloc_checked-Total : (p : Option ℕ) → Total (alloc_checked p)
alloc_checked-Total none = Yields-pure none tt
alloc_checked-Total (some n) = ml_raw_alloc-Total n

alloc_array-Total : (n size : ℕ) → Total (alloc_array n size)
unfolding alloc_array
alloc_array-Total n size = alloc_checked-Total (mul_overflow n size)

maybe_collect-Total : Total maybe_collect
unfolding maybe_collect
maybe_collect-Total = record {
  at = λ s.
      Ends-either (s.gc_stress || leb s.gc_threshold s.gc_live_objects) (ml_gc_collect-Total.at s)
        (answers tt);
}

link_new-Total : (o : Obj) (p : Option ℕ) → Total (link_new o p)
unfolding link_object
link_new-Total o none = Yields-fail Status.nomem
link_new-Total o (some a) = record { at = λ s. Ends-either (a % 8 == 0) (answers tt) faults }

pub ml_gc_alloc_pair-Total : (a d : Value) → Total (ml_gc_alloc_pair a d)
unfolding ml_gc_alloc_pair alloc_object
ml_gc_alloc_pair-Total a d =
    Yields-bind maybe_collect-Total
      λ _ _. Yields-bind (ml_raw_alloc-Total 32) λ p _. link_new-Total (pair a d) p

pub ml_gc_alloc_string-Total : (bytes : List ℕ) → Total (ml_gc_alloc_string bytes)
unfolding ml_gc_alloc_string
ml_gc_alloc_string-Total bytes =
    Yields-bind maybe_collect-Total λ _ _. sized (add_overflow 24 (length bytes))
  where
    sized :
        (o : Option ℕ)
        → Total {A = Value} (elim o [
          | none ↦ fail Status.nomem
          | some total ↦ (ml_raw_alloc total >>= λ p. link_new (string bytes) p)
        ])
    sized none = Yields-fail Status.nomem
    sized (some total) =
        Yields-bind (ml_raw_alloc-Total total) λ p _. link_new-Total (string bytes) p

protect_grown-Total : (v : Value) (p : Option ℕ) → Total (protect_grown v p)
protect_grown-Total v none = record { at = λ s. fails }
protect_grown-Total v (some _) = record { at = λ s. answers tt }

pub ml_gc_protect-Total : (v : Value) → Total (ml_gc_protect v)
unfolding ml_gc_protect
ml_gc_protect-Total v = record {
  at = λ s.
      Ends-either (length s.gc_protect == s.gc_protect_cap)
        ((Yields-bind (alloc_array-Total (grown_cap 32 s.gc_protect_cap) 8)
            λ p _. protect_grown-Total v p).at
          s)
        (answers tt);
}

pub ml_gc_unprotect-Total : (n : ℕ) → Total (ml_gc_unprotect n)
unfolding ml_gc_unprotect
ml_gc_unprotect-Total n = record { at = λ s. answers tt }

pub ml_gc_restore-Total : (n : ℕ) → Total (ml_gc_restore n)
unfolding ml_gc_restore
ml_gc_restore-Total n = record {
  at = λ s. Ends-either (ltb n (length s.gc_protect)) (answers tt) (answers tt);
}

sym_grown-Total : (p : Option ℕ) → Total (sym_grown p)
sym_grown-Total none = record { at = λ s. fails }
sym_grown-Total (some _) = record { at = λ s. answers tt }

sym_room-Total : Total sym_room
unfolding sym_room
sym_room-Total = record {
  at = λ s.
      Ends-either (length s.symtab == s.symtab_cap)
        ((Yields-bind (alloc_array-Total (grown_cap 32 s.symtab_cap) 16)
            λ p _. sym_grown-Total p).at
          s)
        (answers tt);
}

sym_append-Total : (name : List ℕ) (p : Option ℕ) → Total (sym_append name p)
sym_append-Total name none = record { at = λ s. fails }
sym_append-Total name (some _) = record { at = λ s. answers tt }

sym_fresh-Total : (name : List ℕ) → Total (sym_fresh name)
unfolding sym_fresh
sym_fresh-Total name = record {
  at = λ s.
      Ends-either (ltb 0x0fff_ffff (length s.symtab)) fails
        ((Yields-bind (ml_raw_alloc-Total (length name + 1)) λ p _. sym_append-Total name p).at s);
}

pub ml_sym_intern-Total : (name : List ℕ) → Total (ml_sym_intern name)
unfolding ml_sym_intern
ml_sym_intern-Total name = record { at = λ s. interned s (index_from 0 name s.symtab) }
  where
    interned :
        (s : State) (o : Option ℕ)
        → Ends Always (elim o [
          | some i ↦ ok (Value.sym (i % 2 ^ 32)) s
          | none ↦ (sym_room >> sym_fresh name) s
        ])
    interned s (some i) = answers tt
    interned s none = (Yields-bind sym_room-Total λ _ _. sym_fresh-Total name).at s
