-- ===== src/Gc.antt =====
-- The mark-and-sweep collector and the object allocators of src/gc.c. The list of all objects,
-- newest first, is the field `heap`; the worklist's top is the head of `gc_marklist`.
pub mod Heap
pub mod Worklist
pub mod Visit
pub mod Mark
pub mod Collect
pub mod Children
pub mod Alloc
pub mod Protect
use microlisp.Base.{
  ℕ, zero, suc, ◌+◌, ◌-◌, ◌*◌, ◌%◌, ◌^◌, Bool, true, false, ◌||◌, Option, none, some, List, [], ◌∷◌,
  ◌++◌, map, ltb, leb, ◌==◌, if◌then◌else◌, length, take,
}
use microlisp.Value.{Value, Obj, Cell, Frame, Closure, Mprim, pair, string, closure, primitive, env}
use microlisp.State.{
  State, Status, M, Run, ok, err, fault, pure, fail, faulty, exhausted, modify, reads, ◌>>=◌, ◌>>◌,
  and_then, find, deref, ml_raw_alloc,
}

-- __builtin_mul_overflow on size_t.
abbrev pub mul_overflow : ℕ → ℕ → Option ℕ
mul_overflow a b = if ltb (a * b) (2 ^ 64) then some (a * b) else none

-- __builtin_add_overflow on size_t.
abbrev pub add_overflow : ℕ → ℕ → Option ℕ
add_overflow a b = if ltb (a + b) (2 ^ 64) then some (a + b) else none

-- The capacity that a full array grows to: `cap == 0 ? initial : cap * 2`.
abbrev pub grown_cap : ℕ → ℕ → ℕ
grown_cap initial cap = if cap == 0 then initial else (cap * 2) % 2 ^ 64

-- A new array of `n` elements: `none` if the product overflows or the allocator returns NULL.
abbrev pub alloc_checked : Option ℕ → M (Option ℕ)
alloc_checked none = pure none
alloc_checked (some bytes) = ml_raw_alloc bytes

unfoldable pub alloc_array : ℕ → ℕ → M (Option ℕ)
unfolding ml_raw_alloc
alloc_array n size = alloc_checked (mul_overflow n size)

-- The push onto the worklist that has grown, if it could.
abbrev pub push_grown : ℕ → Option ℕ → M Bool
push_grown a none s = ok false s
push_grown a (some _) s =
    ok true (record s {
      gc_marklist = a ∷ s.gc_marklist;
      gc_marklist_cap = grown_cap 64 s.gc_marklist_cap;
    })

-- The object is marked by the caller.
unfoldable pub gc_push_mark : ℕ → M Bool
unfolding alloc_array
gc_push_mark a s =
    if length s.gc_marklist == s.gc_marklist_cap
    then (do grown ← alloc_array (grown_cap 64 s.gc_marklist_cap) 8; push_grown a grown) s
    else ok true (record s { gc_marklist = a ∷ s.gc_marklist })

unfoldable pub set_mark : ℕ → List Cell → List Cell
set_mark a [] = []
set_mark a (c ∷ cs) = if c.addr == a then record c { marked = true } ∷ cs else c ∷ set_mark a cs

-- Mark the object at an address and list it, unless it is marked.
unfoldable pub visit_object : ℕ → M Bool
unfolding find set_mark
visit_object a s = elim (find a s.heap) [
  | none ↦ fault
  | some c ↦ if c.marked then ok true s else gc_push_mark a (record s { heap = set_mark a s.heap })
]

unfoldable pub gc_visit : Value → M Bool
gc_visit (Value.obj a) = if a == 0 then pure true else visit_object a
gc_visit _ = pure true

-- `gc_visit(a) && gc_visit(b) && ...`
unfoldable pub visit_all : List Value → M Bool
visit_all [] = pure true
visit_all (v ∷ vs) = do visited ← gc_visit v; if visited then visit_all vs else pure false

unfoldable pub binding_refs : List (Value × Value) → List Value
binding_refs [] = []
binding_refs ((name, value) ∷ bs) = value ∷ name ∷ binding_refs bs

-- The outgoing references of an object, in the order in which they are visited.
unfoldable pub children : Obj → List Value
unfolding binding_refs
children (pair a d) = a ∷ d ∷ []
children (string _) = []
children (primitive _) = []
children (closure c) = c.env ∷ c.params ∷ c.body ∷ []
children (env f) = f.parent ∷ binding_refs f.bindings

-- One round of the drain loop on the worklist, and the rounds that follow.
unfoldable pub drain_round : M Bool → List ℕ → M Bool
drain_round again [] s = ok true s
drain_round again (a ∷ rest) s =
    (do
      o ← deref (Value.obj a)
      visited ← visit_all (children o)
      if visited then again else pure false)
      (record s { gc_marklist = rest })

-- One round for each object and one for the last test are enough.
unfoldable pub gc_drain_worklist : ℕ → M Bool
unfolding drain_round
gc_drain_worklist zero s = Run.out_of_fuel
gc_drain_worklist (suc fuel) s = drain_round (gc_drain_worklist fuel) s.gc_marklist s

unfoldable pub clear_marks : List Cell → List Cell
clear_marks [] = []
clear_marks (c ∷ cs) = record c { marked = false } ∷ clear_marks cs

-- The objects that sweep keeps, with their marks cleared.
unfoldable pub sweep_list : List Cell → List Cell
sweep_list [] = []
sweep_list (c ∷ cs) =
    if c.marked then record c { marked = false } ∷ sweep_list cs else sweep_list cs

unfoldable pub sweep : M (Unit {0})
unfolding sweep_list
sweep s =
    let kept = sweep_list s.heap in ok tt (record s { heap = kept; gc_live_objects = length kept })

-- max(live * 2, 4096), with the product capped at SIZE_MAX.
unfoldable pub next_threshold : ℕ → ℕ
next_threshold live =
    let doubled : ℕ = if ltb (live * 2) (2 ^ 64) then live * 2 else 2 ^ 64 - 1 in
    if ltb 4096 doubled then doubled else 4096

-- The worklist could not grow: every mark is cleared and nothing is freed.
unfoldable pub abandon : M (Unit {0})
unfolding clear_marks
abandon s = ok tt (record s { heap = clear_marks s.heap; gc_marklist = [] })

-- The marking half of a collection: whether it ran to its end.
unfoldable pub mark : M Bool
unfolding visit_all gc_drain_worklist
mark s =
    (do
      rooted ← visit_all (s.toplevel_env ∷ s.gc_protect)
      if rooted then gc_drain_worklist (suc (length s.heap)) else pure false)
      (record s { gc_marklist = [] })

unfoldable pub ml_gc_collect : M (Unit {0})
unfolding mark abandon sweep next_threshold
ml_gc_collect = do
  marked ← mark
  elim marked [
    | true ↦ do sweep; modify (λ s. record s { gc_threshold = next_threshold s.gc_live_objects })
    | false ↦ abandon
  ]

unfoldable pub maybe_collect : M (Unit {0})
unfolding ml_gc_collect
maybe_collect s =
    if s.gc_stress || leb s.gc_threshold s.gc_live_objects then ml_gc_collect s else ok tt s

-- A new object heads the list of all objects. A misaligned address fails the assertion, and where
-- assertions are compiled out it is no pointer to an object, since its low bits are another tag.
unfoldable pub link_object : ℕ → Obj → M Value
link_object a o s =
    if a % 8 == 0
    then ok (Value.obj a) (record s {
      heap = record { addr = a; marked = false; body = o } ∷ s.heap;
      gc_live_objects = suc s.gc_live_objects;
    })
    else fault

-- The link that follows an allocation, or its failure.
abbrev pub link_new : Obj → Option ℕ → M Value
link_new o none = fail Status.nomem
link_new o (some a) = link_object a o

-- The path that the five allocators share: maybe collect, allocate, link.
unfoldable pub alloc_object : ℕ → Obj → M Value
unfolding maybe_collect ml_raw_alloc link_object
alloc_object size o = do maybe_collect; p ← ml_raw_alloc size; link_new o p

unfoldable pub ml_gc_alloc_pair : Value → Value → M Value
unfolding alloc_object
ml_gc_alloc_pair a d = alloc_object 32 (pair a d)

unfoldable pub ml_gc_alloc_string : List ℕ → M Value
unfolding maybe_collect ml_raw_alloc link_object
ml_gc_alloc_string bytes = do
  maybe_collect
  elim (add_overflow 24 (length bytes)) [
    | none ↦ fail Status.nomem
    | some total ↦ do p ← ml_raw_alloc total; link_new (string bytes) p
  ]

unfoldable pub ml_gc_alloc_closure : Value → Value → Value → M Value
unfolding alloc_object
ml_gc_alloc_closure e params body =
    alloc_object 48
      (closure (record { env = e; params = params; body = body; variadic = false; arity_min = 0 }))

unfoldable pub ml_gc_alloc_primitive : Mprim → M Value
unfolding alloc_object
ml_gc_alloc_primitive p = alloc_object 40 (primitive p)

unfoldable pub ml_gc_alloc_env : Value → M Value
unfolding alloc_object
ml_gc_alloc_env parent =
    alloc_object 56 (env (record { parent = parent; bindings = []; capacity = 0 }))

-- The push onto the protect stack that has grown, if it could.
abbrev pub protect_grown : Value → Option ℕ → M (Unit {0})
protect_grown v none s = fail Status.nomem s
protect_grown v (some _) s = ok tt (record s {
  gc_protect = s.gc_protect ++ v ∷ [];
  gc_protect_cap = grown_cap 32 s.gc_protect_cap;
})

unfoldable pub ml_gc_protect : Value → M (Unit {0})
unfolding alloc_array
ml_gc_protect v s =
    if length s.gc_protect == s.gc_protect_cap
    then (do grown ← alloc_array (grown_cap 32 s.gc_protect_cap) 8; protect_grown v grown) s
    else ok tt (record s { gc_protect = s.gc_protect ++ v ∷ [] })

-- The truncated subtraction drops all entries where `n` exceeds their number.
unfoldable pub ml_gc_unprotect : ℕ → M (Unit {0})
ml_gc_unprotect n s = ok tt (record s { gc_protect = take (length s.gc_protect - n) s.gc_protect })

abbrev pub ml_gc_savepoint : M ℕ
ml_gc_savepoint s = ok (length s.gc_protect) s

unfoldable pub ml_gc_restore : ℕ → M (Unit {0})
ml_gc_restore saved s =
    if ltb saved (length s.gc_protect)
    then ok tt (record s { gc_protect = take saved s.gc_protect })
    else ok tt s

unfoldable pub ml_gc_free_all : M (Unit {0})
ml_gc_free_all s = ok tt (record s { heap = []; gc_live_objects = 0 })
