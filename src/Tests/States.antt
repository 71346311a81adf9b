-- ===== src/Tests/States.antt =====
-- An allocator, a C library and small states for the tests.
use microlisp.Base.{
  ℕ, suc, ◌*◌, ◌%◌, ◌/◌, ltb, if◌then◌else◌, ◌<◌, ◌≤◌, ◌≡◌, refl, sym, subst, ◌⊎◌, inl, inr, true,
  false, none, some, List, [], ◌∷◌, map, codes, arith, ℤ,
}
use microlisp.Value.{Value, Obj, Cell, Frame, obj, fix, pair, env, mv_nil}
use microlisp.Cli.{World}
use microlisp.State.{State, Message, Allocator, Libc, find}
use microlisp.Gc.{children, binding_refs}
use microlisp.Gc.Heap.{body_at}
use microlisp.Gc.Collect.{In, Reach, root, step, WellFormed}
use microlisp.Gc.Alloc.{IsAllocator}
use microlisp.Api.{Options, initial_state}

-- A multiple of 8 above all addresses that are in use.
abbrev pub above : List ℕ → ℕ
above [] = 8
above (a ∷ rest) = let later = above rest in if ltb a later then later else 8 * suc (a / 8)

abbrev pub fresh : Allocator
fresh n live size = some (above live)

abbrev pub plain : Libc
plain = record { show_int = λ z. codes "7"; show_hex = λ b. codes "41"; write_ok = λ n. true }

abbrev pub defaults : Options
defaults = record {
  max_read_depth = 0;
  max_eval_depth = 0;
  max_print_depth = 0;
  max_equal_depth = 0;
  gc_initial_threshold = 0;
}

-- A host whose error messages have no text.
abbrev pub no_text : Message → List ℕ
no_text m = []

-- A host without files, at whose stdin there is one line.
abbrev pub world : World
world = record {
  malloc = fresh;
  state_size = 2048;
  libc = plain;
  render = no_text;
  version = codes "0.1.4";
  stdin_file = record { fread = λ n room. []; ferror = λ n. false };
  fopen = λ path. none;
  has_memory = λ n. true;
  tty = true;
  lines = codes "(list 'a)" ∷ [];
}

abbrev pub empty_state : State
empty_state = initial_state fresh plain defaults

above_min : (h : List Cell) → 0 < above (map (λ c. c.addr) h)
above_min [] = omega arith
above_min (c ∷ h) = ground (arith, above_min h)

above_aligned : (h : List Cell) → above (map (λ c. c.addr) h) % 8 ≡ 0
above_aligned [] = omega arith
above_aligned (c ∷ h) = ground (arith, above_aligned h)

-- What is above an address and those behind it.
above_more :
    (c : Cell) (h : List Cell)
    → (c.addr < above (map (λ c. c.addr) (c ∷ h)))
      × (above (map (λ c. c.addr) h) ≤ above (map (λ c. c.addr) (c ∷ h)))
above_more c h = ground arith

find-above : (p : ℕ) (h : List Cell) → above (map (λ c. c.addr) h) ≤ p → find p h ≡ none
unfolding find
find-above p [] e = refl
find-above p (c ∷ h) e = let more = above_more c h in ground (arith, find-above p h)

pub fresh-IsAllocator : IsAllocator fresh
fresh-IsAllocator k h size p e =
    let at : above (map (λ c. c.addr) h) ≡ p = ground arith in
    let positive = above_min h in
    let aligned = above_aligned h in (omega arith, rw (← at) aligned, find-above p h (omega arith))

-- A top-level frame that binds a symbol to a list of one element, and a pair that nothing refers to.
abbrev pub frame : Frame
frame = record { parent = mv_nil; bindings = (Value.sym 0, obj 16) ∷ []; capacity = 8 }

abbrev pub small_heap : List Cell
small_heap =
    record { addr = 8; marked = false; body = env frame }
    ∷ record { addr = 16; marked = false; body = pair (fix (ℤ.pos 1)) mv_nil }
    ∷ record { addr = 24; marked = false; body = pair (obj 16) mv_nil }
    ∷ []

abbrev pub small_state : State
small_state = record empty_state {
  heap = small_heap;
  gc_live_objects = 3;
  toplevel_env = obj 8;
  gc_stress = true;
  symtab = codes "x" ∷ [];
  symtab_cap = 32;
}

frame_refs : (a : ℕ) → In (obj a) (children (env frame)) → (a ≡ 16)
unfolding children binding_refs
frame_refs a (inl e) = cc
frame_refs a (inr (inl e)) = cc
frame_refs a (inr (inr (inl e))) = ground arith
frame_refs a (inr (inr (inr i))) = absurd i

pair_refs : (a : ℕ) → ¬ (In (obj a) (children (pair (fix (ℤ.pos 1)) mv_nil)))
unfolding children
pair_refs a (inl e) = cc
pair_refs a (inr (inl e)) = cc
pair_refs a (inr (inr i)) = absurd i

frame_at : (b : ℕ) (o : Obj) → b ≡ 8 → body_at b small_heap ≡ some o → env frame ≡ o
unfolding body_at find
frame_at b o at e = let e' : body_at 8 small_heap ≡ some o = rw at at e in ground arith

pair_at :
    (b : ℕ) (o : Obj) → b ≡ 16 → body_at b small_heap ≡ some o → pair (fix (ℤ.pos 1)) mv_nil ≡ o
unfolding body_at find
pair_at b o at e = let e' : body_at 16 small_heap ≡ some o = rw at at e in ground arith

reached : (a : ℕ) → Reach small_heap (obj 8 ∷ []) a → (a ≡ 8) ⊎ (a ≡ 16)
reached a (root (inl e) ne) = inl (ground arith)
reached a (root (inr i) ne) = absurd i
reached a (step {a = b} o r e i ne) = elim (reached b r) [
  | inl at ↦ inr (frame_refs a (subst (λ x. In (obj a) (children x)) (sym (frame_at b o at e)) i))
  | inr at ↦ absurd (pair_refs a (subst (λ x. In (obj a) (children x)) (sym (pair_at b o at e)) i))
]

pub small_state-WellFormed : WellFormed small_state
unfolding body_at find initial_state
small_state-WellFormed = record {
  distinct = (refl, (refl, (refl, tt)));
  clear = (refl, (refl, (refl, tt)));
  closed = λ a r. elim (reached a r) [
    | inl e ↦ (env frame, rw e refl)
    | inr e ↦ (pair (fix (ℤ.pos 1)) mv_nil, rw e refl)
  ];
  counted = refl;
}
