-- ===== src/Env/Laws.antt =====
-- What defining and setting a variable change for later lookups: ml_env_define, ml_env_set and
-- ml_env_lookup of src/env.c.
use microlisp.Base.{
  ℕ, zero, suc, ◌≡◌, ◌≢◌, refl, ◌∙◌, ◌⊎◌, inl, inr, true, Bool-cases, Option, Option-cases, none,
  some, List, [], ◌∷◌, ◌++◌, ◌==◌, ==_iff, length, arith,
}
use microlisp.Value.{Value, Obj, Cell, Frame, obj, env, ml_is_obj, ml_is_sym}
use microlisp.State.{
  Status, State, Run, M, ok, err, fault, out_of_fuel, and_then, find, deref, replace, store,
}
use microlisp.Gc.{grown_cap}
use microlisp.Gc.Worklist.{alloc_array_lem}
use microlisp.Env.{
  as_frame, get_env, lookup_frame, lookup_round, lookup_loop, ml_env_lookup, append_binding,
  env_grow, env_room, replace_frame, ml_env_define,
}
use microlisp.Env.Bindings.{
  Rebound, Rebound-replace, Rebound-append, find-replace_self, find-replace_ne, length-replace,
}

-- The object at an address is the frame.
abbrev pub FrameAt : List Cell → ℕ → Frame → Type 0
FrameAt h p f = (c : Cell) × (find p h ≡ some c) × (c.body ≡ env f) × (ml_is_obj (obj p) ≡ true)

-- Two runs that leave their states as they were and answer the same.
pub data Agrees (s t : State) : Run Value → Run Value → Type 0 where
  same_value : {v : Value} → Agrees s t (ok v s) (ok v t)
  same_error : {e : Status} → Agrees s t (err e s) (err e t)
  both_fault : Agrees s t fault fault
  both_endless : Agrees s t out_of_fuel out_of_fuel

-- `t` is `s` with `name` bound to `v` in the frame at `p`.
pub record Rebinds (s : State) (p : ℕ) (name v : Value) (t : State) : Type 0 where
  pub old : Frame
  pub new : Frame
  pub before : FrameAt s.heap p old
  pub heap : t.heap ≡ replace p (env new) s.heap
  pub parent : new.parent ≡ old.parent
  pub bindings : Rebound name v old.bindings new.bindings

pub FrameAt-after :
    {s t : State} {p : ℕ} {name v : Value} (r : Rebinds s p name v t) → FrameAt t.heap p r.new
FrameAt-after {s} {t} {p} r =
    let (c, e, _, is) = r.before in
    (
      record c { body = env r.new },
      rw r.heap (find-replace_self p (env r.new) s.heap c e),
      refl,
      is,
    )

pub get_env_at :
    (p : ℕ) (f : Frame) (s : State) → FrameAt s.heap p f → get_env (obj p) s ≡ ok (some f) s
unfolding get_env deref
get_env_at p f s (c, e, b, is) = rw (is, get_env) (rw (e, deref) (rw b refl))

-- What a frame lookup reads away from `p`.
get_env_ne :
    (s t : State) (p q : ℕ) (o : Obj)
    → t.heap ≡ replace p o s.heap
    → q ≢ p
    → (k : Option Frame → M Value) → ((fr : Option Frame) → Agrees s t (k fr s) (k fr t))
    → Agrees s t (and_then (get_env (obj q) s) k) (and_then (get_env (obj q) t) k)
unfolding get_env deref
get_env_ne s t p q o e ne k same = elim (Bool-cases (ml_is_obj (obj q))) [
  | inr null ↦ rw (null, get_env) (same none)
  | inl is ↦
      let away : find q t.heap ≡ find q s.heap = rw e (find-replace_ne p q o s.heap ne) in
      elim (Option-cases (find q s.heap)) [
        | inl gone ↦ rw (is, get_env) (rw (gone, deref) (rw (away ∙ gone, deref) both_fault))
        | inr (c, here) ↦
            rw (is, get_env) (rw (here, deref) (rw (away ∙ here, deref) (same (as_frame c.body))))
      ]
]

module _ (s t : State) (p : ℕ) (name v : Value) (r : Rebinds s p name v t) (m : Value)
    (other : m ≢ name) where
  round_lem :
      (fuel : ℕ)
      → ((q : Value) → Agrees s t (lookup_loop fuel m q s) (lookup_loop fuel m q t))
      → (fr : Option Frame)
      → Agrees s t
          (lookup_round (lookup_loop fuel m) m fr s)
          (lookup_round (lookup_loop fuel m) m fr t)
  round_lem fuel ih none = same_error
  round_lem fuel ih (some f) = elim (Option-cases (lookup_frame m f.bindings)) [
    | inl e ↦ rw e (ih f.parent)
    | inr (w, e) ↦ rw e same_value
  ]

  at_lem :
      (fuel : ℕ)
      → ((q : Value) → Agrees s t (lookup_loop fuel m q s) (lookup_loop fuel m q t))
      → Agrees s t
          (and_then (get_env (obj p) s) (lookup_round (lookup_loop fuel m) m))
          (and_then (get_env (obj p) t) (lookup_round (lookup_loop fuel m) m))
  at_lem fuel ih =
      rw (get_env_at p r.old s r.before, get_env_at p r.new t (FrameAt-after r))
        (rw (r.bindings.others m other, r.parent) (round_lem fuel ih (some r.old)))

  loop_lem : (fuel : ℕ) (q : Value) → Agrees s t (lookup_loop fuel m q s) (lookup_loop fuel m q t)
  unfolding lookup_loop get_env
  loop_lem zero q = both_endless
  loop_lem (suc fuel) (obj q) = elim (Bool-cases (q == p)) [
    | inr ne ↦
        get_env_ne s t p q (env r.new) r.heap (ground (arith, ==_iff q p)) _
          (round_lem fuel (loop_lem fuel))
    | inl is ↦ rw ((==_iff q p).0 is) (at_lem fuel (loop_lem fuel))
  ]
  loop_lem (suc fuel) (Value.fix x) = same_error
  loop_lem (suc fuel) (Value.imm x) = same_error
  loop_lem (suc fuel) (Value.sym x) = same_error

-- What a later lookup sees of a binding.
pub record Bound (s : State) (p : ℕ) (name v : Value) (t : State) : Type 0 where
  pub value : ml_env_lookup (obj p) name t ≡ ok v t
  pub others : (q m : Value) → m ≢ name → Agrees s t (ml_env_lookup q m s) (ml_env_lookup q m t)
  pub elsewhere : (q : ℕ) → q ≢ p → find q t.heap ≡ find q s.heap

pub Rebinds-Bound :
    {s t : State} {p : ℕ} {name v : Value}
    → ml_is_sym name ≡ true
    → Rebinds s p name v t
    → Bound s p name v t
unfolding ml_env_lookup lookup_loop
Rebinds-Bound {s} {t} {p} {name} {v} is r = record {
  value =
      rw (is, ml_env_lookup)
        (rw (get_env_at p r.new t (FrameAt-after r)) (rw r.bindings.bound refl));
  others = λ q m ne. elim (Bool-cases (ml_is_sym m)) [
    | inr not_symbol ↦ rw (not_symbol, ml_env_lookup) same_error
    | inl symbol ↦
        let n : length t.heap ≡ length s.heap = rw r.heap (length-replace p (env r.new) s.heap) in
        rw (symbol, ml_env_lookup) (rw n (loop_lem s t p name v r m ne (suc (length s.heap)) q))
  ];
  elsewhere = λ q ne. rw r.heap (find-replace_ne p q (env r.new) s.heap ne);
}

pub data Defines (s : State) (p : ℕ) (name v : Value) : Run (Unit {0}) → Type 0 where
  defined : {t : State} → Bound s p name v t → Defines s p name v (ok tt t)
  no_memory : {t : State} → t.heap ≡ s.heap → Defines s p name v (err Status.nomem t)

-- The frame that has room, or the failure to make it.
room_lem :
    (f : Frame) (s : State)
    → ((k c : ℕ) × (env_room f s ≡ ok (record f { capacity = c }) (record s { allocs = k })))
      ⊎ ((k : ℕ) × (env_room f s ≡ err Status.nomem (record s { allocs = k })))
unfolding env_room env_grow
room_lem f s = elim (Bool-cases (length f.bindings == f.capacity)) [
  | inr short ↦ inl (s.allocs, f.capacity, rw (short, env_room) refl)
  | inl full ↦
      let (x, k, e) = alloc_array_lem (grown_cap 8 f.capacity) 8 s in
      let (y, k', e') = alloc_array_lem (grown_cap 8 f.capacity) 8 (record s { allocs = k }) in
      elim (Option-cases x) [
        | inl n ↦ inr (k, rw (full, env_room) (rw e (rw n refl)))
        | inr (_, n) ↦ elim (Option-cases y) [
          | inl n' ↦ inr (k', rw (full, env_room) (rw e (rw n (rw e' (rw n' refl)))))
          | inr (_, n') ↦
              inl
                (k', grown_cap 8 f.capacity, rw (full, env_room) (rw e (rw n (rw e' (rw n' refl)))))
        ]
      ]
]

-- Defining a symbol in a frame returns: it reports that memory is exhausted and leaves the heap as
-- it was, or afterwards looking the symbol up from the frame finds the value, every lookup of any
-- other name from anywhere answers as before, and every other object is as it was.
pub ml_env_define_lem :
    (s : State) (p : ℕ) (f : Frame) (name v : Value)
    → FrameAt s.heap p f
    → ml_is_sym name ≡ true
    → Defines s p name v (ml_env_define (obj p) name v s)
unfolding ml_env_define append_binding store
ml_env_define_lem s p f name v here is =
    rw (get_env_at p f s here, ml_env_define)
      (rw is (elim (Option-cases (replace_frame name v f.bindings)) [
        | inr (bs, e) ↦ rw e (
            defined (
              Rebinds-Bound is (record {
                old = f;
                new = record f { bindings = bs };
                before = here;
                heap = refl;
                parent = refl;
                bindings = Rebound-replace name v f.bindings bs e;
              })))
        | inl e ↦ rw e (elim (room_lem f s) [
          | inr (k, r) ↦ rw r (no_memory refl)
          | inl (k, c, r) ↦ rw r (
              defined (
                Rebinds-Bound is (record {
                  old = f;
                  new = record f { capacity = c; bindings = f.bindings ++ (name, v) ∷ [] };
                  before = here;
                  heap = refl;
                  parent = refl;
                  bindings = Rebound-append name v f.bindings e;
                })))
        ])
      ]))
