-- ===== src/Env/Assign.antt =====
-- set! against lookup: ml_env_set and ml_env_lookup of src/env.c.
use microlisp.Base.{
  ℕ, zero, suc, ◌≡◌, ◌≢◌, refl, ◌∙◌, ◌⊎◌, inl, inr, true, Bool-cases, Option-cases, none, some,
  List, ◌==◌, ==_iff, length, arith,
}
use microlisp.Value.{
  Value, Obj, Frame, pair, string, closure, primitive, obj, env, ml_is_obj, ml_is_sym,
}
use microlisp.State.{
  Status, State, Run, ok, err, fault, out_of_fuel, and_then, find, deref, replace, store,
}
use microlisp.Env.{
  as_frame, get_env, lookup_loop, ml_env_lookup, replace_frame, set_round, set_loop, ml_env_set,
}
use microlisp.Env.Bindings.{
  Rebound-replace, lookup_frame-none, lookup_frame-some, find-replace_ne, length-replace,
}
use microlisp.Env.Laws.{FrameAt, Agrees, Rebinds, FrameAt-after, get_env_at, Rebinds-Bound}

-- How the walk of set! ends, next to the walk of a lookup with as much fuel.
data Walks (s : State) (name v : Value) (fuel : ℕ) (cur : Value) : Run (Unit {0}) → Type 0 where
  reached :
      {t : State} {p : ℕ} {w : Value} (r : Rebinds s p name v t)
      → replace_frame name v r.old.bindings ≡ some r.new.bindings
      → lookup_loop fuel name cur s ≡ ok w s
      → lookup_loop fuel name cur t ≡ ok v t
      → Walks s name v fuel cur (ok tt t)
  failed : {e : Status} → lookup_loop fuel name cur s ≡ err e s → Walks s name v fuel cur (err e s)
  dangling : lookup_loop fuel name cur s ≡ fault → Walks s name v fuel cur fault
  endless : lookup_loop fuel name cur s ≡ out_of_fuel → Walks s name v fuel cur out_of_fuel

frame_cases :
    (q : ℕ) (s : State)
    → (get_env (obj q) s ≡ fault)
      ⊎ ((get_env (obj q) s ≡ ok none s) ⊎ ((f : Frame) × FrameAt s.heap q f))
unfolding get_env deref
frame_cases q s = elim (Bool-cases (ml_is_obj (obj q))) [
  | inr null ↦ inr (inl (rw (null, get_env) refl))
  | inl is ↦ elim (Option-cases (find q s.heap)) [
    | inl gone ↦ inl (rw (is, get_env) (rw (gone, deref) refl))
    | inr (c, here) ↦ inr (elim (env_cases c.body) [
      | inl (f, e) ↦ inr (f, (c, here, e, is))
      | inr e ↦ inl (rw (is, get_env) (rw (here, deref) (rw e refl)))
    ])
  ]
]
  where
    env_cases : (o : Obj) → ((f : Frame) × (o ≡ env f)) ⊎ (as_frame o ≡ none)
    env_cases (env f) = inl (f, refl)
    env_cases (pair _ _) = inr refl
    env_cases (string _) = inr refl
    env_cases (closure _) = inr refl
    env_cases (primitive _) = inr refl

module _ (s : State) (name v : Value) where
  here_lem :
      (fuel q : ℕ) (f : Frame) (bs : List (Value × Value))
      → FrameAt s.heap q f
      → replace_frame name v f.bindings ≡ some bs
      → Walks s name v (suc fuel) (obj q) (store q (env (record f { bindings = bs })) s)
  unfolding lookup_loop store
  here_lem fuel q f bs at e =
      let t = record s { heap = replace q (env (record f { bindings = bs })) s.heap } in
      let r : Rebinds s q name v t = record {
        old = f;
        new = record f { bindings = bs };
        before = at;
        heap = refl;
        parent = refl;
        bindings = Rebound-replace name v f.bindings bs e;
      } in
      let (w, found) = lookup_frame-some name v f.bindings bs e in
      reached {w = w} r e (rw (get_env_at q f s at) (rw found refl))
        (rw (get_env_at q r.new t (FrameAt-after r)) (rw r.bindings.bound refl))

  -- A frame that does not bind the name is as it was.
  frame_kept :
      {t : State} {p : ℕ} (r : Rebinds s p name v t)
      → replace_frame name v r.old.bindings ≡ some r.new.bindings
      → (q : ℕ) (f : Frame) → FrameAt s.heap q f
      → replace_frame name v f.bindings ≡ none
      → FrameAt t.heap q f
  frame_kept {t} {p} r some_new q f (c, here, b, is) e = elim (Bool-cases (q == p)) [
    | inr ne ↦
        let away = find-replace_ne p q (env r.new) s.heap (ground (arith, ==_iff q p)) in
        (c, rw r.heap (away ∙ here), b, is)
    | inl at ↦
        let (c', here', b', _) = r.before in
        let same : env f ≡ env r.old = cc ((==_iff q p).0 at) in let equal : f ≡ r.old = cc in cc
  ]

  outer_lem :
      (fuel q : ℕ) (f : Frame) {run : Run (Unit {0})}
      → FrameAt s.heap q f
      → replace_frame name v f.bindings ≡ none
      → Walks s name v fuel f.parent run
      → Walks s name v (suc fuel) (obj q) run
  unfolding lookup_loop
  outer_lem fuel q f at e (failed h) =
      failed (rw (get_env_at q f s at) (rw (lookup_frame-none name v f.bindings e) h))
  outer_lem fuel q f at e (dangling h) =
      dangling (rw (get_env_at q f s at) (rw (lookup_frame-none name v f.bindings e) h))
  outer_lem fuel q f at e (endless h) =
      endless (rw (get_env_at q f s at) (rw (lookup_frame-none name v f.bindings e) h))
  outer_lem fuel q f at e (reached {t} {p} {w} r some_new h now) =
      let none_here = lookup_frame-none name v f.bindings e in
      reached {w = w} r some_new (rw (get_env_at q f s at) (rw none_here h))
        (rw (get_env_at q f t (frame_kept r some_new q f at e)) (rw none_here now))

  frame_lem :
      (fuel q : ℕ)
      → ((cur : Value) → Walks s name v fuel cur (set_loop fuel name v cur s))
      → Walks s name v
          (suc fuel)
          (obj q)
          (and_then (get_env (obj q) s) (set_round (set_loop fuel name v) (obj q) name v))
  unfolding lookup_loop
  frame_lem fuel q ih = elim (frame_cases q s) [
    | inl gone ↦ rw gone (dangling (rw gone refl))
    | inr (inl e) ↦ rw e (failed (rw e refl))
    | inr (inr (f, at)) ↦
        rw (get_env_at q f s at) (elim (Option-cases (replace_frame name v f.bindings)) [
          | inl e ↦ rw e (outer_lem fuel q f at e (ih f.parent))
          | inr (bs, e) ↦ rw e (here_lem fuel q f bs at e)
        ])
  ]

  walk_lem : (fuel : ℕ) (cur : Value) → Walks s name v fuel cur (set_loop fuel name v cur s)
  unfolding set_loop lookup_loop get_env
  walk_lem zero cur = endless refl
  walk_lem (suc fuel) (Value.fix x) = failed refl
  walk_lem (suc fuel) (Value.imm x) = failed refl
  walk_lem (suc fuel) (Value.sym x) = failed refl
  walk_lem (suc fuel) (obj q) = frame_lem fuel q (walk_lem fuel)

-- How set! ends, next to a lookup of the name.
pub data Assigns (s : State) (cur name v : Value) : Run (Unit {0}) → Type 0 where
  assigned :
      {t : State} (w : Value)
      → ml_env_lookup cur name s ≡ ok w s
      → ml_env_lookup cur name t ≡ ok v t
      → ((q m : Value) → m ≢ name → Agrees s t (ml_env_lookup q m s) (ml_env_lookup q m t))
      → Assigns s cur name v (ok tt t)
  refused : {e : Status} → ml_env_lookup cur name s ≡ err e s → Assigns s cur name v (err e s)
  faults : ml_env_lookup cur name s ≡ fault → Assigns s cur name v fault
  runs_on : ml_env_lookup cur name s ≡ out_of_fuel → Assigns s cur name v out_of_fuel

Walks-Assigns :
    (s : State) (cur name v : Value) {r : Run (Unit {0})}
    → ml_is_sym name ≡ true
    → Walks s name v (suc (length s.heap)) cur r
    → Assigns s cur name v r
unfolding ml_env_lookup
Walks-Assigns s cur name v is (reached {t} {p} {w} r _ found now) =
    let n : length t.heap ≡ length s.heap = rw r.heap (length-replace p (env r.new) s.heap) in
    assigned w (rw (is, ml_env_lookup) found) (rw (is, ml_env_lookup) (rw n now))
      (Rebinds-Bound is r).others
Walks-Assigns s cur name v is (failed h) = refused (rw (is, ml_env_lookup) h)
Walks-Assigns s cur name v is (dangling h) = faults (rw (is, ml_env_lookup) h)
Walks-Assigns s cur name v is (endless h) = runs_on (rw (is, ml_env_lookup) h)

-- Setting a symbol from any environment succeeds exactly if looking it up there does. Then the same
-- lookup finds the new value, and every lookup of another name from anywhere answers as before. If
-- the lookup reports an error, setting reports the same one and leaves the state as it was.
pub ml_env_set_lem :
    (s : State) (cur name v : Value)
    → ml_is_sym name ≡ true
    → Assigns s cur name v (ml_env_set cur name v s)
unfolding ml_env_set
ml_env_set_lem s cur name v is =
    rw (is, ml_env_set)
      (Walks-Assigns s cur name v is (walk_lem s name v (suc (length s.heap)) cur))
