-- ===== src/Env.antt =====
-- Environment frames of src/env.c.
pub mod Bindings
pub mod Laws
pub mod Assign
use microlisp.Base.{
  ℕ, zero, suc, ◌+◌, Bool, true, false, ◌&&◌, Option, none, some, List, [], ◌∷◌, ◌++◌, ◌==◌,
  if◌then◌else◌, length,
}
use microlisp.Value.{Value, Obj, Frame, obj, env, ml_value_eq, ml_is_obj, ml_is_sym}
use microlisp.State.{
  Status, State, Run, M, ok, err, fault, pure, reads, ◌>>=◌, ◌>>◌, find, deref, store,
}
use microlisp.Gc.{grown_cap, alloc_array}

-- The frame behind an environment value, if it is one (`ml_is_env`, `ml_as_env`).
abbrev pub as_frame : Obj → Option Frame
as_frame (env f) = some f
as_frame _ = none

unfoldable pub get_env : Value → M (Option Frame)
unfolding ml_is_obj deref
get_env v = if ml_is_obj v then deref v >>= (λ o. pure (as_frame o)) else pure none

-- `names[i] == name`: the value of the first such binding.
unfoldable pub lookup_frame : Value → List (Value × Value) → Option Value
lookup_frame name [] = none
lookup_frame name ((n, v) ∷ bs) =
    let later = lookup_frame name bs in if ml_value_eq n name then some v else later

-- The bindings with the first such value replaced; `none` if the name is not bound.
unfoldable pub replace_frame : Value → Value → List (Value × Value) → Option (List (Value × Value))
replace_frame name value [] = none
replace_frame name value ((n, v) ∷ bs) =
    let later : Option (List (Value × Value)) = elim (replace_frame name value bs) [
      | none ↦ none
      | some bs' ↦ some ((n, v) ∷ bs')
    ] in
    if ml_value_eq n name then some ((n, value) ∷ bs) else later

-- Both arrays grow or neither does; the first is freed again if the second cannot be had.
abbrev pub env_grown : Frame → Option ℕ → Option ℕ → M Frame
env_grown f (some _) (some _) s = ok (record f { capacity = grown_cap 8 f.capacity }) s
env_grown f _ none s = err Status.nomem s
env_grown f none _ s = err Status.nomem s

abbrev pub env_names_grown : Frame → Option ℕ → M Frame
env_names_grown f none s = err Status.nomem s
env_names_grown f (some p) s =
    (alloc_array (grown_cap 8 f.capacity) 8 >>= λ q. env_grown f (some p) q) s

unfoldable pub env_grow : Frame → M Frame
unfolding alloc_array
env_grow f = alloc_array (grown_cap 8 f.capacity) 8 >>= env_names_grown f

unfoldable pub env_room : Frame → M Frame
unfolding env_grow
env_room f = if length f.bindings == f.capacity then env_grow f else pure f

abbrev pub addr_of : Value → ℕ
addr_of (obj a) = a
addr_of _ = 0

-- A new binding at the end of the frame at `env_v`.
unfoldable pub append_binding : Value → Value → Value → Frame → M (Unit {0})
unfolding env_room store
append_binding env_v name value f = do
  g ← env_room f
  store (addr_of env_v) (env (record g { bindings = g.bindings ++ (name, value) ∷ [] }))

abbrev pub define_in : Value → Value → Value → Frame → Option (List (Value × Value)) → M (Unit {0})
define_in env_v name value f (some bs) = store (addr_of env_v) (env (record f { bindings = bs }))
define_in env_v name value f none = append_binding env_v name value f

abbrev pub define_frame : Value → Value → Value → Option Frame → M (Unit {0})
define_frame env_v name value none s = err Status.invalid_arg s
define_frame env_v name value (some f) s =
    if ml_is_sym name
    then define_in env_v name value f (replace_frame name value f.bindings) s
    else err Status.invalid_arg s

unfoldable pub ml_env_define : Value → Value → Value → M (Unit {0})
unfolding get_env replace_frame append_binding ml_is_sym
ml_env_define env_v name value = get_env env_v >>= define_frame env_v name value

abbrev pub or_parent {ℓ} : {A B : Type ℓ} → (A → M B) → M B → Option A → M B
or_parent found parent (some x) = found x
or_parent found parent none = parent

abbrev pub lookup_round : (Value → M Value) → Value → Option Frame → M Value
lookup_round outer name none s = err Status.unbound s
lookup_round outer name (some f) s =
    or_parent pure (outer f.parent) (lookup_frame name f.bindings) s

-- The walk up the chain of frames.
unfoldable pub lookup_loop : ℕ → Value → Value → M Value
unfolding get_env lookup_frame
lookup_loop zero name cur s = Run.out_of_fuel
lookup_loop (suc fuel) name cur s = (get_env cur >>= lookup_round (lookup_loop fuel name) name) s

-- One round for each object and one more.
unfoldable pub ml_env_lookup : Value → Value → M Value
unfolding lookup_loop ml_is_sym
ml_env_lookup env_v name s =
    if ml_is_sym name
    then lookup_loop (suc (length s.heap)) name env_v s
    else err Status.invalid_arg s

abbrev pub set_round : (Value → M (Unit {0})) → Value → Value → Value → Option Frame → M (Unit {0})
set_round outer cur name value none s = err Status.unbound s
set_round outer cur name value (some f) s =
    or_parent (λ bs. store (addr_of cur) (env (record f { bindings = bs }))) (outer f.parent)
      (replace_frame name value f.bindings) s

unfoldable pub set_loop : ℕ → Value → Value → Value → M (Unit {0})
unfolding get_env replace_frame store
set_loop zero name value cur s = Run.out_of_fuel
set_loop (suc fuel) name value cur s =
    (get_env cur >>= set_round (set_loop fuel name value) cur name value) s

unfoldable pub ml_env_set : Value → Value → Value → M (Unit {0})
unfolding set_loop ml_is_sym
ml_env_set env_v name value s =
    if ml_is_sym name
    then set_loop (suc (length s.heap)) name value env_v s
    else err Status.invalid_arg s
