-- ===== src/Gc/Children.antt =====
-- The references that gc_drain_worklist of src/gc.c visits in an object, and those that it holds.
use microlisp.Base.{◌≡◌, refl, sym, ap, subst, ◌⊎◌, inl, inr, ◌↔◌, List, [], ◌∷◌}
use microlisp.Value.{Value, Obj, Frame, Closure, pair, string, closure, primitive, env}
use microlisp.Gc.{children, binding_refs}
use microlisp.Gc.Collect.{In}

abbrev pub InBindings : Value × Value → List (Value × Value) → Type 0
InBindings b [] = ⊥
InBindings b (x ∷ xs) = (b ≡ x) ⊎ InBindings b xs

-- The values in an object's fields.
pub data Holds : Obj → Value → Type 0 where
  in_car : {a d : Value} → Holds (pair a d) a
  in_cdr : {a d : Value} → Holds (pair a d) d
  in_env : {c : Closure} → Holds (closure c) c.env
  in_params : {c : Closure} → Holds (closure c) c.params
  in_body : {c : Closure} → Holds (closure c) c.body
  in_parent : {f : Frame} → Holds (env f) f.parent
  in_names : {f : Frame} {n : Value} (v : Value) → InBindings (n, v) f.bindings → Holds (env f) n
  in_values : {f : Frame} {v : Value} (n : Value) → InBindings (n, v) f.bindings → Holds (env f) v

bound_of :
    (u : Value) (bs : List (Value × Value))
    → In u (binding_refs bs)
    → (n : Value) × (v : Value) × InBindings (n, v) bs × ((u ≡ n) ⊎ (u ≡ v))
unfolding binding_refs
bound_of u [] i = absurd i
bound_of u ((n, v) ∷ bs) (inl e) = (n, v, inl refl, inr e)
bound_of u ((n, v) ∷ bs) (inr (inl e)) = (n, v, inl refl, inl e)
bound_of u ((n, v) ∷ bs) (inr (inr i)) =
    let (n', v', i', e) = bound_of u bs i in (n', v', inr i', e)

refs_of :
    (n v : Value) (bs : List (Value × Value))
    → InBindings (n, v) bs
    → In n (binding_refs bs) × In v (binding_refs bs)
unfolding binding_refs
refs_of n v [] i = absurd i
refs_of n v ((m, w) ∷ bs) (inl e) = (inr (inl (ap (λ p. p.0) e)), inl (ap (λ p. p.1) e))
refs_of n v ((m, w) ∷ bs) (inr i) = let (a, b) = refs_of n v bs i in (inr (inr a), inr (inr b))

visited-Holds : (o : Obj) (u : Value) → In u (children o) → Holds o u
unfolding children
visited-Holds (pair a d) u (inl e) = subst (Holds (pair a d)) (sym e) in_car
visited-Holds (pair a d) u (inr (inl e)) = subst (Holds (pair a d)) (sym e) in_cdr
visited-Holds (pair a d) u (inr (inr i)) = absurd i
visited-Holds (string x) u i = absurd i
visited-Holds (primitive p) u i = absurd i
visited-Holds (closure c) u (inl e) = subst (Holds (closure c)) (sym e) in_env
visited-Holds (closure c) u (inr (inl e)) = subst (Holds (closure c)) (sym e) in_params
visited-Holds (closure c) u (inr (inr (inl e))) = subst (Holds (closure c)) (sym e) in_body
visited-Holds (closure c) u (inr (inr (inr i))) = absurd i
visited-Holds (env f) u (inl e) = subst (Holds (env f)) (sym e) in_parent
visited-Holds (env f) u (inr i) =
    let (n, v, i', e) = bound_of u f.bindings i in
    elim e [
      | inl name ↦ subst (Holds (env f)) (sym name) (in_names v i')
      | inr value ↦ subst (Holds (env f)) (sym value) (in_values n i')
    ]

Holds-visited : (o : Obj) (u : Value) → Holds o u → In u (children o)
unfolding children
Holds-visited (pair a d) u in_car = inl refl
Holds-visited (pair a d) u in_cdr = inr (inl refl)
Holds-visited (string x) u h = elim h [ ]
Holds-visited (primitive p) u h = elim h [ ]
Holds-visited (closure c) u in_env = inl refl
Holds-visited (closure c) u in_params = inr (inl refl)
Holds-visited (closure c) u in_body = inr (inr (inl refl))
Holds-visited (env f) u in_parent = inl refl
Holds-visited (env f) u (in_names v i) = inr (refs_of u v f.bindings i).0
Holds-visited (env f) u (in_values n i) = inr (refs_of n u f.bindings i).1

-- The collector visits a value from an object exactly if one of the object's fields holds it: both
-- fields of a pair, the three of a closure, and a frame's parent, names and values.
pub children-Holds : (o : Obj) (v : Value) → In v (children o) ↔ Holds o v
children-Holds o v = (visited-Holds o v, Holds-visited o v)
