-- ===== src/Balance/Tables.antt =====
-- The protect stack and the depth counters in src/symtab.c and src/env.c.
use microlisp.Base.{ℕ, zero, suc, ◌+◌, ◌%◌, ◌^◌, refl, List, Option, none, some, ◌==◌, length, ltb}
use microlisp.Value.{Value, Frame, ml_is_sym}
use microlisp.State.{Status, State, M, ok, pure, ◌>>◌}
use microlisp.Gc.{grown_cap}
use microlisp.Symtab.{index_from, sym_grown, sym_room, sym_append, sym_fresh, ml_sym_intern}
use microlisp.Env.{
  get_env, env_grown, env_names_grown, env_grow, env_room, append_binding, addr_of, define_in,
  define_frame, replace_frame, ml_env_define, or_parent, lookup_frame, lookup_round, lookup_loop,
  ml_env_lookup, set_round, set_loop, ml_env_set,
}
use microlisp.Balance.{
  Balanced, Steady, endless, Balanced-ok, Balanced-err, Balanced-if, Steady-pure, Steady-fail,
  Steady-bind, Steady-if, steady,
}
use microlisp.Balance.Store.{Steady-deref, Steady-store, Steady-ml_raw_alloc, Steady-alloc_array}

Steady-sym_grown : (p : Option ℕ) → Steady (sym_grown p)
Steady-sym_grown none = Steady-fail Status.nomem
Steady-sym_grown (some _) = record { at = λ s. Balanced-ok tt refl refl refl refl }

Steady-sym_room : Steady sym_room
unfolding sym_room
Steady-sym_room = record {
  at = λ s.
      Balanced-if (length s.symtab == s.symtab_cap)
        ((Steady-bind (Steady-alloc_array (grown_cap 32 s.symtab_cap) 16) Steady-sym_grown).at s)
        (Balanced-ok tt refl refl refl refl);
}

Steady-sym_append : (name : List ℕ) (p : Option ℕ) → Steady (sym_append name p)
Steady-sym_append name none = Steady-fail Status.nomem
Steady-sym_append name (some _) = record { at = λ s. Balanced-ok _ refl refl refl refl }

Steady-sym_fresh : (name : List ℕ) → Steady (sym_fresh name)
unfolding sym_fresh
Steady-sym_fresh name = record {
  at = λ s.
      Balanced-if (ltb 0x0fff_ffff (length s.symtab))
        (Balanced-err Status.nomem refl refl refl refl)
        ((Steady-bind (Steady-ml_raw_alloc (length name + 1)) (Steady-sym_append name)).at s);
}

pub Steady-ml_sym_intern : (name : List ℕ) → Steady (ml_sym_intern name)
unfolding ml_sym_intern
Steady-ml_sym_intern name = record { at = λ s. intern s (index_from 0 name s.symtab) }
  where
    intern :
        (s : State) (o : Option ℕ)
        → Balanced s (elim o [
          | some i ↦ ok (Value.sym (i % 2 ^ 32)) s
          | none ↦ (sym_room >> sym_fresh name) s
        ])
    intern s (some i) = Balanced-ok (Value.sym (i % 2 ^ 32)) refl refl refl refl
    intern s none = (Steady-bind Steady-sym_room (λ _. Steady-sym_fresh name)).at s

-- Environments.
Steady-get_env : (v : Value) → Steady (get_env v)
unfolding get_env
Steady-get_env v = search (steady, Steady-deref)

Steady-env_grown : (f : Frame) (p q : Option ℕ) → Steady (env_grown f p q)
Steady-env_grown f (some _) (some _) = record { at = λ s. Balanced-ok _ refl refl refl refl }
Steady-env_grown f (some _) none = Steady-fail Status.nomem
Steady-env_grown f none (some _) = Steady-fail Status.nomem
Steady-env_grown f none none = Steady-fail Status.nomem

Steady-env_names_grown : (f : Frame) (p : Option ℕ) → Steady (env_names_grown f p)
Steady-env_names_grown f none = Steady-fail Status.nomem
Steady-env_names_grown f (some p) =
    Steady-bind (Steady-alloc_array (grown_cap 8 f.capacity) 8) (Steady-env_grown f (some p))

Steady-env_room : (f : Frame) → Steady (env_room f)
unfolding env_room env_grow
Steady-env_room f =
    Steady-if (length f.bindings == f.capacity)
      (Steady-bind (Steady-alloc_array (grown_cap 8 f.capacity) 8) (Steady-env_names_grown f))
      (Steady-pure f)

Steady-append_binding : (e name v : Value) (f : Frame) → Steady (append_binding e name v f)
unfolding append_binding
Steady-append_binding e name v f = search (steady, Steady-env_room, Steady-store)

Steady-define_in :
    (e name v : Value) (f : Frame) (o : Option (List (Value × Value)))
    → Steady (define_in e name v f o)
Steady-define_in e name v f (some bs) = Steady-store (addr_of e) _
Steady-define_in e name v f none = Steady-append_binding e name v f

Steady-define_frame : (e name v : Value) (o : Option Frame) → Steady (define_frame e name v o)
Steady-define_frame e name v none = Steady-fail Status.invalid_arg
Steady-define_frame e name v (some f) = record {
  at = λ s.
      Balanced-if (ml_is_sym name)
        ((Steady-define_in e name v f (replace_frame name v f.bindings)).at s)
        (Balanced-err Status.invalid_arg refl refl refl refl);
}

pub Steady-ml_env_define : (e name v : Value) → Steady (ml_env_define e name v)
unfolding ml_env_define
Steady-ml_env_define e name v = Steady-bind (Steady-get_env e) (Steady-define_frame e name v)

Steady-or_parent {ℓ} :
    {A B : Type ℓ} (found : A → M B) (parent : M B) (o : Option A)
    → ((a : A) → Steady (found a))
    → Steady parent
    → Steady (or_parent found parent o)
Steady-or_parent found parent (some a) f p = f a
Steady-or_parent found parent none f p = p

Steady-lookup_round :
    (outer : Value → M Value) (name : Value) (o : Option Frame)
    → ((v : Value) → Steady (outer v))
    → Steady (lookup_round outer name o)
Steady-lookup_round outer name none ih = Steady-fail Status.unbound
Steady-lookup_round outer name (some f) ih = record {
  at =
      (Steady-or_parent pure (outer f.parent) (lookup_frame name f.bindings) Steady-pure
        (ih f.parent)).at;
}

Steady-lookup_loop : (fuel : ℕ) (name cur : Value) → Steady (lookup_loop fuel name cur)
unfolding lookup_loop
Steady-lookup_loop zero name cur = record { at = λ s. endless }
Steady-lookup_loop (suc fuel) name cur = record {
  at =
      (Steady-bind (Steady-get_env cur) (λ o.
        Steady-lookup_round (lookup_loop fuel name) name o (Steady-lookup_loop fuel name))).at;
}

pub Steady-ml_env_lookup : (e name : Value) → Steady (ml_env_lookup e name)
unfolding ml_env_lookup
Steady-ml_env_lookup e name = record {
  at = λ s.
      Balanced-if (ml_is_sym name) ((Steady-lookup_loop (suc (length s.heap)) name e).at s)
        (Balanced-err Status.invalid_arg refl refl refl refl);
}

Steady-set_round :
    (outer : Value → M (Unit {0})) (cur name v : Value) (o : Option Frame)
    → ((w : Value) → Steady (outer w))
    → Steady (set_round outer cur name v o)
Steady-set_round outer cur name v none ih = Steady-fail Status.unbound
Steady-set_round outer cur name v (some f) ih = record {
  at =
      (Steady-or_parent _ (outer f.parent) (replace_frame name v f.bindings)
        (λ bs. Steady-store (addr_of cur) _) (ih f.parent)).at;
}

Steady-set_loop : (fuel : ℕ) (name v cur : Value) → Steady (set_loop fuel name v cur)
unfolding set_loop
Steady-set_loop zero name v cur = record { at = λ s. endless }
Steady-set_loop (suc fuel) name v cur = record {
  at =
      (Steady-bind (Steady-get_env cur) (λ o.
        Steady-set_round (set_loop fuel name v) cur name v o (Steady-set_loop fuel name v))).at;
}

pub Steady-ml_env_set : (e name v : Value) → Steady (ml_env_set e name v)
unfolding ml_env_set
Steady-ml_env_set e name v = record {
  at = λ s.
      Balanced-if (ml_is_sym name) ((Steady-set_loop (suc (length s.heap)) name v e).at s)
        (Balanced-err Status.invalid_arg refl refl refl refl);
}
