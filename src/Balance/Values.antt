-- ===== src/Balance/Values.antt =====
-- The protect stack and the depth counters in src/value.c and src/printer.c.
use microlisp.Base.{
  ℕ, zero, suc, ◌-◌, ◌≡◌, refl, ◌∷◌, ◌++◌, [], List, Bool, true, false, Option, none, some,
  if◌then◌else◌, length, leb, arith, ℤ, codes, take,
}
use microlisp.Value.{
  Value, Imm, Obj, obj, fix, imm, pair, string, closure, primitive, env, mv_nil, ml_value_eq,
}
use microlisp.State.{State, M, ok, pure, always, modify, ◌>>◌}
use microlisp.Equal.{
  eqv_string, equal_second, ml_value_eqv, enter_equal, leave_equal, equal_pairs, equal_parts,
  equal_call, equal_loop, ml_value_equal,
}
use microlisp.Printer.{
  Sink, is_special, escape, emit, emit_int, quoted_loop, emit_string_quoted, print_tail,
  chain_round, chain_loop, print_pair_contents, print_object, print_value_inner, print_call,
  print_value, ml_print,
}
use microlisp.Symtab.{ml_sym_name}
use microlisp.Balance.{
  Balanced, Steady, Over, Leaves-over, done, endless, Balanced-if, Balanced-finish,
  Balanced-clean_up, Steady-pure, Steady-bind, Steady-if, Steady-bool, Steady-reject_with,
}
use microlisp.Balance.Store.{Steady-get_obj, Steady-get_pair}

Steady-eqv_string : (b : Value) (x : Option Obj) → Steady (eqv_string b x)
Steady-eqv_string b (some (string x)) = Steady-bind (Steady-get_obj b) (λ y. Steady-pure _)
Steady-eqv_string b _ = Steady-pure false

pub Steady-ml_value_eqv : (a b : Value) → Steady (ml_value_eqv a b)
unfolding ml_value_eqv
Steady-ml_value_eqv a b =
    Steady-if (ml_value_eq a b) (Steady-pure true)
      (Steady-bind (Steady-get_obj a) (Steady-eqv_string b))

abbrev deeper : State → State
deeper s = record s { equal_depth = suc s.equal_depth }

left : (s t : State) → Over (deeper s) [] t → (u : State) × (leave_equal t ≡ ok tt u) × Over s [] u
unfolding leave_equal
left s t o = (
  record t { equal_depth = t.equal_depth - 1 },
  refl,
  record {
    stack = o.stack;
    eval_depth = o.eval_depth;
    print_depth = o.print_depth;
    equal_depth = omega (arith, o.equal_depth);
  },
)

module _ (again : Value → Value → M Bool) (ih : (a b : Value) → Steady (again a b)) where
  after_car :
      (s t : State) (d d' : Value) (car_eq : Bool)
      → Over (deeper s) [] t
      → Balanced s
          ((if car_eq then always leave_equal (again d d') else leave_equal >> pure false) t)
  after_car s t d d' true o =
      Balanced-finish s (deeper s) leave_equal (left s) (Leaves-over o refl refl ((ih d d').at t))
  after_car s t d d' false o = let (u, run, o') = left s t o in rw run (done [] refl o')

  Steady-equal_pairs : (x y : Option Obj) → Steady (equal_pairs again x y)
  unfolding enter_equal
  Steady-equal_pairs (some (pair a d)) (some (pair a' d')) = record {
    at = λ s.
        Balanced-clean_up s (deeper s) leave_equal (left s) _ ((ih a a').at (deeper s))
          (λ car_eq t o. after_car s t d d' car_eq o);
  }
  Steady-equal_pairs _ _ = Steady-pure false

  Steady-equal_second : (b : Value) (x : Option Obj) → Steady (equal_second again b x)
  Steady-equal_second b (some (pair a d)) =
      Steady-bind (Steady-get_obj b) (Steady-equal_pairs (some (pair a d)))
  Steady-equal_second b _ = Steady-pure false

  Steady-equal_parts : (a b : Value) (e : Bool) → Steady (equal_parts again a b e)
  Steady-equal_parts a b true = Steady-pure true
  Steady-equal_parts a b false = Steady-bind (Steady-get_obj a) (Steady-equal_second b)

  Steady-equal_call : (a b : Value) → Steady (equal_call again a b)
  unfolding equal_call
  Steady-equal_call a b = record {
    at = λ s.
        Balanced-if (leb s.max_equal_depth s.equal_depth) ((Steady-reject_with _ _ _).at s)
          ((Steady-bind (Steady-ml_value_eqv a b) (Steady-equal_parts a b)).at s);
  }

Steady-equal_loop : (fuel : ℕ) (a b : Value) → Steady (equal_loop fuel a b)
unfolding equal_loop
Steady-equal_loop zero a b = record { at = λ s. endless }
Steady-equal_loop (suc fuel) a b = record {
  at = (Steady-equal_call (equal_loop fuel) (Steady-equal_loop fuel) a b).at;
}

pub Steady-ml_value_equal : (a b : Value) → Steady (ml_value_equal a b)
unfolding ml_value_equal
Steady-ml_value_equal a b = record {
  at = λ s. (Steady-equal_loop (suc (s.max_equal_depth - s.equal_depth)) a b).at s;
}

abbrev inside : State → State
inside s = record s { print_depth = suc s.print_depth }

outside :
    (s t : State)
    → Over (inside s) [] t
    → (u : State) × (modify (λ x. record x { print_depth = x.print_depth - 1 }) t ≡ ok tt u)
      × Over s [] u
outside s t o = (
  record t { print_depth = t.print_depth - 1 },
  refl,
  record {
    stack = o.stack;
    eval_depth = o.eval_depth;
    print_depth = omega (arith, o.print_depth);
    equal_depth = o.equal_depth;
  },
)

-- The printer into any sink that is steady itself.
module _ {U : Type 0} (out : Sink U) (steady_out : (bs : List ℕ) (u : U) → Steady (out bs u)) where
  Steady-emit : (bs : List ℕ) (u : U) → Steady (emit out bs u)
  Steady-emit [] u = Steady-pure u
  Steady-emit (b ∷ bs) u = steady_out (b ∷ bs) u

  Steady-emit_int : (x : ℤ) (u : U) → Steady (emit_int out x u)
  unfolding emit_int
  Steady-emit_int x u = record { at = λ s. (Steady-emit (s.libc.show_int x) u).at s }

  Steady-quoted_loop : (run bs : List ℕ) (u : U) → Steady (quoted_loop out run bs u)
  unfolding quoted_loop
  Steady-quoted_loop run [] u = Steady-bind (Steady-emit run u) (λ u. Steady-emit (34 ∷ []) u)
  Steady-quoted_loop run (c ∷ cs) u =
      Steady-bool (is_special c)
        (record {
          at = λ s.
              (Steady-bind (Steady-emit run u) (λ u.
                  Steady-bind (Steady-emit (escape s.libc c) u)
                    (λ u. Steady-quoted_loop [] cs u))).at
                s;
        })
        (Steady-quoted_loop (run ++ c ∷ []) cs u)

  module _ (write_style : Bool) (again : Value → U → M U)
      (ih : (v : Value) (u : U) → Steady (again v u)) where
    Steady-print_tail : (rest : Value) (u : U) → Steady (print_tail out write_style again rest u)
    unfolding print_tail
    Steady-print_tail rest u =
        Steady-if (ml_value_eq rest mv_nil) (Steady-pure u)
          (Steady-bind (Steady-emit (32 ∷ 46 ∷ 32 ∷ []) u) (λ u. ih rest u))

    Steady-chain_loop :
        (fuel : ℕ) (rest : Value) (u : U) → Steady (chain_loop out write_style again fuel rest u)
    unfolding chain_loop
    Steady-chain_loop zero rest u = record { at = λ s. endless }
    Steady-chain_loop (suc fuel) rest u =
        Steady-bind (Steady-get_pair rest) (λ p. round p (Steady-chain_loop fuel))
      where
        round :
            (p : Option (Value × Value))
            → ((d : Value) (u : U) → Steady (chain_loop out write_style again fuel d u))
            → Steady
                (chain_round out write_style again (chain_loop out write_style again fuel) rest p u)
        round none next = Steady-print_tail rest u
        round (some (a, d)) next =
            Steady-bind (Steady-emit (32 ∷ []) u) (λ u. Steady-bind (ih a u) (λ u. next d u))

    Steady-print_object : (o : Option Obj) (u : U) → Steady (print_object out write_style again o u)
    unfolding print_object print_pair_contents emit_string_quoted
    Steady-print_object (some (string bs)) u =
        Steady-if write_style
          (Steady-bind (Steady-emit (34 ∷ []) u) (λ u. Steady-quoted_loop [] bs u))
          (Steady-emit bs u)
    Steady-print_object (some (pair a d)) u = Steady-bind (Steady-emit (40 ∷ []) u) (λ u.
        Steady-bind
          (Steady-bind (ih a u)
            (λ u. record { at = λ s. (Steady-chain_loop (suc (length s.heap)) d u).at s }))
          (λ u. Steady-emit (41 ∷ []) u))
    Steady-print_object (some (primitive p)) u =
        Steady-emit (take 127 (codes "#<procedure:" ++ (p.name ++ codes ">"))) u
    Steady-print_object (some (closure c)) u = Steady-emit (codes "#<procedure>") u
    Steady-print_object (some (env f)) u = Steady-emit (codes "#<environment>") u
    Steady-print_object none u = Steady-emit (codes "#<unknown>") u

    Steady-print_value_inner :
        (v : Value) (u : U) → Steady (print_value_inner out write_style again v u)
    unfolding print_value_inner
    Steady-print_value_inner (fix x) u = Steady-emit_int x u
    Steady-print_value_inner (imm Imm.nil) u = Steady-emit (codes "()") u
    Steady-print_value_inner (imm Imm.yes_) u = Steady-emit (codes "#t") u
    Steady-print_value_inner (imm Imm.no_) u = Steady-emit (codes "#f") u
    Steady-print_value_inner (imm Imm.eof) u = Steady-emit (codes "#<eof>") u
    Steady-print_value_inner (imm Imm.undef) u = Steady-emit (codes "#<undefined>") u
    Steady-print_value_inner (Value.sym i) u = record {
      at = λ s. (Steady-emit (ml_sym_name s (Value.sym i)) u).at s;
    }
    Steady-print_value_inner (obj a) u =
        Steady-bind (Steady-get_obj (obj a)) (λ o. Steady-print_object o u)

    Steady-print_call : (v : Value) (u : U) → Steady (print_call out write_style again v u)
    unfolding print_call
    Steady-print_call v u = record {
      at = λ s.
          Balanced-if (leb s.max_print_depth s.print_depth) ((Steady-reject_with _ _ _).at s) (
            Balanced-finish s (inside s) _ (outside s)
              ((Steady-print_value_inner v u).at (inside s)));
    }

  Steady-print_value :
      (w : Bool) (fuel : ℕ) (v : Value) (u : U) → Steady (print_value out w fuel v u)
  unfolding print_value
  Steady-print_value w zero v u = record { at = λ s. endless }
  Steady-print_value w (suc fuel) v u = record {
    at = (Steady-print_call w (print_value out w fuel) (Steady-print_value w fuel) v u).at;
  }

  pub Steady-ml_print : (w : Bool) (v : Value) (u : U) → Steady (ml_print out w v u)
  unfolding ml_print
  Steady-ml_print w v u = record {
    at = λ s. (Steady-print_value w (suc (s.max_print_depth - s.print_depth)) v u).at s;
  }
