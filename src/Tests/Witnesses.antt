-- ===== src/Tests/Witnesses.antt =====
-- The theorems of the other modules at concrete inputs.
use microlisp.Base.{
  ℕ, ◌-◌, ◌^◌, ◌<◌, inl, inr, ◌≡◌, ◌↔◌, ◌⊎◌, ◌==◌, Bool-cases, some, subst, sym, ap, ◌∙◌, refl,
  arith, Bool, true, false, List, [], ◌∷◌, ◌++◌, none, codes, pos, negsuc,
}
use microlisp.Value.{
  Value, Obj, Cell, obj, fix, pair, env, mv_nil, ml_value_eq, ml_is_obj, ml_is_sym, ml_make_bool,
}
use microlisp.Word.{
  m_tag_of, ml_make_fix, ml_fix_int, to_word, ml_make_sym, ml_sym_index, fits_fixnum,
}
use microlisp.Word.Tags.{fix_int-make_fix, sym_index-make_sym, to_word-eq_iff}
use microlisp.State.{find, ok}
use microlisp.Gc.{ml_gc_collect, alloc_object, children}
use microlisp.Gc.Collect.{In, Collects, ml_gc_collect_lem, root}
use microlisp.Gc.Children.{Holds, children-Holds}
use microlisp.Env.Assign.{Assigns, ml_env_set_lem}
use microlisp.Gc.Protect.{Protects, protect_all, protect_all_lem}
use microlisp.Gc.Alloc.{Rooted, Allocates, alloc_object_lem}
use microlisp.Gc.Heap.{body_of}
use microlisp.Symtab.{ml_sym_intern}
use microlisp.Symtab.Intern.{Interns, ml_sym_intern_lem, ml_sym_intern-injective}
use microlisp.Env.{ml_env_set, ml_env_define}
use microlisp.Env.Laws.{Defines, ml_env_define_lem}
use microlisp.Equal.{ml_value_equal}
use microlisp.Equal.Parts.{Live, PairsLive, Decides, Equal}
use microlisp.Equal.Laws.{ml_value_equal_lem}
use microlisp.Primitives.Arith.{prim_div, prim_add, prim_sub}
use microlisp.Primitives.Arith.Laws.{Sums, prim_add_lem, prim_sub_unary}
use microlisp.Primitives.Arith.Division.{prim_div_unary, Divides, division_lem}
use microlisp.Primitives.Compare.{CmpOp, cmp_chain}
use microlisp.Primitives.Compare.Laws.{Chain, cmp_chain_lem}
use microlisp.Api.{initial_state, microlisp_eval}
use microlisp.Value.{PrimFn}
use microlisp.Primitives.Registry.{call_prim}
use microlisp.Eval.Loop.{ml_eval}
use microlisp.Reader.{Reader}
use microlisp.Reader.Forms.{ml_read}
use microlisp.Balance.{Balanced}
use microlisp.State.{Status}
use microlisp.Report.Names.{microlisp_status_string-injective}
use microlisp.Lifecycle.{UserAllocator}
use microlisp.Repl.{microlisp_repl}
use microlisp.Repl.Session.{Session, microlisp_repl_lem}
use microlisp.Cli.{Command, Slurped, slurp, parse_args, main}
use microlisp.Cli.Slurp.{regular, slurp-ends, slurp_lem}
use microlisp.Cli.Arguments.{expressions, parse_args_lem}
use microlisp.Cli.ExitCode.{Exits, main_lem}
use microlisp.Balance.Loop.{ml_eval_lem}
use microlisp.Balance.Primitives.{call_prim_lem}
use microlisp.Balance.Reader.{ml_read_lem}
use microlisp.Balance.Api.{microlisp_eval_lem}
use microlisp.Termination.{Ends, Always}
use microlisp.Termination.Collector.{ml_gc_collect-Ends}
use microlisp.Termination.Reader.{Form, ml_read-Ends}
use microlisp.Primitives.Arith.Bounds.{Settles, IsFixnum, mul_takes, call_prim-IsFixnum}
use microlisp.Tests.States.{
  fresh, world, no_text, fresh-IsAllocator, small_state, small_heap, small_state-WellFormed, frame,
}

ml_gc_collect_example : Collects small_state (ml_gc_collect small_state)
ml_gc_collect_example = ml_gc_collect_lem small_state small_state-WellFormed

abbrev new_pair : Obj
new_pair = pair (obj 8) mv_nil

new_pair-Rooted : Rooted small_state (children new_pair)
unfolding children
new_pair-Rooted a (inl e) ne = root (inl e) ne
new_pair-Rooted a (inr (inl e)) ne = cc
new_pair-Rooted a (inr (inr i)) ne = absurd i

alloc_object_example : Allocates small_state new_pair (alloc_object 32 new_pair small_state)
unfolding initial_state
alloc_object_example =
    alloc_object_lem small_state new_pair fresh-IsAllocator 32 (omega arith) small_state-WellFormed
      new_pair-Rooted

ml_sym_intern_example : Interns (codes "car") small_state (ml_sym_intern (codes "car") small_state)
ml_sym_intern_example = ml_sym_intern_lem (codes "car") small_state (omega arith)

ml_sym_intern-injective_example : (Value.sym 0 ≡ Value.sym 0) ↔ (codes "x" ≡ codes "x")
unfolding ml_sym_intern
ml_sym_intern-injective_example =
    ml_sym_intern-injective (codes "x") (codes "x") small_state small_state small_state
      (Value.sym 0) (Value.sym 0) (omega arith) refl refl

ml_env_define_example :
    Defines small_state 8
      (Value.sym 0)
      (fix (pos 5))
      (ml_env_define (obj 8) (Value.sym 0) (fix (pos 5)) small_state)
unfolding find ml_is_obj ml_is_sym
ml_env_define_example =
    ml_env_define_lem small_state 8 frame (Value.sym 0) (fix (pos 5))
      (record { addr = 8; marked = false; body = env frame }, refl, refl, refl) refl

Live-16 : Live small_heap (obj 16)
unfolding find ml_is_obj
Live-16 _ = (
  pair (fix (pos 1)) mv_nil,
  (
    16,
    record { addr = 16; marked = false; body = pair (fix (pos 1)) mv_nil },
    refl,
    refl,
    refl,
    refl,
  ),
)

number_Live : Live small_heap (fix (pos 1))
unfolding ml_is_obj
number_Live is = cc

nil_Live : Live small_heap mv_nil
unfolding ml_is_obj
nil_Live is = cc

small_pairs :
    (p : ℕ) (c : Cell) (car cdr : Value)
    → find p small_heap ≡ some c
    → c.body ≡ pair car cdr
    → ((car ≡ fix (pos 1)) ⊎ (car ≡ obj 16)) × (cdr ≡ mv_nil)
unfolding find
small_pairs p c car cdr f b =
    let e : body_of (find p small_heap) ≡ some (pair car cdr) = ap body_of f ∙ ap some b in
    elim (Bool-cases (8 == p)) [
      | inl at ↦ ground arith
      | inr n8 ↦ elim (Bool-cases (16 == p)) [ inl at ↦ ground arith | inr n16 ↦ ground arith ]
    ]

small_heap-PairsLive : PairsLive small_heap
small_heap-PairsLive v car cdr (p, c, e, _, f, b) =
    let (from, to) = small_pairs p c car cdr f b in
    (
      elim from [
        | inl atom ↦ subst (Live small_heap) (sym atom) number_Live
        | inr at ↦ subst (Live small_heap) (sym at) Live-16
      ],
      subst (Live small_heap) (sym to) nil_Live,
    )

Live-24 : Live small_heap (obj 24)
unfolding find ml_is_obj
Live-24 _ = (
  pair (obj 16) mv_nil,
  (24, record { addr = 24; marked = false; body = pair (obj 16) mv_nil }, refl, refl, refl, refl),
)

ml_value_equal_example :
    Decides small_state
      (Equal small_state.heap (obj 16) (obj 24))
      (ml_value_equal (obj 16) (obj 24) small_state)
ml_value_equal_example =
    ml_value_equal_lem (obj 16) (obj 24) small_state small_heap-PairsLive Live-16 Live-24

division_example : Divides (negsuc 6) (pos 2) small_state
unfolding fits_fixnum
division_example = division_lem (negsuc 6) (pos 2) small_state refl (λ e. ground arith)

prim_add_example :
    Sums
      (pos 0)
      (fix (pos 2) ∷ mv_nil ∷ [])
      small_state
      (prim_add (fix (pos 2) ∷ mv_nil ∷ []) small_state)
prim_add_example = prim_add_lem (fix (pos 2) ∷ mv_nil ∷ []) small_state

prim_sub_unary_example :
    prim_sub (fix (negsuc (2 ^ 59 - 1)) ∷ []) small_state
    ≡ prim_sub (fix (pos 0) ∷ fix (negsuc (2 ^ 59 - 1)) ∷ []) small_state
prim_sub_unary_example = prim_sub_unary (fix (negsuc (2 ^ 59 - 1))) small_state

cmp_chain_example :
    (v : Bool) × (cmp_chain CmpOp.cmp_le "<="
        (fix (pos 1) ∷ fix (pos 1) ∷ fix (pos 3) ∷ [])
        small_state
      ≡ ok (ml_make_bool v) small_state)
    × ((v ≡ true) ↔ Chain CmpOp.cmp_le (pos 1) (pos 1 ∷ pos 3 ∷ []))
cmp_chain_example = cmp_chain_lem CmpOp.cmp_le "<=" (pos 1) (pos 1 ∷ pos 3 ∷ []) small_state

to_word-eq_iff_example :
    (to_word (fix (negsuc 0)) ≡ to_word (obj 8)) ↔ (ml_value_eq (fix (negsuc 0)) (obj 8) ≡ true)
unfolding fits_fixnum
to_word-eq_iff_example = to_word-eq_iff (fix (negsuc 0)) (obj 8) refl (omega arith, refl)

fix_int-make_fix_example :
    (ml_fix_int (ml_make_fix (negsuc 4)) ≡ negsuc 4)
    × (m_tag_of (ml_make_fix (negsuc 4)) ≡ 1)
    × (ml_make_fix (negsuc 4) < 2 ^ 64)
unfolding fits_fixnum
fix_int-make_fix_example = fix_int-make_fix (negsuc 4) refl

sym_index-make_sym_example : ml_sym_index (ml_make_sym 7) ≡ 7
sym_index-make_sym_example = sym_index-make_sym 7 (omega arith)

children-Holds_example : In (obj 16) (children (env frame)) ↔ Holds (env frame) (obj 16)
children-Holds_example = children-Holds (env frame) (obj 16)

ml_env_set_example :
    Assigns small_state
      (obj 8)
      (Value.sym 0)
      (fix (pos 5))
      (ml_env_set (obj 8) (Value.sym 0) (fix (pos 5)) small_state)
unfolding ml_is_sym
ml_env_set_example = ml_env_set_lem small_state (obj 8) (Value.sym 0) (fix (pos 5)) refl

prim_div_unary_example :
    prim_div (fix (negsuc 0) ∷ []) small_state
    ≡ prim_div (fix (pos 1) ∷ fix (negsuc 0) ∷ []) small_state
prim_div_unary_example = prim_div_unary (fix (negsuc 0)) small_state

protect_all_example :
    Protects small_state (obj 8 ∷ obj 16 ∷ []) (protect_all (obj 8 ∷ obj 16 ∷ []) small_state)
protect_all_example = protect_all_lem (obj 8 ∷ obj 16 ∷ []) small_state

ml_eval_example : Balanced small_state (ml_eval 5 (obj 24) (obj 8) small_state)
ml_eval_example = ml_eval_lem 5 (obj 24) (obj 8) small_state

call_prim_example :
    Balanced small_state (call_prim PrimFn.list (fix (pos 1) ∷ obj 8 ∷ []) small_state)
call_prim_example = call_prim_lem PrimFn.list (fix (pos 1) ∷ obj 8 ∷ []) small_state

abbrev nested_list : Reader
nested_list = record { rest = codes "(a (b . 1) '())"; line = 1; column = 1; depth = 0 }

ml_read_example : Balanced small_state (ml_read nested_list small_state)
ml_read_example = ml_read_lem nested_list small_state

microlisp_eval_example :
    Balanced small_state (microlisp_eval 20 (codes "((lambda (x) x) '(1 2))") small_state)
microlisp_eval_example = microlisp_eval_lem 20 (codes "((lambda (x) x) '(1 2))") small_state

microlisp_status_string-injective_example : some Status.io ≡ some Status.io
microlisp_status_string-injective_example =
    microlisp_status_string-injective (some Status.io) (some Status.io) refl

abbrev arena : UserAllocator
arena = record { alloc = some fresh; has_free = true }

microlisp_repl_example : Session small_state (
    microlisp_repl no_text 20 1
      (some (codes "> "))
      (codes "(car" ∷ [] ∷ codes "'x" ∷ [])
      small_state)
microlisp_repl_example =
    microlisp_repl_lem no_text 20 1 (some (codes "> ")) (codes "(car" ∷ [] ∷ codes "'x" ∷ [])
      small_state

slurp-ends_example :
    ¬ (slurp (λ n room. codes "abc") (λ n. n == 6) (λ n. true) ≡ Slurped.endless_slurp)
slurp-ends_example = slurp-ends (λ n room. codes "abc") (λ n. n == 6) (λ n. true)

slurp_example :
    slurp (regular (codes "(display 1)")) (λ _. false) (λ _. true)
    ≡ Slurped.slurped (codes "(display 1)")
slurp_example = slurp_lem (codes "(display 1)") (omega arith)

parse_args_example :
    (parse_args false none true (expressions (codes "1" ∷ []) ++ codes "a.scm" ∷ [])
      ≡ Command.run (some (codes "1")) (some (codes "a.scm")) false)
    × ((x : List ℕ) (rest : List (List ℕ))
        → parse_args false none true (expressions (codes "1" ∷ []) ++ codes "a.scm" ∷ x ∷ rest)
          ≡ Command.extra_arguments)
    × (parse_args false none true (expressions (codes "1" ∷ []) ++ codes "--" ∷ [])
        ≡ Command.run (some (codes "1")) none false)
    × ((file : List ℕ)
        → parse_args false none true (expressions (codes "1" ∷ []) ++ codes "--" ∷ file ∷ [])
          ≡ Command.run (some (codes "1")) none false)
    × ((x y : List ℕ) (rest : List (List ℕ))
        → parse_args false none true (expressions (codes "1" ∷ []) ++ codes "--" ∷ x ∷ y ∷ rest)
          ≡ Command.extra_arguments)
parse_args_example = parse_args_lem (codes "1" ∷ []) (codes "a.scm") refl

main_example :
    Exits world 20
      (parse_args false none true (codes "-e" ∷ codes "'a" ∷ []))
      (main world 20 (codes "-e" ∷ codes "'a" ∷ []))
main_example = main_lem world 20 (codes "-e" ∷ codes "'a" ∷ [])

ml_gc_collect-Ends_example : Ends Always (ml_gc_collect small_state)
ml_gc_collect-Ends_example = ml_gc_collect-Ends small_state

ml_read-Ends_example : Ends (Form nested_list) (ml_read nested_list small_state)
ml_read-Ends_example = ml_read-Ends nested_list small_state

call_prim-IsFixnum_example :
    Settles IsFixnum (call_prim PrimFn.mul (fix (pos 6) ∷ fix (negsuc 6) ∷ []) small_state)
unfolding fits_fixnum
call_prim-IsFixnum_example =
    call_prim-IsFixnum PrimFn.mul (fix (pos 6) ∷ fix (negsuc 6) ∷ []) small_state mul_takes
      (refl, (refl, tt))

abbrev forty_two : Reader
forty_two = record { rest = codes "42)"; line = 1; column = 2; depth = 1 }
