-- ===== src/Printer.antt =====
-- The printer of src/printer.c. A sink takes bytes and its own state `U`, the `user` pointer.
use Prim.Native.String.{String}
use microlisp.Base.{
  ℕ, zero, suc, ◌-◌, Bool, true, false, ◌||◌, Option, none, some, List, [], ◌∷◌, ◌++◌, ltb, leb,
  ◌==◌, if◌then◌else◌, length, take, codes, ℤ,
}
use microlisp.Value.{
  Value, Imm, Obj, obj, fix, imm, sym, pair, string, closure, primitive, env, mv_nil, ml_value_eq,
}
use microlisp.State.{Status, Arg, Libc, Run, M, pure, modify, always, reject_with, ◌>>=◌}
use microlisp.Equal.{get_obj}
use microlisp.Symtab.{ml_sym_name}
use microlisp.Primitives.Data.{get_pair}

abbrev pub Sink : Type 0 → Type 0
Sink U = List ℕ → U → M U

-- Bytes that `write` escapes.
unfoldable pub is_special : ℕ → Bool
is_special c = c == 34 || c == 92 || ltb c 32 || c == 127

-- What `write` puts for such a byte: `\xHH` where there is no shorter escape.
unfoldable pub escape : Libc → ℕ → List ℕ
escape c b =
    if b == 34
    then 92 ∷ 34 ∷ []
    else if b == 92
    then 92 ∷ 92 ∷ []
    else if b == 10
    then 92 ∷ b'n' ∷ []
    else if b == 9
    then 92 ∷ b't' ∷ []
    else if b == 13
    then 92 ∷ b'r' ∷ []
    else if b == 0
    then 92 ∷ b'0' ∷ []
    else 92 ∷ b'x' ∷ c.show_hex b

module _ {U : Type 0} (out : Sink U) where
  abbrev pub emit : List ℕ → U → M U
  emit [] u = pure u
  emit (b ∷ bs) u = out (b ∷ bs) u

  abbrev pub emit_cstr : String → U → M U
  emit_cstr s = emit (codes s)

  unfoldable pub emit_int : ℤ → U → M U
  emit_int x u = λ s. emit (s.libc.show_int x) u s

  -- `run` is the run of bytes that need no escape and are not yet written.
  unfoldable pub quoted_loop : List ℕ → List ℕ → U → M U
  unfolding is_special escape
  quoted_loop run [] u = do u ← emit run u; emit (34 ∷ []) u
  quoted_loop run (c ∷ cs) u = elim (is_special c) [
    | true ↦ λ s. (do u ← emit run u; u ← emit (escape s.libc c) u; quoted_loop [] cs u) s
    | false ↦ quoted_loop (run ++ c ∷ []) cs u
  ]

  unfoldable pub emit_string_quoted : List ℕ → U → M U
  unfolding quoted_loop
  emit_string_quoted bytes u = do u ← emit (34 ∷ []) u; quoted_loop [] bytes u

  -- `again` prints a component.
  module _ (write_style : Bool) (again : Value → U → M U) where
    -- The end of the chain: nothing after a proper list, the tail of an improper one.
    unfoldable pub print_tail : Value → U → M U
    print_tail rest u =
        if ml_value_eq rest mv_nil
        then pure u
        else (do u ← emit (32 ∷ 46 ∷ 32 ∷ []) u; again rest u)

    abbrev pub chain_round : (Value → U → M U) → Value → Option (Value × Value) → U → M U
    chain_round next rest (some (a, d)) u = do u ← emit (32 ∷ []) u; u ← again a u; next d u
    chain_round next rest none u = print_tail rest u

    unfoldable pub chain_loop : ℕ → Value → U → M U
    unfolding get_pair print_tail
    chain_loop zero rest u = λ _. Run.out_of_fuel
    chain_loop (suc fuel) rest u = do p ← get_pair rest; chain_round (chain_loop fuel) rest p u

    unfoldable pub print_pair_contents : Value → Value → U → M U
    unfolding chain_loop
    print_pair_contents a d u = do u ← again a u; λ s. chain_loop (suc (length s.heap)) d u s

    unfoldable pub print_object : Option Obj → U → M U
    unfolding print_pair_contents emit_string_quoted
    print_object (some (string bytes)) u =
        if write_style then emit_string_quoted bytes u else emit bytes u
    print_object (some (pair a d)) u = do
      u ← emit (40 ∷ []) u
      u ← print_pair_contents a d u
      emit (41 ∷ []) u
    print_object (some (primitive p)) u =
        emit (take 127 (codes "#<procedure:" ++ (p.name ++ codes ">"))) u
    print_object (some (closure c)) u = emit_cstr "#<procedure>" u
    print_object (some (env f)) u = emit_cstr "#<environment>" u
    print_object none u = emit_cstr "#<unknown>" u

    unfoldable pub print_value_inner : Value → U → M U
    unfolding print_object emit_int get_obj ml_sym_name
    print_value_inner (fix x) u = emit_int x u
    print_value_inner (imm Imm.nil) u = emit_cstr "()" u
    print_value_inner (imm Imm.yes_) u = emit_cstr "#t" u
    print_value_inner (imm Imm.no_) u = emit_cstr "#f" u
    print_value_inner (imm Imm.eof) u = emit_cstr "#<eof>" u
    print_value_inner (imm Imm.undef) u = emit_cstr "#<undefined>" u
    print_value_inner (sym i) u = λ s. emit (ml_sym_name s (sym i)) u s
    print_value_inner (obj a) u = do o ← get_obj (obj a); print_object o u

  -- One call, given the calls that it makes.
  unfoldable pub print_call : Bool → (Value → U → M U) → Value → U → M U
  unfolding print_value_inner
  print_call write_style again v u s =
      if leb s.max_print_depth s.print_depth
      then reject_with Status.print_depth "print recursion depth exceeded limit of %zu"
          (Arg.num s.max_print_depth ∷ []) s
      else always (modify λ t. record t { print_depth = t.print_depth - 1 })
          (print_value_inner write_style again v u) (record s { print_depth = suc s.print_depth })

  unfoldable pub print_value : Bool → ℕ → Value → U → M U
  unfolding print_call
  print_value write_style zero v u s = Run.out_of_fuel
  print_value write_style (suc fuel) v u s =
      print_call write_style (print_value write_style fuel) v u s

  -- Each nested call is one level deeper, so the levels left and one more are enough.
  unfoldable pub ml_print : Bool → Value → U → M U
  unfolding print_value
  ml_print write_style v u s =
      print_value write_style (suc (s.max_print_depth - s.print_depth)) v u s
