-- ===== src/Primitives/Registry.antt =====
-- The table k_primitives of src/primitives.c and the calls through it.
use Prim.Native.String.{String}
use microlisp.Base.{ℕ, ◌-◌, ◌^◌, List, [], ◌∷◌, codes}
use microlisp.Value.{Value, PrimFn, Mprim}
use microlisp.State.{M, pure, on_error, always, ◌>>=◌, ◌>>◌}
use microlisp.Gc.{ml_gc_alloc_primitive, ml_gc_protect, ml_gc_savepoint, ml_gc_restore}
use microlisp.Symtab.{ml_sym_intern}
use microlisp.Env.{ml_env_define}
use microlisp.Primitives.Arith.{
  prim_add, prim_sub, prim_mul, prim_div, prim_quotient, prim_remainder, prim_modulo,
}
use microlisp.Primitives.Compare.{prim_num_eq, prim_num_lt, prim_num_gt, prim_num_le, prim_num_ge}
use microlisp.Primitives.Data.{
  prim_cons, prim_car, prim_cdr, prim_list, prim_length, prim_null_p, prim_pair_p, prim_number_p,
  prim_symbol_p, prim_string_p, prim_procedure_p, prim_boolean_p, prim_eq_p, prim_eqv_p,
  prim_equal_p, prim_not,
}
use microlisp.Primitives.Output.{prim_display, prim_write, prim_newline, prim_error}

-- `p->fn(s, argc, argv, &value)`
unfoldable pub call_prim : PrimFn → List Value → M Value
unfolding prim_add prim_sub prim_mul prim_div prim_quotient prim_remainder prim_modulo prim_num_eq
    prim_num_lt prim_num_gt prim_num_le prim_num_ge prim_cons prim_car prim_cdr prim_list
    prim_length prim_null_p prim_pair_p prim_number_p prim_symbol_p prim_string_p prim_procedure_p
    prim_boolean_p prim_eq_p prim_eqv_p prim_equal_p prim_not prim_display prim_write prim_newline
    prim_error
call_prim PrimFn.add = prim_add
call_prim PrimFn.sub = prim_sub
call_prim PrimFn.mul = prim_mul
call_prim PrimFn.div = prim_div
call_prim PrimFn.quotient = prim_quotient
call_prim PrimFn.remainder = prim_remainder
call_prim PrimFn.modulo = prim_modulo
call_prim PrimFn.num_eq = prim_num_eq
call_prim PrimFn.num_lt = prim_num_lt
call_prim PrimFn.num_gt = prim_num_gt
call_prim PrimFn.num_le = prim_num_le
call_prim PrimFn.num_ge = prim_num_ge
call_prim PrimFn.cons = prim_cons
call_prim PrimFn.car = prim_car
call_prim PrimFn.cdr = prim_cdr
call_prim PrimFn.list = prim_list
call_prim PrimFn.length = prim_length
call_prim PrimFn.null_p = prim_null_p
call_prim PrimFn.pair_p = prim_pair_p
call_prim PrimFn.number_p = prim_number_p
call_prim PrimFn.symbol_p = prim_symbol_p
call_prim PrimFn.string_p = prim_string_p
call_prim PrimFn.procedure_p = prim_procedure_p
call_prim PrimFn.boolean_p = prim_boolean_p
call_prim PrimFn.eq_p = prim_eq_p
call_prim PrimFn.eqv_p = prim_eqv_p
call_prim PrimFn.equal_p = prim_equal_p
call_prim PrimFn.not_ = prim_not
call_prim PrimFn.display = prim_display
call_prim PrimFn.write = prim_write
call_prim PrimFn.newline = prim_newline
call_prim PrimFn.error = prim_error

-- UINT32_MAX, which stands for any number of arguments.
abbrev pub uint32_max : ℕ
uint32_max = 2 ^ 32 - 1

abbrev prim_decl : String → PrimFn → ℕ → ℕ → Mprim
prim_decl name fn lo hi = record { name = codes name; fn = fn; arity_min = lo; arity_max = hi }

unfoldable pub k_primitives : List Mprim
k_primitives =
    prim_decl "+" PrimFn.add 0 uint32_max
    ∷ prim_decl "-" PrimFn.sub 1 uint32_max
    ∷ prim_decl "*" PrimFn.mul 0 uint32_max
    ∷ prim_decl "/" PrimFn.div 1 uint32_max
    ∷ prim_decl "quotient" PrimFn.quotient 2 2
    ∷ prim_decl "remainder" PrimFn.remainder 2 2
    ∷ prim_decl "modulo" PrimFn.modulo 2 2
    ∷ prim_decl "=" PrimFn.num_eq 2 uint32_max
    ∷ prim_decl "<" PrimFn.num_lt 2 uint32_max
    ∷ prim_decl ">" PrimFn.num_gt 2 uint32_max
    ∷ prim_decl "<=" PrimFn.num_le 2 uint32_max
    ∷ prim_decl ">=" PrimFn.num_ge 2 uint32_max
    ∷ prim_decl "cons" PrimFn.cons 2 2
    ∷ prim_decl "car" PrimFn.car 1 1
    ∷ prim_decl "cdr" PrimFn.cdr 1 1
    ∷ prim_decl "list" PrimFn.list 0 uint32_max
    ∷ prim_decl "length" PrimFn.length 1 1
    ∷ prim_decl "null?" PrimFn.null_p 1 1
    ∷ prim_decl "pair?" PrimFn.pair_p 1 1
    ∷ prim_decl "number?" PrimFn.number_p 1 1
    ∷ prim_decl "symbol?" PrimFn.symbol_p 1 1
    ∷ prim_decl "string?" PrimFn.string_p 1 1
    ∷ prim_decl "procedure?" PrimFn.procedure_p 1 1
    ∷ prim_decl "boolean?" PrimFn.boolean_p 1 1
    ∷ prim_decl "eq?" PrimFn.eq_p 2 2
    ∷ prim_decl "eqv?" PrimFn.eqv_p 2 2
    ∷ prim_decl "equal?" PrimFn.equal_p 2 2
    ∷ prim_decl "not" PrimFn.not_ 1 1
    ∷ prim_decl "display" PrimFn.display 1 1
    ∷ prim_decl "write" PrimFn.write 1 1
    ∷ prim_decl "newline" PrimFn.newline 0 0
    ∷ prim_decl "error" PrimFn.error 0 uint32_max
    ∷ []

-- One entry: the object is protected while its name is interned and bound.
unfoldable pub install_one : Value → Mprim → M (Unit {0})
unfolding ml_gc_alloc_primitive ml_gc_protect ml_gc_restore ml_sym_intern ml_env_define
install_one env d = do
  prim ← ml_gc_alloc_primitive d
  sp ← ml_gc_savepoint
  ml_gc_protect prim
  sym ← on_error (ml_gc_restore sp) (ml_sym_intern d.name)
  always (ml_gc_restore sp) (ml_env_define env sym prim)

unfoldable pub install_loop : Value → List Mprim → M (Unit {0})
unfolding install_one
install_loop env [] = pure tt
install_loop env (d ∷ ds) = install_one env d >> install_loop env ds

unfoldable pub ml_primitives_install : Value → M (Unit {0})
unfolding install_loop k_primitives
ml_primitives_install env = install_loop env k_primitives
