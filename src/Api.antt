-- ===== src/Api.antt =====
-- The state's lifecycle and the entry points of src/state.c.
use microlisp.Base.{
  ℕ, zero, suc, ◌+◌, ◌-◌, ◌*◌, ◌^◌, Bool, true, false, Option, none, some, List, [], ◌++◌, ltb,
  ◌==◌, if◌then◌else◌, length, codes,
}
use microlisp.Value.{Value, obj, mv_nil, mv_undef, mv_eof, ml_value_eq}
use microlisp.State.{
  Status, Message, ErrorInfo, Syms, Allocator, Libc, State, Run, M, pure, fail, modify, always,
  ml_raw_alloc, ◌>>=◌, ◌>>◌,
}
use microlisp.Gc.{ml_gc_alloc_env, ml_gc_protect, ml_gc_savepoint, ml_gc_restore}
use microlisp.Symtab.{ml_sym_intern}
use microlisp.Primitives.Registry.{ml_primitives_install}
use microlisp.Printer.{ml_print}
use microlisp.Eval.Loop.{ml_eval}
use microlisp.Reader.{Reader}
use microlisp.Reader.Forms.{ml_read}

-- The numbers of `microlisp_options`; 0 asks for the default.
pub record Options : Type 0 where
  pub max_read_depth : ℕ
  pub max_eval_depth : ℕ
  pub max_print_depth : ℕ
  pub max_equal_depth : ℕ
  pub gc_initial_threshold : ℕ

abbrev pub or_default : ℕ → ℕ → ℕ
or_default n d = if n == 0 then d else n

abbrev pub no_error : ErrorInfo
no_error = record { message = Message.copied []; line = 0; column = 0 }

abbrev pub zero_syms : Syms
zero_syms = record {
  sym_quote = obj 0;
  sym_if = obj 0;
  sym_define = obj 0;
  sym_lambda = obj 0;
  sym_set_bang = obj 0;
  sym_let = obj 0;
  sym_let_star = obj 0;
  sym_letrec = obj 0;
  sym_begin = obj 0;
  sym_and = obj 0;
  sym_or = obj 0;
  sym_cond = obj 0;
  sym_else = obj 0;
}

-- `FILE *` is a number.
abbrev pub stdout : ℕ
stdout = 1

-- The zeroed state with its allocator and limits set.
unfoldable pub initial_state : Allocator → Libc → Options → State
initial_state allocator libc o = record {
  allocator = allocator;
  allocs = 1;
  heap = [];
  gc_live_objects = 0;
  gc_threshold = or_default o.gc_initial_threshold 4096;
  gc_protect = [];
  gc_protect_cap = 0;
  gc_stress = false;
  gc_marklist = [];
  gc_marklist_cap = 0;
  symtab = [];
  symtab_cap = 0;
  syms = zero_syms;
  toplevel_env = obj 0;
  max_read_depth = or_default o.max_read_depth 256;
  max_eval_depth = or_default o.max_eval_depth 1024;
  eval_depth = 0;
  max_print_depth = or_default o.max_print_depth 1024;
  print_depth = 0;
  max_equal_depth = or_default o.max_equal_depth 1024;
  equal_depth = 0;
  libc = libc;
  output = stdout;
  written = λ _. [];
  writes = 0;
  last_error = no_error;
}

-- The names are interned in the order of the source's table.
unfoldable pub intern_special_forms : M (Unit {0})
unfolding ml_sym_intern
intern_special_forms = do
  q ← ml_sym_intern (codes "quote")
  i ← ml_sym_intern (codes "if")
  d ← ml_sym_intern (codes "define")
  l ← ml_sym_intern (codes "lambda")
  sb ← ml_sym_intern (codes "set!")
  le ← ml_sym_intern (codes "let")
  ls ← ml_sym_intern (codes "let*")
  lr ← ml_sym_intern (codes "letrec")
  b ← ml_sym_intern (codes "begin")
  an ← ml_sym_intern (codes "and")
  orr ← ml_sym_intern (codes "or")
  c ← ml_sym_intern (codes "cond")
  el ← ml_sym_intern (codes "else")
  modify λ s. record s {
    syms = record {
      sym_quote = q;
      sym_if = i;
      sym_define = d;
      sym_lambda = l;
      sym_set_bang = sb;
      sym_let = le;
      sym_let_star = ls;
      sym_letrec = lr;
      sym_begin = b;
      sym_and = an;
      sym_or = orr;
      sym_cond = c;
      sym_else = el;
    };
  }

-- What `microlisp_state_create` does once the state itself is allocated and aligned.
unfoldable pub build_state : M (Unit {0})
unfolding intern_special_forms ml_gc_alloc_env ml_primitives_install
build_state = do
  intern_special_forms
  e ← ml_gc_alloc_env mv_nil
  modify λ s. record s { toplevel_env = e }
  ml_primitives_install e

-- The forms of a source, in order: the last value, and whether there was a form. `fuel` bounds the
-- evaluation of each form; every form takes a byte, so the bytes left bound their number.
unfoldable pub eval_forms : ℕ → ℕ → Reader → Value → Bool → M (Value × Bool)
unfolding ml_read ml_value_eq ml_gc_protect ml_gc_restore ml_eval
eval_forms fuel zero r last saw_form s = Run.out_of_fuel
eval_forms fuel (suc left) r last saw_form s =
    (do
      (form, r') ← ml_read r
      if ml_value_eq form mv_eof then pure (last, saw_form) else do
        sp ← ml_gc_savepoint
        ml_gc_protect form
        v ← λ t. always (ml_gc_restore sp) (ml_eval fuel form t.toplevel_env) t
        eval_forms fuel left r' v true)
      s

-- The buffer of print_buf: its bytes and its capacity.
abbrev pub PrintBuf : Type 0
PrintBuf = List ℕ × ℕ

-- `new_cap` doubled until it is enough; 64 doublings exceed size_t.
unfoldable pub buf_cap : ℕ → ℕ → ℕ → Option ℕ
buf_cap zero room need = none
buf_cap (suc fuel) room need =
    let more = if ltb (room * 2) (2 ^ 64) then buf_cap fuel (room * 2) need else none in
    if ltb room need then more else some room

abbrev pub buf_store : List ℕ → List ℕ → ℕ → Option ℕ → M PrintBuf
buf_store old bytes room none = fail Status.nomem
buf_store old bytes room (some _) = pure (old ++ bytes, room)

abbrev pub buf_alloc : List ℕ → List ℕ → Option ℕ → M PrintBuf
buf_alloc old bytes none = fail Status.nomem
buf_alloc old bytes (some room) = ml_raw_alloc room >>= buf_store old bytes room

unfoldable pub print_buf_sink : List ℕ → PrintBuf → M PrintBuf
unfolding buf_cap ml_raw_alloc
print_buf_sink bytes (old, room) =
    let need : ℕ = length old + length bytes + 1 in
    if ltb (2 ^ 64 - 1) need
    then fail Status.nomem
    else if ltb room need
    then buf_alloc old bytes (buf_cap 65 (if room == 0 then 64 else room) need)
    else pure (old ++ bytes, room)

abbrev pub nul_room : Option ℕ → M (List ℕ)
nul_room none = fail Status.nomem
nul_room (some _) = pure []

-- The printed bytes, without the NUL behind them.
unfoldable pub ml_print_to_alloc : Value → Bool → M (List ℕ)
unfolding ml_print print_buf_sink ml_raw_alloc
ml_print_to_alloc v write_style = do
  (bytes, room) ← ml_print print_buf_sink write_style v ([], 0)
  if room == 0 then ml_raw_alloc 1 >>= nul_room else pure bytes

-- `none` where `*out_bytes` stays NULL: no form, or an unspecified result.
unfoldable pub print_result : Value × Bool → M (Option (List ℕ))
unfolding ml_value_eq ml_gc_protect ml_gc_restore ml_print_to_alloc
print_result (last, saw_form) =
    if saw_form
    then (if ml_value_eq last mv_undef then pure none else do
      sp ← ml_gc_savepoint
      ml_gc_protect last
      bytes ← always (ml_gc_restore sp) (ml_print_to_alloc last true)
      pure (some bytes))
    else pure none

-- `microlisp_eval` on a source that is not NULL, with `out_bytes` not NULL.
unfoldable pub microlisp_eval : ℕ → List ℕ → M (Option (List ℕ))
unfolding eval_forms print_result
microlisp_eval fuel source = do
  modify λ s. record s { last_error = no_error }
  r ←
      eval_forms fuel (suc (length source))
        (record { rest = source; line = 1; column = 1; depth = 0 }) mv_undef false
  print_result r
