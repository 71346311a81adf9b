-- ===== src/State.antt =====
-- The interpreter state of src/microlisp_internal.h (struct microlisp_state), the status codes of
-- include/microlisp/microlisp.h, and runs: a C function that takes the state is a function from a
-- state to a `Run`.
use Prim.Native.String.{String}
use microlisp.Base.{ℕ, suc, Bool, Option, none, some, List, [], ◌∷◌, map, ℤ, ◌==◌, if◌then◌else◌}
use microlisp.Value.{Value, Obj, Cell}

pub data Status : Type 0 where
  invalid_arg nomem read_syntax read_truncated read_depth unbound type arity div_zero overflow :
      Status
  user io syntax eval_depth print_depth equal_depth : Status

-- What `ml_set_error` is given: the format and its arguments (`vsnprintf` is a library function,
-- and the text is not rendered), or bytes that `error` copies into the message.
pub data Arg : Type 0 where
  num : ℕ → Arg
  bytes : List ℕ → Arg
  text : String → Arg

pub data Message : Type 0 where
  format : String → List Arg → Message
  copied : List ℕ → Message

pub record ErrorInfo : Type 0 where
  pub message : Message
  pub line : ℕ
  pub column : ℕ

-- The interned symbols of the special forms.
pub record Syms : Type 0 where
  pub sym_quote : Value
  pub sym_if : Value
  pub sym_define : Value
  pub sym_lambda : Value
  pub sym_set_bang : Value
  pub sym_let : Value
  pub sym_let_star : Value
  pub sym_letrec : Value
  pub sym_begin : Value
  pub sym_and : Value
  pub sym_or : Value
  pub sym_cond : Value
  pub sym_else : Value

-- The caller's `alloc`: from the number of earlier calls, the addresses of the live objects and the
-- size asked for, to an address, or `none` for NULL.
abbrev pub Allocator : Type 0
Allocator = ℕ → List ℕ → ℕ → Option ℕ

-- The C library: the decimal digits of an integer (`%lld`), two upper-case hexadecimal digits of a
-- byte (`%02X`), and whether the n-th write to a stream succeeds in full.
pub record Libc : Type 0 where
  pub show_int : ℤ → List ℕ
  pub show_hex : ℕ → List ℕ
  pub write_ok : ℕ → Bool

pub record State : Type 0 where
  pub allocator : Allocator
  pub allocs : ℕ
  pub heap : List Cell
  pub gc_live_objects : ℕ
  pub gc_threshold : ℕ
  pub gc_protect : List Value
  pub gc_protect_cap : ℕ
  pub gc_stress : Bool
  pub gc_marklist : List ℕ
  pub gc_marklist_cap : ℕ
  pub symtab : List (List ℕ)
  pub symtab_cap : ℕ
  pub syms : Syms
  pub toplevel_env : Value
  pub max_read_depth : ℕ
  pub max_eval_depth : ℕ
  pub eval_depth : ℕ
  pub max_print_depth : ℕ
  pub print_depth : ℕ
  pub max_equal_depth : ℕ
  pub equal_depth : ℕ
  pub libc : Libc
  -- The stream that `display` and `write` go to, what has been written to each stream, and the
  -- number of writes so far.
  pub output : ℕ
  pub written : ℕ → List ℕ
  pub writes : ℕ
  pub last_error : ErrorInfo

-- `ok` is MICROLISP_OK and `err` any other status; `fault` is undefined behaviour, such as a read
-- through a pointer to no live object; `out_of_fuel` has no counterpart in the program.
pub data Run {ℓ} (A : Type ℓ) : Type ℓ where
  ok : A → State → Run A
  err : Status → State → Run A
  fault : Run A
  out_of_fuel : Run A

abbrev pub M {ℓ} : Type ℓ → Type ℓ
M A = State → Run A

abbrev pub pure {ℓ} : {A : Type ℓ} → A → M A
pure = ok

abbrev pub and_then {ℓ κ} : {A : Type ℓ} {B : Type κ} → Run A → (A → M B) → Run B
and_then (ok a s) k = k a s
and_then (err e s) k = err e s
and_then fault k = fault
and_then out_of_fuel k = out_of_fuel

infixl 5 ◌>>=◌ ◌>>◌
abbrev pub ◌>>=◌ {ℓ κ} : {A : Type ℓ} {B : Type κ} → M A → (A → M B) → M B
m >>= k = λ s. and_then (m s) k

abbrev pub ◌>>◌ {ℓ} : {B : Type ℓ} → M (Unit {0}) → M B → M B
m >> n = m >>= λ _. n

abbrev pub fail {ℓ} : {A : Type ℓ} → Status → M A
fail = err

abbrev pub faulty {ℓ} : {A : Type ℓ} → M A
faulty _ = fault

abbrev pub exhausted {ℓ} : {A : Type ℓ} → M A
exhausted _ = out_of_fuel

abbrev pub reads {ℓ} : {A : Type ℓ} → (State → A) → M A
reads f s = ok (f s) s

abbrev pub modify : (State → State) → M (Unit {0})
modify f s = ok tt (f s)

abbrev pub clean_up {ℓ} : {A : Type ℓ} → M (Unit {0}) → Run A → Run A
clean_up c (ok a s) = ok a s
clean_up c (err e s) = and_then (c s) (λ _. err e)
clean_up c fault = fault
clean_up c out_of_fuel = out_of_fuel

-- `if (st != OK) { cleanup; return st; }`
abbrev pub on_error {ℓ} : {A : Type ℓ} → M (Unit {0}) → M A → M A
on_error c m s = clean_up c (m s)

abbrev pub finish {ℓ} : {A : Type ℓ} → M (Unit {0}) → Run A → Run A
finish c (ok a s) = and_then (c s) (λ _. ok a)
finish c (err e s) = and_then (c s) (λ _. err e)
finish c fault = fault
finish c out_of_fuel = out_of_fuel

-- A cleanup that follows the call whatever its status.
abbrev pub always {ℓ} : {A : Type ℓ} → M (Unit {0}) → M A → M A
always c m s = finish c (m s)

-- `ml_set_error` with no position.
unfoldable pub ml_set_error : ℕ → ℕ → Message → M (Unit {0})
ml_set_error line column m s =
    ok tt (record s { last_error = record { message = m; line = line; column = column } })

-- `ml_set_error(s, 0, 0, fmt); return status;`
unfoldable pub reject {ℓ} : {A : Type ℓ} → Status → String → M A
unfolding ml_set_error
reject st fmt = do ml_set_error 0 0 (Message.format fmt []); fail st

unfoldable pub reject_with {ℓ} : {A : Type ℓ} → Status → String → List Arg → M A
unfolding ml_set_error
reject_with st fmt args = do ml_set_error 0 0 (Message.format fmt args); fail st

unfoldable pub find : ℕ → List Cell → Option Cell
find a [] = none
find a (c ∷ cs) = if c.addr == a then some c else find a cs

-- `ml_as_obj(v)->...`: a fault at a value that names no live object.
unfoldable pub deref : Value → M Obj
unfolding find
deref (Value.obj a) s = elim (find a s.heap) [ none ↦ fault | some c ↦ ok c.body s ]
deref _ s = fault

unfoldable pub replace : ℕ → Obj → List Cell → List Cell
replace a o [] = []
replace a o (c ∷ cs) = if c.addr == a then record c { body = o } ∷ cs else c ∷ replace a o cs

-- A write to the payload of the object at an address.
unfoldable pub store : ℕ → Obj → M (Unit {0})
unfolding replace
store a o s = ok tt (record s { heap = replace a o s.heap })

-- NULL for size 0, else the caller's function.
unfoldable pub ml_raw_alloc : ℕ → M (Option ℕ)
ml_raw_alloc size s =
    if size == 0
    then ok none s
    else ok (s.allocator s.allocs (map (λ c. c.addr) s.heap) size)
        (record s { allocs = suc s.allocs })
