-- ===== src/Lifecycle.antt =====
-- The checks, the making and the destruction of a state in src/state.c. A pointer argument that may
-- be NULL is an option. `malloc` and the size of `struct microlisp_state` are parameters.
pub mod Created
use microlisp.Base.{
  ℕ, zero, suc, ◌∷◌, take, ◌%◌, ◌==◌, Bool, true, false, ◌&&◌, Option, none, some, List, [],
  if◌then◌else◌, length,
}
use microlisp.Value.{mv_nil}
use microlisp.State.{
  Status, State, Allocator, Libc, Run, M, ok, err, fault, out_of_fuel, modify, ml_set_error,
  Message, Arg, fail, ◌>>=◌, ◌>>◌,
}
use microlisp.Gc.{ml_gc_free_all}
use microlisp.Api.{Options, initial_state, build_state, microlisp_eval}

-- NULL options ask for every default.
abbrev pub null_options : Options
null_options = record {
  max_read_depth = 0;
  max_eval_depth = 0;
  max_print_depth = 0;
  max_equal_depth = 0;
  gc_initial_threshold = 0;
}

-- The table that a caller passes, whose functions may be NULL. `free` matters only by its presence.
pub record UserAllocator : Type 0 where
  pub alloc : Option Allocator
  pub has_free : Bool

abbrev pub has_alloc : Option Allocator → Bool
has_alloc none = false
has_alloc (some _) = true

-- `none` for MICROLISP_OK.
unfoldable pub validate_allocator : Option UserAllocator → Option Status
validate_allocator none = none
validate_allocator (some a) =
    if has_alloc a.alloc && a.has_free then none else some Status.invalid_arg

-- The state, or the status with which none is made.
pub data Creation : Type 0 where
  created : State → Creation
  refused : Status → Creation
  broken unfinished : Creation

-- A state that could not be built is destroyed.
abbrev pub creation_of : Run (Unit {0}) → Creation
creation_of (ok _ s) = Creation.created s
creation_of (err e s) = Creation.refused e
creation_of fault = Creation.broken
creation_of out_of_fuel = Creation.unfinished

module _ (malloc : Allocator) where
  abbrev or_malloc : Option Allocator → Allocator
  or_malloc none = malloc
  or_malloc (some alloc) = alloc

  -- The alloc function in use, once the table is validated.
  abbrev pub alloc_of : Option UserAllocator → Allocator
  alloc_of none = malloc
  alloc_of (some a) = or_malloc a.alloc

module _ (malloc : Allocator) (state_size : ℕ) (libc : Libc) where
  -- What follows the allocation of the state itself, whose low three bits must be clear.
  abbrev pub create_at : Allocator → Options → Option ℕ → Creation
  create_at alloc opts none = Creation.refused Status.nomem
  create_at alloc opts (some p) =
      if p % 8 == 0
      then creation_of (build_state (initial_state alloc libc opts))
      else Creation.refused Status.invalid_arg

  abbrev pub create_valid : Option UserAllocator → Options → Option Status → Creation
  create_valid u opts (some st) = Creation.refused st
  create_valid u opts none = create_at (alloc_of malloc u) opts (alloc_of malloc u 0 [] state_size)

  unfoldable pub microlisp_state_create : Option UserAllocator → Options → Creation
  unfolding validate_allocator build_state initial_state
  microlisp_state_create u opts = create_valid u opts (validate_allocator u)

-- The roots are dropped, and with them all objects; then the symbol table, the stacks and the state
-- itself are released.
unfoldable pub microlisp_state_destroy : M (Unit {0})
unfolding ml_gc_free_all
microlisp_state_destroy = do
  modify λ s. record s { toplevel_env = mv_nil; gc_protect = [] }
  ml_gc_free_all
  modify λ s. record s {
    symtab = [];
    symtab_cap = 0;
    gc_protect_cap = 0;
    gc_marklist = [];
    gc_marklist_cap = 0;
  }

-- `microlisp_eval` with a source that may be NULL. `none` in the result is a NULL `*out_bytes`.
unfoldable pub checked_eval : ℕ → Option (List ℕ) → ℕ → M (Option (List ℕ))
unfolding ml_set_error microlisp_eval
checked_eval fuel none zero = microlisp_eval fuel []
checked_eval fuel none (suc n) = do
  ml_set_error 0 0
      (Message.format "source pointer is NULL but length is %zu" (Arg.num (suc n) ∷ []))
  fail Status.invalid_arg
checked_eval fuel (some source) source_len = microlisp_eval fuel (take source_len source)
