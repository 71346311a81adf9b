-- ===== src/Lifecycle/Created.antt =====
-- What microlisp_state_create of src/state.c makes, and where it refuses.
use microlisp.Base.{ℕ, ◌%◌, ◌≡◌, ◌≢◌, false, ◌&&◌, Option, none, some, []}
use microlisp.Value.{Value}
use microlisp.State.{Status, State, Allocator, Libc}
use microlisp.Api.{Options, initial_state, build_state}
use microlisp.Lifecycle.{UserAllocator, has_alloc, Creation, creation_of, alloc_of}

-- Nothing is protected and no call is in progress.
pub record Idle (s : State) : Type 0 where
  pub empty : s.gc_protect ≡ []
  pub no_eval : s.eval_depth ≡ 0
  pub no_print : s.print_depth ≡ 0
  pub no_equal : s.equal_depth ≡ 0

abbrev pub IdleIfCreated : Creation → Type 0
IdleIfCreated (Creation.created s) = Idle s
IdleIfCreated _ = Unit {0}

-- A table that lacks one of its functions is refused, and so is the host's NULL or an address that
-- the value tags cannot use; else `c` is what building the state's parts gives.
pub data Creates (malloc : Allocator) (size : ℕ) (libc : Libc) (opts : Options)
    (u : Option UserAllocator) (c : Creation) : Type 0 where
  partial :
      (a : UserAllocator)
      → u ≡ some a
      → (has_alloc a.alloc && a.has_free) ≡ false
      → c ≡ Creation.refused Status.invalid_arg
      → Creates malloc size libc opts u c
  no_memory :
      alloc_of malloc u 0 [] size ≡ none
      → c ≡ Creation.refused Status.nomem
      → Creates malloc size libc opts u c
  misaligned :
      (p : ℕ)
      → alloc_of malloc u 0 [] size ≡ some p
      → p % 8 ≢ 0
      → c ≡ Creation.refused Status.invalid_arg
      → Creates malloc size libc opts u c
  built :
      (p : ℕ)
      → alloc_of malloc u 0 [] size ≡ some p
      → p % 8 ≡ 0
      → c ≡ creation_of (build_state (initial_state (alloc_of malloc u) libc opts))
      → IdleIfCreated c
      → Creates malloc size libc opts u c
