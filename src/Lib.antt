-- ===== src/Lib.antt =====
-- microlisp: a verification library of the microlisp interpreter, a small Scheme in C.
--
-- The program is a library (src/*.c, include/microlisp/microlisp.h) around one state, a `struct
-- microlisp_state` that every operation reads and writes. The reader makes values of source text,
-- the evaluator runs them in environment frames, primitives work on values, and the printer
-- writes them. All objects live on one heap with a mark-and-sweep collector whose roots are the
-- top-level environment and a stack of protected values. The limits on depth, and every failure
-- of the host's allocator, come back as status codes.
--
-- Base       shared names: native numbers and their tests, integers, lists, byte strings
-- Value      values, objects and their predicates (src/microlisp_internal.h, src/value.c)
-- Word       the tagged 64-bit word of a value; Word/Tags has its laws
-- State      the state, status codes, runs and their monad (src/microlisp_internal.h, src/state.c)
-- Gc         allocation, marking and sweeping (src/gc.c). Heap, Worklist, Visit and Mark carry the
--            proof; Children has the references of an object, Collect what a
--            collection does, Alloc what an allocation does, Protect what the protect stack does
-- Symtab     interned names (src/symtab.c); Symtab/Intern has what interning promises
-- Env        environment frames (src/env.c); Env/Bindings, Env/Laws and Env/Assign have what
--            later lookups see of a definition and of set!
-- Equal      eqv? and equal? (src/value.c); Equal/Parts has equality of values and
--            Equal/Laws what equal? decides
-- Printer    display and write (src/printer.c)
-- Primitives the procedures of src/primitives.c: Arith, Compare, Data, Output and Registry
-- Eval       the evaluator (src/eval.c): Lists, Apply, Forms, Let and Loop
-- Reader     the reader (src/reader.c); Forms has lists, quotes and dispatch, Numbers what
--            the digits of a literal stand for
-- Api        the making of a state's parts and microlisp_eval (src/state.c)
-- Report     texts and numbers of statuses, and the error accessors (src/status.c, src/state.c)
-- Lifecycle  the checks around the making of a state, and its destruction (src/state.c)
-- Repl       the read-eval-print loop (src/state.c); Repl/Session has what a session leaves
-- Cli        the command line (src/main.c): Slurp, Arguments, Evaluation and ExitCode
--            have its parts
-- Balance    the discipline of the protect stack and the depth counters: rules for runs, and for
--            each component of the interpreter the file that applies them to its operations
-- Termination  the ends of runs: the fuel of the collector and of the reader, with rules
-- Tests      runs of the interpreter, small states, and the theorems on concrete inputs
--
-- A C function that takes the state is a function from a state to a `Run`: a value or a status
-- code with the state after it, or `fault` for undefined behaviour such as a read of a freed
-- object. The heap is the list of all objects, newest first, each with its address and mark. A
-- value that is no object is its decoded form; Word has the words that the C code compares and
-- shifts. Names, strings and output are lists of bytes. The host's allocator is a function of the
-- state, from the calls made so far, the addresses in use and a size to an address or NULL;
-- snprintf's digits and the success of a write to the output stream are functions too. An error
-- message is kept as its format and arguments.
--
-- Loops that the C code runs over a pointer structure run on fuel, and running out of it is an
-- outcome of its own. equal? has a round for each level left below its limit and one more, since
-- every nested call is a level deeper; the collector's drain has one for each object and one
-- more, since an object is listed only when it is marked. A walk over frames or pairs has a round
-- for each object of the heap and one more, the reader two for each byte and two more, the
-- slurping of a file one for each doubling of its buffer, and the evaluator what the caller gives,
-- since programs need not end.
--
-- Not modelled: the handler of SIGPIPE (src/main.c), the text of the version (src/version.c), the
-- checks of NULL pointers for the state and the result's address, and the release of memory by the
-- host, beyond the cells that leave the heap. A write to a stream succeeds in full or writes
-- nothing, and a stream of lines is given by what each call of fgets yields.
pub mod Base
pub mod Value
pub mod Word
pub mod State
pub mod Gc
pub mod Symtab
pub mod Env
pub mod Equal
pub mod Printer
pub mod Primitives
pub mod Eval
pub mod Reader
pub mod Api
pub mod Report
pub mod Lifecycle
pub mod Repl
pub mod Cli
pub mod Balance
pub mod Termination
mod Tests
