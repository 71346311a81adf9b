-- ===== src/Primitives.antt =====
-- The built-in procedures of src/primitives.c. `argv` is a list; a procedure that reads an argument
-- that is not there faults (the evaluator checks the number of arguments first).
pub mod Arith
pub mod Compare
pub mod Data
pub mod Output
pub mod Registry
