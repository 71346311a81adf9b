-- ===== src/Eval.antt =====
-- The evaluator of src/eval.c. A handler takes the evaluator as its first argument, `ev`; `Loop`
-- ties the knot on fuel.
pub mod Lists
pub mod Apply
pub mod Forms
pub mod Let
pub mod Loop
