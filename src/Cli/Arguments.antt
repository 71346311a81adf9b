-- ===== src/Cli/Arguments.antt =====
-- What the arguments of src/main.c ask for.
use microlisp.Base.{
  arith, ℕ, ◌≡◌, refl, ◌∙◌, Bool, true, false, Option, none, some, List, [], ◌∷◌, ◌++◌, ◌==◌,
  Bool-cases, inl, inr, codes,
}
use microlisp.Cli.{Command, parse_args, parsed, is_option}

-- `-e EXPR` for each expression.
abbrev pub expressions : List (List ℕ) → List (List ℕ)
expressions [] = []
expressions (e ∷ es) = codes "-e" ∷ e ∷ expressions es

abbrev pub last_of : Option (List ℕ) → List (List ℕ) → Option (List ℕ)
last_of e [] = e
last_of e (x ∷ xs) = last_of (some x) xs

abbrev pub still : Bool → List (List ℕ) → Bool
still i [] = i
still i (x ∷ xs) = false

-- Each expression replaces the one before it.
parse_args-expressions :
    (es : List (List ℕ)) (e : Option (List ℕ)) (i : Bool) (rest : List (List ℕ))
    → parse_args false e i (expressions es ++ rest)
      ≡ parse_args false (last_of e es) (still i es) rest
unfolding parse_args
parse_args-expressions [] e i rest = refl
parse_args-expressions (x ∷ []) e i rest = refl
parse_args-expressions (x ∷ y ∷ es) e i rest = parse_args-expressions (y ∷ es) (some x) false rest

-- An argument that is no option is the path of a script.
parse_args-path :
    (p : List ℕ) (e : Option (List ℕ)) (i : Bool) (rest : List (List ℕ))
    → is_option p ≡ false
    → parse_args false e i (p ∷ rest) ≡ parsed e (some p) false (p ∷ rest)
unfolding parse_args
parse_args-path [] e i rest plain = refl
parse_args-path (c ∷ []) e i rest plain = elim (Bool-cases (c == 45)) [
  | inl dash ↦ rw dash refl
  | inr other ↦ rw other refl
]
parse_args-path (c ∷ d ∷ cs) e i rest plain = rw plain refl

-- Two arguments that are left over are one too many; one or none is let pass.
parsed_many :
    (e p : Option (List ℕ)) (i : Bool) (x y : List ℕ) (rest : List (List ℕ))
    → parsed e p i (x ∷ y ∷ rest) ≡ Command.extra_arguments
unfolding parsed
parsed_many e p i x y rest = ground arith

-- After any `-e` expressions, of which the last counts, and which turn the interactive loop off: an
-- argument that is no option is the script if it is the last argument, and the command line is
-- refused if another follows. Behind `--`, nothing or any one argument, which is dropped and becomes
-- no script, gives what the expressions alone ask for; two arguments or more are refused.
pub parse_args_lem :
    (es : List (List ℕ)) (p : List ℕ)
    → is_option p ≡ false
    → (parse_args false none true (expressions es ++ p ∷ [])
        ≡ Command.run (last_of none es) (some p) false)
      × ((x : List ℕ) (rest : List (List ℕ))
          → parse_args false none true (expressions es ++ p ∷ x ∷ rest) ≡ Command.extra_arguments)
      × (parse_args false none true (expressions es ++ codes "--" ∷ [])
          ≡ Command.run (last_of none es) none (still true es))
      × ((file : List ℕ)
          → parse_args false none true (expressions es ++ codes "--" ∷ file ∷ [])
            ≡ Command.run (last_of none es) none (still true es))
      × ((x y : List ℕ) (rest : List (List ℕ))
          → parse_args false none true (expressions es ++ codes "--" ∷ x ∷ y ∷ rest)
            ≡ Command.extra_arguments)
unfolding parse_args parsed
parse_args_lem es p plain =
    let last = last_of none es in
    let i = still true es in
    (
      parse_args-expressions es none true (p ∷ []) ∙ parse_args-path p last i [] plain,
      λ x rest.
          parse_args-expressions es none true (p ∷ x ∷ rest)
          ∙ parse_args-path p last i (x ∷ rest) plain
          ∙ parsed_many last (some p) false p x rest,
      parse_args-expressions es none true (codes "--" ∷ []),
      λ file. parse_args-expressions es none true (codes "--" ∷ file ∷ []),
      λ x y rest.
          parse_args-expressions es none true (codes "--" ∷ x ∷ y ∷ rest)
          ∙ parsed_many last none i x y rest,
    )
