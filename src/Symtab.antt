-- ===== src/Symtab.antt =====
-- The symbol table of src/symtab.c: `symtab` holds the names in the order of their indices. A name
-- is a list of bytes, so the NULL name that the source refuses cannot be passed.
pub mod Intern
use microlisp.Base.{
  ℕ, zero, suc, ◌+◌, ◌%◌, ◌^◌, Bool, Option, none, some, List, [], ◌∷◌, ◌++◌, ltb, ◌==◌,
  bytes_equal, if◌then◌else◌, length, get_elem?,
}
use microlisp.Value.{Value, sym}
use microlisp.State.{Status, State, Run, M, ok, err, fail, pure, ◌>>=◌, ◌>>◌, ml_raw_alloc}
use microlisp.Gc.{grown_cap, alloc_array}

-- The index of the first entry with the name, counted from `i`.
unfoldable pub index_from : ℕ → List ℕ → List (List ℕ) → Option ℕ
index_from i name [] = none
index_from i name (e ∷ es) =
    let later = index_from (suc i) name es in if bytes_equal e name then some i else later

-- Room for one more entry.
abbrev pub sym_grown : Option ℕ → M (Unit {0})
sym_grown none s = err Status.nomem s
sym_grown (some _) s = ok tt (record s { symtab_cap = grown_cap 32 s.symtab_cap })

unfoldable pub sym_room : M (Unit {0})
unfolding alloc_array
sym_room s =
    if length s.symtab == s.symtab_cap
    then (do grown ← alloc_array (grown_cap 32 s.symtab_cap) 16; sym_grown grown) s
    else ok tt s

-- The entry is written once its copy of the name is allocated.
abbrev pub sym_append : List ℕ → Option ℕ → M Value
sym_append name none s = err Status.nomem s
sym_append name (some _) s =
    ok (sym (length s.symtab % 2 ^ 32)) (record s { symtab = s.symtab ++ name ∷ [] })

-- The ceiling on the number of symbols, then the copy of the name and its NUL.
unfoldable pub sym_fresh : List ℕ → M Value
unfolding ml_raw_alloc
sym_fresh name s =
    if ltb 0x0fff_ffff (length s.symtab)
    then err Status.nomem s
    else (do p ← ml_raw_alloc (length name + 1); sym_append name p) s

unfoldable pub ml_sym_intern : List ℕ → M Value
unfolding index_from sym_room sym_fresh
ml_sym_intern name s = elim (index_from 0 name s.symtab) [
  | some i ↦ ok (sym (i % 2 ^ 32)) s
  | none ↦ (sym_room >> sym_fresh name) s
]

abbrev pub name_or_empty : Option (List ℕ) → List ℕ
name_or_empty none = []
name_or_empty (some name) = name

-- The name of a symbol, empty for an index that is not in the table.
unfoldable pub ml_sym_name : State → Value → List ℕ
ml_sym_name s (sym i) = name_or_empty (get_elem? s.symtab i)
ml_sym_name s _ = []
