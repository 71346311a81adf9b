-- ===== src/Symtab/Intern.antt =====
-- What interning promises: ml_sym_intern and ml_sym_name of src/symtab.c.
use microlisp.Base.{
  ℕ, suc, ◌+◌, ◌%◌, ◌^◌, ◌≤◌, ◌<◌, ◌≡◌, refl, sym, ap, subst, ◌∙◌, ◌↔◌, ◌⊎◌, inl, inr, Bool-cases,
  Option, Option-cases, none, some, List, [], ◌∷◌, ◌++◌, map, ltb, ◌==◌, bytes_equal,
  bytes_equal_refl, bytes_equal→eq, length, get_elem?, get_elem?-length, get_elem?-append,
  length-append, arith,
}
use microlisp.Value.{Value}
use microlisp.State.{Status, State, Run, ok, err, ml_raw_alloc}
use microlisp.Gc.{grown_cap}
use microlisp.Gc.Worklist.{alloc_array_lem}
use microlisp.Symtab.{index_from, sym_room, sym_fresh, ml_sym_intern, ml_sym_name}

-- The index found is that of an entry with the name.
index_from-found :
    (i : ℕ) (name : List ℕ) (es : List (List ℕ)) (k : ℕ)
    → index_from i name es ≡ some k
    → (j : ℕ) × (k ≡ i + j) × (j < length es) × (get_elem? es j ≡ some name)
unfolding index_from
index_from-found i name [] k h = cc
index_from-found i name (e ∷ es) k h = elim (Bool-cases (bytes_equal e name)) [
  | inl same ↦ (0, ground arith, omega arith, ap some (bytes_equal→eq e name same))
  | inr other ↦
      let (j, at, below, entry) = index_from-found (suc i) name es k (ground arith) in
      (suc j, omega arith, omega arith, entry)
]

-- A name that was not in the table is found where it was added.
index_from-append :
    (i : ℕ) (name : List ℕ) (es : List (List ℕ))
    → index_from i name es ≡ none
    → index_from i name (es ++ name ∷ []) ≡ some (i + length es)
unfolding index_from
index_from-append i name [] h = ground (arith, bytes_equal_refl name)
index_from-append i name (e ∷ es) h = elim (Bool-cases (bytes_equal e name)) [
  | inl same ↦ ground arith
  | inr other ↦ ground (arith, index_from-append (suc i) name es)
]

-- The source's ceiling: a symbol's index fits in 28 bits, so the word that holds it loses nothing.
abbrev pub InCeiling : State → Type 0
InCeiling s = length s.symtab ≤ 0x1000_0000

pub record Interned (name : List ℕ) (s : State) (v : Value) (t : State) : Type 0 where
  pub in_ceiling : InCeiling t
  pub is_symbol : (i : ℕ) × (v ≡ Value.sym i) × (i < length t.symtab)
  pub names : ml_sym_name t v ≡ name
  pub older : (i : ℕ) → i < length s.symtab → get_elem? t.symtab i ≡ get_elem? s.symtab i
  pub again : ml_sym_intern name t ≡ ok v t
  pub same_heap : t.heap ≡ s.heap

pub data Interns (name : List ℕ) (s : State) : Run Value → Type 0 where
  interned : {v : Value} {t : State} → Interned name s v t → Interns name s (ok v t)
  no_memory :
      {t : State} → t.symtab ≡ s.symtab → t.heap ≡ s.heap → Interns name s (err Status.nomem t)

ml_raw_alloc_lem :
    (size : ℕ) (s : State)
    → (r : Option ℕ) × (k : ℕ) × (ml_raw_alloc size s ≡ ok r (record s { allocs = k }))
unfolding ml_raw_alloc
ml_raw_alloc_lem size s = elim (Bool-cases (size == 0)) [
  | inl z ↦ (none, s.allocs, rw z)
  | inr n ↦ (s.allocator s.allocs (map (λ c. c.addr) s.heap) size, suc s.allocs, rw n)
]

-- An index below the ceiling is not changed by the cast to 32 bits.
small : (i : ℕ) → i ≤ 0x1000_0000 → i % 2 ^ 32 ≡ i
small i h = omega arith

known :
    (name : List ℕ) (s : State) (i : ℕ)
    → InCeiling s
    → index_from 0 name s.symtab ≡ some i
    → Interned name s (Value.sym (i % 2 ^ 32)) s
unfolding ml_sym_name ml_sym_intern
known name s i c e =
    let (j, at, below, entry) = index_from-found 0 name s.symtab i e in
    let same : i % 2 ^ 32 ≡ j = omega (arith, small i (omega arith)) in
    record {
      in_ceiling = c;
      is_symbol = (j, ap Value.sym same, below);
      names = rw (same, entry) refl;
      older = λ k h. refl;
      again = rw (e, ml_sym_intern) refl;
      same_heap = refl;
    }

added :
    (name : List ℕ) (s : State) (k c : ℕ)
    → length s.symtab ≤ 0x0fff_ffff
    → index_from 0 name s.symtab ≡ none
    → Interned name s
        (Value.sym (length s.symtab % 2 ^ 32))
        (record s { allocs = k; symtab_cap = c; symtab = s.symtab ++ name ∷ [] })
unfolding ml_sym_name ml_sym_intern
added name s k c b e =
    let start : 0 + length s.symtab ≡ length s.symtab = omega arith in
    record {
      in_ceiling = omega (arith, length-append s.symtab (name ∷ []));
      is_symbol = (
        length s.symtab,
        ap Value.sym (small (length s.symtab) (omega arith)),
        omega (arith, length-append s.symtab (name ∷ [])),
      );
      names = rw (small (length s.symtab) (omega arith), get_elem?-length s.symtab [] name) refl;
      older = λ i h. get_elem?-append s.symtab (name ∷ []) i h;
      again = rw (index_from-append 0 name s.symtab e ∙ ap some start, ml_sym_intern) refl;
      same_heap = refl;
    }

room_lem :
    (s : State)
    → ((k c : ℕ) × (sym_room s ≡ ok tt (record s { allocs = k; symtab_cap = c })))
      ⊎ ((k : ℕ) × (sym_room s ≡ err Status.nomem (record s { allocs = k })))
unfolding sym_room
room_lem s = elim (Bool-cases (length s.symtab == s.symtab_cap)) [
  | inr short ↦ inl (s.allocs, s.symtab_cap, rw short)
  | inl full ↦
      let (r, k, e) = alloc_array_lem (grown_cap 32 s.symtab_cap) 16 s in
      elim (Option-cases r) [
        | inl n ↦ inr (k, rw (full, e) (rw n refl))
        | inr (_, n) ↦ inl (k, grown_cap 32 s.symtab_cap, rw (full, e) (rw n refl))
      ]
]

fresh_lem :
    (name : List ℕ) (s : State) (k c : ℕ)
    → InCeiling s
    → index_from 0 name s.symtab ≡ none
    → Interns name s (sym_fresh name (record s { allocs = k; symtab_cap = c }))
unfolding sym_fresh
fresh_lem name s k c b e = elim (Bool-cases (ltb 0x0fff_ffff (length s.symtab))) [
  | inl full ↦ rw full (no_memory refl refl)
  | inr free ↦
      let (r, k', e') =
        ml_raw_alloc_lem (length name + 1) (record s { allocs = k; symtab_cap = c }) in
      elim (Option-cases r) [
        | inl n ↦ rw (free, e') (rw n (no_memory refl refl))
        | inr (_, n) ↦ rw (free, e') (rw n (interned (added name s k' c (ground arith) e)))
      ]
]

-- Within the ceiling on the number of symbols, interning a name returns, and either reports that
-- memory is exhausted with the table as it was, or yields a symbol: its name is the name, the
-- symbols of before keep their names, the table is within the ceiling, and interning the name
-- again yields the same symbol and changes nothing. The heap is untouched either way.
pub ml_sym_intern_lem :
    (name : List ℕ) (s : State) → InCeiling s → Interns name s (ml_sym_intern name s)
unfolding ml_sym_intern
ml_sym_intern_lem name s b = elim (Option-cases (index_from 0 name s.symtab)) [
  | inr (i, e) ↦ rw (e, ml_sym_intern) (interned (known name s i b e))
  | inl e ↦
      rw (e, ml_sym_intern)
        (elim (room_lem s) [
          | inl (k, c, r) ↦ rw r (fresh_lem name s k c b e)
          | inr (k, r) ↦ rw r (no_memory refl refl)
        ])
]

Interned-at :
    {name : List ℕ} {s : State} {v : Value} {t : State}
    → Interns name s (ok v t)
    → Interned name s v t
Interned-at (interned i) = i

-- A symbol of the table keeps its name when another name is interned.
name_stays :
    {b : List ℕ} {t : State} {w : Value} {u : State} (v : Value)
    → Interned b t w u
    → (i : ℕ) × (v ≡ Value.sym i) × (i < length t.symtab)
    → ml_sym_name u v ≡ ml_sym_name t v
unfolding ml_sym_name
name_stays v n (i, e, below) = rw (e, n.older i below) refl

-- Within the ceiling, the symbols of two names interned one after the other are equal exactly if
-- the names are.
pub ml_sym_intern-injective :
    (a b : List ℕ) (s t u : State) (v w : Value)
    → InCeiling s
    → ml_sym_intern a s ≡ ok v t
    → ml_sym_intern b t ≡ ok w u
    → (v ≡ w) ↔ (a ≡ b)
ml_sym_intern-injective a b s t u v w c ea eb =
    let first = Interned-at (subst (Interns a s) ea (ml_sym_intern_lem a s c)) in
    let second = Interned-at (subst (Interns b t) eb (ml_sym_intern_lem b t first.in_ceiling)) in
    (
      λ e.
          sym first.names
          ∙ sym (name_stays v second first.is_symbol)
          ∙ ap (ml_sym_name u) e
          ∙ second.names,
      λ e. cc (first.again, subst (λ n. ml_sym_intern n t ≡ ok w u) (sym e) eb),
    )
