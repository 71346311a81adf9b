-- ===== src/Gc/Heap.antt =====
-- What marking and sweeping do to the list of all objects (src/gc.c), address by address.
use microlisp.Base.{
  ℕ, suc, ◌≤◌, ◌≡◌, refl, sym, ap, ◌∙◌, Bool, true, false, Option, none, some, List, [], ◌∷◌, arith,
  ◌==◌, ==_iff, if◌then◌else◌, length, Bool-cases, Option-cases, inl, inr,
}
use microlisp.Value.{Obj, Cell}
use microlisp.State.{find}
use microlisp.Gc.{set_mark, sweep_list, clear_marks}

abbrev pub mark_of : Option Cell → Bool
mark_of none = false
mark_of (some c) = c.marked

abbrev pub body_of : Option Cell → Option Obj
body_of none = none
body_of (some c) = some c.body

unfoldable pub marked_at : ℕ → List Cell → Bool
marked_at a h = mark_of (find a h)

unfoldable pub body_at : ℕ → List Cell → Option Obj
body_at a h = body_of (find a h)

-- The objects that have no mark yet.
pub unmarked : List Cell → ℕ
unmarked [] = 0
unmarked (c ∷ cs) = if c.marked then unmarked cs else suc (unmarked cs)

-- No two objects have one address.
abbrev pub Distinct : List Cell → Type 0
Distinct [] = Unit
Distinct (c ∷ cs) = (find c.addr cs ≡ none) × Distinct cs

abbrev pub AllClear : List Cell → Type 0
AllClear [] = Unit
AllClear (c ∷ cs) = (c.marked ≡ false) × AllClear cs

pub body_at-set_mark : (a b : ℕ) (h : List Cell) → body_at b (set_mark a h) ≡ body_at b h
unfolding body_at find set_mark
body_at-set_mark a b [] = refl
body_at-set_mark a b (c ∷ cs) = ground (arith, body_at-set_mark a b cs)

pub marked_at-set_mark_self :
    (a : ℕ) (h : List Cell) (c : Cell) → find a h ≡ some c → marked_at a (set_mark a h) ≡ true
unfolding marked_at find set_mark
marked_at-set_mark_self a [] c e = cc
marked_at-set_mark_self a (d ∷ cs) c e = ground (arith, marked_at-set_mark_self a cs c)

pub marked_at-set_mark_ne :
    (a b : ℕ) (h : List Cell) → (a == b) ≡ false → marked_at b (set_mark a h) ≡ marked_at b h
unfolding marked_at find set_mark
marked_at-set_mark_ne a b [] e = refl
marked_at-set_mark_ne a b (d ∷ cs) e = ground (arith, marked_at-set_mark_ne a b cs)

pub unmarked-set_mark :
    (a : ℕ) (h : List Cell) (c : Cell)
    → find a h ≡ some c
    → c.marked ≡ false
    → unmarked h ≡ suc (unmarked (set_mark a h))
unfolding unmarked find set_mark
unmarked-set_mark a [] c e m = cc
unmarked-set_mark a (d ∷ cs) c e m = ground (arith, unmarked-set_mark a cs c)

pub length-set_mark : (a : ℕ) (h : List Cell) → length (set_mark a h) ≡ length h
unfolding set_mark
length-set_mark a [] = refl
length-set_mark a (c ∷ cs) = ground (arith, length-set_mark a cs)

pub unmarked_max : (h : List Cell) → unmarked h ≤ length h
unfolding unmarked
unmarked_max [] = omega arith
unmarked_max (c ∷ cs) = ground (arith, unmarked_max cs)

pub unmarked_all : (h : List Cell) → AllClear h → unmarked h ≡ length h
unfolding unmarked
unmarked_all [] k = refl
unmarked_all (c ∷ cs) k = ground (arith, unmarked_all cs k.1)

pub marked_at_clear : (b : ℕ) (h : List Cell) → AllClear h → marked_at b h ≡ false
unfolding marked_at find
marked_at_clear b [] k = refl
marked_at_clear b (c ∷ cs) k = ground (arith, marked_at_clear b cs k.1)

-- Marking keeps every address.
pub find-none-set_mark : (a b : ℕ) (h : List Cell) → find b h ≡ none → find b (set_mark a h) ≡ none
unfolding find set_mark
find-none-set_mark a b [] e = refl
find-none-set_mark a b (c ∷ cs) e = ground (arith, find-none-set_mark a b cs)

pub Distinct-set_mark : (a : ℕ) (h : List Cell) → Distinct h → Distinct (set_mark a h)
unfolding set_mark
Distinct-set_mark a [] d = d
Distinct-set_mark a (c ∷ cs) d = elim (Bool-cases (c.addr == a)) [
  | inl e ↦ rw e d
  | inr e ↦ rw e (find-none-set_mark a c.addr cs d.0, Distinct-set_mark a cs d.1)
]

pub find-none-sweep_list : (b : ℕ) (h : List Cell) → find b h ≡ none → find b (sweep_list h) ≡ none
unfolding find sweep_list
find-none-sweep_list b [] e = refl
find-none-sweep_list b (c ∷ cs) e = ground (arith, find-none-sweep_list b cs)

-- Sweeping keeps the object at an address exactly if it is marked.
pub body_at-sweep_list :
    (b : ℕ) (h : List Cell)
    → Distinct h
    → body_at b (sweep_list h) ≡ (if marked_at b h then body_at b h else none)
unfolding body_at marked_at find sweep_list
body_at-sweep_list b [] d = refl
body_at-sweep_list b (c ∷ cs) d = elim (Bool-cases (c.addr == b)) [
  | inl e ↦ ground (arith, find-none-sweep_list b cs, ==_iff c.addr b)
  | inr e ↦ ground (arith, body_at-sweep_list b cs d.1)
]

pub Distinct-sweep_list : (h : List Cell) → Distinct h → Distinct (sweep_list h)
unfolding sweep_list
Distinct-sweep_list [] d = d
Distinct-sweep_list (c ∷ cs) d = elim (Bool-cases c.marked) [
  | inl e ↦ rw e (find-none-sweep_list c.addr cs d.0, Distinct-sweep_list cs d.1)
  | inr e ↦ rw e (Distinct-sweep_list cs d.1)
]

pub AllClear-sweep_list : (h : List Cell) → AllClear (sweep_list h)
unfolding sweep_list
AllClear-sweep_list [] = tt
AllClear-sweep_list (c ∷ cs) = elim (Bool-cases c.marked) [
  | inl e ↦ rw e (refl, AllClear-sweep_list cs)
  | inr e ↦ rw e (AllClear-sweep_list cs)
]

pub AllClear-clear_marks : (h : List Cell) → AllClear (clear_marks h)
unfolding clear_marks
AllClear-clear_marks [] = tt
AllClear-clear_marks (c ∷ cs) = (refl, AllClear-clear_marks cs)

pub body_at-clear_marks : (b : ℕ) (h : List Cell) → body_at b (clear_marks h) ≡ body_at b h
unfolding body_at find clear_marks
body_at-clear_marks b [] = refl
body_at-clear_marks b (c ∷ cs) = ground (arith, body_at-clear_marks b cs)

pub clear_marks-set_mark : (a : ℕ) (h : List Cell) → clear_marks (set_mark a h) ≡ clear_marks h
unfolding clear_marks set_mark
clear_marks-set_mark a [] = refl
clear_marks-set_mark a (c ∷ cs) = ground (arith, clear_marks-set_mark a cs)

pub clear_marks_self : (h : List Cell) → AllClear h → clear_marks h ≡ h
unfolding clear_marks
clear_marks_self [] k = refl
clear_marks_self (c ∷ cs) k = ground (arith, clear_marks_self cs k.1)

-- Heaps that differ in their marks alone hold the same objects.
pub body_at_of_clear_marks :
    (b : ℕ) (h g : List Cell) → clear_marks h ≡ clear_marks g → body_at b h ≡ body_at b g
body_at_of_clear_marks b h g e =
    sym (body_at-clear_marks b h) ∙ ap (body_at b) e ∙ body_at-clear_marks b g

pub find_of_body_at :
    (b : ℕ) (h : List Cell) (o : Obj)
    → body_at b h ≡ some o
    → (c : Cell) × (find b h ≡ some c) × (c.body ≡ o) × (c.marked ≡ marked_at b h)
unfolding body_at marked_at
find_of_body_at b h o e = elim (Option-cases (find b h)) [
  | inl none_here ↦ absurd (ground arith)
  | inr (c, found) ↦ (c, found, ground arith, ground arith)
]
