-- ===== src/Termination/Reader.antt =====
-- The recursion of src/reader.c, measured by the bytes that are left.
use microlisp.Base.{
  ℕ, zero, suc, ◌+◌, ◌-◌, ◌*◌, ◌≤◌, ◌<◌, ◌≡◌, refl, sym, ap, subst, ◌∙◌, inl, inr, Bool, true,
  false, not, ◌&&◌, ◌||◌, Bool-cases, Option, none, some, List, [], ◌∷◌, ◌==◌, leb, length, arith,
}
use microlisp.Value.{Value, mv_nil, mv_eof, ml_value_eq}
use microlisp.State.{State, M, on_error, ml_set_error}
use microlisp.Gc.{ml_gc_savepoint, ml_gc_restore}
use microlisp.Eval.Lists.{must_pair}
use microlisp.Reader.{
  Reader, peek, head_of, advance, is_byte, is_digit, is_terminator, is_whitespace, skip_bytes,
  skip_ws_and_comments, next_line, next_column,
}
use microlisp.Reader.Forms.{
  set_cdr, second, some_digit, is_dot, read_dotted, read_element, list_round, list_step, read_quote,
  read_list, form_of, form_step, list_loop, read_form, ml_read,
}
use microlisp.Balance.Calls.{must_pair_cases}
use microlisp.Balance.Reader.{set_cdr_cases}
use microlisp.Termination.{
  Ends, answers, fails, faults, Yields, Total, Always, Yields-bind, Yields-pure, Yields-if,
  Yields-always, Yields-on_error, Yields-mono,
}
use microlisp.Termination.Atoms.{
  Ends-either, ml_gc_alloc_pair-Total, ml_gc_protect-Total, ml_gc_unprotect-Total,
  ml_gc_restore-Total,
}
use microlisp.Termination.Tokens.{
  left, AtMost, Below, Some, advance_max, advance_less, reject_at-Yields, read_string-Yields,
  read_hash-Yields, read_number-Yields, read_symbol-Yields,
}

-- The input does not begin with a blank or a comment.
abbrev pub Stable : List ℕ → Type 0
Stable [] = Unit {0}
Stable (c ∷ cs) = (is_whitespace c || c == 59) ≡ false

-- Whether the byte behind this one stands in a comment.
abbrev inside : Bool → ℕ → Bool
inside comment c = (comment && not (c == 10)) || (not comment && c == 59)

skip_bytes-Stable : (bs : List ℕ) (comment : Bool) (l k : ℕ) → Stable (skip_bytes comment bs l k).0
unfolding skip_bytes
skip_bytes-Stable [] comment l k = tt
skip_bytes-Stable (c ∷ cs) true l k =
    skip_bytes-Stable cs (inside true c) (next_line c l) (next_column c k)
skip_bytes-Stable (c ∷ cs) false l k = elim (Bool-cases (is_whitespace c || c == 59)) [
  | inl blank ↦ rw blank (skip_bytes-Stable cs (inside false c) (next_line c l) (next_column c k))
  | inr plain ↦ rw plain plain
]

skip_bytes_max :
    (bs : List ℕ) (comment : Bool) (l k : ℕ) → length (skip_bytes comment bs l k).0 ≤ length bs
unfolding skip_bytes
skip_bytes_max [] comment l k = omega arith
skip_bytes_max (c ∷ cs) true l k =
    omega (arith, skip_bytes_max cs (inside true c) (next_line c l) (next_column c k))
skip_bytes_max (c ∷ cs) false l k =
    let more = skip_bytes_max cs (inside false c) (next_line c l) (next_column c k) in
    elim (Bool-cases (is_whitespace c || c == 59)) [
      | inl blank ↦ rw blank (omega (arith, more))
      | inr plain ↦ rw plain (omega arith)
    ]

skip_bytes-stays : (bs : List ℕ) (l k : ℕ) → Stable bs → (skip_bytes false bs l k).0 ≡ bs
unfolding skip_bytes
skip_bytes-stays [] l k e = refl
skip_bytes-stays (c ∷ cs) l k e = rw e refl

skip-Stable : (r : Reader) → Stable (skip_ws_and_comments r).rest
unfolding skip_ws_and_comments
skip-Stable r = skip_bytes-Stable r.rest false r.line r.column

skip_max : (r : Reader) → left (skip_ws_and_comments r) ≤ left r
unfolding skip_ws_and_comments
skip_max r = skip_bytes_max r.rest false r.line r.column

skip-stays : (r : Reader) → Stable r.rest → (skip_ws_and_comments r).rest ≡ r.rest
unfolding skip_ws_and_comments
skip-stays r e = skip_bytes-stays r.rest r.line r.column e

set_cdr-Total : (v d : Value) → Total (set_cdr v d)
set_cdr-Total v d = record {
  at = λ s. elim (set_cdr_cases v d s) [ inl e ↦ rw e faults | inr (h, e) ↦ rw e (answers tt) ];
}

must_pair-Total : (v : Value) → Total (must_pair v)
must_pair-Total v = record {
  at = λ s. elim (must_pair_cases v s) [ inl e ↦ rw e faults | inr (p, e) ↦ rw e (answers tt) ];
}

restoring :
    {A : Type 0} {P : A → Type 0} (sp : ℕ) {m : M A}
    → Yields P m
    → Yields P (on_error (ml_gc_restore sp) m)
restoring sp h = Yields-on_error (ml_gc_restore-Total sp) h

-- What a call of read_form leaves: no more than there was, and less where a form begins at once.
abbrev pub Form : Reader → Value × Reader → Type 0
Form r (v, r') = (left r' ≤ left r) × (Stable r.rest → Some (peek r) → left r' < left r)

abbrev NoMore : ℕ → Reader → Type 0
NoMore n r = left r ≤ n

some_of : {c : ℕ} (o : Option ℕ) → o ≡ some c → Some o
some_of none e = cc
some_of (some c) e = tt

module _ (again : Reader → M (Value × Reader)) (n : ℕ)
    (ih : (r : Reader) → left r ≤ n → Yields (Form r) (again r)) where
  read_dotted-Yields :
      (sp : ℕ) (head tail : Value) (r : Reader)
      → left r ≤ n
      → Yields (NoMore n) (read_dotted again sp head tail r)
  unfolding read_dotted
  read_dotted-Yields sp head tail r h =
      Yields-if (ml_value_eq tail head) (λ _. restoring sp (reject_at-Yields _ _ _ _))
        λ _. Yields-bind (restoring sp (ih r h)) λ (cdr_form, r1) (most, _).
          Yields-bind (set_cdr-Total tail cdr_form) λ _ _.
            Yields-if (is_byte 41 (peek (skip_ws_and_comments r1)))
              (λ _.
                Yields-pure _
                  (omega (arith, h, most, skip_max r1, advance_max (skip_ws_and_comments r1))))
              (λ _. restoring sp (reject_at-Yields _ _ _ _))

  read_element-Yields :
      (sp : ℕ) (tail : Value) (r : Reader)
      → left r ≤ n
      → Stable r.rest
      → Some (peek r)
      → Yields (Below (left r)) (read_element again sp tail r)
  unfolding read_element
  read_element-Yields sp tail r h stable at =
      Yields-bind (restoring sp (ih r h)) λ (elem, r') (_, less).
        Yields-bind (restoring sp (ml_gc_protect-Total elem)) λ _ _.
          Yields-bind
            (restoring sp
              (Yields-always (ml_gc_unprotect-Total 1) (ml_gc_alloc_pair-Total elem mv_nil)))
            λ cell _.
              Yields-bind (set_cdr-Total tail cell) λ _ _. Yields-pure (cell, r') (less stable at)

  list_round-Yields :
      (next : Value → Reader → M Reader) (sp : ℕ) (head tail : Value) (r : Reader) (c : Option ℕ)
      → left r ≤ n
      → Stable r.rest
      → peek r ≡ c
      → ((tail : Value) (r' : Reader) → left r' < left r → Yields (NoMore n) (next tail r'))
      → Yields (NoMore n) (list_round again next sp head tail r c)
  list_round-Yields next sp head tail r none h stable e f = restoring sp (reject_at-Yields _ _ _ _)
  list_round-Yields next sp head tail r (some c) h stable e f =
      Yields-if (c == 41) (λ _. Yields-pure _ (omega (arith, h, advance_max r)))
        λ _.
          Yields-if (is_dot r)
            (λ _. read_dotted-Yields sp head tail (advance r).1 (omega (arith, h, advance_max r)))
            (λ _.
              Yields-bind (read_element-Yields sp tail r h stable (some_of (peek r) e))
                λ (cell, r') less. f cell r' less)

  read_quote-Yields :
      (r : Reader)
      → Some (peek r)
      → left (advance r).1 ≤ n
      → Yields (Below (left r)) (read_quote again r)
  unfolding read_quote
  read_quote-Yields r at h =
      let less = advance_less r at in
      Yields-bind (ih (advance r).1 h) λ (form, r') (most, _).
        Yields-if (ml_value_eq form mv_eof) (λ _. reject_at-Yields _ _ _ _)
          λ _. record {
            at = λ s.
                (Yields-bind (ml_gc_protect-Total form) λ _ _.
                    Yields-bind
                      (restoring (length s.gc_protect) (ml_gc_alloc_pair-Total form mv_nil))
                      λ inner _. Yields-bind (ml_gc_unprotect-Total 1) λ _ _.
                        Yields-bind (ml_gc_protect-Total inner) λ _ _.
                          Yields-bind {P = Always}
                            (record {
                              at = λ t.
                                  (Yields-always (ml_gc_restore-Total (length s.gc_protect))
                                      (ml_gc_alloc_pair-Total t.syms.sym_quote inner)).at
                                    t;
                            })
                            λ out _. Yields-pure (out, r') (omega (arith, most, less))).at
                  s;
          }

savepoint-Total : Total ml_gc_savepoint
savepoint-Total = record { at = λ s. answers tt }

plain_start :
    (c : ℕ)
    → (is_whitespace c || c == 59) ≡ false
    → (c == 40) ≡ false
    → (c == 41) ≡ false
    → (c == 34) ≡ false
    → (c == 39) ≡ false
    → is_terminator (some c) ≡ false
unfolding is_terminator
plain_start c blank p q t u = ground arith

module _ (again : Reader → M (Value × Reader)) (elements : ℕ → Value → Value → Reader → M Reader)
    (m : ℕ) (ih : (r : Reader) → left r ≤ m → Yields (Form r) (again r))
    (f : (sp : ℕ) (head tail : Value) (r : Reader)
      → left r ≤ m
      → Yields (NoMore m) (elements sp head tail r)) where
  read_list-Yields : (r : Reader) → left r ≤ m → Yields (AtMost m) (read_list elements r)
  unfolding read_list ml_set_error
  read_list-Yields r h = record {
    at = λ s. Ends-either (leb s.max_read_depth r.depth) fails (
        (Yields-if (is_byte 41 (peek inner))
            (λ _. Yields-pure _ (omega (arith, h, skip_max deeper, advance_max inner)))
            (λ _. Yields-bind savepoint-Total λ sp _.
              Yields-bind (ml_gc_alloc_pair-Total mv_nil mv_nil) λ head _.
                Yields-bind (ml_gc_protect-Total head) λ _ _.
                  Yields-bind (f sp head head inner (omega (arith, h, skip_max deeper))) λ r2 most.
                    Yields-bind (must_pair-Total head) λ (_, out) _.
                      Yields-bind (ml_gc_restore-Total sp)
                        λ _ _. Yields-pure (out, record r2 { depth = r2.depth - 1 }) most)).at
          s);
  }
    where
      deeper : Reader
      deeper = record r { depth = suc r.depth }

      inner : Reader
      inner = skip_ws_and_comments deeper

same_byte : {c d : ℕ} → some d ≡ some c → d ≡ c
same_byte e = cc

starts :
    (c : ℕ) (cs : List ℕ) → head_of cs ≡ some c → Stable cs → (is_whitespace c || c == 59) ≡ false
starts c [] e stable = cc
starts c (d ∷ ds) e stable = subst (λ x. (is_whitespace x || x == 59) ≡ false) (same_byte e) stable

-- A form where a byte is left takes one of it at least.
abbrev Taken : Option ℕ → ℕ → Value × Reader → Type 0
Taken none n (v, r) = left r ≤ n
Taken (some c) n (v, r) = left r < n

module _ (again : Reader → M (Value × Reader)) (elements : ℕ → Value → Value → Reader → M Reader)
    (r : Reader)
    (ih : Some (peek r) → (x : Reader) → left x ≤ left (advance r).1 → Yields (Form x) (again x))
    (f : Some (peek r)
      → (sp : ℕ) (head tail : Value) (x : Reader) → left x ≤ left (advance r).1
      → Yields (NoMore (left (advance r).1)) (elements sp head tail x)) where
  form_of-Yields :
      (c : Option ℕ)
      → peek r ≡ c
      → Stable r.rest
      → Yields (Taken c (left r)) (form_of again elements r c)
  form_of-Yields none e stable = Yields-pure _ (omega arith)
  form_of-Yields (some c) e stable =
      let at = some_of (peek r) e in
      let m = left (advance r).1 in
      let less : m < left r = advance_less r at in
      Yields-if (c == 40)
        (λ _.
          Yields-mono (read_list-Yields again elements m (ih at) (f at) (advance r).1 (omega arith))
            (λ (v, x) most. omega (arith, most, less)))
        λ p.
          Yields-if (c == 41) (λ _. reject_at-Yields _ _ _ _)
            λ q.
              Yields-if (c == 39) (λ _. read_quote-Yields again m (ih at) r at (omega arith))
                λ u.
                  Yields-if (c == 34) (λ _. read_string-Yields r at)
                    λ t.
                      Yields-if (c == 35) (λ _. read_hash-Yields r at)
                        λ _.
                          Yields-if (is_digit c) (λ _. read_number-Yields r false)
                            λ _.
                              Yields-if ((c == 43 || c == 45) && some_digit (second r.rest))
                                (λ _.
                                  Yields-mono (read_number-Yields (advance r).1 (c == 45))
                                    (λ (v, x) most. omega (arith, most, less)))
                                (λ _. read_symbol-Yields r (
                                  subst (λ o. is_terminator o ≡ false) (sym e)
                                    (plain_start c (starts c r.rest e stable) p q t u)))

-- From what a form takes of the input behind the blanks to what it takes of the whole.
whole :
    (r : Reader) (c : Option ℕ) (p : Value × Reader)
    → peek (skip_ws_and_comments r) ≡ c
    → Taken c (left (skip_ws_and_comments r)) p
    → Form r p
whole r none (v, x) e most = (
  omega (arith, most, skip_max r),
  λ stable at. absurd (subst Some (sym (ap head_of (skip-stays r stable)) ∙ e) at),
)
whole r (some c) (v, x) e less =
    (omega (arith, less, skip_max r), λ _ _. omega (arith, less, skip_max r))

mutual
  unfolding list_loop read_form list_step form_step

  list_loop-Yields :
      (fuel : ℕ) (sp : ℕ) (head tail : Value) (r : Reader)
      → 2 * left r + 2 ≤ fuel
      → Yields (NoMore (left r)) (list_loop fuel sp head tail r)
  list_loop-Yields zero sp head tail r h = absurd (omega (arith, h))
  list_loop-Yields (suc fuel) sp head tail r h =
      let r' = skip_ws_and_comments r in
      let most = skip_max r in
      record {
        at =
            (list_round-Yields (read_form fuel) (left r)
              (λ x b. read_form-Yields fuel x (omega (arith, h, b))) (list_loop fuel sp head) sp
              head tail r' (peek r') most (skip-Stable r) refl
              (λ tail x less.
                Yields-mono (list_loop-Yields fuel sp head tail x (omega (arith, h, less, most)))
                  (λ y b. omega (arith, b, less, most)))).at;
      }

  read_form-Yields :
      (fuel : ℕ) (r : Reader) → 2 * left r + 1 ≤ fuel → Yields (Form r) (read_form fuel r)
  read_form-Yields zero r h = absurd (omega (arith, h))
  read_form-Yields (suc fuel) r h =
      let r' = skip_ws_and_comments r in
      let most = skip_max r in
      record {
        at =
            (Yields-mono
              (form_of-Yields (read_form fuel) (list_loop fuel) r'
                (λ at x b. read_form-Yields fuel x (omega (arith, h, b, most, advance_less r' at)))
                (λ at sp head tail x b.
                  Yields-mono
                    (list_loop-Yields fuel sp head tail x
                      (omega (arith, h, b, most, advance_less r' at)))
                    (λ y d. omega (arith, b, d)))
                (peek r') refl (skip-Stable r))
              (λ p t. whole r (peek r') p refl t)).at;
      }

-- Reading a form never runs out of the rounds that it is given, from any state and on any input: it
-- ends in a form, in an error or in a fault, which stands for undefined behaviour and is not ruled out
-- here. After a form no more of the input is left than before, and less if the input does not begin
-- with a blank or a comment and is not empty.
pub ml_read-Ends : (r : Reader) (s : State) → Ends (Form r) (ml_read r s)
unfolding ml_read
ml_read-Ends r = (read_form-Yields (2 * left r + 2) r (omega arith)).at
