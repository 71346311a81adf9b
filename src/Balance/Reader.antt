-- ===== src/Balance/Reader.antt =====
-- The protect stack and the depth counters in lists, quotes and dispatch of src/reader.c.
use microlisp.Base.{
  ℕ, zero, suc, ◌+◌, ◌-◌, ◌*◌, ◌≡◌, refl, ap, sym, ◌∙◌, ◌++◌, append_assoc, subst, Bool, true,
  false, ◌&&◌, ◌||◌, Option, none, some, List, [], ◌∷◌, inl, inr, ◌⊎◌, ◌==◌, if◌then◌else◌, leb,
  length,
}
use microlisp.Value.{Value, Cell, mv_nil, mv_eof, ml_value_eq, pair}
use microlisp.State.{
  Status, State, Run, M, ok, fault, pure, always, on_error, clean_up, finish, store, replace,
  ml_set_error, ◌>>=◌, ◌>>◌,
}
use microlisp.Gc.{ml_gc_protect, ml_gc_unprotect, ml_gc_restore, ml_gc_alloc_pair}
use microlisp.Env.{addr_of}
use microlisp.Eval.Lists.{must_pair}
use microlisp.Reader.{Reader, peek, advance, is_byte, is_digit, skip_ws_and_comments}
use microlisp.Reader.Forms.{
  set_cdr, second, some_digit, is_dot, read_dotted, read_element, list_round, list_step, read_quote,
  read_list, form_of, form_step, list_loop, read_form, ml_read,
}
use microlisp.Balance.{
  Balanced, Steady, Over, Leaves, Leaves-over, Leaves-trans, Leaves-and_then, Nothing, Anything,
  done, faulted, endless, Balanced-err, Balanced-if, Steady-pure, Steady-bind, Steady-if,
}
use microlisp.Balance.Stack.{
  Leaves-protect, Leaves-protecting, Leaves-clean_up, Leaves-finish, Leaves-restore,
  Balanced-unprotect, unprotected, Just,
}
use microlisp.Balance.Store.{Steady-ml_gc_alloc_pair}
use microlisp.Balance.Calls.{must_pair_cases}
use microlisp.Balance.Atoms.{
  Steady-reject_at, Steady-read_string, Steady-read_hash, Steady-read_number, Steady-read_symbol,
}

Leaves-if :
    {A : Type 0} {P Q : List Value → Type 0} {s t : State} (b : Bool) (m n : M A)
    → Leaves P Q s (m t)
    → Leaves P Q s (n t)
    → Leaves P Q s ((if b then m else n) t)
Leaves-if true m n h k = h
Leaves-if false m n h k = k

-- A write to a cdr reports no error.
pub set_cdr_cases :
    (v d : Value) (t : State)
    → (set_cdr v d t ≡ fault) ⊎ ((h : List Cell) × (set_cdr v d t ≡ ok tt (record t { heap = h })))
unfolding set_cdr store
set_cdr_cases v d t = elim (must_pair_cases v t) [
  | inl e ↦ inl (rw e refl)
  | inr ((a, _), e) ↦ inr (replace (addr_of v) (pair a d) t.heap, rw e refl)
]

-- A balanced run over one protected value, where an error restores the savepoint.
pub kept :
    {A : Type 0} {s t : State} (w : Value) {r : Run A}
    → Over s (w ∷ []) t
    → Balanced t r
    → Leaves (Just w) Nothing s (clean_up (ml_gc_restore (length s.gc_protect)) r)
kept w o b = Leaves-clean_up (Leaves-over {P = Just w} {Q = Anything} o refl tt b)

over_heap :
    {s t : State} {ws : List Value} (h : List Cell)
    → Over s ws t
    → Over s ws (record t { heap = h })
over_heap h o = record {
  stack = o.stack;
  eval_depth = o.eval_depth;
  print_depth = o.print_depth;
  equal_depth = o.equal_depth;
}

-- What follows a write to a cdr.
linked :
    {A : Type 0} {s t : State} (w v d : Value) (k : M A)
    → Over s (w ∷ []) t
    → ((u : State) → Over s (w ∷ []) u → Leaves (Just w) Nothing s (k u))
    → Leaves (Just w) Nothing s ((set_cdr v d >> k) t)
linked {t = t} w v d k o f = elim (set_cdr_cases v d t) [
  | inl e ↦ rw e faulted
  | inr (h, e) ↦ rw e (f (record t { heap = h }) (over_heap h o))
]

at_end :
    {A : Type 0} {s t : State} (w : Value) (a : A)
    → Over s (w ∷ []) t
    → Leaves (Just w) Nothing s (ok a t)
at_end w a o = done (w ∷ []) refl o

unprotected_then :
    {A : Type 0} {P Q : List Value → Type 0} {s u : State} (ws : List Value) (m : M A)
    → Over s ws u
    → ((t : State) → Over s [] t → Leaves P Q s (m t))
    → Leaves P Q s ((ml_gc_unprotect (length ws) >> m) u)
unprotected_then ws m o f = let (t, e, o') = unprotected ws o in rw e (f t o')

-- The same over two values, of which the upper one is popped.
popped :
    {A : Type 0} {s t : State} (w v : Value) {r : Run A}
    → Over s (w ∷ v ∷ []) t
    → Balanced t r
    → Leaves
        (Just w)
        Nothing
        s
        (clean_up (ml_gc_restore (length s.gc_protect)) (finish (ml_gc_unprotect 1) r))
popped {s = s} {t} w v o b =
    let below = record t { gc_protect = s.gc_protect ++ w ∷ [] } in
    let over_s : Over s (w ∷ []) below = record {
      stack = refl;
      eval_depth = o.eval_depth;
      print_depth = o.print_depth;
      equal_depth = o.equal_depth;
    } in
    let over_below : Over below (v ∷ []) t = record {
      stack = o.stack ∙ sym (append_assoc s.gc_protect (w ∷ []) (v ∷ []));
      eval_depth = refl;
      print_depth = refl;
      equal_depth = refl;
    } in
    kept w over_s (Balanced-unprotect (v ∷ []) over_below b)

module _ (again : Reader → M (Value × Reader)) (ih : (r : Reader) → Steady (again r)) where
  read_dotted-Leaves :
      (s t : State) (w head tail : Value) (r : Reader)
      → Over s (w ∷ []) t
      → Leaves (Just w) Nothing s (read_dotted again (length s.gc_protect) head tail r t)
  unfolding read_dotted
  read_dotted-Leaves s t w head tail r o =
      Leaves-if (ml_value_eq tail head) _ _ (kept w o ((Steady-reject_at _ _ _ _).at t)) (
        Leaves-and_then _ _ (kept w o ((ih r).at t)) λ (cdr_form, r1) t1 ws e o1.
          linked w tail cdr_form _ (subst (λ xs. Over s xs t1) e o1) λ u p.
            Leaves-if (is_byte 41 (peek (skip_ws_and_comments r1))) _ _ (at_end w _ p)
              (kept w p ((Steady-reject_at _ _ _ _).at u)))

  read_element-Leaves :
      (s t : State) (w tail : Value) (r : Reader)
      → Over s (w ∷ []) t
      → Leaves (Just w) Nothing s (read_element again (length s.gc_protect) tail r t)
  unfolding read_element
  read_element-Leaves s t w tail r o =
      Leaves-and_then _ _ (kept w o ((ih r).at t)) λ (elem, r') t1 ws e o1.
        let at1 = subst (λ xs. Over s xs t1) e o1 in
        Leaves-and_then _ _
          (Leaves-clean_up (
            Leaves-trans {P' = λ xs. xs ≡ w ∷ elem ∷ []} {Q' = Anything} at1
              (Leaves-protect elem t1) (λ xs e. ap (λ ys. w ∷ ys) e) (λ _ _. tt)))
          λ _ t2 xs e2 o2. consed t2 elem r' (subst (λ ys. Over s ys t2) e2 o2)
    where
      consed :
          (t2 : State) (elem : Value) (r' : Reader)
          → Over s (w ∷ elem ∷ []) t2
          → Leaves {A = Value × Reader} (Just w) Nothing s (
              (on_error
                    (ml_gc_restore (length s.gc_protect))
                    (always (ml_gc_unprotect 1) (ml_gc_alloc_pair elem mv_nil))
                  >>= λ cell. set_cdr tail cell >> pure (cell, r'))
                t2)
      consed t2 elem r' o2 =
          Leaves-and_then _ _ (popped w elem o2 ((Steady-ml_gc_alloc_pair elem mv_nil).at t2))
            λ cell u xs e p.
              linked w tail cell _ (subst (λ ys. Over s ys u) e p) λ x q. at_end w _ q

  round-Leaves :
      (next : Value → Reader → M Reader) (s t : State) (w head tail : Value) (r : Reader)
      (c : Option ℕ)
      → ((tail : Value) (r : Reader) (t : State)
          → Over s (w ∷ []) t
          → Leaves (Just w) Nothing s (next tail r t))
      → Over s (w ∷ []) t
      → Leaves (Just w) Nothing s (list_round again next (length s.gc_protect) head tail r c t)
  round-Leaves next s t w head tail r none f o = kept w o ((Steady-reject_at _ _ _ _).at t)
  round-Leaves next s t w head tail r (some c) f o = Leaves-if (c == 41) _ _ (at_end w _ o) (
      Leaves-if (is_dot r) _ _ (read_dotted-Leaves s t w head tail (advance r).1 o) (
        Leaves-and_then _ _ (read_element-Leaves s t w tail r o)
          λ (cell, r') u ws e p. f cell r' u (subst (λ xs. Over s xs u) e p)))

  Steady-read_quote : (r : Reader) → Steady (read_quote again r)
  unfolding read_quote
  Steady-read_quote r = Steady-bind (ih (advance r).1) λ (form, r').
      Steady-if (ml_value_eq form mv_eof) (Steady-reject_at _ _ _ _)
        (record { at = λ s. quoted s form r' })
    where
      inner_lem :
          (s t : State) (inner : Value) (r' : Reader)
          → Over s [] t
          → Leaves {A = Value × Reader} Nothing Nothing s (
              (ml_gc_protect inner
                  >> ((λ s'.
                        always
                          (ml_gc_restore (length s.gc_protect))
                          (ml_gc_alloc_pair s'.syms.sym_quote inner)
                          s')
                      >>= λ out. pure (out, r')))
                t)
      inner_lem s t inner r' o =
          Leaves-and_then _ _
            (Leaves-trans {P' = Just inner} {Q' = Nothing} o (Leaves-protect inner t) (λ _ e. e)
              (λ _ e. e))
            λ _ u ws e p.
              Leaves-and_then _ _
                (Leaves-finish (
                  Leaves-over {P = Anything} {Q = Anything} (subst (λ xs. Over s xs u) e p) tt tt
                    ((Steady-ml_gc_alloc_pair u.syms.sym_quote inner).at u)))
                λ out x ws e q. done ws e q

      quoted :
          (s : State) (form : Value) (r' : Reader)
          → Leaves {A = Value × Reader} Nothing Nothing s (
              (ml_gc_protect form
                  >> (on_error (ml_gc_restore (length s.gc_protect)) (ml_gc_alloc_pair form mv_nil)
                      >>= λ inner.
                          ml_gc_unprotect 1
                          >> (ml_gc_protect inner
                              >> ((λ s'.
                                    always
                                      (ml_gc_restore (length s.gc_protect))
                                      (ml_gc_alloc_pair s'.syms.sym_quote inner)
                                      s')
                                  >>= λ out. pure (out, r')))))
                s)
      quoted s form r' = Leaves-protecting form s _ λ t o.
          Leaves-and_then _ _ (kept form o ((Steady-ml_gc_alloc_pair form mv_nil).at t))
            λ inner u ws e p.
              unprotected_then (form ∷ []) _ (subst (λ xs. Over s xs u) e p)
                (λ x q. inner_lem s x inner r' q)

-- The contract of the loop over a list's elements: one value, the dummy head, stays above the stack.
abbrev Elements : (ℕ → Value → Value → Reader → M Reader) → Type 0
Elements elements =
    (s t : State) (w head tail : Value) (r : Reader)
    → Over s (w ∷ []) t
    → Leaves (Just w) Nothing s (elements (length s.gc_protect) head tail r t)

module _ (elements : ℕ → Value → Value → Reader → M Reader) (f : Elements elements) where
  read_from :
      (s t : State) (head : Value) (r : Reader)
      → Over s [] t
      → Leaves {A = Value × Reader} Nothing Nothing s (
          (ml_gc_protect head
              >> (elements (length s.gc_protect) head head r >>= λ r2.
                  must_pair head >>= λ (_, out).
                  ml_gc_restore (length s.gc_protect)
                  >> pure (out, record r2 { depth = r2.depth - 1 })))
            t)
  read_from s t head r o =
      Leaves-and_then _ _
        (Leaves-trans {P' = Just head} {Q' = Nothing} o (Leaves-protect head t) (λ _ e. e)
          (λ _ e. e))
        λ _ u ws e p.
          Leaves-and_then _ _ (f s u head head head r (subst (λ xs. Over s xs u) e p))
            λ r2 x xs e' q. elim (must_pair_cases head x) [
              | inl e2 ↦ rw e2 faulted
              | inr ((_, out), e2) ↦ rw e2 (Leaves-restore _ q (λ y z. done [] refl z))
            ]

  Steady-read_list : (r : Reader) → Steady (read_list elements r)
  unfolding read_list ml_set_error
  Steady-read_list r = record {
    at = λ s.
        Balanced-if (leb s.max_read_depth r.depth)
          (Balanced-err Status.read_depth refl refl refl refl)
          (Leaves-if (is_byte 41 (peek (skip_ws_and_comments (record r { depth = suc r.depth })))) _
            _ ((Steady-pure _).at s)
            (Leaves-and_then _ _ ((Steady-ml_gc_alloc_pair mv_nil mv_nil).at s)
              λ head t ws e o. read_from s t head _ (subst (λ xs. Over s xs t) e o)));
  }

  module _ (again : Reader → M (Value × Reader)) (ih : (r : Reader) → Steady (again r)) where
    Steady-form_of : (r : Reader) (c : Option ℕ) → Steady (form_of again elements r c)
    Steady-form_of r none = Steady-pure _
    Steady-form_of r (some c) = Steady-if (c == 40) (Steady-read_list (advance r).1) (
        Steady-if (c == 41) (Steady-reject_at _ _ _ _) (
          Steady-if (c == 39) (Steady-read_quote again ih r) (
            Steady-if (c == 34) (Steady-read_string r) (
              Steady-if (c == 35) (Steady-read_hash r) (
                Steady-if (is_digit c) (Steady-read_number r false) (
                  Steady-if ((c == 43 || c == 45) && some_digit (second r.rest))
                    (Steady-read_number (advance r).1 (c == 45)) (Steady-read_symbol r)))))))

mutual
  unfolding list_loop read_form list_step form_step

  loop_lem : (fuel : ℕ) → Elements (list_loop fuel)
  loop_lem zero s t w head tail r o = endless
  loop_lem (suc fuel) s t w head tail r o =
      let r' = skip_ws_and_comments r in
      round-Leaves (read_form fuel) (Steady-read_form fuel)
        (list_loop fuel (length s.gc_protect) head) s t w head tail r' (peek r')
        (λ tail r t p. loop_lem fuel s t w head tail r p) o

  Steady-read_form : (fuel : ℕ) (r : Reader) → Steady (read_form fuel r)
  Steady-read_form zero r = record { at = λ s. endless }
  Steady-read_form (suc fuel) r =
      let r' = skip_ws_and_comments r in
      record {
        at =
            (Steady-form_of (list_loop fuel) (loop_lem fuel) (read_form fuel)
              (Steady-read_form fuel) r' (peek r')).at;
      }

pub Steady-ml_read : (r : Reader) → Steady (ml_read r)
unfolding ml_read
Steady-ml_read r = Steady-read_form (2 * length r.rest + 2) r

-- Reading a form leaves the protect stack and the depth counters of the state exactly as they were,
-- whether it ends in a form or in an error.
pub ml_read_lem : (r : Reader) (s : State) → Balanced s (ml_read r s)
ml_read_lem r = (Steady-ml_read r).at
