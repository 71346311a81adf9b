-- ===== src/Reader/Forms.antt =====
-- Lists, quotes and the dispatch of src/reader.c: read_list, read_quote and read_form.
use microlisp.Base.{
  ℕ, zero, suc, ◌+◌, ◌-◌, ◌*◌, Bool, false, ◌&&◌, ◌||◌, Option, none, some, List, [], ◌∷◌, leb,
  ◌==◌, if◌then◌else◌, length,
}
use microlisp.Value.{Value, pair, mv_nil, mv_eof, ml_value_eq}
use microlisp.State.{
  Status, Arg, Message, Run, M, pure, fail, on_error, always, ml_set_error, store, ◌>>=◌, ◌>>◌,
}
use microlisp.Gc.{ml_gc_alloc_pair, ml_gc_protect, ml_gc_unprotect, ml_gc_savepoint, ml_gc_restore}
use microlisp.Env.{addr_of}
use microlisp.Eval.Lists.{must_pair}
use microlisp.Reader.{
  Reader, peek, advance, head_of, is_byte, is_terminator, is_digit, skip_ws_and_comments, reject_at,
  read_string, read_hash, read_number, read_symbol,
}

-- `ml_as_pair(v)->cdr = d`
unfoldable pub set_cdr : Value → Value → M (Unit {0})
unfolding must_pair store
set_cdr v d = do (a, _) ← must_pair v; store (addr_of v) (pair a d)

abbrev pub second : List ℕ → Option ℕ
second [] = none
second (c ∷ cs) = head_of cs

abbrev pub some_terminator : Option ℕ → Bool
some_terminator none = false
some_terminator (some c) = is_terminator (some c)

-- A `.` that ends as a token: `pos + 1 < len` and a terminator there.
unfoldable pub is_dot : Reader → Bool
unfolding is_terminator
is_dot r = is_byte 46 (peek r) && some_terminator (second r.rest)

-- A sign with a digit behind it.
abbrev pub some_digit : Option ℕ → Bool
some_digit none = false
some_digit (some c) = is_digit c

module _ (again : Reader → M (Value × Reader)) where
  -- The form behind a dot, and the closing parenthesis.
  unfoldable pub read_dotted : ℕ → Value → Value → Reader → M Reader
  unfolding ml_value_eq ml_gc_restore set_cdr skip_ws_and_comments advance reject_at ml_set_error
  read_dotted sp head tail r =
      if ml_value_eq tail head
      then on_error (ml_gc_restore sp)
          (reject_at Status.read_syntax r.line r.column "dot at start of list")
      else (do
        (cdr_form, r1) ← on_error (ml_gc_restore sp) (again r)
        set_cdr tail cdr_form
        let r2 = skip_ws_and_comments r1
        if is_byte 41 (peek r2)
            then pure (advance r2).1
            else on_error (ml_gc_restore sp) (
                reject_at Status.read_syntax r2.line r2.column
                  "expected `)` after dotted-pair tail form"))

  -- One more element: its cell is linked behind `tail`, and is the new tail.
  unfoldable pub read_element : ℕ → Value → Reader → M (Value × Reader)
  unfolding ml_gc_restore ml_gc_protect ml_gc_unprotect ml_gc_alloc_pair set_cdr
  read_element sp tail r = do
    (elem, r') ← on_error (ml_gc_restore sp) (again r)
    on_error (ml_gc_restore sp) (ml_gc_protect elem)
    cell ← on_error (ml_gc_restore sp) (always (ml_gc_unprotect 1) (ml_gc_alloc_pair elem mv_nil))
    set_cdr tail cell
    pure (cell, r')

  abbrev pub list_round :
      (Value → Reader → M Reader) → ℕ → Value → Value → Reader → Option ℕ → M Reader
  list_round next sp head tail r none =
      on_error (ml_gc_restore sp)
        (reject_at Status.read_truncated r.line r.column "unterminated list")
  list_round next sp head tail r (some c) =
      if c == 41
      then pure (advance r).1
      else if is_dot r
      then read_dotted sp head tail (advance r).1
      else (read_element sp tail r >>= λ (cell, r'). next cell r')

  -- The elements up to the closing parenthesis.
  unfoldable pub list_step : (Value → Reader → M Reader) → ℕ → Value → Value → Reader → M Reader
  unfolding skip_ws_and_comments is_dot read_dotted read_element
  list_step next sp head tail r =
      let r' = skip_ws_and_comments r in list_round next sp head tail r' (peek r')

  -- `(quote <form>)`, with the form and then the inner cell protected.
  unfoldable pub read_quote : Reader → M (Value × Reader)
  unfolding advance ml_value_eq reject_at ml_set_error ml_gc_protect ml_gc_unprotect ml_gc_restore
      ml_gc_alloc_pair
  read_quote r = do
    (form, r') ← again (advance r).1
    if ml_value_eq form mv_eof
        then reject_at Status.read_truncated r.line r.column "lone `'` with no following datum"
        else (do
          sp ← ml_gc_savepoint
          ml_gc_protect form
          inner ← on_error (ml_gc_restore sp) (ml_gc_alloc_pair form mv_nil)
          ml_gc_unprotect 1
          ml_gc_protect inner
          out ← λ s. always (ml_gc_restore sp) (ml_gc_alloc_pair s.syms.sym_quote inner) s
          pure (out, r'))

-- The list behind an opening parenthesis, read by `elements` behind a dummy head.
unfoldable pub read_list : (ℕ → Value → Value → Reader → M Reader) → Reader → M (Value × Reader)
unfolding skip_ws_and_comments advance ml_set_error ml_gc_alloc_pair ml_gc_protect ml_gc_restore
    must_pair
read_list elements r s =
    if leb s.max_read_depth r.depth
    then (do
      ml_set_error r.line r.column
          (Message.format "nesting depth exceeds limit of %zu" (Arg.num s.max_read_depth ∷ []))
      fail Status.read_depth)
        s
    else (do
      let r1 = skip_ws_and_comments (record r { depth = suc r.depth })
      if is_byte 41 (peek r1)
          then (let r2 = (advance r1).1 in pure (mv_nil, record r2 { depth = r2.depth - 1 }))
          else (do
            sp ← ml_gc_savepoint
            head ← ml_gc_alloc_pair mv_nil mv_nil
            ml_gc_protect head
            r2 ← elements sp head head r1
            (_, out) ← must_pair head
            ml_gc_restore sp
            pure (out, record r2 { depth = r2.depth - 1 })))
        s

-- The dispatch on the first byte.
abbrev pub form_of :
    (Reader → M (Value × Reader))
    → (ℕ → Value → Value → Reader → M Reader)
    → Reader
    → Option ℕ
    → M (Value × Reader)
form_of again elements r none = pure (mv_eof, r)
form_of again elements r (some c) =
    if c == 40
    then read_list elements (advance r).1
    else if c == 41
    then reject_at Status.read_syntax r.line r.column "unexpected `)`"
    else if c == 39
    then read_quote again r
    else if c == 34
    then read_string r
    else if c == 35
    then read_hash r
    else if is_digit c
    then read_number r false
    else if (c == 43 || c == 45) && some_digit (second r.rest)
    then read_number (advance r).1 (c == 45)
    else read_symbol r

unfoldable pub form_step :
    (Reader → M (Value × Reader))
    → (ℕ → Value → Value → Reader → M Reader)
    → Reader
    → M (Value × Reader)
unfolding skip_ws_and_comments advance reject_at ml_set_error is_digit read_list read_quote
    read_string read_hash read_number read_symbol
form_step again elements r = let r' = skip_ws_and_comments r in form_of again elements r' (peek r')

unfoldable mutual
  unfolding list_step form_step

  pub list_loop : ℕ → ℕ → Value → Value → Reader → M Reader
  list_loop zero sp head tail r s = Run.out_of_fuel
  list_loop (suc fuel) sp head tail r s =
      list_step (read_form fuel) (list_loop fuel sp head) sp head tail r s

  pub read_form : ℕ → Reader → M (Value × Reader)
  read_form zero r s = Run.out_of_fuel
  read_form (suc fuel) r s = form_step (read_form fuel) (list_loop fuel) r s

-- Two units of fuel for each byte that is left and two more.
unfoldable pub ml_read : Reader → M (Value × Reader)
unfolding read_form
ml_read r = read_form (2 * length r.rest + 2) r
