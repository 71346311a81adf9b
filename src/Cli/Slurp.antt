-- ===== src/Cli/Slurp.antt =====
-- Reading a whole stream into a buffer that doubles (slurp of src/main.c).
use microlisp.Base.{
  ℕ, zero, suc, ◌+◌, ◌-◌, ◌*◌, ◌/◌, ◌^◌, ◌≤◌, ◌<◌, ◌≡◌, ◌≢◌, refl, sym, ap, ◌∙◌, inl, inr, Bool,
  true, false, Bool-cases, List, [], ◌∷◌, ◌++◌, append_assoc, ltb, length, length-append, take,
  drop, arith,
}
use microlisp.Cli.{Slurped, grow_buf, slurp_loop, slurp}

-- A capacity after some doublings.
doubled : ℕ → ℕ → ℕ
doubled zero room = room
doubled (suc n) room = doubled n (room * 2)

module _ (fread : ℕ → ℕ → List ℕ) (ferror : ℕ → Bool) (has_memory : ℕ → Bool) where
  slurp_loop-ends :
      (fuel : ℕ) (buf : List ℕ) (room : ℕ)
      → room < 2 ^ 64
      → 2 ^ 65 ≤ doubled fuel room
      → slurp_loop fread ferror has_memory fuel buf room ≢ Slurped.endless_slurp
  unfolding slurp_loop doubled grow_buf
  slurp_loop-ends zero buf room small big = λ e. omega (arith, small, big)
  slurp_loop-ends (suc fuel) buf room small big =
      let got = fread (length buf) (room - length buf) in
      let all = buf ++ got in
      elim (Bool-cases (ltb (length got) (room - length buf))) [
        | inl short ↦ elim (Bool-cases (ferror (length all))) [
          | inl bad ↦ rw short (rw bad (λ e. cc))
          | inr good ↦ rw short (rw good (λ e. cc))
        ]
        | inr full ↦ elim (Bool-cases (ltb ((2 ^ 64 - 1) / 2) room)) [
          | inl large ↦ rw full (rw large (λ e. cc))
          | inr fits ↦ elim (Bool-cases (has_memory (room * 2))) [
            | inr lacks ↦ rw full (rw fits (rw lacks (λ e. cc)))
            | inl has ↦
                rw full (rw fits (rw has (slurp_loop-ends fuel all (room * 2) (ground arith) big)))
          ]
        ]
      ]

  -- Whatever the stream gives and the allocator does, the buffer fills, the stream ends or the
  -- program gives up: 53 rounds are enough.
  pub slurp-ends : slurp fread ferror has_memory ≢ Slurped.endless_slurp
  unfolding slurp doubled
  slurp-ends = elim (Bool-cases (has_memory 4096)) [
    | inl has ↦ rw has (slurp_loop-ends 53 [] 4096 (omega arith) (omega arith))
    | inr lacks ↦ rw lacks (λ e. cc)
  ]

drop-append : (n : ℕ) (xs ys : List ℕ) → length xs ≡ n → drop n (xs ++ ys) ≡ ys
drop-append zero [] ys e = refl
drop-append zero (x ∷ xs) ys e = ground arith
drop-append (suc n) [] ys e = ground arith
drop-append (suc n) (x ∷ xs) ys e = drop-append n xs ys (omega arith)

split : (n : ℕ) (xs : List ℕ) → take n xs ++ drop n xs ≡ xs
split zero xs = refl
split (suc n) [] = refl
split (suc n) (x ∷ xs) = ap (λ t. x ∷ t) (split n xs)

-- A take that is short is the whole list, and one that is not has the length asked for.
take_all : (n : ℕ) (xs : List ℕ) → length (take n xs) < n → take n xs ≡ xs
take_all zero xs h = ground arith
take_all (suc n) [] h = refl
take_all (suc n) (x ∷ xs) h = ap (λ t. x ∷ t) (take_all n xs (omega arith))

length-take : (n : ℕ) (xs : List ℕ) → length (take n xs) ≤ n
length-take zero xs = omega arith
length-take (suc n) [] = omega arith
length-take (suc n) (x ∷ xs) = omega (arith, length-take n xs)

-- A regular file: a read gives what is left, up to the room that there is.
abbrev pub regular : List ℕ → ℕ → ℕ → List ℕ
regular content n room = take room (drop n content)

module _ (content : List ℕ) (bound : length content < 2 ^ 63 - 1) where
  abbrev loop : ℕ → List ℕ → ℕ → Slurped
  loop = slurp_loop (regular content) (λ _. false) (λ _. true)

  slurp_loop_lem :
      (fuel : ℕ) (buf rest : List ℕ) (room : ℕ)
      → buf ++ rest ≡ content
      → length buf ≤ room
      → room < 2 ^ 64
      → 2 ^ 65 ≤ doubled fuel room
      → loop fuel buf room ≡ Slurped.slurped content
  unfolding slurp_loop doubled grow_buf
  slurp_loop_lem zero buf rest room whole fits small big = absurd (omega (arith, small, big))
  slurp_loop_lem (suc fuel) buf rest room whole fits small big =
      let left = room - length buf in
      let got_eq : regular content (length buf) left ≡ take left rest =
        ap (λ c. take left (drop (length buf) c)) (sym whole)
        ∙ ap (take left) (drop-append (length buf) buf rest refl) in
      let whole' : (buf ++ take left rest) ++ drop left rest ≡ content =
        append_assoc buf (take left rest) (drop left rest)
        ∙ ap (λ t. buf ++ t) (split left rest)
        ∙ whole in
      rw got_eq (elim (Bool-cases (ltb (length (take left rest)) left)) [
        | inl short ↦
            rw short
              (ap Slurped.slurped (ap (λ t. buf ++ t) (take_all left rest (ground arith)) ∙ whole))
        | inr full ↦
            let sizes : length (buf ++ take left rest) + length (drop left rest) ≡ length content =
              sym (length-append (buf ++ take left rest) (drop left rest)) ∙ ap length whole' in
            let front = length-append buf (take left rest) in
            let most = length-take left rest in
            let fits' : ltb ((2 ^ 64 - 1) / 2) room ≡ false = ground arith in
            rw full (
              rw fits' (
                slurp_loop_lem fuel (buf ++ take left rest) (drop left rest) (room * 2) whole'
                  (ground arith) (ground arith) big))
      ])

  -- A regular file of less than 2^63 - 1 bytes is read in full, if memory suffices.
  pub slurp_lem : slurp (regular content) (λ _. false) (λ _. true) ≡ Slurped.slurped content
  unfolding slurp doubled
  slurp_lem = slurp_loop_lem 53 [] content 4096 refl (omega arith) (omega arith) (omega arith)
