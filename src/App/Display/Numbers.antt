-- ===== src/App/Display/Numbers.antt =====
-- The numbers of the enabled filters that are printed.
use rteget_data_linux_compat.App.Display.{
  filter_title, print_filter_info, print_filter_numbers, top_bit,
}
use rteget_data_linux_compat.Hex.{print_decimal}
use rteget_data_linux_compat.Prelude.{
  Bool, Bool-cases, List, [], ap, arith, codes, false, if◌then◌else◌, inl, inr, length, mul32, none,
  refl, some, suc, sym, true, zero, ℕ, ◌*◌, ◌++◌, ◌+◌, ◌<◌, ◌==◌, ◌^◌, ◌||◌, ◌∙◌, ◌∷◌, ◌≡◌, ◌≤◌,
}
use rteget_data_linux_compat.State.{State}

-- The word with these bits, from bit `j` down.
unfoldable pub word_of_bits : ℕ → List Bool → ℕ
word_of_bits j [] = 0
word_of_bits zero (b ∷ bs) = if b then 1 else 0
word_of_bits (suc j) (b ∷ bs) = (if b then 2 ^ suc j else 0) + word_of_bits j bs

-- The positions of the bits that are set, and their text.
unfoldable pub set_positions : ℕ → List Bool → List ℕ
set_positions i [] = []
set_positions i (b ∷ bs) = let others = set_positions (i + 1) bs in if b then i ∷ others else others

unfoldable pub numbers_text : Bool → List ℕ → List ℕ
unfolding print_decimal
numbers_text printed [] = []
numbers_text printed (i ∷ is) =
    (if printed then codes ", " else []) ++ (print_decimal i ++ numbers_text true is)

pow_suc : (j : ℕ) → 2 ^ suc j ≡ 2 ^ j + 2 ^ j
pow_suc j = omega arith

pow_pos : (j : ℕ) → 0 < 2 ^ j
pow_pos zero = omega arith
pow_pos (suc j) = omega (arith, pow_suc j, pow_pos j)

word_of_bits_lt : (j : ℕ) (bs : List Bool) → word_of_bits j bs < 2 ^ suc j
unfolding word_of_bits
word_of_bits_lt j [] = pow_pos (suc j)
word_of_bits_lt zero (true ∷ bs) = omega arith
word_of_bits_lt zero (false ∷ bs) = omega arith
word_of_bits_lt (suc j) (true ∷ bs) = omega (arith, word_of_bits_lt j bs)
word_of_bits_lt (suc j) (false ∷ bs) = omega (arith, word_of_bits_lt j bs)

double_bits :
    (j : ℕ) (bs : List Bool) → length bs ≤ suc j → word_of_bits j bs * 2 ≡ word_of_bits (suc j) bs
unfolding word_of_bits
double_bits j [] h = refl
double_bits zero (true ∷ []) h = refl
double_bits zero (false ∷ []) h = refl
double_bits zero (b ∷ c ∷ bs) h = absurd (omega arith)
double_bits (suc j) (true ∷ bs) h =
    omega (arith, pow_suc (suc j), double_bits j bs (omega (arith, h)))
double_bits (suc j) (false ∷ bs) h =
    omega (arith, pow_suc (suc j), double_bits j bs (omega (arith, h)))

top_bit-bits : (b : Bool) (bs : List Bool) → top_bit (word_of_bits 31 (b ∷ bs)) ≡ b
unfolding top_bit word_of_bits
top_bit-bits true bs = ground (arith, word_of_bits_lt 30 bs)
top_bit-bits false bs = ground (arith, word_of_bits_lt 30 bs)

shift_bits :
    (b : Bool) (bs : List Bool)
    → length bs ≤ 31
    → mul32 (word_of_bits 31 (b ∷ bs)) 2 ≡ word_of_bits 31 bs
unfolding word_of_bits
shift_bits true bs h = omega (arith, double_bits 30 bs h, word_of_bits_lt 30 bs)
shift_bits false bs h = omega (arith, double_bits 30 bs h, word_of_bits_lt 30 bs)

one_round :
    (b printed : Bool) (i : ℕ) (rest : Bool → List ℕ) (positions : List ℕ)
    → ((p : Bool) → rest p ≡ numbers_text p positions)
    → (if b
        then (if printed then codes ", " else []) ++ (print_decimal i ++ rest (printed || b))
        else rest (printed || b))
      ≡ numbers_text printed (if b then i ∷ positions else positions)
unfolding numbers_text
one_round true true i rest positions h = ap (λ l. codes ", " ++ (print_decimal i ++ l)) (h true)
one_round true false i rest positions h = ap (λ l. print_decimal i ++ l) (h true)
one_round false true i rest positions h = h true
one_round false false i rest positions h = h false

print_filter_numbers-bits :
    (bs : List Bool) (i : ℕ) (printed : Bool)
    → length bs ≤ 32
    → print_filter_numbers (length bs) i (word_of_bits 31 bs) printed
      ≡ numbers_text printed (set_positions i bs)
unfolding print_filter_numbers set_positions numbers_text
print_filter_numbers-bits [] i printed h = refl
print_filter_numbers-bits (b ∷ bs) i printed h =
    ap (λ t. go t (mul32 f 2)) (top_bit-bits b bs)
    ∙ ap (go b) (shift_bits b bs (omega (arith, h)))
    ∙ one_round b printed i (print_filter_numbers (length bs) (i + 1) (word_of_bits 31 bs))
        (set_positions (i + 1) bs) (λ p. print_filter_numbers-bits bs (i + 1) p (omega (arith, h)))
  where
    f : ℕ
    f = word_of_bits 31 (b ∷ bs)

    go : Bool → ℕ → List ℕ
    go t g =
        let rest = print_filter_numbers (length bs) (i + 1) g (printed || t) in
        if t then (if printed then codes ", " else []) ++ (print_decimal i ++ rest) else rest

-- The loop that shifts the filter word prints, separated by commas, the numbers of the filters that are
-- on, in ascending order, where the filter with the number 0 is the highest bit: for any 32 bits, and the
-- word that they make, the text is that of the positions of the bits that are set.
pub print_filter_info-numbers :
    (bs : List Bool) (s : State)
    → length bs ≡ 32
    → s.rtedbg_header.filter ≡ word_of_bits 31 bs
    → 0 < word_of_bits 31 bs
    → s.parameters.filter_names ≡ none
    → (print_filter_info s).0
      ≡ some (filter_title (word_of_bits 31 bs) ++ numbers_text false (set_positions 0 bs))
unfolding print_filter_info
print_filter_info-numbers bs s n e pos u = elim (Bool-cases (s.rtedbg_header.filter == 0)) [
  | inl z ↦ absurd (ground arith)
  | inr z ↦
      rw (z, u, print_filter_info)
        (ap (λ f. some (filter_title f ++ print_filter_numbers 32 0 f false)) e
          ∙ ap
              (λ k. some (
                filter_title (word_of_bits 31 bs)
                ++ print_filter_numbers k 0 (word_of_bits 31 bs) false))
              (sym n)
          ∙ ap (λ l. some (filter_title (word_of_bits 31 bs) ++ l))
              (print_filter_numbers-bits bs 0 false (omega (arith, n))))
]
