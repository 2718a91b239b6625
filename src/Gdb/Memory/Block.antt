-- ===== src/Gdb/Memory/Block.antt =====
-- A memory of bytes behind the server, and what a write leaves in it.
use rteget_data_linux_compat.Prelude.{
  All, Bool, Bool-cases, IsByte, IsU32, List, [], add32, ap, arith, drop, drop_all, false, get_or,
  if◌then◌else◌, inl, inr, length, ltb, refl, sub32, suc, sym, true, zero, ℕ, ◌++◌, ◌+◌, ◌-◌, ◌<◌,
  ◌^◌, ◌∙◌, ◌∷◌, ◌≡◌, ◌≤◌,
}

-- `n` bytes of the memory from the address base + done on; addresses wrap around.
unfoldable pub memory_block : (ℕ → ℕ) → ℕ → ℕ → ℕ → List ℕ
memory_block mem base done zero = []
memory_block mem base done (suc n) = mem (add32 base done) ∷ memory_block mem base (suc done) n

-- The memory behind a write of `buffer` to the address base on; addresses wrap around.
unfoldable pub stored : (ℕ → ℕ) → ℕ → List ℕ → ℕ → ℕ
stored mem base buffer a =
    if ltb (sub32 a base) (length buffer) then get_or buffer (sub32 a base) 0 else mem a

pub length-memory_block :
    (mem : ℕ → ℕ) (base done n : ℕ) → length (memory_block mem base done n) ≡ n
unfolding memory_block
length-memory_block mem base done zero = refl
length-memory_block mem base done (suc n) = ap suc (length-memory_block mem base (suc done) n)

pub memory_block-IsByte :
    (mem : ℕ → ℕ) (base done n : ℕ)
    → ((a : ℕ) → IsByte (mem a))
    → All IsByte (memory_block mem base done n)
unfolding memory_block
memory_block-IsByte mem base done zero b = tt
memory_block-IsByte mem base done (suc n) b =
    (b (add32 base done), memory_block-IsByte mem base (suc done) n b)

pub memory_block-add :
    (mem : ℕ → ℕ) (base done a b : ℕ)
    → memory_block mem base done (a + b)
      ≡ memory_block mem base done a ++ memory_block mem base (done + a) b
unfolding memory_block
memory_block-add mem base done zero b =
    let nothing : 0 + b ≡ b = omega arith in
    let here : done ≡ done + 0 = omega arith in
    ap (memory_block mem base done) nothing ∙ ap (λ d. memory_block mem base d b) here
memory_block-add mem base done (suc a) b =
    let one_more : suc a + b ≡ suc (a + b) = omega arith in
    let ahead : suc done + a ≡ done + suc a = omega arith in
    ap (memory_block mem base done) one_more
    ∙ ap (λ l. mem (add32 base done) ∷ l) (memory_block-add mem base (suc done) a b)
    ∙ ap
        (λ d.
          mem (add32 base done) ∷ (memory_block mem base (suc done) a ++ memory_block mem base d b))
        ahead

pub memory_block-from :
    (mem : ℕ → ℕ) (base done k n : ℕ)
    → memory_block mem (add32 base done) k n ≡ memory_block mem base (done + k) n
unfolding memory_block
memory_block-from mem base done k zero = refl
memory_block-from mem base done k (suc n) =
    let here : add32 (add32 base done) k ≡ add32 base (done + k) = omega arith in
    let ahead : done + suc k ≡ suc (done + k) = omega arith in
    ap (λ a. mem a ∷ memory_block mem (add32 base done) (suc k) n) here
    ∙ ap (λ l. mem (add32 base (done + k)) ∷ l) (memory_block-from mem base done (suc k) n)
    ∙ ap (λ m. mem (add32 base (done + k)) ∷ memory_block mem base m n) ahead

get_or-drop : (xs : List ℕ) (i : ℕ) → i < length xs → get_or xs i 0 ∷ drop (suc i) xs ≡ drop i xs
get_or-drop [] i h = absurd (omega arith)
get_or-drop (x ∷ xs) zero h = refl
get_or-drop (x ∷ xs) (suc i) h = get_or-drop xs i (omega arith)

get_or-IsByte : (xs : List ℕ) (i : ℕ) → All IsByte xs → IsByte (get_or xs i 0)
get_or-IsByte [] i b = omega arith
get_or-IsByte (x ∷ xs) zero b = b.0
get_or-IsByte (x ∷ xs) (suc i) b = get_or-IsByte xs i b.1

pub stored-IsByte :
    (mem : ℕ → ℕ) (base : ℕ) (buffer : List ℕ)
    → ((a : ℕ) → IsByte (mem a))
    → All IsByte buffer
    → (a : ℕ) → IsByte (stored mem base buffer a)
unfolding stored
stored-IsByte mem base buffer m b a = elim (Bool-cases (ltb (sub32 a base) (length buffer))) [
  | inl e ↦ rw (e, stored) (get_or-IsByte buffer (sub32 a base) b)
  | inr e ↦ rw (e, stored) (m a)
]

stored_at :
    (mem : ℕ → ℕ) (base : ℕ) (buffer : List ℕ) (i : ℕ)
    → IsU32 base
    → i < length buffer
    → length buffer ≤ 2 ^ 32
    → stored mem base buffer (add32 base i) ≡ get_or buffer i 0
unfolding stored
stored_at mem base buffer i hb h small =
    let offset : sub32 (add32 base i) base ≡ i = omega (arith, hb, h, small) in
    let inside : ltb i (length buffer) ≡ true = ground (arith, h) in
    ap (λ k. if ltb k (length buffer) then get_or buffer k 0 else mem (add32 base i)) offset
    ∙ ap (λ (t : Bool). if t then get_or buffer i 0 else mem (add32 base i)) inside

pub memory_block-stored :
    (mem : ℕ → ℕ) (base : ℕ) (buffer : List ℕ) (k done : ℕ)
    → IsU32 base
    → length buffer ≤ 2 ^ 32
    → done + k ≡ length buffer
    → memory_block (stored mem base buffer) base done k ≡ drop done buffer
unfolding memory_block
memory_block-stored mem base buffer zero done hb small e =
    sym (drop_all done buffer (omega (arith, e)))
memory_block-stored mem base buffer (suc k) done hb small e =
    let here : done < length buffer = omega (arith, e) in
    ap (λ l. stored mem base buffer (add32 base done) ∷ l)
      (memory_block-stored mem base buffer k (suc done) hb small (omega (arith, e)))
    ∙ ap (λ c. c ∷ drop (suc done) buffer) (stored_at mem base buffer done hb here small)
    ∙ get_or-drop buffer done here

-- The bytes in front of a write stay.
untouched :
    (mem : ℕ → ℕ) (base done i : ℕ) (buffer : List ℕ)
    → i < done
    → done + length buffer ≤ 2 ^ 32
    → stored mem (add32 base done) buffer (add32 base i) ≡ mem (add32 base i)
unfolding stored
untouched mem base done i buffer h small =
    let far : sub32 (add32 base i) (add32 base done) ≡ 2 ^ 32 + i - done =
      omega (arith, h, small) in
    let outside : ltb (2 ^ 32 + i - done) (length buffer) ≡ false = ground (arith, h, small) in
    ap (λ k. if ltb k (length buffer) then get_or buffer k 0 else mem (add32 base i)) far
    ∙ ap (λ (t : Bool). if t then get_or buffer (2 ^ 32 + i - done) 0 else mem (add32 base i))
        outside

pub memory_block_in_front :
    (mem : ℕ → ℕ) (base done k n : ℕ) (buffer : List ℕ)
    → k + n ≤ done
    → done + length buffer ≤ 2 ^ 32
    → memory_block (stored mem (add32 base done) buffer) base k n ≡ memory_block mem base k n
unfolding memory_block
memory_block_in_front mem base done k zero buffer h small = refl
memory_block_in_front mem base done k (suc n) buffer h small =
    ap (λ c. c ∷ memory_block (stored mem (add32 base done) buffer) base (suc k) n)
      (untouched mem base done k buffer (omega (arith, h)) small)
    ∙ ap (λ l. mem (add32 base k) ∷ l)
        (memory_block_in_front mem base done (suc k) n buffer (omega (arith, h)) small)
