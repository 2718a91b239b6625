-- ===== src/Prelude/Blit.antt =====
-- What a buffer holds after a write.
use Prim.Native.Nat.{ℕ, zero, suc, ◌+◌, ◌≤◌, ◌<◌, max}
use mathlib.Core.Path.{◌≡◌, refl, ap, ◌∙◌}
use mathlib.Core.List.{List, [], ◌∷◌, ◌++◌}
use native.Mathlib.Omega.{arith}
use rteget_data_linux_compat.Prelude.Lists.{length, drop}
use rteget_data_linux_compat.Prelude.Text.{blit, peek}

-- A text with a zero behind it, over what was there.
pub blit-blit_end :
    (buf xs : List ℕ)
    → blit (blit buf 0 xs) (length xs) (0 ∷ []) ≡ xs ++ (0 ∷ drop (suc (length xs)) buf)
blit-blit_end [] [] = refl
blit-blit_end (b ∷ buf) [] = refl
blit-blit_end [] (x ∷ xs) =
    ap (λ l. x ∷ l) (blit-blit_end [] xs ∙ ap (λ l. xs ++ (0 ∷ l)) (drop_nil (suc (length xs))))
  where
    drop_nil : (n : ℕ) → drop {A = ℕ} n [] ≡ []
    drop_nil zero = refl
    drop_nil (suc n) = refl
blit-blit_end (b ∷ buf) (x ∷ xs) = ap (λ l. x ∷ l) (blit-blit_end buf xs)

-- A write leaves a buffer as long as it was, or as long as the write reaches.
pub length-blit :
    (buf : List ℕ) (i : ℕ) (xs : List ℕ) → length (blit buf i xs) ≤ max (length buf) (i + length xs)
length-blit [] zero [] = omega arith
length-blit (b ∷ buf) zero [] = omega arith
length-blit [] zero (x ∷ xs) = omega (arith, length-blit [] zero xs)
length-blit (b ∷ buf) zero (x ∷ xs) = omega (arith, length-blit buf zero xs)
length-blit [] (suc i) xs = omega (arith, length-blit [] i xs)
length-blit (b ∷ buf) (suc i) xs = omega (arith, length-blit buf i xs)

-- What is written is read.
pub peek-blit :
    (buf xs : List ℕ) (k : ℕ) → k < length xs → peek (drop k (blit buf 0 xs)) ≡ peek (drop k xs)
peek-blit buf [] k h = absurd (omega arith)
peek-blit [] (x ∷ xs) zero h = refl
peek-blit (b ∷ buf) (x ∷ xs) zero h = refl
peek-blit [] (x ∷ xs) (suc k) h = peek-blit [] xs k (omega arith)
peek-blit (b ∷ buf) (x ∷ xs) (suc k) h = peek-blit buf xs k (omega arith)
