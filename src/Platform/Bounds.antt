-- ===== src/Platform/Bounds.antt =====
-- Bounds on what the replacements write.
use rteget_data_linux_compat.Platform.{sprintf_s, strerror_s}
use rteget_data_linux_compat.Prelude.{
  Bool, Bool-cases, List, Option, [], ap, arith, c_str, false, if◌then◌else◌, inl, inr, leb, length,
  length-take, none, refl, some, sym, take, true, ℕ, ◌+◌, ◌-◌, ◌<◌, ◌==◌, ◌^◌, ◌||◌, ◌∙◌, ◌∷◌, ◌≡◌,
  ◌≤◌,
}

pub length-c_str : (p : List ℕ) → length (c_str p) ≤ length p
unfolding c_str
length-c_str [] = omega arith
length-c_str (c ∷ p) = elim (Bool-cases (c == 0)) [
  | inl e ↦ rw (e, c_str) (omega arith)
  | inr e ↦ rw (e, c_str) (omega (arith, length-c_str p))
]

-- A text of `strerror_s` and the zero behind it fit the buffer.
pub strerror_s-fits :
    (strerror : ℕ → List ℕ) (size errnum : ℕ)
    → 0 < size
    → length (strerror_s strerror size errnum).1 + 1 ≤ size
unfolding strerror_s
strerror_s-fits strerror size errnum h = elim (Bool-cases (size == 0)) [
  | inl e ↦ absurd (ground arith)
  | inr e ↦
      rw (e, strerror_s)
        (omega (
          arith,
          length-c_str (take (size - 1) (strerror errnum)),
          length-take (size - 1) (strerror errnum),
        ))
]

written_whole :
    (empty small : Bool) (text cut : List ℕ) (n : ℕ) (p : List ℕ)
    → if◌then◌else◌ {A = Option ℕ × List ℕ} empty
        (none, [])
        (if◌then◌else◌ {A = Option ℕ × List ℕ} small (none, cut) (some (length text), text))
      ≡ (some n, p)
    → (small ≡ false) × (text ≡ p) × (length text ≡ n)
written_whole true small text cut n p e = absurd (ground arith)
written_whole false true text cut n p e = absurd (ground arith)
written_whole false false text cut n p e = (refl, ap (λ r. r.1) e, ground arith)

-- Where `sprintf_s` returns a length, the buffer holds the whole text, of this length, and the zero behind
-- it fits.
pub sprintf_s_complete :
    (size : ℕ) (formatted : Option (List ℕ)) (n : ℕ) (p : List ℕ)
    → sprintf_s size formatted ≡ (some n, p)
    → (formatted ≡ some p) × (length p ≡ n) × (n < size)
unfolding sprintf_s
sprintf_s_complete size none n p e = absurd (ground arith)
sprintf_s_complete size (some text) n p e =
    let w = written_whole (size == 0) _ text (take (size - 1) text) n p e in
    (ap some w.1, ap length (sym w.1) ∙ w.2, below_size w.0 w.2)
  where
    below_size : (leb (2 ^ 31) size || leb size (length text)) ≡ false → length text ≡ n → n < size
    below_size h k = ground arith
