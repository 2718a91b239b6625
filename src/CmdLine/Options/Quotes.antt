-- ===== src/CmdLine/Options/Quotes.antt =====
-- `remove_quotation_marks`.
use rteget_data_linux_compat.CmdLine.Options.{init, last_or, remove_quotation_marks}
use rteget_data_linux_compat.Prelude.{
  List, [], ap, arith, length-append, none, peek, refl, some, ℕ, ◌++◌, ◌∷◌, ◌≡◌, ◌≢◌,
}

last_or-snoc : (d c : ℕ) (t : List ℕ) → last_or d (t ++ (c ∷ [])) ≡ c
unfolding last_or
last_or-snoc d c [] = refl
last_or-snoc d c (b ∷ t) = last_or-snoc b c t

init-snoc : (t : List ℕ) (c : ℕ) → init (t ++ (c ∷ [])) ≡ t
unfolding init
init-snoc [] c = refl
init-snoc (a ∷ []) c = refl
init-snoc (a ∷ b ∷ t) c = ap (λ l. a ∷ l) (init-snoc (b ∷ t) c)

unclosed : (t : List ℕ) → last_or 0 t ≢ 34 → remove_quotation_marks (34 ∷ t) ≡ none
unfolding remove_quotation_marks last_or
unclosed [] h = refl
unclosed (b ∷ t) h = ground arith

-- A text between two quotation marks is returned, whatever it holds; a text `u` that does not begin with
-- a mark is returned as it is; and a text `v` behind a mark that does not end in one is refused.
pub remove_quotation_marks-quoted :
    (t u v : List ℕ)
    → peek u ≢ 34
    → last_or 0 v ≢ 34
    → (remove_quotation_marks (34 ∷ (t ++ (34 ∷ []))) ≡ some t)
      × (remove_quotation_marks u ≡ some u)
      × (remove_quotation_marks (34 ∷ v) ≡ none)
unfolding remove_quotation_marks
remove_quotation_marks-quoted t u v h k = (
  ground (arith, last_or-snoc 34 34 t, init-snoc t 34, length-append t (34 ∷ [])),
  ground arith,
  unclosed v k,
)
