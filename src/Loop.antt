-- ===== src/Loop.antt =====
-- The loops of the program that run until a return or a break. The fuel bounds the rounds; a loop whose
-- rounds lower a measure has the same result on all fuel above the measure, so it never runs out.
use rteget_data_linux_compat.Prelude.{
  Option, Option-cases, ap, arith, inl, inr, none, some, suc, zero, ℕ, ◌<◌, ◌≡◌,
}
use rteget_data_linux_compat.State.{M, State}

module _ {ℓ} {A : Type ℓ} where
  -- One round gives a result, or `none` to go on. `stuck` is the result without fuel.
  unfoldable pub repeat : ℕ → A → (State → Option A × State) → M A
  repeat zero stuck round s = (stuck, s)
  repeat (suc fuel) stuck round s = elim (round s).0 [
    | some a ↦ (a, (round s).1)
    | none ↦ repeat fuel stuck round (round s).1
  ]

module _ {ℓ} {A : Type ℓ} (round : State → Option A × State) where
  pub repeat-some :
      (fuel : ℕ) (stuck : A) (s : State) {a : A} {s' : State}
      → round s ≡ (some a, s')
      → repeat (suc fuel) stuck round s ≡ (a, s')
  unfolding repeat
  repeat-some fuel stuck s e =
      ap
        (λ (r : Option A × State). elim r.0 [
          | some a ↦ (a, r.1)
          | none ↦ repeat fuel stuck round r.1
        ])
        e

  pub repeat-none :
      (fuel : ℕ) (stuck : A) (s : State) {s' : State}
      → round s ≡ (none, s')
      → repeat (suc fuel) stuck round s ≡ repeat fuel stuck round s'
  unfolding repeat
  repeat-none fuel stuck s e =
      ap
        (λ (r : Option A × State). elim r.0 [
          | some a ↦ (a, r.1)
          | none ↦ repeat fuel stuck round r.1
        ])
        e

  -- The state behind the loop has what every round keeps.
  pub repeat_inv {κ} :
      (P : State → Type κ)
      → ((s : State) → P s → P (round s).1)
      → (fuel : ℕ) (stuck : A) (s : State) → P s
      → P (repeat fuel stuck round s).1
  unfolding repeat
  repeat_inv P keep zero stuck s h = h
  repeat_inv P keep (suc fuel) stuck s h = elim (Option-cases (round s).0) [
    | inl e ↦ rw (e, repeat) (repeat_inv P keep fuel stuck (round s).1 (keep s h))
    | inr (a, e) ↦ rw (e, repeat) (keep s h)
  ]

  -- While the loop goes on the state has `P`; behind the last round it has `Q`.
  pub repeat_ends {κ} :
      (P Q : State → Type κ)
      → ((s : State) → P s → Q s)
      → ((s : State) → P s → (round s).0 ≡ none → P (round s).1)
      → ((s : State) → P s → Q (round s).1)
      → (fuel : ℕ) (stuck : A) (s : State) → P s
      → Q (repeat fuel stuck round s).1
  unfolding repeat
  repeat_ends P Q weaken keep finish zero stuck s h = weaken s h
  repeat_ends P Q weaken keep finish (suc fuel) stuck s h = elim (Option-cases (round s).0) [
    | inl e ↦
        rw (e, repeat) (repeat_ends P Q weaken keep finish fuel stuck (round s).1 (keep s h e))
    | inr (a, e) ↦ rw (e, repeat) (finish s h)
  ]

module _ {ℓ} {A : Type ℓ} (round : State → Option A × State) (measure : State → ℕ)
    (falls : (s : State) → (round s).0 ≡ none → measure (round s).1 < measure s) where
  pub repeat_fuel :
      (fuel fuel' : ℕ) (stuck stuck' : A) (s : State)
      → measure s < fuel
      → measure s < fuel'
      → repeat fuel stuck round s ≡ repeat fuel' stuck' round s
  unfolding repeat
  repeat_fuel zero fuel' stuck stuck' s h h' = absurd (omega arith)
  repeat_fuel (suc fuel) zero stuck stuck' s h h' = absurd (omega arith)
  repeat_fuel (suc fuel) (suc fuel') stuck stuck' s h h' = elim (Option-cases (round s).0) [
    | inl e ↦
        rw (e, repeat)
          (repeat_fuel fuel fuel' stuck stuck' (round s).1 (omega (arith, falls s e))
            (omega (arith, falls s e)))
    | inr (a, e) ↦ rw (e, repeat)
  ]
