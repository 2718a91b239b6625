-- ===== src/CmdLine/Valid.antt =====
-- What the accepted command lines have in common.
use rteget_data_linux_compat.CmdLine.{
  Setting, both, process_command_line_parameters, process_options, set_defaults, set_start_address,
  set_structure_size,
}
use rteget_data_linux_compat.CmdLine.Check.{check_parameters, is_com_port}
use rteget_data_linux_compat.CmdLine.Options.{process_one_cmd_line_parameter}
use rteget_data_linux_compat.CmdLine.Options.Limits.{
  Accepts, InLimits, kept, none-Accepts, process_one_cmd_line_parameter-Accepts, some-Accepts,
}
use rteget_data_linux_compat.CmdLine.Port.{process_port_type}
use rteget_data_linux_compat.CmdLine.Port.Limits.{process_port_type-Accepts}
use rteget_data_linux_compat.Prelude.{
  List, Option, Option-cases, [], arith, false, inl, inr, none, refl, some, ℕ, ◌%◌, ◌∷◌, ◌≡◌, ◌≤◌,
  ◌⊎◌,
}
use rteget_data_linux_compat.Scan.{scan_word}
use rteget_data_linux_compat.State.{Parameters}
use mathlib.Core.Path.{subst}

-- What `check_parameters` asks for.
pub record IsChecked (p : Parameters) : Type 0 where
  pub words : p.size % 4 ≡ 0
  pub large : (p.size ≡ 0) ⊎ (80 ≤ p.size)
  pub aligned : p.start_address % 4 ≡ 0
  pub offset : (is_com_port p.active_interface ≡ false) ⊎ (p.start_address ≡ 0)

check_parameters-same : (p q : Parameters) → check_parameters p ≡ some q → p ≡ q
unfolding check_parameters
check_parameters-same p q e = ground arith

check_parameters-IsChecked : (p q : Parameters) → check_parameters p ≡ some q → IsChecked p
unfolding check_parameters
check_parameters-IsChecked p q e = record {
  words = ground arith;
  large = ground arith;
  aligned = ground arith;
  offset = ground arith;
}

both-lem :
    (P Q : Parameters → Type 0) (f g : Setting) (p : Parameters)
    → ((r : Parameters) → f p ≡ some r → P r)
    → ((r q : Parameters) → P r → g r ≡ some q → Q q)
    → (q : Parameters) → both f g p ≡ some q
    → Q q
both-lem P Q f g p h k q e = elim (Option-cases (f p)) [
  | inl n ↦ absurd (ground (arith, n))
  | inr (r, m) ↦ k r q (h r m) (ground (arith, m))
]

-- The parameters of an accepted command line.
pub record IsValid (p : Parameters) : Type 0 where
  pub limits : InLimits p
  pub checked : IsChecked p

checked_last : (p q : Parameters) → InLimits p → check_parameters p ≡ some q → IsValid q
checked_last p q h e =
    subst IsValid (check_parameters-same p q e)
      (record { limits = h; checked = check_parameters-IsChecked p q e })

set_start_address-Accepts :
    (r : Option (ℕ × List ℕ)) (p : Parameters) → InLimits p → Accepts (set_start_address r p)
unfolding set_start_address
set_start_address-Accepts none p h = none-Accepts
set_start_address-Accepts (some (n, rest)) p h = kept h _ refl refl

set_structure_size-Accepts :
    (r : Option (ℕ × List ℕ)) (p : Parameters) → InLimits p → Accepts (set_structure_size r p)
unfolding set_structure_size
set_structure_size-Accepts none p h = none-Accepts
set_structure_size-Accepts (some (n, rest)) p h = kept h _ refl refl

process_options-Accepts :
    (options : List (List ℕ)) (p : Parameters) → InLimits p → Accepts (process_options options p)
unfolding process_options
process_options-Accepts [] p h = some-Accepts p h
process_options-Accepts (t ∷ options) p h =
    elim (Option-cases (process_one_cmd_line_parameter t p)) [
      | inl e ↦ rw (e, process_options) none-Accepts
      | inr (q, e) ↦
          rw (e, process_options)
            (process_options-Accepts options q (process_one_cmd_line_parameter-Accepts t p h q e))
    ]

-- From any parameters with at most five driver names and a message size of 0 or in range: what an
-- accepted command line leaves has a size of whole words that is 0 or at least 80, an aligned start
-- address (0 for a COM port), at most five driver names, and a message size of 0 or from 256 to 65535.
pub process_command_line_parameters-IsValid :
    (arguments : List (List ℕ)) (p q : Parameters)
    → InLimits p
    → process_command_line_parameters arguments p ≡ some q
    → IsValid q
unfolding process_command_line_parameters
process_command_line_parameters-IsValid [] p q h e = absurd (ground arith)
process_command_line_parameters-IsValid (a ∷ []) p q h e = absurd (ground arith)
process_command_line_parameters-IsValid (a ∷ b ∷ []) p q h e = absurd (ground arith)
process_command_line_parameters-IsValid (port ∷ address ∷ size ∷ options) p q h e =
    both-lem InLimits IsValid set_defaults _ p (kept h _ refl refl)
      (λ p1 q1 h1.
        both-lem InLimits IsValid (process_port_type port) _ p1
          (process_port_type-Accepts port p1 h1)
          (λ p2 q2 h2.
            both-lem InLimits IsValid (set_start_address (scan_word 16 address)) _ p2
              (set_start_address-Accepts _ p2 h2)
              (λ p3 q3 h3.
                both-lem InLimits IsValid (set_structure_size (scan_word 16 size)) _ p3
                  (set_structure_size-Accepts _ p3 h3)
                  (λ p4 q4 h4.
                    both-lem InLimits IsValid (process_options options) check_parameters p4
                      (process_options-Accepts options p4 h4)
                      (λ p5 q5 h5 e5. checked_last p5 q5 h5 e5) q4)
                  q3)
              q2)
          q1)
      q e
