-- ===== src/CmdLine/Options/Limits.antt =====
-- The limits of the parameters, which every option keeps.
use rteget_data_linux_compat.CmdLine.Options.{
  add_driver_name, check_mode, in_message_range, needs_log_file, nonzero, process_com_timeout_value,
  process_delay_value, process_filter_value, process_flag, process_max_msg_length_value,
  process_one_cmd_line_parameter, remove_quotation_marks, same_port, with_text,
}
use rteget_data_linux_compat.Prelude.{
  Bool, Bool-cases, List, Option, Option-cases, [], ap, arith, codes, drop, false, if◌then◌else◌,
  inl, inr, leb, length, length-append, none, refl, same_text, some, starts_with, sym, true, ℕ,
  ◌++◌, ◌∷◌, ◌≡◌, ◌≤◌, ◌⊎◌,
}
use rteget_data_linux_compat.Scan.{scan_word}
use rteget_data_linux_compat.State.{Parameters, RtePort, com_port, gdb_port, tcp_buff_length}
use mathlib.Core.Path.{subst}
use mathlib.Core.Option

-- The number of driver names, and the size of a message.
pub record InLimits (p : Parameters) : Type 0 where
  pub drivers : length p.driver_names ≤ 5
  pub message :
      (p.max_message_size ≡ 0)
      ⊎ ((256 ≤ p.max_message_size) × (p.max_message_size ≤ tcp_buff_length))

-- If the parameters are accepted they are within the limits.
abbrev pub Accepts : Option Parameters → Type 0
Accepts o = (q : Parameters) → o ≡ some q → InLimits q

pub none-Accepts : Accepts none
none-Accepts q e = absurd (ground arith)

abbrev OnSome : Option Parameters → Type 0
OnSome none = Unit {0}
OnSome (some q) = InLimits q

pub some-Accepts : (p : Parameters) → InLimits p → Accepts (some p)
some-Accepts p h q e = subst OnSome e h

pub if-Accepts :
    (b : Bool) {x y : Option Parameters} → Accepts x → Accepts y → Accepts (if b then x else y)
if-Accepts true h k = h
if-Accepts false h k = k

map-Accepts {ℓ} :
    {A : Type ℓ} (f : A → Parameters) (o : Option A)
    → ((a : A) → InLimits (f a))
    → Accepts (Option.map f o)
map-Accepts f none h = none-Accepts
map-Accepts f (some a) h = some-Accepts (f a) (h a)

-- An option that leaves both alone.
pub leaves :
    {p q : Parameters}
    → InLimits p
    → (q.driver_names ≡ p.driver_names)
    → (q.max_message_size ≡ p.max_message_size)
    → InLimits q
leaves h e f = record {
  drivers = omega (arith, ap length e, h.drivers);
  message = subst (λ n. (n ≡ 0) ⊎ ((256 ≤ n) × (n ≤ tcp_buff_length))) (sym f) h.message;
}

pub kept :
    {p : Parameters}
    → InLimits p
    → (q : Parameters) → q.driver_names ≡ p.driver_names
    → q.max_message_size ≡ p.max_message_size
    → Accepts (some q)
kept h q e f = some-Accepts q (leaves h e f)

with_text-Accepts :
    (text : List ℕ) (use_text : List ℕ → Option Parameters)
    → ((t : List ℕ) → Accepts (use_text t))
    → Accepts (with_text text use_text)
unfolding with_text
with_text-Accepts text use_text h = elim (Option-cases (remove_quotation_marks text)) [
  | inl e ↦ rw (e, with_text) none-Accepts
  | inr (t, e) ↦ rw (e, with_text) (h t)
]

in_message_range-lem :
    (r : Option (ℕ × List ℕ)) (n : ℕ)
    → in_message_range r ≡ some n
    → (256 ≤ n) × (n ≤ tcp_buff_length)
unfolding in_message_range
in_message_range-lem none n e = absurd (ground arith)
in_message_range-lem (some (m, rest)) n e = ground arith

process_delay_value-Accepts :
    (t : List ℕ) (p : Parameters) → InLimits p → Accepts (process_delay_value t p)
unfolding process_delay_value
process_delay_value-Accepts t p h =
    map-Accepts _ (nonzero (scan_word 10 t)) (λ n. leaves h refl refl)

process_filter_value-Accepts :
    (t : List ℕ) (p : Parameters) → InLimits p → Accepts (process_filter_value t p)
unfolding process_filter_value
process_filter_value-Accepts t p h = map-Accepts _ (scan_word 16 t) (λ r. leaves h refl refl)

process_com_timeout_value-Accepts :
    (t : List ℕ) (p : Parameters) → InLimits p → Accepts (process_com_timeout_value t p)
unfolding process_com_timeout_value
process_com_timeout_value-Accepts t p h =
    map-Accepts _ (nonzero (scan_word 10 t)) (λ n. leaves h refl refl)

process_max_msg_length_value-Accepts :
    (t : List ℕ) (p : Parameters) → InLimits p → Accepts (process_max_msg_length_value t p)
unfolding process_max_msg_length_value
process_max_msg_length_value-Accepts t p h =
    elim (Option-cases (in_message_range (scan_word 10 t))) [
      | inl e ↦ rw (e, process_max_msg_length_value) none-Accepts
      | inr (n, e) ↦
          rw (e, process_max_msg_length_value)
            (some-Accepts (record p { max_message_size = n })
              (record {
                drivers = h.drivers;
                message = inr (in_message_range-lem (scan_word 10 t) n e);
              }))
    ]

add_driver_name-Accepts : (t : List ℕ) (p : Parameters) → InLimits p → Accepts (add_driver_name t p)
unfolding add_driver_name
add_driver_name-Accepts t p h = elim (Bool-cases (leb 5 (length p.driver_names))) [
  | inl e ↦ rw (e, add_driver_name) none-Accepts
  | inr e ↦
      rw (e, add_driver_name)
        (some-Accepts
          (record p { driver_names = p.driver_names ++ (t ∷ []); elevated_priority = true })
          (record {
            drivers = ground (arith, length-append p.driver_names (t ∷ []));
            message = h.message;
          }))
]

check_mode-Accepts :
    (mode : RtePort) (o : Option Parameters) (p : Parameters)
    → Accepts o
    → Accepts (check_mode mode o p)
unfolding check_mode
check_mode-Accepts mode o p h = if-Accepts (same_port mode p.active_interface) h none-Accepts

needs_log_file-Accepts : (p : Parameters) → InLimits p → Accepts (needs_log_file p)
unfolding needs_log_file
needs_log_file-Accepts p h = elim (Option-cases p.log_file) [
  | inl e ↦ rw (e, needs_log_file) none-Accepts
  | inr (f, e) ↦ rw (e, needs_log_file) (some-Accepts _ (leaves h refl refl))
]

-- An option without a value keeps the limits.
process_flag-Accepts : (t : List ℕ) (p : Parameters) → InLimits p → Accepts (process_flag t p)
unfolding process_flag
process_flag-Accepts t p h = if-Accepts (same_text t (codes "-clear")) (kept h _ refl refl) (
    if-Accepts (same_text t (codes "-priority")) (kept h _ refl refl) (
      if-Accepts (same_text t (codes "-debug")) (needs_log_file-Accepts p h) (
        if-Accepts (same_text t (codes "-detach"))
          (check_mode-Accepts gdb_port _ p (kept h _ refl refl))
          (if-Accepts (same_text t (codes "-p")) (kept h _ refl refl) (
            if-Accepts (same_text t (codes "-single_wire"))
              (check_mode-Accepts com_port _ p (kept h _ refl refl))
              (if-Accepts (starts_with t (codes "-com_timeout="))
                (check_mode-Accepts com_port _ p
                  (process_com_timeout_value-Accepts (drop 13 t) p h))
                none-Accepts))))))

-- An option that is accepted keeps the limits.
pub process_one_cmd_line_parameter-Accepts :
    (t : List ℕ) (p : Parameters) → InLimits p → Accepts (process_one_cmd_line_parameter t p)
unfolding process_one_cmd_line_parameter
process_one_cmd_line_parameter-Accepts t p h =
    if-Accepts (starts_with t (codes "-delay=")) (process_delay_value-Accepts (drop 7 t) p h) (
      if-Accepts (starts_with t (codes "-filter=")) (process_filter_value-Accepts (drop 8 t) p h) (
        if-Accepts (starts_with t (codes "-bin="))
          (with_text-Accepts (drop 5 t) _ (λ f. kept h _ refl refl))
          (if-Accepts (starts_with t (codes "-ip="))
            (check_mode-Accepts gdb_port _ p
              (with_text-Accepts (drop 4 t) _ (λ f. kept h _ refl refl)))
            (if-Accepts (starts_with t (codes "-log="))
              (with_text-Accepts (drop 5 t) _ (λ f. kept h _ refl refl))
              (if-Accepts (starts_with t (codes "-msgsize="))
                (process_max_msg_length_value-Accepts (drop 9 t) p h)
                (if-Accepts (starts_with t (codes "-decode="))
                  (with_text-Accepts (drop 8 t) _ (λ f. kept h _ refl refl))
                  (if-Accepts (starts_with t (codes "-start="))
                    (with_text-Accepts (drop 7 t) _ (λ f. kept h _ refl refl))
                    (if-Accepts (starts_with t (codes "-filter_names="))
                      (with_text-Accepts (drop 14 t) _ (λ f. kept h _ refl refl))
                      (if-Accepts (starts_with t (codes "-driver="))
                        (with_text-Accepts (drop 8 t) _ (λ f. add_driver_name-Accepts f p h))
                        (process_flag-Accepts t p h))))))))))
