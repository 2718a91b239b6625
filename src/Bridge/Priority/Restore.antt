-- ===== src/Bridge/Priority/Restore.antt =====
-- What raising and lowering the priorities does to the processes of the system.
use rteget_data_linux_compat.Bridge.Priority.{
  decrease_priorities, get_process_id_by_name, increase_priorities, set_driver_priorities,
  set_priorities, set_priority_class, set_process_priority,
}
use rteget_data_linux_compat.Prelude.{
  ==_iff, Bool, Bool-cases, List, [], ap, false, if◌then◌else◌, inl, inr, not, refl, sym, true, ℕ,
  ◌&&◌, ◌++◌, ◌==◌, ◌||◌, ◌∙◌, ◌∷◌, ◌≡◌,
}
use rteget_data_linux_compat.State.{Platform, Priority, State, linux, normal, realtime, win32}
use mathlib.Core.Path.{subst}

-- The ids of the drivers that run.
unfoldable driver_ids : List (List ℕ) → List (List ℕ × ℕ) → List ℕ
unfolding get_process_id_by_name
driver_ids [] running = []
driver_ids (name ∷ names) running =
    let others = driver_ids names running in
    if get_process_id_by_name name running == 0
    then others
    else get_process_id_by_name name running ∷ others

abbrev is_among : ℕ → List ℕ → Bool
is_among id [] = false
is_among id (i ∷ ids) = id == i || is_among id ids

-- The priorities of these processes are set, as far as the system allows it.
record SetsPriority (class : Priority) (ids : List ℕ) (s s1 : State) : Type 0 where
  running : s1.processes.running ≡ s.processes.running
  refuses : s1.processes.refuses ≡ s.processes.refuses
  own_id : s1.processes.own_id ≡ s.processes.own_id
  parameters : s1.parameters ≡ s.parameters
  platform : s1.platform ≡ s.platform
  priority :
      (id : ℕ)
      → s1.processes.priority id ≡ (
          if is_among id ids && not (s.processes.refuses id)
          then class
          else s.processes.priority id)

nothing-SetsPriority : (class : Priority) (s : State) → SetsPriority class [] s s
nothing-SetsPriority class s = record {
  running = refl;
  refuses = refl;
  own_id = refl;
  parameters = refl;
  platform = refl;
  priority = λ id. refl;
}

module _ (class : Priority) (id other : ℕ) (s : State) where
  refused_priority :
      s.processes.refuses id ≡ true
      → s.processes.priority other ≡ (
          if (other == id || false) && not (s.processes.refuses other)
          then class
          else s.processes.priority other)
  refused_priority e = elim (Bool-cases (other == id)) [
    | inl q ↦
        let r : s.processes.refuses other ≡ true =
          ap s.processes.refuses ((==_iff other id).0 q) ∙ e in
        rw (q, r)
    | inr q ↦ rw q
  ]

  granted_priority :
      s.processes.refuses id ≡ false
      → (if other == id then class else s.processes.priority other) ≡ (
          if (other == id || false) && not (s.processes.refuses other)
          then class
          else s.processes.priority other)
  granted_priority e = elim (Bool-cases (other == id)) [
    | inl q ↦
        let r : s.processes.refuses other ≡ false =
          ap s.processes.refuses ((==_iff other id).0 q) ∙ e in
        rw (q, r)
    | inr q ↦ rw q
  ]

set_priority_class-SetsPriority :
    (id : ℕ) (class : Priority) (s : State)
    → SetsPriority class (id ∷ []) s (set_priority_class id class s).1
unfolding set_priority_class
set_priority_class-SetsPriority id class s = elim (Bool-cases (s.processes.refuses id)) [
  | inl e ↦
      rw (e, set_priority_class)
        (record {
          running = refl;
          refuses = refl;
          own_id = refl;
          parameters = refl;
          platform = refl;
          priority = λ other. refused_priority class id other s e;
        })
  | inr e ↦
      rw (e, set_priority_class)
        (record {
          running = refl;
          refuses = refl;
          own_id = refl;
          parameters = refl;
          platform = refl;
          priority = λ other. granted_priority class id other s e;
        })
]

both_set :
    (class old : Priority) (a b refused : Bool)
    → (if b && not refused then class else if a && not refused then class else old)
      ≡ (if (a || b) && not refused then class else old)
both_set class old true true true = refl
both_set class old true true false = refl
both_set class old true false true = refl
both_set class old true false false = refl
both_set class old false true true = refl
both_set class old false true false = refl
both_set class old false false true = refl
both_set class old false false false = refl

is_among-append :
    (id : ℕ) (xs ys : List ℕ) → is_among id (xs ++ ys) ≡ (is_among id xs || is_among id ys)
is_among-append id [] ys = refl
is_among-append id (x ∷ xs) ys =
    ap (λ b. id == x || b) (is_among-append id xs ys) ∙ or_assoc (id == x)
  where
    or_assoc :
        (a : Bool)
        → (a || (is_among id xs || is_among id ys)) ≡ ((a || is_among id xs) || is_among id ys)
    or_assoc true = refl
    or_assoc false = refl

SetsPriority-trans :
    {class : Priority} {ids ids' : List ℕ} {s s1 s2 : State}
    → SetsPriority class ids s s1
    → SetsPriority class ids' s1 s2
    → SetsPriority class (ids ++ ids') s s2
SetsPriority-trans {class} {ids} {ids'} {s} {s1} {s2} h k = record {
  running = k.running ∙ h.running;
  refuses = k.refuses ∙ h.refuses;
  own_id = k.own_id ∙ h.own_id;
  parameters = k.parameters ∙ h.parameters;
  platform = k.platform ∙ h.platform;
  priority = λ id.
      k.priority id
      ∙ ap
          (λ (r : ℕ → Bool).
            if is_among id ids' && not (r id) then class else s1.processes.priority id)
          h.refuses
      ∙ ap (λ p. if is_among id ids' && not (s.processes.refuses id) then class else p)
          (h.priority id)
      ∙ both_set class (s.processes.priority id) (is_among id ids) (is_among id ids')
          (s.processes.refuses id)
      ∙ ap (λ b. if b && not (s.processes.refuses id) then class else s.processes.priority id)
          (sym (is_among-append id ids ids'));
}

set_driver_priorities-SetsPriority :
    (names : List (List ℕ)) (class : Priority) (s : State)
    → SetsPriority class
        (driver_ids names s.processes.running)
        s
        (set_driver_priorities names class s).1
unfolding set_driver_priorities driver_ids set_process_priority
set_driver_priorities-SetsPriority [] class s = nothing-SetsPriority class s
set_driver_priorities-SetsPriority (name ∷ names) class s =
    let id = get_process_id_by_name name s.processes.running in
    elim (Bool-cases (id == 0)) [
      | inl e ↦
          rw (e, set_driver_priorities, set_process_priority, driver_ids)
            (set_driver_priorities-SetsPriority names class s)
      | inr e ↦
          let s1 = (set_priority_class id class s).1 in
          let h = set_priority_class-SetsPriority id class s in
          rw (e, set_driver_priorities, set_process_priority, driver_ids)
            (subst (λ ids. SetsPriority class (id ∷ ids) s (set_driver_priorities names class s1).1)
              (ap (driver_ids names) h.running)
              (SetsPriority-trans h (set_driver_priorities-SetsPriority names class s1)))
    ]

-- The processes that a call of `increase_priorities` or `decrease_priorities` is about.
abbrev target_ids : Platform → Bool → List (List ℕ) → ℕ → List (List ℕ × ℕ) → List ℕ
target_ids linux elevated names own running = []
target_ids win32 false names own running = []
target_ids win32 true names own running = own ∷ driver_ids names running

abbrev targets : State → List ℕ
targets s =
    target_ids s.platform s.parameters.elevated_priority s.parameters.driver_names
      s.processes.own_id s.processes.running

elevated-SetsPriority :
    (class : Priority) (s : State)
    → SetsPriority class
        (s.processes.own_id ∷ driver_ids s.parameters.driver_names s.processes.running)
        s
        (set_driver_priorities s.parameters.driver_names class
          (set_priority_class s.processes.own_id class s).1).1
elevated-SetsPriority class s =
    let s1 = (set_priority_class s.processes.own_id class s).1 in
    let names = s.parameters.driver_names in
    let h = set_priority_class-SetsPriority s.processes.own_id class s in
    subst
      (λ ids.
        SetsPriority class (s.processes.own_id ∷ ids) s (set_driver_priorities names class s1).1)
      (ap (driver_ids names) h.running)
      (SetsPriority-trans h (set_driver_priorities-SetsPriority names class s1))

branch-SetsPriority :
    (platform : Platform) (elevated : Bool) (class : Priority) (s s1 : State)
    → SetsPriority class
        (s.processes.own_id ∷ driver_ids s.parameters.driver_names s.processes.running)
        s
        s1
    → SetsPriority class
        (target_ids platform elevated s.parameters.driver_names s.processes.own_id
          s.processes.running)
        s
        (if◌then◌else◌ {A = Unit {0} × State} elevated
          (elim platform [ win32 ↦ (tt, s1) | linux ↦ (tt, s) ])
          (tt, s)).1
branch-SetsPriority win32 true class s s1 h = h
branch-SetsPriority win32 false class s s1 h = nothing-SetsPriority class s
branch-SetsPriority linux true class s s1 h = nothing-SetsPriority class s
branch-SetsPriority linux false class s s1 h = nothing-SetsPriority class s

set_priorities-SetsPriority :
    (class : Priority) (s : State) → SetsPriority class (targets s) s (set_priorities class s).1
unfolding set_priorities
set_priorities-SetsPriority class s =
    branch-SetsPriority s.platform s.parameters.elevated_priority class s _
      (elevated-SetsPriority class s)

targets_same :
    {class : Priority} {ids : List ℕ} (s s1 : State)
    → SetsPriority class ids s s1
    → targets s1 ≡ targets s
targets_same s s1 h = rw (h.platform, h.parameters, h.own_id, h.running)

lowered :
    (b refused_id : Bool) (first old : Priority)
    → old ≡ normal
    → (if b && not refused_id then normal else (if b && not refused_id then first else old))
      ≡ normal
lowered true true first old e = e
lowered true false first old e = refl
lowered false true first old e = e
lowered false false first old e = e

-- When the priorities are raised and lowered again, on either system and with any drivers, a process that
-- had the normal priority has it again, and so none is left at the real-time priority, also where the
-- system refuses to set some of them. The set of running processes stays the same in between.
pub decrease_priorities-increase_priorities :
    (s : State) (id : ℕ)
    → s.processes.priority id ≡ normal
    → (decrease_priorities (increase_priorities s).1).1.processes.priority id ≡ normal
unfolding increase_priorities decrease_priorities
decrease_priorities-increase_priorities s id e =
    let s1 = (set_priorities realtime s).1 in
    let h = set_priorities-SetsPriority realtime s in
    let k =
      subst (λ ids. SetsPriority normal ids s1 (set_priorities normal s1).1) (targets_same s s1 h)
        (set_priorities-SetsPriority normal s1) in
    let touched = is_among id (targets s) in
    k.priority id
    ∙ ap (λ (r : ℕ → Bool). if touched && not (r id) then normal else s1.processes.priority id)
        h.refuses
    ∙ ap (λ p. if touched && not (s.processes.refuses id) then normal else p) (h.priority id)
    ∙ lowered touched (s.processes.refuses id) realtime (s.processes.priority id) e
