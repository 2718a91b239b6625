-- ===== src/App/Modes/Switched.antt =====
-- The mode that a switch leaves in the header.
use rteget_data_linux_compat.App.Buffer.{erase_buffer_index, reset_circular_buffer}
use rteget_data_linux_compat.App.Buffer.Frame.{
  erase_buffer_index-Frame, pause_data_logging-Frame, reset_circular_buffer-Frame,
  set_or_restore_message_filter-Frame, write_word-Frame,
}
use rteget_data_linux_compat.App.Filter.{pause_data_logging, set_or_restore_message_filter}
use rteget_data_linux_compat.App.Header.{
  disable_single_shot_mode, enable_single_shot_mode, rte_cfg_word_address,
  single_shot_logging_enabled, single_shot_was_active,
}
use rteget_data_linux_compat.App.Load.{load_rtedbg_structure_header}
use rteget_data_linux_compat.App.Modes.{
  change_header, leave_single_shot, start_single_shot, switch_to_post_mortem_logging,
  switch_to_single_shot_logging, write_cfg_word,
}
use rteget_data_linux_compat.Keeps.{IsComFrame, IsFrame, IsHostFrame, Keeps, Keeps-if_ok}
use rteget_data_linux_compat.Prelude.{Bool, ap, arith, false, if◌then◌else◌, refl, true, ◌∙◌, ◌≡◌}
use rteget_data_linux_compat.State.{Header, State, Status, error, if_ok, ok, pure, ◌>>=◌, ◌>>◌}

-- The header is `h`.
HasHeader : Header → State → Type 0
HasHeader h s = s.rtedbg_header ≡ h

module _ (h : Header) where
  header_frame : IsFrame (HasHeader h)
  unfolding HasHeader
  header_frame = record { keeps_gdb = λ s g k. k; keeps_now = λ s n k. k; keeps_error = λ s e k. k }

  header_com_frame : IsComFrame (HasHeader h)
  unfolding HasHeader
  header_com_frame = record { keeps_com = λ s c e k. k; keeps_com_error = λ s e k. k }

  header_host_frame : IsHostFrame (HasHeader h)
  unfolding HasHeader
  header_host_frame = record { keeps_host = λ s x e k. k }

  cleared_and_restored :
      (cleared : Status) → Keeps (HasHeader h) (if_ok cleared set_or_restore_message_filter)
  cleared_and_restored cleared = Keeps-if_ok (HasHeader h) cleared set_or_restore_message_filter (
      set_or_restore_message_filter-Frame (HasHeader h) header_frame header_com_frame
        header_host_frame)

  -- Behind the change of the mode.
  write_and_clear :
      (written : Status)
      → Keeps (HasHeader h) (
          if_ok written
            (do cleared ← reset_circular_buffer; if_ok cleared set_or_restore_message_filter))
  write_and_clear written =
      Keeps-if_ok (HasHeader h) written
        (do cleared ← reset_circular_buffer; if_ok cleared set_or_restore_message_filter)
        (λ s k. cleared_and_restored (reset_circular_buffer s).0 (reset_circular_buffer s).1 (
          reset_circular_buffer-Frame (HasHeader h) header_frame header_com_frame header_host_frame
            s k))

  write_cfg_word-HasHeader : Keeps (HasHeader h) write_cfg_word
  unfolding write_cfg_word
  write_cfg_word-HasHeader s k =
      write_word-Frame (HasHeader h) header_frame header_com_frame header_host_frame
        s.rtedbg_header.rte_cfg (rte_cfg_word_address s) s k

start_single_shot-HasHeader :
    (s : State) → (start_single_shot s).1.rtedbg_header ≡ enable_single_shot_mode s.rtedbg_header
unfolding start_single_shot HasHeader
start_single_shot-HasHeader s =
    let paused = (pause_data_logging s).1 in
    let shot = record paused { rtedbg_header = enable_single_shot_mode paused.rtedbg_header } in
    write_and_clear shot.rtedbg_header (write_cfg_word shot).0 (write_cfg_word shot).1
      (write_cfg_word-HasHeader shot.rtedbg_header shot refl)
    ∙ ap enable_single_shot_mode (
        pause_data_logging-Frame (HasHeader s.rtedbg_header) (header_frame s.rtedbg_header)
          (header_com_frame s.rtedbg_header) (header_host_frame s.rtedbg_header) s refl)

enable_single_shot_mode-active :
    (h : Header) → single_shot_was_active (enable_single_shot_mode h) ≡ true
enable_single_shot_mode-active h = ground arith

disable_single_shot_mode-inactive :
    (h : Header) → single_shot_was_active (disable_single_shot_mode h) ≡ false
disable_single_shot_mode-inactive h = ground arith

enable_single_shot_mode-allowed :
    (h : Header)
    → single_shot_logging_enabled (enable_single_shot_mode h) ≡ single_shot_logging_enabled h
enable_single_shot_mode-allowed h = ground arith

-- The single shot mode is off.
IsOff : State → Type 0
IsOff s = single_shot_was_active s.rtedbg_header ≡ false

off_frame : IsFrame IsOff
unfolding IsOff
off_frame = record { keeps_gdb = λ s g k. k; keeps_now = λ s n k. k; keeps_error = λ s e k. k }

off_com_frame : IsComFrame IsOff
unfolding IsOff
off_com_frame = record { keeps_com = λ s c e k. k; keeps_com_error = λ s e k. k }

off_host_frame : IsHostFrame IsOff
unfolding IsOff
off_host_frame = record { keeps_host = λ s x e k. k }

left :
    (b : Bool) (s : State)
    → single_shot_was_active s.rtedbg_header ≡ b
    → IsOff (if b then (do change_header disable_single_shot_mode; write_cfg_word) s else (ok, s)).1
unfolding IsOff write_cfg_word
left true s h =
    write_word-Frame IsOff off_frame off_com_frame off_host_frame _ _
      (record s { rtedbg_header = disable_single_shot_mode s.rtedbg_header })
      (disable_single_shot_mode-inactive s.rtedbg_header)
left false s h = h

leave_single_shot-IsOff : (s : State) → IsOff (leave_single_shot s).1
unfolding leave_single_shot
leave_single_shot-IsOff s = left (single_shot_was_active s.rtedbg_header) s refl

erase_and_restore : Keeps IsOff (do erase_buffer_index; set_or_restore_message_filter; pure ok)
erase_and_restore s k =
    set_or_restore_message_filter-Frame IsOff off_frame off_com_frame off_host_frame
      (erase_buffer_index s).1
      (erase_buffer_index-Frame IsOff off_frame off_com_frame off_host_frame s k)

clear_and_restore :
    (left : Status)
    → Keeps IsOff (
        if_ok left (do
          cleared ← reset_circular_buffer
          if_ok cleared (do erase_buffer_index; set_or_restore_message_filter; pure ok)))
clear_and_restore left =
    Keeps-if_ok IsOff left
      (do
        cleared ← reset_circular_buffer
        if_ok cleared (do erase_buffer_index; set_or_restore_message_filter; pure ok))
      (λ s k.
        Keeps-if_ok IsOff (reset_circular_buffer s).0
          (do erase_buffer_index; set_or_restore_message_filter; pure ok) erase_and_restore
          (reset_circular_buffer s).1
          (reset_circular_buffer-Frame IsOff off_frame off_com_frame off_host_frame s k))

allowed_and_started :
    (b : Bool) (s : State)
    → (if b then start_single_shot s else (error, s)).0 ≡ ok
    → ((if b then start_single_shot s else (error, s)).1.rtedbg_header
        ≡ enable_single_shot_mode s.rtedbg_header)
      × (b ≡ true)
allowed_and_started true s h = (start_single_shot-HasHeader s, refl)
allowed_and_started false s h = ground arith

after_load :
    (loaded : Status) (s : State)
    → (if_ok loaded
        (λ s1.
          if single_shot_logging_enabled s1.rtedbg_header
          then start_single_shot s1
          else (error, s1))
        s).0
      ≡ ok
    → ((if_ok loaded
          (λ s1.
            if single_shot_logging_enabled s1.rtedbg_header
            then start_single_shot s1
            else (error, s1))
          s).1.rtedbg_header
        ≡ enable_single_shot_mode s.rtedbg_header)
      × (single_shot_logging_enabled s.rtedbg_header ≡ true)
after_load ok s h = allowed_and_started (single_shot_logging_enabled s.rtedbg_header) s h
after_load error s h = ground arith

-- When switch_to_single_shot_logging reports success, the header that it holds is the one it loaded with
-- the single shot mode switched on, and that header allows single shot logging.
pub switch_to_single_shot_logging-active :
    (s : State)
    → (switch_to_single_shot_logging s).0 ≡ ok
    → ((switch_to_single_shot_logging s).1.rtedbg_header
        ≡ enable_single_shot_mode (load_rtedbg_structure_header s).1.rtedbg_header)
      × (single_shot_was_active (switch_to_single_shot_logging s).1.rtedbg_header ≡ true)
      × (single_shot_logging_enabled (switch_to_single_shot_logging s).1.rtedbg_header ≡ true)
unfolding switch_to_single_shot_logging
switch_to_single_shot_logging-active s h =
    let loaded = load_rtedbg_structure_header s in
    let switched = after_load loaded.0 loaded.1 h in
    (
      switched.0,
      ap single_shot_was_active switched.0 ∙ enable_single_shot_mode-active loaded.1.rtedbg_header,
      ap single_shot_logging_enabled switched.0
          ∙ enable_single_shot_mode-allowed loaded.1.rtedbg_header
          ∙ switched.1,
    )

off_after_load :
    (loaded : Status) (s : State)
    → (if_ok loaded
        (do
          pause_data_logging
          left ← leave_single_shot
          if_ok left (do
            cleared ← reset_circular_buffer
            if_ok cleared (do erase_buffer_index; set_or_restore_message_filter; pure ok)))
        s).0
      ≡ ok
    → IsOff
        (if_ok loaded
          (do
            pause_data_logging
            left ← leave_single_shot
            if_ok left (do
              cleared ← reset_circular_buffer
              if_ok cleared (do erase_buffer_index; set_or_restore_message_filter; pure ok)))
          s).1
off_after_load ok s h =
    let paused = (pause_data_logging s).1 in
    clear_and_restore (leave_single_shot paused).0 (leave_single_shot paused).1
      (leave_single_shot-IsOff paused)
off_after_load error s h = ground arith

-- When switch_to_post_mortem_logging reports success, the single shot mode is off in the header that it
-- holds.
pub switch_to_post_mortem_logging-inactive :
    (s : State)
    → (switch_to_post_mortem_logging s).0 ≡ ok
    → single_shot_was_active (switch_to_post_mortem_logging s).1.rtedbg_header ≡ false
unfolding switch_to_post_mortem_logging IsOff
switch_to_post_mortem_logging-inactive s h =
    off_after_load (load_rtedbg_structure_header s).0 (load_rtedbg_structure_header s).1 h
