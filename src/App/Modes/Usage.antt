-- ===== src/App/Modes/Usage.antt =====
-- The buffer usage that `display_logging_state` computes.
use rteget_data_linux_compat.App.Modes.{buffer_usage}
use rteget_data_linux_compat.Prelude.{arith, some, ℕ, ◌≡◌, ◌≤◌}
use rteget_data_linux_compat.State.{Header}

-- A usage that is computed is a percentage.
pub buffer_usage_bound : (h : Header) (n : ℕ) → buffer_usage h ≡ some n → n ≤ 100
unfolding buffer_usage
buffer_usage_bound h n e = ground arith
