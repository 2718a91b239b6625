-- ===== src/Platform.antt =====
-- Code/platform_compat.cpp: the replacements for functions of the Windows library. `strerror` and the
-- formatting of `vsnprintf` are arguments; the keyboard is a script of the state.
pub mod Bounds
use rteget_data_linux_compat.Prelude.{
  List, Option, [], c_str, if◌then◌else◌, leb, length, none, some, take, ℕ, ◌-◌, ◌==◌, ◌^◌, ◌||◌,
}

-- EINVAL
abbrev pub einval : ℕ
einval = 22

-- `fopen` gives `errno`, 0 for success.
unfoldable pub fopen_s : (List ℕ → ℕ) → Option (List ℕ) → ℕ
fopen_s fopen none = einval
fopen_s fopen (some filename) = fopen filename

-- The result and the text in the buffer.
unfoldable pub strerror_s : (ℕ → List ℕ) → ℕ → ℕ → ℕ × List ℕ
unfolding c_str
strerror_s strerror size errnum =
    if size == 0 then (einval, []) else (0, c_str (take (size - 1) (strerror errnum)))

-- The result, `none` for a negative one, and the text in the buffer. `formatted` is the whole text that
-- the format stands for, `none` if it cannot be formatted. The size is compared as an `int`.
unfoldable pub sprintf_s : ℕ → Option (List ℕ) → Option ℕ × List ℕ
sprintf_s size none = (none, [])
sprintf_s size (some formatted) =
    if size == 0
    then (none, [])
    else if leb (2 ^ 31) size || leb size (length formatted)
    then (none, take (size - 1) formatted)
    else (some (length formatted), formatted)
