-- ===== src/Prelude/Text.antt =====
-- Bytes in memory as C reads them. A pointer is the list of the bytes from it on; past the list
-- the memory holds zeros.
use Prim.Native.Nat.{ℕ, zero, suc, ◌-◌}
use Prim.Native.Char.{code}
use Prim.Native.String.{String}
use mathlib.Core.Bool.{Bool, true, false, ◌&&◌}
use mathlib.Core.List.{List, [], ◌∷◌}
use mathlib.Core.Option.{Option, none, some}
use rteget_data_linux_compat.Prelude.Tests.{◌==◌, leb, if◌then◌else◌}

-- The bytes of a literal.
abbrev pub codes : String → List ℕ
codes String.[] = []
codes (String.◌∷◌ c s) = code c ∷ codes s

-- *p
abbrev pub peek : List ℕ → ℕ
peek [] = 0
peek (c ∷ p) = c

-- Writes `xs` at offset `i`.
abbrev pub blit : List ℕ → ℕ → List ℕ → List ℕ
blit buf zero [] = buf
blit [] zero (x ∷ xs) = x ∷ blit [] zero xs
blit (b ∷ buf) zero (x ∷ xs) = x ∷ blit buf zero xs
blit [] (suc i) xs = 0 ∷ blit [] i xs
blit (b ∷ buf) (suc i) xs = b ∷ blit buf i xs

-- The text up to the terminating zero: what `strlen` counts and `%s` prints.
unfoldable pub c_str : List ℕ → List ℕ
c_str [] = []
c_str (c ∷ p) = elim (c == 0) [ true ↦ [] | false ↦ c ∷ c_str p ]

-- strchr(p, ch) for a nonzero ch: the pointer to the first `ch` of the text.
unfoldable pub strchr : ℕ → List ℕ → Option (List ℕ)
strchr ch [] = none
strchr ch (c ∷ p) =
    let rest = strchr ch p in if c == 0 then none else if c == ch then some (c ∷ p) else rest

-- The pointer behind the next byte.
abbrev pub next : List ℕ → List ℕ
next [] = []
next (c ∷ p) = p

-- strncmp(p, text, strlen(text)) == 0 for a text without zeros.
unfoldable pub starts_with : List ℕ → List ℕ → Bool
starts_with p [] = true
starts_with p (t ∷ ts) = peek p == t && starts_with (next p) ts

-- strcmp(p, text) == 0 for texts without zeros.
unfoldable pub same_text : List ℕ → List ℕ → Bool
same_text [] [] = true
same_text (c ∷ p) (t ∷ ts) = c == t && same_text p ts
same_text p t = false

-- p + strlen(text)
unfoldable pub skip : List ℕ → List ℕ → List ℕ
skip [] p = p
skip (t ∷ ts) p = skip ts (next p)

-- strstr(p, text), moved behind the text that it finds.
unfoldable pub behind : List ℕ → List ℕ → Option (List ℕ)
unfolding starts_with skip
behind text [] = none
behind text (c ∷ p) =
    let rest = behind text p in
    if c == 0 then none else if starts_with (c ∷ p) text then some (skip text (c ∷ p)) else rest

-- toupper in the "C" locale.
unfoldable pub toupper : ℕ → ℕ
toupper c = if leb 97 c && leb c 122 then c - 32 else c

unfoldable pub is_digit : ℕ → Bool
is_digit c = leb 48 c && leb c 57

-- A line of `fgets` without its newline.
unfoldable pub before_newline : List ℕ → List ℕ
before_newline [] = []
before_newline (c ∷ p) = let rest = c ∷ before_newline p in if c == 10 then [] else rest
