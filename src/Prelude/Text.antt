-- ===== src/Prelude/Text.antt =====
-- Python's methods of a text at one character: `in`, `partition`, `rsplit(…, 1)[-1]` and `lstrip`.
use Prim.Native.Char.{Char, code}
use Prim.Native.String.{String, [], ◌∷◌}
use py_board.Prelude.{ℕ, Bool, false, ◌||◌, ◌==◌, if◌then◌else◌}

-- The character with the number `n`.
abbrev pub is_char : ℕ → Char → Bool
is_char n c = code c == n

-- `c in text`
unfoldable pub contains : ℕ → String → Bool
contains n [] = false
contains n (c ∷ s) = is_char n c || contains n s

-- `text.partition(c)`: the parts before and after the first one; without one, all and nothing.
unfoldable pub partition : ℕ → String → String × String
partition n [] = ([], [])
partition n (c ∷ s) =
    let (local, domain) = partition n s in if is_char n c then ([], s) else (c ∷ local, domain)

-- `text.rsplit(c, 1)[-1]`: what follows the last one; without one, all.
unfoldable pub after_last : ℕ → String → String
after_last n [] = []
after_last n (c ∷ s) =
    let rest = after_last n s in if contains n s then rest else if is_char n c then s else c ∷ s

-- `text.lstrip(c)`
unfoldable pub lstrip : ℕ → String → String
lstrip n [] = []
lstrip n (c ∷ s) = let rest = lstrip n s in if is_char n c then rest else c ∷ s
