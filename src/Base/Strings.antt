-- ===== src/Base/Strings.antt =====
-- Python's text methods that the program calls. `lower` changes the ASCII letters only.
use trimum.Base.Tests.{leb, if◌then◌else◌, ◌==◌}
use trimum.Base.Texts.{Text}
use Prim.Native.Nat.{ℕ, ◌+◌}
use mathlib.Core.Bool.{Bool, true, false, ◌&&◌, ◌||◌}
use mathlib.Core.List.{List, [], ◌∷◌, ◌++◌, map, reverse}

-- The characters that `str.isspace` accepts.
unfoldable pub is_space : ℕ → Bool
is_space c =
    (leb 9 c && leb c 13)
    || (leb 28 c && leb c 32)
    || c == 133
    || c == 160
    || c == 0x1680
    || (leb 0x2000 c && leb c 0x200a)
    || c == 0x2028
    || c == 0x2029
    || c == 0x202f
    || c == 0x205f
    || c == 0x3000

unfoldable pub to_lower : ℕ → ℕ
to_lower c = if leb b'A' c && leb c b'Z' then c + 32 else c

unfoldable pub lower : Text → Text
unfolding to_lower
lower s = map to_lower s

unfoldable pub lstrip : Text → Text
unfolding is_space
lstrip [] = []
lstrip (c ∷ s) = if is_space c then lstrip s else c ∷ s

unfoldable pub strip : Text → Text
unfolding lstrip
strip s = reverse (lstrip (reverse (lstrip s)))

-- The word at the front, up to the next space.
unfoldable pub word : Text → Text
unfolding is_space
word [] = []
word (c ∷ s) = if is_space c then [] else c ∷ word s

-- `s.split()`: the maximal runs without spaces. `w` is the run so far, backwards.
abbrev pub close_word : Text → List Text → List Text
close_word [] ws = ws
close_word (c ∷ w) ws = reverse (c ∷ w) ∷ ws

unfoldable pub split_from : Text → Text → List Text
unfolding is_space
split_from w [] = close_word w []
split_from w (c ∷ s) = elim (is_space c) [
  | true ↦ close_word w (split_from [] s)
  | false ↦ split_from (c ∷ w) s
]

-- `" ".join(ws)`
abbrev pub join_after : Text → List Text → Text → Text
join_after w [] rest = w
join_after w (_ ∷ _) rest = w ++ b' ' ∷ rest

unfoldable pub join_spaced : List Text → Text
join_spaced [] = []
join_spaced (w ∷ ws) = join_after w ws (join_spaced ws)
