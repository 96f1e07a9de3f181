-- ===== src/Prelude/Words.antt =====
-- The parts of a text: `str::trim`, `split_whitespace` and `lines`.
use mathlib.Core.Bool.{not, ◌&&◌}
use mathlib.Core.List.{List, [], ◌∷◌}
use seadog.Prelude.Tests.{if◌then◌else◌, ◌==◌}
use seadog.Prelude.Lists.{select}
use seadog.Prelude.Strings.{Text, is_empty, is_whitespace, push_first, split_char}

unfoldable pub trim_start : Text → Text
trim_start [] = []
trim_start (c ∷ s) = let rest = trim_start s in if is_whitespace c then rest else c ∷ s

unfoldable pub trim_end : Text → Text
trim_end [] = []
trim_end (c ∷ s) =
    let rest = trim_end s in if is_empty rest && is_whitespace c then [] else c ∷ rest

unfoldable pub trim : Text → Text
unfolding trim_start trim_end
trim s = trim_end (trim_start s)

-- The parts between the whitespace, of which there is one more than there is whitespace.
unfoldable pub split_blank : Text → List Text
split_blank [] = [] ∷ []
split_blank (c ∷ s) =
    let rest = split_blank s in if is_whitespace c then [] ∷ rest else push_first c rest

unfoldable pub split_whitespace : Text → List Text
unfolding split_blank
split_whitespace s = select (λ part. not (is_empty part)) (split_blank s)

-- `strip_suffix` of one carriage return.
unfoldable pub strip_cr : Text → Text
strip_cr [] = []
strip_cr (c ∷ []) = if c == 13 then [] else c ∷ []
strip_cr (c ∷ d ∷ s) = c ∷ strip_cr (d ∷ s)

-- The last part ends with no line feed, and is no line if it is empty.
unfoldable pub closed_lines : List Text → List Text
closed_lines [] = []
closed_lines (part ∷ []) = if is_empty part then [] else part ∷ []
closed_lines (part ∷ next ∷ parts) = strip_cr part ∷ closed_lines (next ∷ parts)

unfoldable pub lines : Text → List Text
unfolding closed_lines
lines s = closed_lines (split_char 10 s)
