-- ===== src/Prelude/Strings.antt =====
-- Text as the list of its code points, and the parts of Rust's `str` that the program uses.
use seadog.Prelude.Int.{ℤ, pos, negsuc}
use Prim.Native.Nat.{ℕ, zero, suc, ◌+◌, ◌/◌, ◌%◌}
use Prim.Native.Char.{code}
use Prim.Native.String.{String}
use mathlib.Core.Path.{◌≡◌, refl}
use mathlib.Core.Logic.{◌↔◌, ◌≢◌}
use mathlib.Core.Bool.{Bool, true, false, ◌&&◌, ◌||◌}
use mathlib.Core.Option.{Option, none, some}
use mathlib.Core.List.{List, [], ◌∷◌, ◌++◌}
use native.Mathlib.Omega.{arith}
use seadog.Prelude.Lists.{All}
use seadog.Prelude.Tests.{ltb, leb, ◌==◌, if◌then◌else◌}

abbrev pub Text : Type 0
Text = List ℕ

-- A literal.
abbrev pub lit : String → Text
lit String.[] = []
lit (String.◌∷◌ c s) = code c ∷ lit s

unfoldable pub text_eq : Text → Text → Bool
text_eq [] [] = true
text_eq (a ∷ s) (b ∷ t) = a == b && text_eq s t
text_eq _ _ = false

pub text_eq_iff : (s t : Text) → (text_eq s t ≡ true) ↔ (s ≡ t)
unfolding text_eq
text_eq_iff [] [] = ground arith
text_eq_iff [] (b ∷ t) = ground arith
text_eq_iff (a ∷ s) [] = ground arith
text_eq_iff (a ∷ s) (b ∷ t) = ground (arith, text_eq_iff s t)

pub text_eq_refl : (s : Text) → text_eq s s ≡ true
text_eq_refl s = (text_eq_iff s s).1 refl

pub text_eq-≢ : (s t : Text) → s ≢ t → text_eq s t ≡ false
text_eq-≢ s t differ = ground (arith, text_eq_iff s t, differ)

abbrev pub is_empty : Text → Bool
is_empty [] = true
is_empty (c ∷ s) = false

-- The bytes of one code point in UTF-8, and `str::len`.
unfoldable pub utf8_width : ℕ → ℕ
utf8_width c = if ltb c 0x80 then 1 else if ltb c 0x800 then 2 else if ltb c 0x10000 then 3 else 4

unfoldable pub byte_len : Text → ℕ
byte_len [] = 0
byte_len (c ∷ s) = utf8_width c + byte_len s

abbrev pub contains_char : ℕ → Text → Bool
contains_char c [] = false
contains_char c (d ∷ s) = c == d || contains_char c s

-- `str::ends_with(c)` and `str::starts_with(c)` at one character.
unfoldable pub ends_with_char : ℕ → Text → Bool
ends_with_char c [] = false
ends_with_char c (d ∷ []) = c == d
ends_with_char c (d ∷ e ∷ s) = ends_with_char c (e ∷ s)

abbrev pub starts_with_char : ℕ → Text → Bool
starts_with_char c [] = false
starts_with_char c (d ∷ s) = c == d

-- `str::strip_prefix`
unfoldable pub strip_prefix : Text → Text → Option Text
strip_prefix [] s = some s
strip_prefix (c ∷ p) [] = none
strip_prefix (c ∷ p) (d ∷ s) = if c == d then strip_prefix p s else none

-- `u8::is_ascii_*` and `char::is_ascii_*`
abbrev pub is_ascii_lowercase : ℕ → Bool
is_ascii_lowercase c = leb b'a' c && leb c b'z'

abbrev pub is_ascii_uppercase : ℕ → Bool
is_ascii_uppercase c = leb b'A' c && leb c b'Z'

abbrev pub is_ascii_digit : ℕ → Bool
is_ascii_digit c = leb b'0' c && leb c b'9'

abbrev pub to_ascii_lowercase : ℕ → ℕ
to_ascii_lowercase c = if is_ascii_uppercase c then c + 32 else c

-- `str::eq_ignore_ascii_case`
unfoldable pub eq_ignore_ascii_case : Text → Text → Bool
eq_ignore_ascii_case [] [] = true
eq_ignore_ascii_case (a ∷ s) (b ∷ t) =
    to_ascii_lowercase a == to_ascii_lowercase b && eq_ignore_ascii_case s t
eq_ignore_ascii_case _ _ = false

-- `str::split(c)`: the parts between the separators, one more than there are separators.
unfoldable pub push_first : ℕ → List Text → List Text
push_first d [] = (d ∷ []) ∷ []
push_first d (p ∷ ps) = (d ∷ p) ∷ ps

unfoldable pub split_char : ℕ → Text → List Text
unfolding push_first
split_char c [] = [] ∷ []
split_char c (d ∷ s) = let rest = split_char c s in if c == d then [] ∷ rest else push_first d rest

-- `[_]::join(sep)`
unfoldable pub join : Text → List Text → Text
join sep [] = []
join sep (p ∷ []) = p
join sep (p ∷ q ∷ ps) = p ++ (sep ++ join sep (q ∷ ps))

pub split_char-part :
    (c : ℕ) (s t : Text)
    → contains_char c s ≡ false
    → split_char c (s ++ (c ∷ t)) ≡ s ∷ split_char c t
unfolding split_char
split_char-part c [] t h = ground arith
split_char-part c (d ∷ s) t h = ground (arith, split_char-part c s t)

pub split_char-last : (c : ℕ) (s : Text) → contains_char c s ≡ false → split_char c s ≡ s ∷ []
unfolding split_char
split_char-last c [] h = refl
split_char-last c (d ∷ s) h = ground (arith, split_char-last c s)

-- Parts without the separator are read back from their join, unless there is but one, and empty:
-- its join is the text of no parts at all.
pub split_char-join :
    (c : ℕ) (p : Text) (ps : List Text)
    → All (λ q. contains_char c q ≡ false) (p ∷ ps)
    → split_char c (join (c ∷ []) (p ∷ ps)) ≡ p ∷ ps
unfolding join
split_char-join c p [] h = split_char-last c p h.0
split_char-join c p (q ∷ ps) h =
    rw (split_char-part c p (join (c ∷ []) (q ∷ ps)) h.0, split_char-join c q ps h.1) refl

pub strip_prefix-append : (p s : Text) → strip_prefix p (p ++ s) ≡ some s
unfolding strip_prefix
strip_prefix-append [] s = refl
strip_prefix-append (c ∷ p) s = ground (arith, strip_prefix-append p s)

pub append_of_strip_prefix : (p s t : Text) → strip_prefix p s ≡ some t → s ≡ p ++ t
unfolding strip_prefix
append_of_strip_prefix [] s t h = ground arith
append_of_strip_prefix (c ∷ p) [] t h = ground arith
append_of_strip_prefix (c ∷ p) (d ∷ s) t h = ground (arith, append_of_strip_prefix p s t)

-- The code points of Unicode's White_Space property, as `char::is_whitespace`.
unfoldable pub is_whitespace : ℕ → Bool
is_whitespace c =
    (leb 9 c && leb c 13)
    || c == 0x20
    || c == 0x85
    || c == 0xa0
    || c == 0x1680
    || (leb 0x2000 c && leb c 0x200a)
    || c == 0x2028
    || c == 0x2029
    || c == 0x202f
    || c == 0x205f
    || c == 0x3000

-- A map by texts, as its entries: the first entry of a key counts.
module _ {ℓ} {V : Type ℓ} where
  abbrev pub lookup : Text → List (Text × V) → Option V
  lookup k [] = none
  lookup k ((j, v) ∷ m) = if text_eq j k then some v else lookup k m

-- A number in decimal, from its last digit on; there are no more digits than the number's fuel.
unfoldable pub decimal_on : ℕ → ℕ → Text → Text
decimal_on zero n rest = rest
decimal_on (suc fuel) n rest =
    let more = decimal_on fuel (n / 10) ((b'0' + n % 10) ∷ rest) in
    if ltb n 10 then (b'0' + n) ∷ rest else more

abbrev pub decimal : ℕ → Text
decimal n = decimal_on (suc n) n []

abbrev pub decimal_ℤ : ℤ → Text
decimal_ℤ (pos n) = decimal n
decimal_ℤ (negsuc n) = b'-' ∷ decimal (suc n)
