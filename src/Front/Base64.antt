-- ===== src/Front/Base64.antt =====
-- The `base64` module of crates/seadog/src/owner.rs. The bytes of a text that are not ASCII are no
-- base64 digits, and neither is the code point that they stand for here.
pub mod RoundTrip
use seadog.Prelude.{
  ℕ, zero, suc, ◌+◌, ◌-◌, ◌*◌, ◌/◌, ◌%◌, ◌^◌, Bool, true, false, ◌&&◌, ◌||◌, Option, none, some,
  List, [], ◌∷◌, leb, ltb, ◌==◌, if◌then◌else◌, Text, is_ascii_digit, is_ascii_lowercase,
  is_ascii_uppercase,
}

-- `STD[i]`, for `i` below 64.
unfoldable pub std : ℕ → ℕ
std i =
    if ltb i 26
    then i + b'A'
    else if ltb i 52
    then i - 26 + b'a'
    else if ltb i 62
    then i - 52 + b'0'
    else if i == 62
    then b'+'
    else b'/'

-- The table `rev`: 255 for what is no digit.
unfoldable pub rev : ℕ → ℕ
rev c =
    if is_ascii_uppercase c
    then c - b'A'
    else if is_ascii_lowercase c
    then c - b'a' + 26
    else if is_ascii_digit c
    then c - b'0' + 52
    else if c == b'+'
    then 62
    else if c == b'/'
    then 63
    else 255

-- `u8::is_ascii_whitespace`
abbrev pub is_ascii_whitespace : ℕ → Bool
is_ascii_whitespace c = c == 32 || c == 9 || c == 10 || c == 12 || c == 13

abbrev pub is_skipped : ℕ → Bool
is_skipped c = c == b'=' || is_ascii_whitespace c

-- `(buf << 6) | v`, on 32 bits.
abbrev pub shift_in : ℕ → ℕ → ℕ
shift_in buf v = buf * 64 % 2 ^ 32 + v

-- `out.push(b)`, ahead of what is pushed later.
abbrev pub push_byte : ℕ → Option (List ℕ) → Option (List ℕ)
push_byte b none = none
push_byte b (some out) = some (b ∷ out)

-- The loop of `decode_standard`.
unfoldable pub decode_loop : ℕ → ℕ → Text → Option (List ℕ)
unfolding rev
decode_loop buf bits [] = some []
decode_loop buf bits (c ∷ s) =
    let skipped = decode_loop buf bits s in
    let full =
      push_byte (shift_in buf (rev c) / 2 ^ (bits - 2) % 256)
        (decode_loop (shift_in buf (rev c)) (bits - 2) s) in
    let filling = decode_loop (shift_in buf (rev c)) (bits + 6) s in
    if is_skipped c
    then skipped
    else if rev c == 255
    then none
    else if leb 8 (bits + 6)
    then full
    else filling

unfoldable pub decode_standard : Text → Option (List ℕ)
unfolding decode_loop
decode_standard s = decode_loop 0 0 s

-- The digits of a number of 24 bits.
abbrev pub digit : ℕ → ℕ → ℕ
digit n shift = std (n / 2 ^ shift % 64)

unfoldable pub encode_standard_nopad : List ℕ → Text
unfolding std
encode_standard_nopad [] = []
encode_standard_nopad (a ∷ []) = let n = a * 2 ^ 16 in digit n 18 ∷ digit n 12 ∷ []
encode_standard_nopad (a ∷ b ∷ []) =
    let n = a * 2 ^ 16 + b * 2 ^ 8 in digit n 18 ∷ digit n 12 ∷ digit n 6 ∷ []
encode_standard_nopad (a ∷ b ∷ c ∷ more) =
    let n = a * 2 ^ 16 + b * 2 ^ 8 + c in
    digit n 18 ∷ digit n 12 ∷ digit n 6 ∷ digit n 0 ∷ encode_standard_nopad more
