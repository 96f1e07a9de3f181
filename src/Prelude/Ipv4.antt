-- ===== src/Prelude/Ipv4.antt =====
-- `std::net::Ipv4Addr` as its `u32`: its text, and the parse of a text.
use Prim.Native.Nat.{ℕ, ◌+◌, ◌-◌, ◌*◌, ◌/◌, ◌%◌, ◌^◌, ◌<◌}
use mathlib.Core.Path.{◌≡◌, ap}
use mathlib.Core.Bool.{false, ◌&&◌}
use mathlib.Core.Option.{Option, none, some}
use mathlib.Core.List.{List, [], ◌∷◌, ◌++◌}
use native.Mathlib.Omega.{arith}
use seadog.Prelude.Tests.{ltb, leb, if◌then◌else◌}
use seadog.Prelude.Strings.{
  Text, contains_char, is_ascii_digit, split_char, split_char-part, split_char-last,
}

-- `u8` in decimal.
unfoldable pub octet_text : ℕ → Text
octet_text n =
    if ltb n 10
    then (b'0' + n) ∷ []
    else if ltb n 100
    then (b'0' + n / 10) ∷ (b'0' + n % 10) ∷ []
    else (b'0' + n / 100) ∷ (b'0' + n / 10 % 10) ∷ (b'0' + n % 10) ∷ []

-- One to three digits, no leading zero, at most 255.
unfoldable pub parse_octet : Text → Option ℕ
parse_octet (a ∷ []) = if is_ascii_digit a then some (a - b'0') else none
parse_octet (a ∷ b ∷ []) =
    if is_ascii_digit a && is_ascii_digit b && ltb b'0' a
    then some (10 * (a - b'0') + (b - b'0'))
    else none
parse_octet (a ∷ b ∷ c ∷ []) =
    let value = 100 * (a - b'0') + 10 * (b - b'0') + (c - b'0') in
    if is_ascii_digit a && is_ascii_digit b && is_ascii_digit c && ltb b'0' a && leb value 255
    then some value
    else none
parse_octet _ = none

unfoldable pub ip_text : ℕ → Text
ip_text u =
    octet_text (u / 2 ^ 24 % 256)
    ++ (b'.' ∷ octet_text (u / 2 ^ 16 % 256)
        ++ (b'.' ∷ octet_text (u / 2 ^ 8 % 256) ++ (b'.' ∷ octet_text (u % 256))))

abbrev join_octets : Option ℕ → Option ℕ → Option ℕ → Option ℕ → Option ℕ
join_octets (some a) (some b) (some c) (some d) = some (a * 2 ^ 24 + b * 2 ^ 16 + c * 2 ^ 8 + d)
join_octets _ _ _ _ = none

unfoldable pub parse_parts : List Text → Option ℕ
parse_parts (a ∷ b ∷ c ∷ d ∷ []) =
    join_octets (parse_octet a) (parse_octet b) (parse_octet c) (parse_octet d)
parse_parts _ = none

-- `str::parse::<Ipv4Addr>`
unfoldable pub parse_ip : Text → Option ℕ
parse_ip s = parse_parts (split_char b'.' s)

parse_octet-octet_text : (n : ℕ) → n < 256 → parse_octet (octet_text n) ≡ some n
unfolding parse_octet octet_text
parse_octet-octet_text n h = ground arith

octet_text-no_dot : (n : ℕ) → n < 256 → contains_char b'.' (octet_text n) ≡ false
unfolding octet_text
octet_text-no_dot n h = ground arith

split_char-dotted :
    (a b c d : Text)
    → contains_char b'.' a ≡ false
    → contains_char b'.' b ≡ false
    → contains_char b'.' c ≡ false
    → contains_char b'.' d ≡ false
    → split_char b'.' (a ++ (b'.' ∷ b ++ (b'.' ∷ c ++ (b'.' ∷ d)))) ≡ a ∷ b ∷ c ∷ d ∷ []
split_char-dotted a b c d pa pb pc pd = rw (
  split_char-part _ a _ pa,
  split_char-part _ b _ pb,
  split_char-part _ c _ pc,
  split_char-last _ d pd,
)

-- The text of an address parses to it.
pub parse_ip-ip_text : (u : ℕ) → u < 2 ^ 32 → parse_ip (ip_text u) ≡ some u
unfolding parse_ip ip_text parse_parts
parse_ip-ip_text u h =
    let a : ℕ = u / 2 ^ 24 % 256 in
    let b : ℕ = u / 2 ^ 16 % 256 in
    let c : ℕ = u / 2 ^ 8 % 256 in
    let d : ℕ = u % 256 in
    rw
      (
        split_char-dotted (octet_text a) (octet_text b) (octet_text c) (octet_text d)
            (octet_text-no_dot a (omega arith)) (octet_text-no_dot b (omega arith))
            (octet_text-no_dot c (omega arith)) (octet_text-no_dot d (omega arith)),
        parse_octet-octet_text a (omega arith),
        parse_octet-octet_text b (omega arith),
        parse_octet-octet_text c (omega arith),
        parse_octet-octet_text d (omega arith),
      )
      (ap some (omega arith))
