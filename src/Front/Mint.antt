-- ===== src/Front/Mint.antt =====
-- The names and the MAC that `create` mints: crates/seadog/src/verbs/create.rs. What the `rand` crate
-- draws is an argument, and so is `char::to_lowercase`.
pub mod Accepted
use seadog.Prelude.{
  ℕ, zero, suc, ◌+◌, ◌-◌, ◌*◌, ◌/◌, ◌%◌, Bool, not, ◌&&◌, ◌||◌, ◌++◌, List, [], ◌∷◌, Result, ok,
  err, map, join, ltb, leb, ◌==◌, if◌then◌else◌, Text, lit, is_empty, byte_len, ends_with_char,
  is_ascii_lowercase, is_ascii_uppercase, is_ascii_digit,
}
use seadog.Core.Errors.{Fallible, error_text}
use seadog.Core.Failure.{Failure, message}
use seadog.Core.Validate.{validate_guest_name}

-- `{:02x}`
abbrev pub hex_digit : ℕ → ℕ
hex_digit d = if ltb d 10 then b'0' + d else b'a' + (d - 10)

abbrev pub hex_octet : ℕ → Text
hex_octet n = hex_digit (n / 16) ∷ hex_digit (n % 16) ∷ []

-- `(first & 0xfc) | 0x02` of an octet.
abbrev pub locally_administered : ℕ → ℕ
locally_administered first = first / 4 * 4 + 2

-- On the six octets that are drawn.
unfoldable pub mint_mac : (a b c d e f : ℕ) → Text
mint_mac a b c d e f =
    join (b':' ∷ []) (map hex_octet (locally_administered a ∷ b ∷ c ∷ d ∷ e ∷ f ∷ []))

-- `ALPHABET[i]`, for the indices that are drawn, each below 36.
abbrev pub alphabet : ℕ → ℕ
alphabet i = if ltb i 26 then b'a' + i else b'0' + (i - 26)

abbrev pub mint_token : List ℕ → Text
mint_token drawn = map alphabet drawn

abbrev is_ascii_alphanumeric : ℕ → Bool
is_ascii_alphanumeric c = is_ascii_lowercase c || is_ascii_uppercase c || is_ascii_digit c

abbrev separates : ℕ → Bool
separates c = c == b'-' || c == b'_' || c == b' ' || c == b'.'

-- One turn of the loop of `dns_label`.
unfoldable pub pushed : Text → ℕ → Text
pushed out c =
    if is_ascii_alphanumeric c
    then out ++ c ∷ []
    else if separates c && not (ends_with_char b'-' out)
    then out ++ b'-' ∷ []
    else out

unfoldable pub label_loop : Text → Text → Text
unfolding pushed
label_loop out [] = out
label_loop out (c ∷ more) =
    let rest = label_loop (pushed out c) more in
    if leb 12 (byte_len (pushed out c)) then pushed out c else rest

unfoldable pub trim_start_hyphens : Text → Text
trim_start_hyphens [] = []
trim_start_hyphens (c ∷ s) = let rest = trim_start_hyphens s in if c == b'-' then rest else c ∷ s

-- Also the loop that pops hyphens.
unfoldable pub trim_end_hyphens : Text → Text
trim_end_hyphens [] = []
trim_end_hyphens (c ∷ s) =
    let rest = trim_end_hyphens s in if is_empty rest && c == b'-' then [] else c ∷ rest

-- `String::truncate`, on ASCII.
unfoldable pub truncate : ℕ → Text → Text
truncate zero s = []
truncate (suc n) [] = []
truncate (suc n) (c ∷ s) = c ∷ truncate n s

unfoldable pub flat_map : (ℕ → Text) → Text → Text
flat_map f [] = []
flat_map f (c ∷ s) = f c ++ flat_map f s

module _ (to_lowercase : ℕ → Text) where
  unfoldable pub dns_label : Text → Text
  unfolding label_loop trim_start_hyphens trim_end_hyphens flat_map
  dns_label s =
      let trimmed =
        trim_end_hyphens (trim_start_hyphens (label_loop [] (flat_map to_lowercase s))) in
      if is_empty trimmed then lit "x" else trimmed

  abbrev pub full_name : Text → Text → Text → Text
  full_name owner image token =
      lit "seadog-" ++ (dns_label owner ++ (b'-' ∷ (dns_label image ++ (b'-' ∷ token))))

  unfoldable pub bounded_name : Text → Text
  unfolding truncate
  bounded_name name = if ltb 63 (byte_len name) then trim_end_hyphens (truncate 63 name) else name

  abbrev pub name_checked : Text → Text → Text → Fallible (Unit {0}) → Result Failure Text
  name_checked owner image name (ok u) = ok name
  name_checked owner image name (err e) = err (
      message (
        lit "could not mint a valid guest name from '"
        ++ (owner ++ (lit "'/'" ++ (image ++ (lit "': " ++ error_text e))))))

  unfoldable pub mint_guest_name : Text → Text → List ℕ → Result Failure Text
  unfolding dns_label bounded_name
  mint_guest_name owner image drawn =
      let name = bounded_name (full_name owner image (mint_token drawn)) in
      name_checked owner image name (validate_guest_name name)
