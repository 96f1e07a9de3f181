-- ===== src/Front/Mint/Accepted.antt =====
-- The MAC of `create` (crates/seadog/src/verbs/create.rs) at the helper that checks it
-- (crates/seadog-priv/src/provision.rs).
use seadog.Prelude.{ℕ, ◌<◌, ◌/◌, ◌%◌, ◌≡◌, refl, true, ok, join, arith}
use seadog.Front.Mint.{hex_digit, locally_administered, mint_mac}
use seadog.Priv.Provision.{is_hex, mac_from, validate_mac}

digit-is_hex : (d : ℕ) → d < 16 → is_hex (hex_digit d) ≡ true
digit-is_hex d small = ground arith

octet_high : (n : ℕ) → n < 256 → is_hex (hex_digit (n / 16)) ≡ true
octet_high n small = digit-is_hex (n / 16) (omega arith)

octet_low : (n : ℕ) → is_hex (hex_digit (n % 16)) ≡ true
octet_low n = digit-is_hex (n % 16) (omega arith)

local_lem : (n : ℕ) → n < 256 → locally_administered n < 256
local_lem n small = omega arith

-- The MAC that is minted from six octets passes the check of the helper, which takes lower-case
-- hexadecimal alone.
pub mint_mac-validate_mac :
    (a b c d e f : ℕ)
    → a < 256
    → b < 256
    → c < 256
    → d < 256
    → e < 256
    → f < 256
    → validate_mac (mint_mac a b c d e f) ≡ ok tt
unfolding validate_mac mac_from mint_mac join
mint_mac-validate_mac a b c d e f pa pb pc pd pe pf =
    rw
      (
        octet_high (locally_administered a) (local_lem a pa),
        octet_low (locally_administered a),
        octet_high b pb,
        octet_low b,
        octet_high c pc,
        octet_low c,
        octet_high d pd,
        octet_low d,
        octet_high e pe,
        octet_low e,
        octet_high f pf,
        octet_low f,
      )
      refl
