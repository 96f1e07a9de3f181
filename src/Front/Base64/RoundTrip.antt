-- ===== src/Front/Base64/RoundTrip.antt =====
-- What is encoded as base64 is decoded to the same bytes (crates/seadog/src/owner.rs).
use seadog.Prelude.{
  ℕ, ◌+◌, ◌-◌, ◌*◌, ◌/◌, ◌%◌, ◌^◌, ◌<◌, ◌≤◌, ◌≡◌, refl, ap, ◌∙◌, true, false, leb, some, List, [],
  ◌∷◌, All, Text, arith, ◌==◌,
}
use seadog.Front.Base64.{
  std, rev, is_skipped, shift_in, push_byte, decode_loop, decode_standard, digit,
  encode_standard_nopad,
}

abbrev pub IsByte : ℕ → Type 0
IsByte b = b < 256

rev-std : (i : ℕ) → i < 64 → rev (std i) ≡ i
unfolding rev std
rev-std i h = ground arith

std-not_skipped : (i : ℕ) → i < 64 → is_skipped (std i) ≡ false
unfolding std
std-not_skipped i h = ground arith

-- A digit that fills no byte, and one that does.
module _ (buf i : ℕ) (s : Text) (small : i < 64) where
  fills : decode_loop buf 0 (std i ∷ s) ≡ decode_loop (shift_in buf i) 6 s
  unfolding decode_loop
  fills = rw (std-not_skipped i small, rev-std i small, digit-≢255) refl
    where
      digit-≢255 : (i == 255) ≡ false
      digit-≢255 = ground arith

  module _ (bits : ℕ) (enough : 2 ≤ bits) where
    completes :
        decode_loop buf bits (std i ∷ s)
        ≡ push_byte
            (shift_in buf i / 2 ^ (bits - 2) % 256)
            (decode_loop (shift_in buf i) (bits - 2) s)
    unfolding decode_loop
    completes = rw (std-not_skipped i small, rev-std i small, digit-≢255, full) refl
      where
        digit-≢255 : (i == 255) ≡ false
        digit-≢255 = ground arith

        full : leb 8 (bits + 6) ≡ true
        full = ground arith

-- The bytes that come out of the digits of three, of two and of one.
module _ (buf n a b c : ℕ) (packed : n ≡ a * 2 ^ 16 + b * 2 ^ 8 + c) (pa : a < 256) (pb : b < 256)
    (pc : c < 256) where
  abbrev after_1 : ℕ
  after_1 = shift_in buf (n / 2 ^ 18 % 64)

  abbrev after_2 : ℕ
  after_2 = shift_in after_1 (n / 2 ^ 12 % 64)

  abbrev after_3 : ℕ
  after_3 = shift_in after_2 (n / 2 ^ 6 % 64)

  abbrev after_4 : ℕ
  after_4 = shift_in after_3 (n / 2 ^ 0 % 64)

  byte_a : after_2 / 2 ^ 4 % 256 ≡ a
  byte_a = omega arith

  byte_b : after_3 / 2 ^ 2 % 256 ≡ b
  byte_b = omega arith

  byte_c : after_4 / 2 ^ 0 % 256 ≡ c
  byte_c = omega arith

  two_digits :
      (s : Text)
      → decode_loop buf 0 (digit n 18 ∷ digit n 12 ∷ s) ≡ push_byte a (decode_loop after_2 4 s)
  two_digits s =
      fills buf (n / 2 ^ 18 % 64) (digit n 12 ∷ s) (omega arith)
      ∙ completes after_1 (n / 2 ^ 12 % 64) s (omega arith) 6 (omega arith)
      ∙ ap (λ x. push_byte x (decode_loop after_2 4 s)) byte_a

  three_digits :
      (s : Text)
      → decode_loop buf 0 (digit n 18 ∷ digit n 12 ∷ digit n 6 ∷ s)
        ≡ push_byte a (push_byte b (decode_loop after_3 2 s))
  three_digits s =
      two_digits (digit n 6 ∷ s)
      ∙ ap (push_byte a) (
          completes after_2 (n / 2 ^ 6 % 64) s (omega arith) 4 (omega arith)
          ∙ ap (λ x. push_byte x (decode_loop after_3 2 s)) byte_b)

  four_digits :
      (s : Text)
      → decode_loop buf 0 (digit n 18 ∷ digit n 12 ∷ digit n 6 ∷ digit n 0 ∷ s)
        ≡ push_byte a (push_byte b (push_byte c (decode_loop after_4 0 s)))
  four_digits s =
      three_digits (digit n 0 ∷ s)
      ∙ ap (λ r. push_byte a (push_byte b r))
          (completes after_3 (n / 2 ^ 0 % 64) s (omega arith) 2 (omega arith)
            ∙ ap (λ x. push_byte x (decode_loop after_4 0 s)) byte_c)

decode_loop-encode :
    (buf : ℕ) (bytes : List ℕ)
    → All IsByte bytes
    → decode_loop buf 0 (encode_standard_nopad bytes) ≡ some bytes
unfolding encode_standard_nopad decode_loop
decode_loop-encode buf [] h = refl
decode_loop-encode buf (a ∷ []) h =
    two_digits buf (a * 2 ^ 16) a 0 0 (omega arith) h.0 (omega arith) (omega arith) []
decode_loop-encode buf (a ∷ b ∷ []) h =
    three_digits buf (a * 2 ^ 16 + b * 2 ^ 8) a b 0 (omega arith) h.0 h.1.0 (omega arith) []
decode_loop-encode buf (a ∷ b ∷ c ∷ more) h =
    let n = a * 2 ^ 16 + b * 2 ^ 8 + c in
    four_digits buf n a b c refl h.0 h.1.0 h.1.1.0 (encode_standard_nopad more)
    ∙ ap (λ r. push_byte a (push_byte b (push_byte c r)))
        (decode_loop-encode (after_4 buf n a b c refl h.0 h.1.0 h.1.1.0) more h.1.1.1)

-- Bytes that are encoded as base64 without padding are decoded to the same bytes, whatever their
-- number.
pub decode_standard-encode_standard_nopad :
    (bytes : List ℕ) → All IsByte bytes → decode_standard (encode_standard_nopad bytes) ≡ some bytes
unfolding decode_standard
decode_standard-encode_standard_nopad bytes h = decode_loop-encode 0 bytes h
