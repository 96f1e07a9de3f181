-- ===== src/Core/AuthKeys/OneLine.antt =====
-- What a line that the helper writes for a valid owner and key looks like: crates/core/src/authkeys.rs.
use seadog.Prelude.{
  ℕ, ◌≡◌, refl, sym, ◌∙◌, Bool, true, false, not, Option, none, some, List, [], ◌∷◌, ◌++◌, ok, err,
  ◌>>◌, fail_if, text_eq-≢, find, any, all, All, Text, text_eq, is_empty, contains_char,
  is_whitespace, trim, split_whitespace, arith,
}
use seadog.Core.Errors.{Error, Fallible}
use seadog.Core.Validate.{is_label_char}
use seadog.Core.AuthKeys.{
  key_types, is_key_type, is_control, check_controls, check_fields, validate_key_line, blob_after,
  before_quote,
}
use seadog.Core.AuthKeys.Tokens.{trim-tokens}

pub any-append :
    {A : Type 0} (p : A → Bool) (xs ys : List A)
    → any p xs ≡ false
    → any p ys ≡ false
    → any p (xs ++ ys) ≡ false
any-append p [] ys hx hy = hy
any-append p (x ∷ xs) ys hx hy = ground (arith, hx, any-append p xs ys)

find-none : {A : Type 0} (p : A → Bool) (xs : List A) → find p xs ≡ none → any p xs ≡ false
find-none p [] h = refl
find-none p (x ∷ xs) h = ground (arith, find-none p xs)

-- A validated key has no control character, and starts with a key type and a blob.
pub record IsKey (key : Text) : Type 0 where
  pub plain : any is_control key ≡ false
  pub key_type : Text
  pub blob : Text
  pub rest : List Text
  pub tokens : split_whitespace key ≡ key_type ∷ blob ∷ rest
  pub known : is_key_type key_type ≡ true

check_controls-ok : (found : Option ℕ) → check_controls found ≡ ok tt → found ≡ none
unfolding check_controls
check_controls-ok none h = refl
check_controls-ok (some c) h = cc

guard-ok :
    (bad : Bool) (e : Error) (r : Fallible (Unit {0}))
    → (fail_if bad e >> r) ≡ ok tt
    → (bad ≡ false) × (r ≡ ok tt)
guard-ok true e r h = cc
guard-ok false e r h = (refl, h)

check_fields-ok :
    (fields : List Text)
    → check_fields fields ≡ ok tt
    → (key_type : Text) × (blob : Text) × (rest : List Text) × (fields ≡ key_type ∷ blob ∷ rest)
      × (is_key_type key_type ≡ true)
unfolding check_fields
check_fields-ok [] h = cc
check_fields-ok (key_type ∷ []) h = cc ((guard-ok (not (is_key_type key_type)) _ _ h).1)
check_fields-ok (key_type ∷ blob ∷ rest) h =
    (key_type, blob, rest, refl, ground (arith, guard-ok (not (is_key_type key_type)) _ _ h))

chain-ok : (r t : Fallible (Unit {0})) → (r >> t) ≡ ok tt → (r ≡ ok tt) × (t ≡ ok tt)
chain-ok (ok u) t h = (refl, h)
chain-ok (err e) t h = cc

pub validate_key_line-IsKey : (key : Text) → validate_key_line key ≡ ok tt → IsKey key
unfolding validate_key_line
validate_key_line-IsKey key h =
    let (controls, fields) =
      chain-ok (check_controls (find is_control key)) (check_fields (split_whitespace (trim key)))
        h in
    let (key_type, blob, rest, tokens, known) =
      check_fields-ok (split_whitespace (trim key)) fields in
    record {
      plain = find-none is_control key (check_controls-ok (find is_control key) controls);
      key_type = key_type;
      blob = blob;
      rest = rest;
      tokens = sym (trim-tokens key) ∙ tokens;
      known = known;
    }

-- A label is one word, without controls and quotes.
pub label_lem :
    (s : Text)
    → all is_label_char s ≡ true
    → (any is_whitespace s ≡ false) × (any is_control s ≡ false)
unfolding is_whitespace
label_lem [] h = (refl, refl)
label_lem (c ∷ s) h = ground (arith, label_lem s)

-- A token with a double quote is no key type.
quoted_lem :
    (t : Text) (kts : List Text)
    → All (λ k. contains_char b'"' k ≡ false) kts
    → contains_char b'"' t ≡ true
    → any (text_eq t) kts ≡ false
quoted_lem t [] h q = refl
quoted_lem t (k ∷ kts) h q =
    ground (arith, quoted_lem t kts h.1 q, text_eq-≢ t k (λ same. ground (arith, q, h.0, same)))

pub quoted-no_key_type : (t : Text) → contains_char b'"' t ≡ true → is_key_type t ≡ false
unfolding is_key_type
quoted-no_key_type t q =
    quoted_lem t key_types (refl, (refl, (refl, (refl, (refl, (refl, (refl, (refl, tt)))))))) q

pub contains_char-append :
    (c : ℕ) (s t : Text) → contains_char c t ≡ true → contains_char c (s ++ t) ≡ true
contains_char-append c [] t h = h
contains_char-append c (d ∷ s) t h = ground (arith, contains_char-append c s t h)

pub blob_after-word :
    (t : Text) (toks : List Text) → is_key_type t ≡ false → blob_after (t ∷ toks) ≡ blob_after toks
unfolding blob_after
blob_after-word t toks h = rw h refl

pub blob_after-key :
    (t blob : Text) (rest : List Text)
    → is_key_type t ≡ true
    → blob_after (t ∷ blob ∷ rest) ≡ some blob
unfolding blob_after
blob_after-key t blob rest h = rw h refl

pub append-full : (s : Text) (c : ℕ) (t : Text) → is_empty (s ++ c ∷ t) ≡ false
append-full [] c t = refl
append-full (d ∷ s) c t = refl

-- A text up to its first double quote.
pub before_quote-word :
    (w t : Text) → contains_char b'"' w ≡ false → before_quote (w ++ b'"' ∷ t) ≡ some w
unfolding before_quote
before_quote-word [] t h = refl
before_quote-word (c ∷ w) t h = ground (arith, h, before_quote-word w t)

pub label-unquoted : (s : Text) → all is_label_char s ≡ true → contains_char b'"' s ≡ false
label-unquoted [] h = refl
label-unquoted (c ∷ s) h = ground (arith, label-unquoted s)
