-- ===== src/Core/AuthKeys/Tokens.antt =====
-- The tokens of a line, for crates/core/src/authkeys.rs: a trim does not change them, and a word
-- before a blank is one of them.
use seadog.Prelude.{
  ℕ, ◌≡◌, refl, sym, ap, ◌∙◌, true, false, not, ◌&&◌, List, [], ◌∷◌, ◌++◌, select, any, Text,
  is_empty, is_whitespace, push_first, trim_start, trim_end, trim, split_blank, split_whitespace,
  arith, Bool-cases, inl, inr, if◌then◌else◌, if-true, if-false, subst,
}

abbrev words : List Text → List Text
words = select (λ part. not (is_empty part))

pub split_whitespace-blank :
    (c : ℕ) (s : Text) → is_whitespace c ≡ true → split_whitespace (c ∷ s) ≡ split_whitespace s
unfolding split_whitespace split_blank
split_whitespace-blank c s blank = rw blank refl

trim_start-tokens : (s : Text) → split_whitespace (trim_start s) ≡ split_whitespace s
unfolding trim_start
trim_start-tokens [] = refl
trim_start-tokens (c ∷ s) = elim (Bool-cases (is_whitespace c)) [
  | inl blank ↦ rw blank (trim_start-tokens s ∙ sym (split_whitespace-blank c s blank))
  | inr solid ↦ rw solid refl
]

abbrev first_of : List Text → Text
first_of [] = []
first_of (p ∷ ps) = p

abbrev rest_of : List Text → List Text
rest_of [] = []
rest_of (p ∷ ps) = ps

-- The first part is the same, and so are the words of the others.
abbrev SameParts : List Text → List Text → Type 0
SameParts ps qs = (first_of ps ≡ first_of qs) × (words (rest_of ps) ≡ words (rest_of qs))

words_lem :
    (ps : List Text)
    → words ps ≡ (
        if not (is_empty (first_of ps))
        then first_of ps ∷ words (rest_of ps)
        else words (rest_of ps))
words_lem [] = refl
words_lem (p ∷ ps) = refl

words-SameParts : (ps qs : List Text) → SameParts ps qs → words ps ≡ words qs
words-SameParts ps qs (same, rest) =
    words_lem ps
    ∙ ap (λ p. if not (is_empty p) then p ∷ words (rest_of ps) else words (rest_of ps)) same
    ∙ ap (λ ws. if not (is_empty (first_of qs)) then first_of qs ∷ ws else ws) rest
    ∙ sym (words_lem qs)

push_first-SameParts :
    (c : ℕ) (ps qs : List Text) → SameParts ps qs → SameParts (push_first c ps) (push_first c qs)
unfolding push_first
push_first-SameParts c [] [] h = (refl, refl)
push_first-SameParts c [] (q ∷ qs) h = (ap (λ t. c ∷ t) h.0, h.1)
push_first-SameParts c (p ∷ ps) [] h = (ap (λ t. c ∷ t) h.0, h.1)
push_first-SameParts c (p ∷ ps) (q ∷ qs) h = (ap (λ t. c ∷ t) h.0, h.1)

ends_blank :
    (c : ℕ) (t s : Text)
    → is_whitespace c ≡ true
    → SameParts (split_blank t) (split_blank s)
    → SameParts
        (split_blank (if is_empty t && is_whitespace c then [] else c ∷ t))
        ([] ∷ split_blank s)
unfolding split_blank
ends_blank c [] s blank h = rw blank (refl, words-SameParts ([] ∷ []) (split_blank s) h)
ends_blank c (d ∷ t) s blank h =
    rw blank (refl, words-SameParts (split_blank (d ∷ t)) (split_blank s) h)

ends_solid :
    (c : ℕ) (t : Text)
    → is_whitespace c ≡ false
    → split_blank (if is_empty t && is_whitespace c then [] else c ∷ t)
      ≡ push_first c (split_blank t)
unfolding split_blank
ends_solid c [] solid =
    rw solid
      (if-false (is_whitespace c) ([] ∷ split_blank []) (push_first c (split_blank [])) solid)
ends_solid c (d ∷ t) solid =
    if-false (is_whitespace c) ([] ∷ split_blank (d ∷ t)) (push_first c (split_blank (d ∷ t))) solid

trim_end-SameParts : (s : Text) → SameParts (split_blank (trim_end s)) (split_blank s)
unfolding trim_end split_blank
trim_end-SameParts [] = (refl, refl)
trim_end-SameParts (c ∷ s) = elim (Bool-cases (is_whitespace c)) [
  | inl blank ↦
      subst
        (λ ps.
          SameParts
            (split_blank (if is_empty (trim_end s) && is_whitespace c then [] else c ∷ trim_end s))
            ps)
        (sym (if-true (is_whitespace c) ([] ∷ split_blank s) (push_first c (split_blank s)) blank))
        (ends_blank c (trim_end s) s blank (trim_end-SameParts s))
  | inr solid ↦
      subst
        (λ ps.
          SameParts ps
            (if is_whitespace c then [] ∷ split_blank s else push_first c (split_blank s)))
        (sym (ends_solid c (trim_end s) solid))
        (subst (SameParts (push_first c (split_blank (trim_end s))))
          (sym
            (if-false (is_whitespace c) ([] ∷ split_blank s) (push_first c (split_blank s)) solid))
          (push_first-SameParts c (split_blank (trim_end s)) (split_blank s)
            (trim_end-SameParts s)))
]

pub trim-tokens : (s : Text) → split_whitespace (trim s) ≡ split_whitespace s
unfolding trim split_whitespace
trim-tokens s =
    words-SameParts (split_blank (trim_end (trim_start s))) (split_blank (trim_start s))
      (trim_end-SameParts (trim_start s))
    ∙ trim_start-tokens s

-- No character of the text is blank.
abbrev pub IsSolid : Text → Type 0
IsSolid s = any is_whitespace s ≡ false

split_blank-word :
    (word : Text) (c : ℕ) (s : Text)
    → IsSolid word
    → is_whitespace c ≡ true
    → split_blank (word ++ c ∷ s) ≡ word ∷ split_blank s
unfolding split_blank push_first
split_blank-word [] c s solid blank = rw blank refl
split_blank-word (d ∷ word) c s solid blank =
    if-false (is_whitespace d) _ (push_first d (split_blank (word ++ c ∷ s))) (ground arith)
    ∙ ap (push_first d) (split_blank-word word c s (ground arith) blank)

pub split_whitespace-word :
    (word : Text) (c : ℕ) (s : Text)
    → IsSolid word
    → is_empty word ≡ false
    → is_whitespace c ≡ true
    → split_whitespace (word ++ c ∷ s) ≡ word ∷ split_whitespace s
unfolding split_whitespace
split_whitespace-word word c s solid full blank =
    ap words (split_blank-word word c s solid blank)
    ∙ if-true (not (is_empty word)) (word ∷ words (split_blank s)) _ (ground arith)

split_blank-last : (word : Text) → IsSolid word → split_blank word ≡ word ∷ []
unfolding split_blank push_first
split_blank-last [] solid = refl
split_blank-last (d ∷ word) solid =
    if-false (is_whitespace d) ([] ∷ split_blank word) (push_first d (split_blank word))
      (ground arith)
    ∙ ap (push_first d) (split_blank-last word (ground arith))

pub split_whitespace-last :
    (word : Text) → IsSolid word → is_empty word ≡ false → split_whitespace word ≡ word ∷ []
unfolding split_whitespace
split_whitespace-last word solid full =
    ap words (split_blank-last word solid)
    ∙ if-true (not (is_empty word)) (word ∷ []) [] (ground arith)
