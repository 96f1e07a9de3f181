-- ===== src/Priv/Owners/Lines.antt =====
-- The lines of a file that grows at its end: for crates/seadog-priv/src/owners.rs.
use seadog.Prelude.{
  ℕ, ◌≡◌, ◌≢◌, refl, sym, ap, subst, ◌∙◌, ◌⊎◌, inl, inr, true, false, not, ◌&&◌, Option, none, some,
  List, [], ◌∷◌, ◌++◌, append_assoc, any, All, All-append, Text, is_empty, contains_char,
  ends_with_char, split_char, split_char-part, strip_cr, closed_lines, lines, arith, if-false,
  push_first, Bool-cases, ◌==◌,
}
use seadog.Core.AuthKeys.{is_control, key_blob_of_line}
use seadog.Priv.Owners.{appended}

-- A file in which every line is ended by a line feed.
pub data Closed : Text → Type 0 where
  nothing : Closed []
  line : (p t : Text) → contains_char 10 p ≡ false → Closed t → Closed (p ++ 10 ∷ t)

split_char-parts : (c : ℕ) (t : Text) → (q : Text) × (qs : List Text) × (split_char c t ≡ q ∷ qs)
unfolding split_char push_first
split_char-parts c [] = ([], [], refl)
split_char-parts c (d ∷ t) = elim (Bool-cases (c == d)) [
  | inl hit ↦ ([], split_char c t, rw hit refl)
  | inr miss ↦ let (q, qs, same) = split_char-parts c t in (d ∷ q, qs, rw (miss, same) refl)
]

lines-line : (p t : Text) → contains_char 10 p ≡ false → lines (p ++ 10 ∷ t) ≡ strip_cr p ∷ lines t
unfolding lines closed_lines
lines-line p t h =
    let (q, qs, same) = split_char-parts 10 t in
    ap closed_lines (split_char-part 10 p t h ∙ ap (λ ps. p ∷ ps) same)
    ∙ ap (λ ps. strip_cr p ∷ closed_lines ps) (sym same)

pub lines-append : (s t : Text) → Closed s → lines (s ++ t) ≡ lines s ++ lines t
unfolding lines closed_lines split_char
lines-append s t nothing = refl
lines-append s t (line p s' h closed) =
    ap lines (append_assoc p (10 ∷ s') t)
    ∙ lines-line p (s' ++ t) h
    ∙ ap (λ ls. strip_cr p ∷ ls) (lines-append s' t closed)
    ∙ ap (λ ls. ls ++ lines t) (sym (lines-line p s' h))

pub Closed-append : (s t : Text) → Closed s → Closed t → Closed (s ++ t)
Closed-append s t nothing closed = closed
Closed-append s t (line p s' h closed) last =
    subst Closed (sym (append_assoc p (10 ∷ s') t))
      (line p (s' ++ t) h (Closed-append s' t closed last))

plain-one_line :
    (s : Text) → any is_control s ≡ false → (contains_char 10 s ≡ false) × (strip_cr s ≡ s)
unfolding strip_cr
plain-one_line [] h = (refl, refl)
plain-one_line (c ∷ []) h = (ground arith, ground arith)
plain-one_line (c ∷ d ∷ s) h =
    let (feed, cr) = plain-one_line (d ∷ s) (ground arith) in
    (ground (arith, feed), ap (λ t. c ∷ t) cr)

ends_with_char-append :
    (e c : ℕ) (p u : Text) → ends_with_char e (p ++ c ∷ u) ≡ ends_with_char e (c ∷ u)
unfolding ends_with_char
ends_with_char-append e c [] u = refl
ends_with_char-append e c (d ∷ []) u = refl
ends_with_char-append e c (d ∷ f ∷ p) u = ends_with_char-append e c (f ∷ p) u

Closed-ends : (s : Text) → Closed s → (is_empty s ≡ true) ⊎ (ends_with_char 10 s ≡ true)
unfolding ends_with_char
Closed-ends s nothing = inl refl
Closed-ends s (line p [] h closed) = inr (ends_with_char-append 10 10 p [])
Closed-ends s (line p (c ∷ t) h closed) = inr (
    ends_with_char-append 10 10 p (c ∷ t)
    ∙ elim (Closed-ends (c ∷ t) closed) [ inl empty ↦ cc | inr ends ↦ ends ])

appended-Closed :
    (current new : Text) → Closed current → appended current new ≡ current ++ (new ++ 10 ∷ [])
unfolding appended
appended-Closed current new closed =
    ap (λ base. base ++ (new ++ 10 ∷ []))
      (if-false (not (is_empty current) && not (ends_with_char 10 current)) (current ++ 10 ∷ [])
        current
        (elim (Closed-ends current closed) [
          | inl empty ↦ ground (arith, empty)
          | inr ends ↦ ground (arith, ends)
        ]))

-- A line without control characters becomes the last one, and the file stays closed.
pub appended-Lines :
    (current new : Text)
    → Closed current
    → any is_control new ≡ false
    → Closed (appended current new) × (lines (appended current new) ≡ lines current ++ new ∷ [])
unfolding lines closed_lines split_char
appended-Lines current new closed plain =
    let (one, cr) = plain-one_line new plain in
    (
      subst Closed (sym (appended-Closed current new closed))
          (Closed-append current (new ++ 10 ∷ []) closed (line new [] one nothing)),
      ap lines (appended-Closed current new closed)
          ∙ lines-append current (new ++ 10 ∷ []) closed
          ∙ ap (λ ls. lines current ++ ls) (lines-line new [] one ∙ ap (λ l. l ∷ []) cr),
    )

abbrev pub NotHeld : Text → Text → Type 0
NotHeld blob l = key_blob_of_line l ≢ some blob

abbrev pub Apart : Option Text → Option Text → Type 0
Apart o p = (o ≡ none) ⊎ (o ≢ p)

-- No two lines hold one blob.
abbrev pub OneLineEach : List Text → Type 0
OneLineEach [] = Unit {0}
OneLineEach (l ∷ ls) =
    All (λ m. Apart (key_blob_of_line l) (key_blob_of_line m)) ls × OneLineEach ls

pub OneLineEach-append :
    (ls : List Text) (new blob : Text)
    → OneLineEach ls
    → key_blob_of_line new ≡ some blob
    → All (NotHeld blob) ls
    → OneLineEach (ls ++ new ∷ [])
OneLineEach-append [] new blob each holds free = (tt, tt)
OneLineEach-append (l ∷ ls) new blob (first, each) holds (not_first, free) = (
  All-append (λ m. Apart (key_blob_of_line l) (key_blob_of_line m)) ls (new ∷ []) first
      (inr (λ same. not_first (same ∙ holds)), tt),
  OneLineEach-append ls new blob each holds free,
)
