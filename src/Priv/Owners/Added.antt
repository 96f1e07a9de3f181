-- ===== src/Priv/Owners/Added.antt =====
-- What `add-owner` of crates/seadog-priv/src/owners.rs leaves in the file.
use seadog.Prelude.{
  ◌≡◌, ◌≢◌, refl, sym, subst, ◌∙◌, Bool, true, false, Option, none, some, List, [], ◌∷◌, ◌++◌,
  Result, ok, ok_or, ok_or-eq-ok, All, Text, text_eq_iff, lines, arith, Bool-cases, if-true,
  if-false, inl, inr, lit,
}
use seadog.Core.Failure.{Failure, message, from_core, from_core-eq-ok, lift-Post}
use seadog.Core.Validate.{validate_owner_name}
use seadog.Core.AuthKeys.{
  forced_command_line, key_blob, validate_key_line, key_blob_of_line, OwnerEntry, parse_owner_line,
}
use seadog.Core.Action.{lift, pure, gets, modify, ◌>>=◌, ◌>>◌}
use seadog.Core.Post.{Post, bind-Post}
use seadog.Priv.Owners.{
  Keys, frontend_bin, is_blob, Addition, clash, already_there, appended, write_authkeys,
  read_authkeys, add_new, add_owner,
}
use seadog.Priv.Owners.Line.{forced_command_line-OneLine}
use seadog.Priv.Owners.Lines.{Closed, appended-Lines, NotHeld, OneLineEach, OneLineEach-append}

-- A file of ended lines, no two of which hold one blob.
pub record IsSound (file : Text) : Type 0 where
  pub closed : Closed file
  pub each : OneLineEach (lines file)

module _ (owner key : Text) (w : Text) where
  -- The line behind the others, or the same file.
  abbrev pub Grown : Bool → Text → Type 0
  Grown true w' = lines w' ≡ lines w ++ forced_command_line frontend_bin owner key ∷ []
  Grown false w' = w' ≡ w

  pub record Kept (r : Addition) (w' : Text) : Type 0 where
    pub sound : IsSound w'
    pub blob : key_blob key ≡ some r.blob
    pub grown : Grown r.added w'

clash-true : (owner : Text) (o : Option OwnerEntry) → clash owner o ≢ ok false
unfolding clash
clash-true owner none = λ h. cc
clash-true owner (some entry) = λ h. ground (arith, h)

is_blob-some : (blob : Text) (o : Option Text) → is_blob blob o ≡ false → o ≢ some blob
is_blob-some blob none h = λ e. cc
is_blob-some blob (some b) h = λ e. ground (arith, h, e, text_eq_iff b blob)

already_there-false :
    (owner blob : Text) (ls : List Text)
    → already_there owner blob ls ≡ ok false
    → All (NotHeld blob) ls
unfolding already_there
already_there-false owner blob [] h = tt
already_there-false owner blob (l ∷ ls) h = elim (Bool-cases (is_blob blob (key_blob_of_line l))) [
  | inl held ↦ absurd (clash-true owner (parse_owner_line l) (sym (chosen held) ∙ h))
  | inr free ↦ (
    is_blob-some blob (key_blob_of_line l) free,
    already_there-false owner blob ls (sym (passed free) ∙ h),
  )
]
  where
    chosen :
        is_blob blob (key_blob_of_line l) ≡ true
        → already_there owner blob (l ∷ ls) ≡ clash owner (parse_owner_line l)
    chosen held = if-true (is_blob blob (key_blob_of_line l)) _ _ held

    passed :
        is_blob blob (key_blob_of_line l) ≡ false
        → already_there owner blob (l ∷ ls) ≡ already_there owner blob ls
    passed free = if-false (is_blob blob (key_blob_of_line l)) _ _ free

module _ (readable writable : Result Failure (Unit {0})) (owner key : Text) (w : Text)
    (sound : IsSound w) where
  abbrev E : Failure → Text → Type 0
  E e w' = w' ≡ w

  module _ (valid_owner : validate_owner_name owner ≡ ok tt)
      (valid_key : validate_key_line key ≡ ok tt) (blob : Text)
      (has_blob : key_blob key ≡ some blob) where
    abbrev new : Text
    new = forced_command_line frontend_bin owner key

    written :
        All (NotHeld blob) (lines w)
        → Kept owner key w (record { added = true; owner = owner; blob = blob }) (appended w new)
    written free =
        let (plain, named, holds) = forced_command_line-OneLine owner key valid_owner valid_key in
        let (closed, grown) = appended-Lines w new sound.closed plain in
        record {
          sound = record {
            closed = closed;
            each =
                subst OneLineEach (sym grown)
                  (OneLineEach-append (lines w) new blob sound.each (holds ∙ has_blob) free);
          };
          blob = has_blob;
          grown = grown;
        }

    add_new-Kept :
        (there : Bool)
        → already_there owner blob (lines w) ≡ ok there
        → Post (Kept owner key w) E (add_new readable writable owner key blob w there w)
    unfolding add_new
    add_new-Kept true h = record { sound = sound; blob = has_blob; grown = refl }
    add_new-Kept false h =
        bind-Post (λ u w'. w' ≡ appended w new) (Kept owner key w) E
          (write_authkeys readable writable (appended w new))
          (λ u. pure (record { added = true; owner = owner; blob = blob })) w
          (lift-Post (λ u w'. w' ≡ appended w new) E writable
            (λ u. modify (λ current. appended w new)) w (λ e bad. refl) (λ u good. refl))
          (λ u w' same.
            subst (Kept owner key w (record { added = true; owner = owner; blob = blob }))
              (sym same) (written (already_there-false owner blob (lines w) h)))

    checks : Post (Kept owner key w) E (
        (lift (already_there owner blob (lines w)) >>= add_new readable writable owner key blob w)
          w)
    checks =
        lift-Post (Kept owner key w) E (already_there owner blob (lines w))
          (add_new readable writable owner key blob w) w (λ e clashed. refl)
          (λ there found. add_new-Kept there found)

    reads : Post (Kept owner key w) E (
        (read_authkeys readable writable >>= λ current.
        lift (already_there owner blob (lines current))
        >>= add_new readable writable owner key blob current)
          w)
    reads =
        bind-Post (λ current w'. (current ≡ w) × (w' ≡ w)) (Kept owner key w) E
          (read_authkeys readable writable)
          (λ current.
            lift (already_there owner blob (lines current))
            >>= add_new readable writable owner key blob current)
          w
          (lift-Post (λ current w'. (current ≡ w) × (w' ≡ w)) E readable
            (λ u. gets (λ current. current)) w (λ e bad. refl) (λ u good. (refl, refl)))
          (λ current w' (read, same).
            subst
              (λ c. Post (Kept owner key w) E (
                (lift (already_there owner blob (lines c))
                    >>= add_new readable writable owner key blob c)
                  w'))
              (sym read)
              (subst
                (λ v. Post (Kept owner key w) E (
                  (lift (already_there owner blob (lines w))
                      >>= add_new readable writable owner key blob w)
                    v))
                (sym same) checks))

  -- On a file of ended lines no two of which hold one blob, `add-owner` either fails, at whichever
  -- check or write, and leaves the file; or answers that the key is there, and leaves it; or has put
  -- the forced command of that owner and key behind the other lines as one line. In each case the
  -- file is again one of ended lines in which no blob is held twice, whatever the key's comment.
  pub add_owner-Kept : Post (Kept owner key w) E (add_owner readable writable owner key w)
  unfolding add_owner
  add_owner-Kept =
      lift-Post (Kept owner key w) E (from_core (validate_owner_name owner))
        (λ u. lift (from_core (validate_key_line key)) >> (blobs >>= goes)) w (λ e bad. refl)
        (λ u named.
          lift-Post (Kept owner key w) E (from_core (validate_key_line key)) (λ u. blobs >>= goes) w
            (λ e bad. refl)
            (λ u valid.
              lift-Post (Kept owner key w) E (ok_or no_blob (key_blob key)) goes w (λ e bad. refl)
                (λ blob has.
                  reads (from_core-eq-ok (validate_owner_name owner) named)
                    (from_core-eq-ok (validate_key_line key) valid) blob
                    (ok_or-eq-ok no_blob (key_blob key) has))))
    where
      no_blob : Failure
      no_blob = message (lit "key line has no decodable blob")

      blobs : Keys Text
      blobs = lift (ok_or no_blob (key_blob key))

      goes : Text → Keys Addition
      goes blob = read_authkeys readable writable >>= λ current.
          lift (already_there owner blob (lines current))
          >>= add_new readable writable owner key blob current
