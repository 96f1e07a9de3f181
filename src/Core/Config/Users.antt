-- ===== src/Core/Config/Users.antt =====
-- What a config that `validate` (crates/core/src/config.rs) accepts promises of its images.
use seadog.Prelude.{
  ◌≡◌, refl, sym, ap, ◌∙◌, false, none, some, List, [], ◌∷◌, arith, inl, inr, Option-cases,
  Bool-cases, ok, find, lookup, All, All-map, ◌<◌, Text, text_eq, text_eq_iff, text_eq_refl,
}
use seadog.Core.Config.{
  Image, Config, effective_user, check_modes, check_users, validate, login_user_for_image,
  login_user_for_ref, has_ref, has_no_mode,
}

module _ (default_user : Text) where
  -- An entry agrees with the user that is on record for its ref.
  abbrev Agrees : List (Text × (Text × Text)) → Text × Image → Type 0
  Agrees seen e =
      (first : Text × Text)
      → lookup e.1.image_ref seen ≡ some first
      → first.1 ≡ effective_user default_user e.1

  Agrees-weaken :
      (seen : List (Text × (Text × Text))) (r : Text) (first : Text × Text)
      → lookup r seen ≡ none
      → (images : List (Text × Image)) → All (Agrees ((r, first) ∷ seen)) images
      → All (Agrees seen) images
  Agrees-weaken seen r first new [] h = tt
  Agrees-weaken seen r first new (e ∷ images) h =
      (λ known found. h.0 known (keeps known found), Agrees-weaken seen r first new images h.1)
    where
      keeps :
          (known : Text × Text)
          → lookup e.1.image_ref seen ≡ some known
          → lookup e.1.image_ref ((r, first) ∷ seen) ≡ some known
      keeps known found = ground (arith, text_eq_iff r e.1.image_ref)

  check_users-Agrees :
      (images : List (Text × Image)) (seen : List (Text × (Text × Text)))
      → check_users default_user images seen ≡ ok tt
      → All (Agrees seen) images
  unfolding check_users
  check_users-Agrees [] seen h = tt
  check_users-Agrees ((name, img) ∷ images) seen h =
      elim (Option-cases (lookup img.image_ref seen)) [
        | inl new ↦ (
          λ first found. absurd (cc (new, found)),
          Agrees-weaken seen img.image_ref (name, effective_user default_user img) new images
              (check_users-Agrees images _ (rw (new, check_users) at h)),
        )
        | inr (first, known) ↦ (
          λ other found. known_user first other known found h,
          check_users-Agrees images seen (known_rest first known h),
        )
      ]
    where
      known_user :
          (first other : Text × Text)
          → lookup img.image_ref seen ≡ some first
          → lookup img.image_ref seen ≡ some other
          → check_users default_user ((name, img) ∷ images) seen ≡ ok tt
          → other.1 ≡ effective_user default_user img
      known_user first other known found h =
          ground (arith, text_eq_iff first.1 (effective_user default_user img))

      known_rest :
          (first : Text × Text)
          → lookup img.image_ref seen ≡ some first
          → check_users default_user ((name, img) ∷ images) seen ≡ ok tt
          → check_users default_user images seen ≡ ok tt
      known_rest first known h =
          ground (arith, text_eq_iff first.1 (effective_user default_user img))

  -- Entries with one ref have one effective user.
  abbrev SameUser : Text × Image → Text × Image → Type 0
  SameUser e f =
      e.1.image_ref ≡ f.1.image_ref
      → effective_user default_user e.1 ≡ effective_user default_user f.1

  abbrev Consistent : List (Text × Image) → Type 0
  Consistent [] = Unit
  Consistent (e ∷ images) = All (SameUser e) images × Consistent images

  -- After an accepted entry its user is on record for its ref.
  record Recorded (img : Image) (images : List (Text × Image)) : Type 0 where
    seen : List (Text × (Text × Text))
    first : Text × Text
    found : lookup img.image_ref seen ≡ some first
    agrees : first.1 ≡ effective_user default_user img
    rest : check_users default_user images seen ≡ ok tt

  check_users-Recorded :
      (name : Text) (img : Image) (images : List (Text × Image))
      (seen : List (Text × (Text × Text)))
      → check_users default_user ((name, img) ∷ images) seen ≡ ok tt
      → Recorded img images
  unfolding check_users
  check_users-Recorded name img images seen h = elim (Option-cases (lookup img.image_ref seen)) [
    | inl new ↦ record {
      seen = (img.image_ref, (name, effective_user default_user img)) ∷ seen;
      first = (name, effective_user default_user img);
      found = rw (text_eq_refl img.image_ref);
      agrees = refl;
      rest = rw (new, check_users) at h;
    }
    | inr (first, known) ↦ record {
      seen = seen;
      first = first;
      found = known;
      agrees = ground (arith, text_eq_iff first.1 (effective_user default_user img));
      rest = ground (arith, text_eq_iff first.1 (effective_user default_user img));
    }
  ]

  check_users-Consistent :
      (images : List (Text × Image)) (seen : List (Text × (Text × Text)))
      → check_users default_user images seen ≡ ok tt
      → Consistent images
  check_users-Consistent [] seen h = tt
  check_users-Consistent ((name, img) ∷ images) seen h =
      let r : Recorded img images = check_users-Recorded name img images seen h in
      (
        All-map (λ f agree same. sym r.agrees ∙ agree r.first (rw (← same) r.found)) images
            (check_users-Agrees images r.seen r.rest),
        check_users-Consistent images r.seen r.rest,
      )

  user_of_lookup :
      (f : Text × Image) (images : List (Text × Image)) (name : Text) (img : Image)
      → All (SameUser f) images
      → lookup name images ≡ some img
      → f.1.image_ref ≡ img.image_ref
      → effective_user default_user f.1 ≡ effective_user default_user img
  user_of_lookup f [] name img s h same = cc
  user_of_lookup f ((key, g) ∷ images) name img s h same = elim (Bool-cases (text_eq key name)) [
    | inl here ↦ let e : g ≡ img = ground arith in rw (← e) (s.0 (rw e same))
    | inr later ↦ user_of_lookup f images name img s.1 (rw later at h) same
  ]

  past :
      (key name : Text) (g img : Image) (images : List (Text × Image))
      → lookup name ((key, g) ∷ images) ≡ some img
      → text_eq g.image_ref img.image_ref ≡ false
      → lookup name images ≡ some img
  past key name g img images h miss = elim (Bool-cases (text_eq key name)) [
    | inl here ↦
        let e : g ≡ img = ground arith in
        absurd (
          ground (
            arith,
            text_eq_refl img.image_ref,
            ap (λ (i : Image). text_eq i.image_ref img.image_ref) e,
          ))
    | inr later ↦ rw later at h
  ]

  -- The user of the first entry with a ref is the user of every entry with it.
  find-effective_user :
      (images : List (Text × Image)) (name : Text) (img : Image)
      → Consistent images
      → lookup name images ≡ some img
      → (e : Text × Image) × (find (has_ref img.image_ref) images ≡ some e)
        × (effective_user default_user e.1 ≡ effective_user default_user img)
  find-effective_user [] name img c h = cc
  find-effective_user ((key, g) ∷ images) name img c h =
      elim (Bool-cases (text_eq g.image_ref img.image_ref)) [
        | inl hit ↦ (
          (key, g),
          rw hit,
          elim (Bool-cases (text_eq key name)) [
            | inl here ↦ let e : g ≡ img = ground arith in rw e
            | inr later ↦
                user_of_lookup (key, g) images name img c.0 (rw later at h)
                  ((text_eq_iff g.image_ref img.image_ref).0 hit)
          ],
        )
        | inr miss ↦
            rw miss (find-effective_user images name img c.1 (past key name g img images h miss))
      ]

-- The three loops and the two tests of an accepted config.
pub record Accepted (c : Config) : Type 0 where
  pub modes : check_modes c.images ≡ ok tt
  pub users : check_users c.default_user c.images [] ≡ ok tt
  pub range : c.allocation.ip_pool.range.0 < c.allocation.ip_pool.range.1

pub validate-Accepted : (c : Config) → validate c ≡ ok tt → Accepted c
unfolding validate
validate-Accepted c h = ground arith

-- In an accepted config the login user that the helper resolves from an image's ref is the one
-- that the allowlist gives for the image's name, whichever alias of the ref comes first.
pub login_user_for_ref-login_user_for_image :
    (c : Config) (name : Text) (img : Image)
    → validate c ≡ ok tt
    → lookup name c.images ≡ some img
    → login_user_for_ref c img.image_ref ≡ login_user_for_image c name
unfolding login_user_for_ref login_user_for_image
login_user_for_ref-login_user_for_image c name img valid h =
    let a : Accepted c = validate-Accepted c valid in
    let (e, found, same) =
      find-effective_user c.default_user c.images name img
        (check_users-Consistent c.default_user c.images [] a.users) h in
    rw (found, login_user_for_ref, h, login_user_for_image) same

-- Every entry that passed the loop over the modes allows one.
pub check_modes-lookup :
    (images : List (Text × Image)) (name : Text) (img : Image)
    → check_modes images ≡ ok tt
    → lookup name images ≡ some img
    → has_no_mode img ≡ false
unfolding check_modes
check_modes-lookup [] name img h found = cc
check_modes-lookup ((key, g) ∷ images) name img h found = elim (Bool-cases (text_eq key name)) [
  | inl here ↦ let e : g ≡ img = ground arith in rw (← e) (ground arith)
  | inr later ↦ check_modes-lookup images name img (ground arith) (rw later at found)
]
