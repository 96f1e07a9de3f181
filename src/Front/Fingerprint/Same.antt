-- ===== src/Front/Fingerprint/Same.antt =====
-- Whose owner is found by a fingerprint (crates/seadog/src/owner.rs).
use mathlib.Core.List.{Mem}
use seadog.Prelude.{ℕ, ◌≡◌, Option, some, List, All, Text, trim}
use seadog.Front.Base64.RoundTrip.{IsByte}
use seadog.Front.Fingerprint.{key_body_of_authorized_line, owner_in_authorized_line, raw_blob}

module _ (sha256 : List ℕ → List ℕ) (bytes : (blob : List ℕ) → All IsByte (sha256 blob)) where
  -- A line of the file with a key of that digest, whose forced command names the owner.
  pub record Backed (digest : List ℕ) (file : List Text) (owner : Text) : Type 0 where
    pub line : Text
    pub listed : Mem line file
    pub body : Text
    pub key : key_body_of_authorized_line (trim line) ≡ some body
    pub blob : List ℕ
    pub decoded : raw_blob body ≡ some blob
    pub same : sha256 blob ≡ digest
    pub names : owner_in_authorized_line (trim line) ≡ some owner

  module _ (target : List ℕ) where
    -- What it is for a key to match.
    abbrev KeyOf : Option Text → Type 0
    KeyOf found =
        (body : Text) × (blob : List ℕ) × (found ≡ some body)
        × (raw_blob body ≡ some blob)
        × (sha256 blob ≡ sha256 target)
