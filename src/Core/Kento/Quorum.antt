-- ===== src/Core/Kento/Quorum.antt =====
-- The signs of a lost quorum in what kento prints, and the objects of its list, as
-- crates/core/src/kento.rs looks for them.
use seadog.Prelude.{
  ◌||◌, ◌≡◌, ◌↔◌, ◌⊎◌, inl, inr, refl, sym, ap, subst, Bool, true, false, Option-cases, none, List,
  [], ◌∷◌, ◌++◌, any, arith, Text, lit, strip_prefix, strip_prefix-append, append_of_strip_prefix,
}
use seadog.Core.Models.{InstanceSignals}
use seadog.Core.Json.{Json, Items, no_items, item, Members, object, as_object}
use seadog.Core.Kento.Parse.{parse_signals_obj, objects}
use seadog.Core.Kento.Real.{contains_text, quorum_markers, reports_quorum_loss}

-- A text that stands somewhere in another.
abbrev pub Occurs : Text → Text → Type 0
Occurs needle text = (before : Text) × (after : Text) × (text ≡ before ++ (needle ++ after))

contains_text-Occurs : (needle text : Text) → contains_text needle text ≡ true → Occurs needle text
unfolding contains_text
contains_text-Occurs [] [] h = ([], [], refl)
contains_text-Occurs (d ∷ needle) [] h = absurd (cc)
contains_text-Occurs needle (c ∷ text) h = elim (Option-cases (strip_prefix needle (c ∷ text))) [
  | inr (rest, found) ↦ ([], rest, append_of_strip_prefix needle (c ∷ text) rest found)
  | inl missing ↦
      let (before, after, same) = contains_text-Occurs needle text (ground (arith, h, missing)) in
      (c ∷ before, after, ap (λ (t : Text). c ∷ t) same)
]

contains_front : (needle after : Text) → contains_text needle (needle ++ after) ≡ true
unfolding contains_text strip_prefix
contains_front [] [] = refl
contains_front [] (c ∷ after) = refl
contains_front (d ∷ needle) after = rw (contains_text, strip_prefix-append (d ∷ needle) after) refl

contains_text-after :
    (needle before after : Text) → contains_text needle (before ++ (needle ++ after)) ≡ true
unfolding contains_text
contains_text-after needle [] after = contains_front needle after
contains_text-after needle (c ∷ before) after =
    elim (Option-cases (strip_prefix needle (c ∷ (before ++ (needle ++ after))))) [
      | inr (rest, found) ↦ rw (contains_text, found) refl
      | inl missing ↦ rw (contains_text, missing) (contains_text-after needle before after)
    ]

-- What kento prints if its cluster has no quorum.
abbrev pub IsMarker : Text → Type 0
IsMarker m =
    (m ≡ lit "no quorum")
    ⊎ (m ≡ lit "cluster not ready")
    ⊎ (m ≡ lit "Read-only file system")
    ⊎ (m ≡ lit "permission denied - not part of cluster")

-- One of these, in whatever case, in one of the two outputs or across their border.
abbrev pub Marked : (Text → Text) → Text → Text → Type 0
Marked to_lowercase stdout stderr =
    (m : Text) × IsMarker m
    × Occurs (to_lowercase m) (to_lowercase (stdout ++ (lit "\n" ++ stderr)))

one_of :
    (a b c d : Bool)
    → (a || (b || (c || (d || false)))) ≡ true
    → (a ≡ true) ⊎ (b ≡ true) ⊎ (c ≡ true) ⊎ (d ≡ true)
one_of true b c d h = inl refl
one_of false true c d h = inr (inl refl)
one_of false false true d h = inr (inr (inl refl))
one_of false false false true h = inr (inr (inr refl))
one_of false false false false h = absurd (cc)

module _ (to_lowercase : Text → Text) (program stdout stderr : Text) where
  abbrev printed : Text
  printed = to_lowercase (stdout ++ (lit "\n" ++ stderr))

  abbrev found : Text → Bool
  found m = contains_text (to_lowercase m) printed

  marked : (m : Text) → IsMarker m → found m ≡ true → any found quorum_markers ≡ true
  marked m (inl e) h = let hit = subst (λ t. found t ≡ true) e h in ground (arith, hit)
  marked m (inr (inl e)) h = let hit = subst (λ t. found t ≡ true) e h in ground (arith, hit)
  marked m (inr (inr (inl e))) h = let hit = subst (λ t. found t ≡ true) e h in ground (arith, hit)
  marked m (inr (inr (inr e))) h = let hit = subst (λ t. found t ≡ true) e h in ground (arith, hit)

  pub reports_quorum_loss-Marked :
      (reports_quorum_loss to_lowercase program stdout stderr ≡ true)
      ↔ Marked to_lowercase stdout stderr
  unfolding reports_quorum_loss
  reports_quorum_loss-Marked = (
    λ h.
        elim (one_of (found (lit "no quorum")) (found (lit "cluster not ready"))
          (found (lit "Read-only file system"))
          (found (lit "permission denied - not part of cluster")) h) [
            | inl e ↦ (_, inl refl, contains_text-Occurs _ printed e)
            | inr (inl e) ↦ (_, inr (inl refl), contains_text-Occurs _ printed e)
            | inr (inr (inl e)) ↦ (_, inr (inr (inl refl)), contains_text-Occurs _ printed e)
            | inr (inr (inr e)) ↦ (_, inr (inr (inr refl)), contains_text-Occurs _ printed e)
          ],
    λ (m, marker, (before, after, same)). marked m marker (
        subst (λ t. contains_text (to_lowercase m) t ≡ true) (sym same)
          (contains_text-after (to_lowercase m) before after)),
  )

-- The signals of the objects among the items, in their order.
pub data ObjectsOf : Items → List InstanceSignals → Type 0 where
  no_objects : ObjectsOf no_items []
  skips :
      {v : Json} {items : Items} {instances : List InstanceSignals}
      → as_object v ≡ none
      → ObjectsOf items instances
      → ObjectsOf (item v items) instances
  reads :
      {obj : Members} {items : Items} {instances : List InstanceSignals}
      → ObjectsOf items instances
      → ObjectsOf (item (object obj) items) (parse_signals_obj obj ∷ instances)

pub objects-ObjectsOf : (items : Items) → ObjectsOf items (objects items)
unfolding objects
objects-ObjectsOf no_items = no_objects
objects-ObjectsOf (item (object obj) items) = reads (objects-ObjectsOf items)
objects-ObjectsOf (item v items) = skips refl (objects-ObjectsOf items)
