-- ===== src/Core/Kento/Anchor.antt =====
-- The identity anchor on its way through kento: what `provision_argv` injects and the parsers read,
-- both of crates/core/src/kento.rs.
use seadog.Prelude.{
  Bool, false, ◌||◌, ◌≡◌, refl, subst, ap, ◌∙◌, Bool-cases, Option-cases, inl, inr, some, none,
  List, [], ◌∷◌, ◌++◌, Option, ℕ, if◌then◌else◌, arith, Text, lit, is_empty, text_eq, text_eq_iff,
}
use seadog.Core.Models.{Mode, vm, lxc}
use seadog.Core.Json.{
  Json, string, Items, no_items, item, Members, array, append_items, string_items, get,
}
use seadog.Core.Kento.{
  ProvisionSpec, guid_entry, owner_entry, provision_argv, key_args, mac_args, nesting_args,
  size_args,
}
use seadog.Core.Kento.Parse.{
  Anchor, no_anchor, split_once, with_pair, with_entry, with_entries, anchor_of, parse_signals_obj,
}

-- A flag of `kento create` that stands alone; each other one has the next word as its value.
abbrev pub is_switch : Text → Bool
is_switch w =
    text_eq w (lit "--ssh-host-keys")
    || text_eq w (lit "--start")
    || text_eq w (lit "--allow-nesting")

-- The values of `--env` on a command line behind the two words of the command.
unfoldable pub env_args : List Text → List Text
env_args [] = []
env_args (w ∷ []) = []
env_args (w ∷ v ∷ rest) =
    let behind_word = env_args (v ∷ rest) in
    let behind_value = env_args rest in
    if is_switch w
    then behind_word
    else if text_eq w (lit "--env")
    then v ∷ behind_value
    else behind_value

-- What stands behind `lxc create` or `vm create`.
abbrev pub behind_command : List Text → List Text
behind_command (mode ∷ create ∷ rest) = rest
behind_command _ = []

env_args-switch : (r : List Text) → env_args (lit "--allow-nesting" ∷ r) ≡ env_args r
unfolding env_args text_eq
env_args-switch [] = refl
env_args-switch (v ∷ r) = refl

module _ (spec : ProvisionSpec) (r : List Text) where
  env_args-key_args : env_args (key_args spec ++ r) ≡ env_args r
  unfolding env_args text_eq
  env_args-key_args = elim (Option-cases spec.ssh_key_file) [
    | inl h ↦ rw (h) refl
    | inr (file, h) ↦ rw (h) refl
  ]

  env_args-mac_args : env_args (mac_args spec ++ r) ≡ env_args r
  unfolding env_args text_eq
  env_args-mac_args = on_mode spec.mode
    where
      on_mode :
          (m : Mode)
          → env_args (elim m [ vm ↦ lit "--mac" ∷ spec.mac ∷ [] | lxc ↦ [] ] ++ r) ≡ env_args r
      on_mode vm = refl
      on_mode lxc = refl

  env_args-nesting_args : env_args (nesting_args spec ++ r) ≡ env_args r
  env_args-nesting_args = elim (Bool-cases spec.allow_nesting) [
    | inl h ↦ rw (h) (env_args-switch r)
    | inr h ↦ rw (h) refl
  ]

  env_args-memory : (v : Option ℕ) → env_args (size_args (lit "--memory") v ++ r) ≡ env_args r
  unfolding env_args text_eq
  env_args-memory none = refl
  env_args-memory (some v) = refl

  env_args-cores : (v : Option ℕ) → env_args (size_args (lit "--cores") v ++ r) ≡ env_args r
  unfolding env_args text_eq
  env_args-cores none = refl
  env_args-cores (some v) = refl

-- The words behind the two `--env` of a provision.
abbrev optional_words : ProvisionSpec → List Text
optional_words spec =
    key_args spec
    ++ (mac_args spec
        ++ (nesting_args spec
            ++ (size_args (lit "--memory") spec.memory
                ++ (size_args (lit "--cores") spec.cores ++ spec.image_ref ∷ []))))

env_args-optional_words : (spec : ProvisionSpec) → env_args (optional_words spec) ≡ []
unfolding env_args
env_args-optional_words spec =
    env_args-key_args spec _
    ∙ env_args-mac_args spec _
    ∙ env_args-nesting_args spec _
    ∙ env_args-memory spec _ spec.memory
    ∙ env_args-cores spec _ spec.cores

env_args-provision_argv :
    (spec : ProvisionSpec)
    → env_args (behind_command (provision_argv spec)) ≡ guid_entry spec ∷ owner_entry spec ∷ []
unfolding provision_argv env_args text_eq
env_args-provision_argv spec =
    ap (λ (ws : List Text). guid_entry spec ∷ owner_entry spec ∷ ws) (env_args-optional_words spec)

-- Any entry that sets neither of the two variables.
abbrev pub IsOther : Json → Type 0
IsOther v =
    (value : Text)
    → ((v ≡ string (lit "SEADOG_GUID=" ++ value)) → ⊥)
      × ((v ≡ string (lit "SEADOG_OWNER=" ++ value)) → ⊥)

-- The words stand among the items, in their order, with other entries around them.
pub data Among : List Text → Items → Type 0 where
  ends : Among [] no_items
  entry :
      {word : Text} {words : List Text} {items : Items}
      → Among words items
      → Among (word ∷ words) (item (string word) items)
  other :
      {v : Json} {words : List Text} {items : Items}
      → IsOther v
      → Among words items
      → Among words (item v items)

split_once-some :
    (sep : ℕ) (s key val : Text) → split_once sep s ≡ some (key, val) → s ≡ key ++ (sep ∷ val)
unfolding split_once
split_once-some sep [] key val h = absurd (cc)
split_once-some sep (c ∷ s) [] val h = elim (Option-cases (split_once sep s)) [
  | inl none_left ↦ ground (arith, h, none_left)
  | inr ((k, v), more) ↦ ground (arith, h, more)
]
split_once-some sep (c ∷ s) (d ∷ key) val h = elim (Option-cases (split_once sep s)) [
  | inl none_left ↦ ground (arith, h, none_left)
  | inr ((k, v), more) ↦ ground (arith, h, more, split_once-some sep s k v more)
]

with_pair-other :
    (key val : Text) (a : Anchor) → IsOther (string (key ++ (b'=' ∷ val))) → with_pair key val a ≡ a
unfolding with_pair
with_pair-other key val a h = elim (Bool-cases (text_eq key (lit "SEADOG_GUID"))) [
  | inl same ↦
      absurd ((h val).0 (ap (λ k. string (k ++ (b'=' ∷ val))) ((text_eq_iff key _).0 same)))
  | inr no_guid ↦ elim (Bool-cases (text_eq key (lit "SEADOG_OWNER"))) [
    | inl same ↦
        absurd ((h val).1 (ap (λ k. string (k ++ (b'=' ∷ val))) ((text_eq_iff key _).0 same)))
    | inr no_owner ↦ rw (no_guid, no_owner) refl
  ]
]

with_entry-other : (v : Json) (a : Anchor) → IsOther v → with_entry v a ≡ a
unfolding with_entry
with_entry-other (string s) a h = elim (Option-cases (split_once b'=' s)) [
  | inl missing ↦ rw (with_entry, missing) refl
  | inr ((key, val), found) ↦
      rw (with_entry, found)
        (with_pair-other key val a
          (subst (λ t. IsOther (string t)) (split_once-some b'=' s key val found) h))
]
with_entry-other v a h = refl

with_entries-Among :
    (words : List Text) (items : Items)
    → Among words items
    → (a : Anchor) → with_entries items a ≡ with_entries (string_items words) a
unfolding with_entries
with_entries-Among _ _ ends a = refl
with_entries-Among _ _ (entry {word} {words} {items} more) a =
    with_entries-Among words items more (with_entry (string word) a)
with_entries-Among _ _ (other {v} {words} {items} h more) a =
    ap (with_entries items) (with_entry-other v a h) ∙ with_entries-Among words items more a

with_entries-append :
    (items more : Items) (a : Anchor)
    → with_entries (append_items items more) a ≡ with_entries more (with_entries items a)
unfolding with_entries
with_entries-append no_items more a = refl
with_entries-append (item v items) more a = with_entries-append items more (with_entry v a)

with_entries-injected :
    (spec : ProvisionSpec) (a : Anchor)
    → is_empty spec.guid ≡ false
    → is_empty spec.owner ≡ false
    → with_entries (string_items (guid_entry spec ∷ owner_entry spec ∷ [])) a
      ≡ record { guid = some spec.guid; owner = some spec.owner }
unfolding with_entries with_entry with_pair split_once text_eq
with_entries-injected spec a g o = rw (g, o) refl

-- Where kento reports for an instance an environment in which the values of `--env` of a provision
-- of the instance come in their order, with no other entry for either of the two variables between or
-- behind them, the guid and the owner that are read are those of the provision, whatever stands before
-- them and whatever other variables stand between or behind them.
pub parse_signals_obj-anchor :
    (spec : ProvisionSpec) (before items : Items) (obj : Members)
    → is_empty spec.guid ≡ false
    → is_empty spec.owner ≡ false
    → Among (env_args (behind_command (provision_argv spec))) items
    → get (lit "environment") obj ≡ some (array (append_items before items))
    → ((parse_signals_obj obj).guid ≡ some spec.guid)
      × ((parse_signals_obj obj).owner ≡ some spec.owner)
unfolding parse_signals_obj anchor_of
parse_signals_obj-anchor spec before items obj g o among found =
    let given = subst (λ words. Among words items) (env_args-provision_argv spec) among in
    rw
      (
        anchor_of,
        found,
        with_entries-append before items no_anchor,
        with_entries-Among _ items given (with_entries before no_anchor),
        with_entries-injected spec (with_entries before no_anchor) g o,
      )
      (refl, refl)
