-- ===== src/Core/Kento/Parse.antt =====
-- What is read from the JSON that kento prints: the parsers of crates/core/src/kento.rs, from the
-- value that its text is parsed to on.
use seadog.Prelude.{
  ℕ, Bool, true, false, not, ◌&&◌, ◌||◌, ◌==◌, ◌+◌, ◌*◌, ◌-◌, ◌^◌, ltb, Option, none, some, List,
  [], ◌∷◌, ok, err, Result, any, if◌then◌else◌, Text, lit, text_eq, is_empty, is_ascii_digit, trim,
}
use seadog.Core.Models.{Mode, lxc, vm, InstanceSignals}
use seadog.Core.Json.{
  Json, Items, no_items, item, Members, no_members, member, as_str, as_u64, as_array, as_object,
  get,
}

-- `str_field`
unfoldable pub str_field : Members → Text → Option Text
str_field obj key = elim (get key obj) [
  | none ↦ none
  | some v ↦ elim (as_str v) [ none ↦ none | some s ↦ if is_empty s then none else some s ]
]

abbrev pub or_default : Option Text → Text
or_default none = []
or_default (some s) = s

abbrev pub is_text : Text → Option Text → Bool
is_text t none = false
is_text t (some s) = text_eq s t

-- The family of the type, else of the mode.
unfoldable pub family : Option Text → Option Text → Mode
family type mode =
    if is_text (lit "VM") type
    then vm
    else if is_text (lit "LXC") type
    then lxc
    else if is_text (lit "vm") mode || is_text (lit "pve-vm") mode
    then vm
    else lxc

-- `str::parse::<u64>`: digits, with a `+` at most before them.
unfoldable pub digits_from : ℕ → Text → Option ℕ
digits_from n [] = some n
digits_from n (c ∷ s) =
    let more = digits_from (n * 10 + (c - b'0')) s in
    if is_ascii_digit c && ltb (n * 10 + (c - b'0')) (2 ^ 64) then more else none

unfoldable pub parse_u64 : Text → Option ℕ
unfolding digits_from
parse_u64 [] = none
parse_u64 (c ∷ s) = if c == b'+' && not (is_empty s) then digits_from 0 s else digits_from 0 (c ∷ s)

abbrev pub as_u32 : ℕ → Option ℕ
as_u32 n = if ltb n (2 ^ 32) then some n else none

unfoldable pub read_vmid : Json → Option ℕ
unfolding parse_u64
read_vmid v = elim (as_u64 v) [
  | some n ↦ as_u32 n
  | none ↦ elim (as_str v) [
    | none ↦ none
    | some s ↦ elim (parse_u64 (trim s)) [ some n ↦ as_u32 n | none ↦ none ]
  ]
]

unfoldable pub vmid_of : Members → Option ℕ
unfolding read_vmid
vmid_of obj = elim (get (lit "vmid") obj) [ none ↦ none | some v ↦ read_vmid v ]

-- `str::split_once`
unfoldable pub split_once : ℕ → Text → Option (Text × Text)
split_once sep [] = none
split_once sep (c ∷ s) =
    let more = split_once sep s in
    if c == sep then some ([], s) else elim more [ none ↦ none | some (k, v) ↦ some (c ∷ k, v) ]

-- The guid and the owner that are read from the environment.
pub record Anchor : Type 0 where
  pub guid : Option Text
  pub owner : Option Text

abbrev pub no_anchor : Anchor
no_anchor = record { guid = none; owner = none }

unfoldable pub with_pair : Text → Text → Anchor → Anchor
with_pair key val a =
    if text_eq key (lit "SEADOG_GUID") && not (is_empty val)
    then record a { guid = some val }
    else if text_eq key (lit "SEADOG_OWNER") && not (is_empty val)
    then record a { owner = some val }
    else a

unfoldable pub with_entry : Json → Anchor → Anchor
unfolding with_pair split_once
with_entry v a = elim (as_str v) [
  | none ↦ a
  | some s ↦ elim (split_once b'=' s) [ none ↦ a | some (key, val) ↦ with_pair key val a ]
]

unfoldable pub with_entries : Items → Anchor → Anchor
unfolding with_entry
with_entries no_items a = a
with_entries (item v items) a = with_entries items (with_entry v a)

unfoldable pub anchor_of : Members → Anchor
unfolding with_entries
anchor_of obj = elim (get (lit "environment") obj) [
  | none ↦ no_anchor
  | some v ↦ elim (as_array v) [ none ↦ no_anchor | some items ↦ with_entries items no_anchor ]
]

-- A character that spoils the stored list or a log line.
abbrev pub is_hostile : ℕ → Bool
is_hostile c = c == b',' || c == b' ' || ltb c 32 || c == 127

abbrev pub is_kept : Text → Bool
is_kept s = not (is_empty s) && not (any is_hostile s)

unfoldable pub kept_fps : Members → List Text
kept_fps no_members = []
kept_fps (member k v members) =
    let rest = kept_fps members in
    elim (as_str v) [ none ↦ rest | some s ↦ if is_kept s then s ∷ rest else rest ]

-- The order of `String`, and `sort` by it.
unfoldable pub leb_text : Text → Text → Bool
leb_text [] t = true
leb_text (c ∷ s) [] = false
leb_text (c ∷ s) (d ∷ t) = ltb c d || c == d && leb_text s t

unfoldable pub insert_text : Text → List Text → List Text
unfolding leb_text
insert_text s [] = s ∷ []
insert_text s (t ∷ ts) = if leb_text s t then s ∷ t ∷ ts else t ∷ insert_text s ts

unfoldable pub sort_texts : List Text → List Text
unfolding insert_text
sort_texts [] = []
sort_texts (s ∷ ts) = insert_text s (sort_texts ts)

unfoldable pub fps_of : Members → List Text
unfolding kept_fps sort_texts
fps_of obj = elim (get (lit "ssh_host_key_fingerprints") obj) [
  | none ↦ []
  | some v ↦ elim (as_object v) [ none ↦ [] | some fps ↦ sort_texts (kept_fps fps) ]
]

unfoldable pub parse_signals_obj : Members → InstanceSignals
unfolding str_field family vmid_of anchor_of fps_of
parse_signals_obj obj =
    let anchor = anchor_of obj in
    record {
      name = or_default (str_field obj (lit "name"));
      guid = anchor.guid;
      owner = anchor.owner;
      mac = str_field obj (lit "mac");
      ssh_host_key_fps = fps_of obj;
      image = or_default (str_field obj (lit "image"));
      status = or_default (str_field obj (lit "status"));
      mode = family (str_field obj (lit "type")) (str_field obj (lit "mode"));
      vmid = vmid_of obj;
    }

unfoldable pub objects : Items → List InstanceSignals
unfolding parse_signals_obj
objects no_items = []
objects (item v items) =
    let rest = objects items in
    elim (as_object v) [ none ↦ rest | some obj ↦ parse_signals_obj obj ∷ rest ]

-- `parse` is `serde_json::from_str`.
module _ (parse : Text → Result Text Json) where
  unfoldable pub parse_kento_inspect : Text → Result Text InstanceSignals
  unfolding parse_signals_obj
  parse_kento_inspect json = elim (parse json) [
    | err e ↦ err e
    | ok v ↦ elim (as_object v) [
      | none ↦ err (lit "expected a top-level JSON object")
      | some obj ↦ ok (parse_signals_obj obj)
    ]
  ]

  unfoldable pub parse_kento_list_json : Text → Result Text (List InstanceSignals)
  unfolding objects
  parse_kento_list_json json = elim (parse json) [
    | err e ↦ err e
    | ok v ↦ elim (as_array v) [
      | none ↦ err (lit "expected a top-level JSON array")
      | some items ↦ ok (objects items)
    ]
  ]
