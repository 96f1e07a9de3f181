-- ===== src/Core/Kento/Storable.antt =====
-- The fingerprints that the parsers of crates/core/src/kento.rs let through, and the column of
-- crates/core/src/store.rs that they are stored in.
use seadog.Prelude.{
  true, false, ◌≡◌, ◌≢◌, refl, inl, inr, Bool-cases, Option-cases, List, [], ◌∷◌, All, All-map,
  arith, Text, contains_char, any, lit,
}
use seadog.Core.Json.{Members, no_members, member, as_str, as_object, get}
use seadog.Core.Rows.{join_fps, split_fps}
use seadog.Core.Rows.Codec.{split_fps-join_fps}
use seadog.Core.Kento.Parse.{
  is_kept, is_hostile, kept_fps, leb_text, insert_text, sort_texts, fps_of, parse_signals_obj,
}

abbrev IsKept : Text → Type 0
IsKept s = is_kept s ≡ true

kept_fps-IsKept : (obj : Members) → All IsKept (kept_fps obj)
unfolding kept_fps
kept_fps-IsKept no_members = tt
kept_fps-IsKept (member k v obj) = elim (Option-cases (as_str v)) [
  | inl no_text ↦ rw (kept_fps, no_text) (kept_fps-IsKept obj)
  | inr (s, text) ↦ elim (Bool-cases (is_kept s)) [
    | inl kept ↦ rw (kept_fps, text, kept) (kept, kept_fps-IsKept obj)
    | inr dropped ↦ rw (kept_fps, text, dropped) (kept_fps-IsKept obj)
  ]
]

insert_text-IsKept :
    (s : Text) (ts : List Text) → IsKept s → All IsKept ts → All IsKept (insert_text s ts)
unfolding insert_text
insert_text-IsKept s [] k h = (k, tt)
insert_text-IsKept s (t ∷ ts) k h = elim (Bool-cases (leb_text s t)) [
  | inl first ↦ rw first (k, h)
  | inr later ↦ rw later (h.0, insert_text-IsKept s ts k h.1)
]

sort_texts-IsKept : (ts : List Text) → All IsKept ts → All IsKept (sort_texts ts)
unfolding sort_texts
sort_texts-IsKept [] h = tt
sort_texts-IsKept (t ∷ ts) h = insert_text-IsKept t (sort_texts ts) h.0 (sort_texts-IsKept ts h.1)

fps_of-IsKept : (obj : Members) → All IsKept (fps_of obj)
unfolding fps_of
fps_of-IsKept obj = elim (Option-cases (get (lit "ssh_host_key_fingerprints") obj)) [
  | inl absent ↦ rw (fps_of, absent) tt
  | inr (v, found) ↦ elim (Option-cases (as_object v)) [
    | inl other ↦ rw (fps_of, found, other) tt
    | inr (fps, is_map) ↦
        rw (fps_of, found, is_map) (sort_texts-IsKept (kept_fps fps) (kept_fps-IsKept fps))
  ]
]

clean-plain : (s : Text) → any is_hostile s ≡ false → contains_char b',' s ≡ false
clean-plain [] h = refl
clean-plain (c ∷ s) h = ground (arith, clean-plain s)

IsKept-plain : (s : Text) → IsKept s → contains_char b',' s ≡ false
IsKept-plain s k = ground (arith, clean-plain s)

kept-told_apart : (fps : List Text) → All IsKept fps → fps ≢ [] ∷ []
kept-told_apart [] h e = cc
kept-told_apart ([] ∷ fps) h e = cc
kept-told_apart ((c ∷ s) ∷ fps) h e = cc

-- Whatever kento reports, the fingerprints that are read from it are the ones that are read back from
-- the column they are stored in.
pub parse_signals_obj-split_fps :
    (obj : Members)
    → split_fps (join_fps (parse_signals_obj obj).ssh_host_key_fps)
      ≡ (parse_signals_obj obj).ssh_host_key_fps
unfolding parse_signals_obj
parse_signals_obj-split_fps obj =
    let kept = fps_of-IsKept obj in
    split_fps-join_fps (fps_of obj) (record {
      plain = All-map IsKept-plain (fps_of obj) kept;
      told_apart = kept-told_apart (fps_of obj) kept;
    })
