-- ===== src/Core/Store/Alerts.antt =====
-- The notify states that `prune_terminal` of crates/core/src/store.rs leaves alone.
use seadog.Prelude.{
  ◌∙◌, append_assoc, sym, ap, true, ◌⊎◌, lit, text_eq, find, text_eq_iff, Text, ℕ, ◌≡◌, refl, subst,
  Bool, false, not, List, [], ◌∷◌, any, select, inl, inr, arith, Bool-cases,
}
use seadog.Prelude.Int.{ℤ, sub_i64}
use seadog.Core.Errors.{Error}
use seadog.Core.Models.{NotifyState}
use seadog.Core.Action.{◌>>◌}
use seadog.Core.Post.{Post, bind-Post, statement-Post, transaction-Post}
use seadog.Core.Sql.{EnvRow, Db, Faults, tick, statement}
use seadog.Core.Rows.{keyed_on, same_key, prunable}
use seadog.Core.Store.{delete_states, delete_envs, prune_terminal}
use seadog.Prelude.{ℕ, ◌==◌, ◌++◌, ◌||◌, to_ascii_lowercase, All}
use seadog.Core.Rows.{like, some_suffix, first_matches}
use seadog.Core.Store.Prune.{IsOld, prunable-IsOld}

-- A character of a pattern of `LIKE` and one that it stands for.
abbrev pub StandsFor : ℕ → ℕ → Type 0
StandsFor p c = (p ≡ b'_') ⊎ (to_ascii_lowercase p ≡ to_ascii_lowercase c)

-- `LIKE`: `%` stands for any text, `_` for one character, and letters for themselves in either case.
pub data Matches : Text → Text → Type 0 where
  ends : Matches [] []
  any_text :
      {pattern text : Text} (t : Text) → Matches pattern text → Matches (b'%' ∷ pattern) (t ++ text)
  one_char :
      {p c : ℕ} {pattern text : Text}
      → StandsFor p c
      → Matches pattern text
      → Matches (p ∷ pattern) (c ∷ text)

-- The keys of an env: its guid, and what its guid matches with a colon and more behind it.
abbrev pub IsKeyOf : Text → EnvRow → Type 0
IsKeyOf key row =
    (key ≡ row.guid)
    ⊎ ((s : Text) × (rest : Text) × (key ≡ s ++ (b':' ∷ rest)) × Matches row.guid s)

-- The text has a front that the guid matches, and goes on as `q` takes it.
abbrev Fronted : (Text → Bool) → Text → Text → Type 0
Fronted q guid text =
    (s : Text) × (rest : Text) × (text ≡ s ++ rest) × Matches guid s × (q rest ≡ true)

some_suffix-split :
    (f : Text → Bool) (text : Text)
    → some_suffix f text ≡ true
    → (t : Text) × (rest : Text) × (text ≡ t ++ rest) × (f rest ≡ true)
unfolding some_suffix
some_suffix-split f [] h = ([], [], refl, h)
some_suffix-split f (c ∷ text) h = elim (Bool-cases (f (c ∷ text))) [
  | inl here ↦ ([], c ∷ text, refl, here)
  | inr later ↦
      let (t, rest, same, hit) = some_suffix-split f text (ground (arith, h, later)) in
      (c ∷ t, rest, ap (λ (u : Text). c ∷ u) same, hit)
]

stands_for :
    (p c : ℕ) → (p == b'_' || to_ascii_lowercase p == to_ascii_lowercase c) ≡ true → StandsFor p c
stands_for p c h = elim (Bool-cases (p == b'_')) [
  | inl wild ↦ inl (ground (arith, wild))
  | inr plain ↦ inr (ground (arith, h, plain))
]

like-Fronted : (q guid text : Text) → like (guid ++ q) text ≡ true → Fronted (like q) guid text
unfolding like first_matches
like-Fronted q [] text h = ([], text, refl, ends, h)
like-Fronted q (p ∷ guid) text h = elim (Bool-cases (p == b'%')) [
  | inl percent ↦
      let hit : some_suffix (like (guid ++ q)) text ≡ true = ground (arith, h, percent) in
      let (t, more, cut, liked) = some_suffix-split (like (guid ++ q)) text hit in
      let (s, rest, same, matched, on) = like-Fronted q guid more liked in
      let is_percent : b'%' ≡ p = ground (arith, percent) in
      (
        t ++ s,
        rest,
        cut ∙ (ap (λ (u : Text). t ++ u) same ∙ sym (append_assoc t s rest)),
        subst (λ (c : ℕ). Matches (c ∷ guid) (t ++ s)) is_percent (any_text t matched),
        on,
      )
  | inr other ↦ one (λ (u : Text) k. like-Fronted q guid u k) text (ground (arith, h, other))
]
  where
    one :
        ((v : Text) → like (guid ++ q) v ≡ true → Fronted (like q) guid v)
        → (u : Text) → first_matches p (like (guid ++ q)) u ≡ true
        → Fronted (like q) (p ∷ guid) u
    one again [] k = absurd (cc)
    one again (c ∷ u) k =
        let (s, rest, same, matched, on) = again u (ground (arith, k)) in
        (
          c ∷ s,
          rest,
          ap (λ (v : Text). c ∷ v) same,
          one_char (stands_for p c (ground (arith, k))) matched,
          on,
        )

colon_first : (text : Text) → like (lit ":%") text ≡ true → (rest : Text) × (text ≡ b':' ∷ rest)
unfolding like first_matches
colon_first [] h = absurd (cc)
colon_first (c ∷ text) h =
    let same : b':' ≡ c = ground (arith, h) in (text, ap (λ (d : ℕ). d ∷ text) (sym same))

keyed_on-IsKeyOf : (key : Text) (row : EnvRow) → keyed_on key row ≡ true → IsKeyOf key row
unfolding keyed_on
keyed_on-IsKeyOf key row h = elim (Bool-cases (text_eq key row.guid)) [
  | inl same ↦ inl ((text_eq_iff key row.guid).0 same)
  | inr other ↦
      let (s, more, cut, matched, on) =
        like-Fronted (lit ":%") row.guid key (ground (arith, h, other)) in
      let (rest, colon) = colon_first more on in
      inr (s, rest, cut ∙ ap (λ (u : Text). s ++ u) colon, matched)
]

-- No old row has the key.
abbrev pub Unclaimed : ℤ → Text → List EnvRow → Type 0
Unclaimed cutoff key rows = All (λ row. IsOld cutoff row → IsKeyOf key row → ⊥) rows

Unclaimed-any :
    (cutoff : ℤ) (key : Text) (rows : List EnvRow)
    → Unclaimed cutoff key rows
    → any (keyed_on key) (select (prunable cutoff) rows) ≡ false
Unclaimed-any cutoff key [] h = refl
Unclaimed-any cutoff key (row ∷ rows) h =
    let rest = Unclaimed-any cutoff key rows h.1 in
    elim (Bool-cases (prunable cutoff row)) [
      | inr young ↦ rw young rest
      | inl old ↦ elim (Bool-cases (keyed_on key row)) [
        | inr free ↦ rw (old, free) rest
        | inl claimed ↦
            absurd (h.0 ((prunable-IsOld cutoff row).0 old) (keyed_on-IsKeyOf key row claimed))
      ]
    ]

find-select :
    (key : Text) (gone : List EnvRow) (states : List NotifyState)
    → any (keyed_on key) gone ≡ false
    → find (same_key key) (select (λ s. not (any (keyed_on s.guid) gone)) states)
      ≡ find (same_key key) states
find-select key gone [] h = refl
find-select key gone (s ∷ states) h = elim (Bool-cases (same_key key s)) [
  | inl hit ↦
      let same : s.guid ≡ key = (text_eq_iff s.guid key).0 hit in
      let stays : any (keyed_on s.guid) gone ≡ false = rw same h in rw (stays, hit) refl
  | inr miss ↦ elim (Bool-cases (any (keyed_on s.guid) gone)) [
    | inl goes ↦ rw (goes, miss) (find-select key gone states h)
    | inr stays ↦ rw (stays, miss) (find-select key gone states h)
  ]
]

module _ (faults : Faults) (key : Text) (db : Db) where
  -- The state under the key is what it was.
  abbrev pub SameState : Db → Type 0
  SameState d = find (same_key key) d.notify_state ≡ find (same_key key) db.notify_state

  abbrev Whatever : Error → Db → Type 0
  Whatever e d = Unit

  deletions-SameState :
      (cutoff : ℤ)
      → any (keyed_on key) (select (prunable cutoff) db.envs) ≡ false
      → Post
          (λ n. SameState)
          Whatever
          ((statement faults (delete_states cutoff) >> statement faults (delete_envs cutoff))
            (tick db))
  unfolding delete_states delete_envs
  deletions-SameState cutoff h =
      bind-Post (λ u. SameState) (λ n. SameState) Whatever (statement faults (delete_states cutoff))
        (λ u. statement faults (delete_envs cutoff)) (tick db)
        (statement-Post (λ u. SameState) Whatever faults (delete_states cutoff) (tick db) (λ e. tt)
          (find-select key (select (prunable cutoff) db.envs) db.notify_state h))
        (λ u d same.
          statement-Post (λ n. SameState) Whatever faults (delete_envs cutoff) d (λ e. tt) same)

  -- A notify state whose key is not one of any row that is reaped or vanished and was made before the
  -- cutoff, neither that row's guid nor a text that the guid matches with a colon and more behind it,
  -- is found after `prune_terminal` as it was before, also if that fails.
  pub prune_terminal-SameState :
      (now_unix retention_secs : ℤ)
      → Unclaimed (sub_i64 now_unix retention_secs) key db.envs
      → Post (λ n. SameState) (λ e. SameState) (prune_terminal faults now_unix retention_secs db)
  unfolding prune_terminal
  prune_terminal-SameState now_unix retention_secs h =
      let cutoff : ℤ = sub_i64 now_unix retention_secs in
      transaction-Post _ _ faults (λ (n : ℕ). SameState)
        (statement faults (delete_states cutoff) >> statement faults (delete_envs cutoff)) db
        (λ e after. refl) (deletions-SameState cutoff (Unclaimed-any cutoff key db.envs h))
        (λ n after same. same)
