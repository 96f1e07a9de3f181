-- ===== src/Core/Store/Upsert.antt =====
-- What `put_notify_state` and `get_notify_state` of crates/core/src/store.rs leave and read.
use seadog.Prelude.{
  ◌≡◌, ◌≢◌, refl, sym, ap, ◌∙◌, text_eq-≢, if◌then◌else◌, List, [], ◌∷◌, some, Bool, true, not, any,
  select, subst, find, Text, text_eq, text_eq_iff, text_eq_refl, arith, Bool-cases, inl, inr,
}
use seadog.Core.Models.{NotifyState}
use seadog.Core.Post.{Post, statement-Post}
use seadog.Core.Sql.{Db, Faults, tick}
use seadog.Core.Rows.{same_key, upsert}
use seadog.Core.Store.{put_notify_state, get_notify_state}

pub find-upsert :
    (s : NotifyState) (states : List NotifyState)
    → find (same_key s.guid) (upsert s states) ≡ some s
unfolding upsert
find-upsert s [] = rw (text_eq_refl s.guid) refl
find-upsert s (t ∷ states) = elim (Bool-cases (same_key s.guid t)) [
  | inl hit ↦ rw (hit, text_eq_refl s.guid) refl
  | inr miss ↦ rw (miss, miss) (find-upsert s states)
]

pub find-upsert-other :
    (key : Text) (s : NotifyState) (states : List NotifyState)
    → key ≢ s.guid
    → find (same_key key) (upsert s states) ≡ find (same_key key) states
unfolding upsert
find-upsert-other key s [] other = rw (text_eq-≢ s.guid key (λ same. other (sym same))) refl
find-upsert-other key s (t ∷ states) other = elim (Bool-cases (same_key s.guid t)) [
  | inl hit ↦
      rw
        (
          hit,
          text_eq-≢ s.guid key (λ same. other (sym same)),
          text_eq-≢ t.guid key (λ same. other (sym same ∙ (text_eq_iff t.guid s.guid).0 hit)),
        )
        refl
  | inr miss ↦
      rw miss
        (ap (λ r. if same_key key t then some t else r) (find-upsert-other key s states other))
]

-- The states under none of the keys.
abbrev pub unkeyed : List Text → NotifyState → Bool
unkeyed keys s = not (any (text_eq s.guid) keys)

pub select-upsert :
    (keys : List Text) (s : NotifyState) (states : List NotifyState)
    → any (text_eq s.guid) keys ≡ true
    → select (unkeyed keys) (upsert s states) ≡ select (unkeyed keys) states
unfolding upsert
select-upsert keys s [] keyed = rw keyed refl
select-upsert keys s (t ∷ states) keyed = elim (Bool-cases (same_key s.guid t)) [
  | inl hit ↦
      rw
        (
          hit,
          keyed,
          subst (λ g. any (text_eq g) keys ≡ true) (sym ((text_eq_iff t.guid s.guid).0 hit)) keyed,
        )
        refl
  | inr miss ↦
      rw miss
        (ap (λ rest. if unkeyed keys t then t ∷ rest else rest) (select-upsert keys s states keyed))
]

pub find-guid :
    (key : Text) (states : List NotifyState) (s : NotifyState)
    → find (same_key key) states ≡ some s
    → s.guid ≡ key
find-guid key [] s h = cc
find-guid key (t ∷ states) s h = ground (arith, find-guid key states s, text_eq_iff t.guid key)

module _ (faults : Faults) (db : Db) where
  pub put_notify_state-Post :
      (s : NotifyState)
      → Post
          (λ u d.
            d ≡ record db { notify_state = upsert s db.notify_state; statements = d.statements })
          (λ e d. d ≡ tick db)
          (put_notify_state faults s db)
  unfolding put_notify_state
  put_notify_state-Post s = statement-Post _ (λ e d. d ≡ tick db) faults _ db (λ e. refl) refl

  pub get_notify_state-Post :
      (key : Text)
      → Post
          (λ found d. (d ≡ tick db) × (found ≡ find (same_key key) db.notify_state))
          (λ e d. d ≡ tick db)
          (get_notify_state faults key db)
  unfolding get_notify_state
  get_notify_state-Post key =
      statement-Post _ (λ e d. d ≡ tick db) faults _ db (λ e. refl) (refl, refl)
