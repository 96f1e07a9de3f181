-- ===== src/Front/Ack/Quiet.antt =====
-- What `ack` of crates/seadog/src/verbs/ack.rs silences.
use seadog.Prelude.{
  ◌≡◌, refl, ap, subst, ◌⊎◌, inl, inr, not, ◌&&◌, true, false, List, [], ◌∷◌, ◌++◌, Option, none,
  some, ok, find, any, text_eq_refl, All, Bool-cases, Text, lit, text_eq, text_eq_iff, arith,
}
use seadog.Prelude.Int.{ℤ}
use seadog.Core.Failure.{Failure, raise_if-Post}
use seadog.Core.Models.{Env, EnvStatus, flagged, status_eq}
use seadog.Core.Config.{Config}
use seadog.Core.Notify.{Event, event_key, decide}
use seadog.Core.Action.{pure, ◌>>◌}
use seadog.Core.Post.{Post, Post-map, bind-Post}
use seadog.Core.Sql.{Db, Faults, tick}
use seadog.Core.Rows.{has_guid, optional_env, same_key}
use seadog.Core.Store.Lookup.{Recorded, Recorded-Copied}
use seadog.Front.Context.{Ctx}
use seadog.Front.Lookup.{looked_up-Post}
use seadog.Front.Ack.{Acknowledgement, alert_keys, ack_keys, ack_found, ack_run}
use seadog.Front.Ack.Keys.{Silenced, Spared, ack_keys-Done}

abbrev pub alerts_of : Text → List Text
alerts_of guid = (guid ++ lit ":anomaly") ∷ (guid ++ lit ":overdue") ∷ []

-- An event, whatever its detail, is not emitted at any time.
abbrev pub Mute : (Text → Event) → Db → Type 0
Mute event d =
    (detail : Text) (config : Config) (now_unix : ℤ)
    → (decide (event detail) (find (same_key (event_key (event detail))) d.notify_state) config
        now_unix).emit
      ≡ false

Silenced-Mute :
    (event : Text → Event) (owner key : Text) (d : Db)
    → ((detail : Text) → event_key (event detail) ≡ key)
    → Silenced owner d key
    → Mute event d
unfolding decide
Silenced-Mute event owner key d keyed h detail config now_unix =
    rw (keyed detail, h.found) (ground (arith, h.acked))

module _ (ctx : Ctx) (env_id : Text) (db : Db) where
  pub record Acked (r : Acknowledgement) (d : Db) : Type 0 where
    pub env : Env
    pub owner : Text
    pub recorded : Recorded env_id db env
    pub named : ctx.owner ≡ some owner
    pub allowed : (env.owner ≡ owner) ⊎ (env.status ≡ flagged)
    pub answered : r.guid ≡ env_id
    pub silenced : All (Silenced owner d) (alerts_of env_id)
    pub mute_anomaly : Mute (Event.anomaly env_id) d
    pub mute_overdue : Mute (Event.overdue_unreaped env_id) d
    pub spared : Spared (alerts_of env_id) db d

status_eq-flagged : (s : EnvStatus) → status_eq s flagged ≡ true → s ≡ flagged
status_eq-flagged EnvStatus.flagged h = refl
status_eq-flagged s h = ground arith

module _ (faults : Faults) (ctx : Ctx) (env_id : Text) (db : Db) where
  abbrev Q : Acknowledgement → Db → Type 0
  Q = Acked ctx env_id db

  abbrev E : Failure → Db → Type 0
  E e = Spared (alerts_of env_id) db

  untouched : Spared (alerts_of env_id) db (tick db)
  untouched = record { rows = refl; others = refl }

  allowed_lem :
      (env : Env) (owner : Text)
      → (not (text_eq env.owner owner) && not (status_eq env.status flagged)) ≡ false
      → (env.owner ≡ owner) ⊎ (env.status ≡ flagged)
  allowed_lem env owner h = elim (Bool-cases (text_eq env.owner owner)) [
    | inl own ↦ inl ((text_eq_iff env.owner owner).0 own)
    | inr other ↦ inr (status_eq-flagged env.status (ground (arith, h, other)))
  ]

  module _ (owner : Text) (env : Env) (named : ctx.owner ≡ some owner)
      (recorded : Recorded env_id db env)
      (allowed : (env.owner ≡ owner) ⊎ (env.status ≡ flagged)) where
    same_keys : alert_keys env ≡ alerts_of env_id
    same_keys = ap alerts_of (Recorded-Copied env_id db env recorded).2

    acked :
        (d : Db)
        → All (Silenced owner d) (alert_keys env)
        → Spared (alert_keys env) db d
        → Q (record { guid = env.guid; acked = true }) d
    unfolding event_key
    acked d silenced spared =
        let h = subst (All (Silenced owner d)) same_keys silenced in
        record {
          env = env;
          owner = owner;
          recorded = recorded;
          named = named;
          allowed = allowed;
          answered = (Recorded-Copied env_id db env recorded).2;
          silenced = h;
          mute_anomaly =
              Silenced-Mute (Event.anomaly env_id) owner (env_id ++ lit ":anomaly") d
                (λ detail. refl) h.0;
          mute_overdue =
              Silenced-Mute (Event.overdue_unreaped env_id) owner (env_id ++ lit ":overdue") d
                (λ detail. refl) h.1.0;
          spared = subst (λ keys. Spared keys db d) same_keys spared;
        }

    from_tick : (d : Db) → Spared (alert_keys env) (tick db) d → Spared (alert_keys env) db d
    from_tick d h = record { rows = h.rows; others = h.others }

    keyed : All (λ k. any (text_eq k) (alert_keys env) ≡ true) (alert_keys env)
    keyed = (
      ground (arith, text_eq_refl (env.guid ++ lit ":anomaly")),
      (ground (arith, text_eq_refl (env.guid ++ lit ":overdue")), tt),
    )

    acks : Post Q E (
        (ack_keys faults ctx env_id owner (alert_keys env)
            >> pure (record { guid = env.guid; acked = true }))
          (tick db))
    acks =
        bind-Post (λ u. Q (record { guid = env.guid; acked = true })) Q E
          (ack_keys faults ctx env_id owner (alert_keys env))
          (λ u. pure (record { guid = env.guid; acked = true })) (tick db)
          (Post-map _ (λ u. Q (record { guid = env.guid; acked = true })) _ E _
            (λ u d (silenced, keeps, spared). acked d silenced (from_tick d spared))
            (λ e d spared. subst (λ keys. Spared keys db d) same_keys (from_tick d spared))
            (ack_keys-Done faults ctx env_id owner (alert_keys env) (alert_keys env) (tick db)
              keyed))
          (λ u d h. h)

  ack_found-Acked :
      (owner : Text) (found : Option Env)
      → ctx.owner ≡ some owner
      → optional_env (find (has_guid env_id) db.envs) ≡ ok found
      → Post Q E (ack_found faults ctx env_id owner found (tick db))
  unfolding ack_found
  ack_found-Acked owner none named read = untouched
  ack_found-Acked owner (some env) named read =
      raise_if-Post Q E (not (text_eq env.owner owner) && not (status_eq env.status flagged)) _
        (ack_keys faults ctx env_id owner (alert_keys env)
          >> pure (record { guid = env.guid; acked = true }))
        (tick db) (λ bad. untouched)
        (λ good. acks owner env named read (allowed_lem env owner good))

  -- An `ack` that answers is by the env's owner, or of a flagged env, and has left, under the keys of
  -- that env's anomaly and overdue alerts, states that are acknowledged by the caller, so that no
  -- such event is emitted from then on; the rows and the states under other keys stay as they
  -- were, also if the `ack` fails on the way.
  pub ack_run-Acked : Post Q E (ack_run faults ctx env_id db)
  unfolding ack_run
  ack_run-Acked =
      looked_up-Post Q E faults ctx env_id db (ack_found faults ctx env_id)
        (λ e. record { rows = refl; others = refl }) (λ e. untouched) ack_found-Acked
