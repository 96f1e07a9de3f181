-- ===== src/Front/Ack/Keys.antt =====
-- How the loop of `ack` over its keys leaves the notify states: crates/seadog/src/verbs/ack.rs.
use seadog.Prelude.{
  ◌≡◌, ◌≢◌, refl, sym, ap, subst, ◌∙◌, inl, inr, true, List, [], ◌∷◌, Option, none, some, find, any,
  select, All, Text, text_eq, text_eq_iff, arith, Bool-cases,
}
use seadog.Core.Failure.{running, running-Post}
use seadog.Core.Models.{NotifyState}
use seadog.Core.Post.{Post, Post-map, bind-Post}
use seadog.Core.Sql.{Db, Faults, tick}
use seadog.Core.Rows.{same_key, upsert}
use seadog.Core.Store.{get_notify_state, put_notify_state}
use seadog.Core.Store.Upsert.{
  unkeyed, select-upsert, find-upsert, find-upsert-other, find-guid, put_notify_state-Post,
  get_notify_state-Post,
}
use seadog.Front.Context.{Ctx}
use seadog.Front.Ack.{acked_state, ack_key, ack_keys}

-- The state that is found under the key is acknowledged by that owner.
pub record Silenced (owner : Text) (d : Db) (key : Text) : Type 0 where
  pub state : NotifyState
  pub found : find (same_key key) d.notify_state ≡ some state
  pub acked : state.acked ≡ true
  pub by : state.acked_by ≡ some owner

-- The rows are as before, and so are the states under other keys, in their order.
pub record Spared (keys : List Text) (db d : Db) : Type 0 where
  pub rows : d.envs ≡ db.envs
  pub others : select (unkeyed keys) d.notify_state ≡ select (unkeyed keys) db.notify_state

module _ (faults : Faults) (ctx : Ctx) (env_id owner : Text) (all_keys : List Text) where
  acked_state-guid :
      (key : Text) (prior : Option NotifyState) (states : List NotifyState)
      → prior ≡ find (same_key key) states
      → (acked_state faults ctx env_id owner key prior).guid ≡ key
  unfolding acked_state
  acked_state-guid key none states h = refl
  acked_state-guid key (some s) states h = find-guid key states s (sym h)

  acked_state-acked :
      (key : Text) (prior : Option NotifyState)
      → ((acked_state faults ctx env_id owner key prior).acked ≡ true)
        × ((acked_state faults ctx env_id owner key prior).acked_by ≡ some owner)
  unfolding acked_state
  acked_state-acked key none = (refl, refl)
  acked_state-acked key (some s) = (refl, refl)

  -- One key: it is silenced, and a key that was silenced stays so.
  abbrev Done : List Text → Db → Db → Type 0
  Done keys db d =
      All (Silenced owner d) keys
      × ((key : Text) → Silenced owner db key → Silenced owner d key)
      × Spared all_keys db d

  put :
      (key : Text) (s : NotifyState) (db d : Db)
      → any (text_eq key) all_keys ≡ true
      → s.guid ≡ key
      → (s.acked ≡ true) × (s.acked_by ≡ some owner)
      → (d.envs ≡ db.envs) × (d.notify_state ≡ upsert s db.notify_state)
      → Done (key ∷ []) db d
  put key s db d keyed same (is_acked, by) (rows, states) = (
    (here, tt),
    keeps,
    record {
      rows = rows;
      others =
          ap (select (unkeyed all_keys)) states
          ∙ select-upsert all_keys s db.notify_state
              (subst (λ g. any (text_eq g) all_keys ≡ true) (sym same) keyed);
    },
  )
    where
      here : Silenced owner d key
      here = record {
        state = s;
        found = rw states (
            subst (λ k. find (same_key k) (upsert s db.notify_state) ≡ some s) same
              (find-upsert s db.notify_state));
        acked = is_acked;
        by = by;
      }

      others :
          (k : Text)
          → k ≢ key
          → find (same_key k) d.notify_state ≡ find (same_key k) db.notify_state
      others k differs = rw states (find-upsert-other k s db.notify_state (λ e. differs (e ∙ same)))

      keeps : (k : Text) → Silenced owner db k → Silenced owner d k
      keeps k before = elim (Bool-cases (text_eq k key)) [
        | inl hit ↦ subst (Silenced owner d) (sym ((text_eq_iff k key).0 hit)) here
        | inr miss ↦ record {
          state = before.state;
          found = others k (λ e. ground (arith, miss, text_eq_iff k key, e)) ∙ before.found;
          acked = before.acked;
          by = before.by;
        }
      ]

  ack_key-Done :
      (key : Text) (db : Db)
      → any (text_eq key) all_keys ≡ true
      → Post
          (λ u. Done (key ∷ []) db)
          (λ e. Spared all_keys db)
          (ack_key faults ctx env_id owner key db)
  unfolding ack_key
  ack_key-Done key db keyed =
      bind-Post (λ prior d. (d ≡ tick db) × (prior ≡ find (same_key key) db.notify_state))
        (λ u. Done (key ∷ []) db) (λ e. Spared all_keys db) (running (get_notify_state faults key))
        (λ prior. running (put_notify_state faults (acked_state faults ctx env_id owner key prior)))
        db
        (running-Post _ (λ e. Spared all_keys db) (get_notify_state faults key) db
          (Post-map _ (λ prior d. (d ≡ tick db) × (prior ≡ find (same_key key) db.notify_state)) _
            (λ e. Spared all_keys db) _ (λ prior d h. h) (λ e d same. rw same spared)
            (get_notify_state-Post faults db key)))
        (λ prior d (same, read).
          running-Post (λ u. Done (key ∷ []) db) (λ e. Spared all_keys db)
            (put_notify_state faults (acked_state faults ctx env_id owner key prior)) d
            (Post-map _ (λ u. Done (key ∷ []) db) _ (λ e. Spared all_keys db) _
              (λ u d' written.
                put key (acked_state faults ctx env_id owner key prior) db d' keyed
                  (acked_state-guid key prior db.notify_state read) (acked_state-acked key prior)
                  (
                    ap (λ (x : Db). x.envs) written ∙ ap (λ (x : Db). x.envs) same,
                    ap (λ (x : Db). x.notify_state) written
                        ∙ ap
                            (λ (x : Db).
                              upsert (acked_state faults ctx env_id owner key prior) x.notify_state)
                            same,
                  ))
              (λ e d' ticked. record {
                rows = ap (λ (x : Db). x.envs) ticked ∙ ap (λ (x : Db). x.envs) same;
                others =
                    ap (λ (x : Db). select (unkeyed all_keys) x.notify_state) ticked
                    ∙ ap (λ (x : Db). select (unkeyed all_keys) x.notify_state) same;
              })
              (put_notify_state-Post faults d (acked_state faults ctx env_id owner key prior))))
    where
      spared : Spared all_keys db (tick db)
      spared = record { rows = refl; others = refl }

  Spared-trans :
      (db d d' : Db) → Spared all_keys db d → Spared all_keys d d' → Spared all_keys db d'
  Spared-trans db d d' first next = record {
    rows = next.rows ∙ first.rows;
    others = next.others ∙ first.others;
  }

  pub ack_keys-Done :
      (keys : List Text) (db : Db)
      → All (λ k. any (text_eq k) all_keys ≡ true) keys
      → Post
          (λ u. Done keys db)
          (λ e. Spared all_keys db)
          (ack_keys faults ctx env_id owner keys db)
  unfolding ack_keys
  ack_keys-Done [] db keyed = (tt, λ k h. h, record { rows = refl; others = refl })
  ack_keys-Done (key ∷ keys) db (first, keyed) =
      bind-Post (λ u. Done (key ∷ []) db) (λ u. Done (key ∷ keys) db) (λ e. Spared all_keys db)
        (ack_key faults ctx env_id owner key) (λ u. ack_keys faults ctx env_id owner keys) db
        (Post-map _ (λ u. Done (key ∷ []) db) _ (λ e. Spared all_keys db) _ (λ u d h. h)
          (λ e d h. h) (ack_key-Done key db first))
        (λ u d (silenced, keeps, spared).
          Post-map _ (λ u. Done (key ∷ keys) db) _ (λ e. Spared all_keys db) _
            (λ u d' (rest, keeps', spared'). (
              (keeps' key silenced.0, rest),
              λ k h. keeps' k (keeps k h),
              Spared-trans db d d' spared spared',
            ))
            (λ e d'. Spared-trans db d d' spared) (ack_keys-Done keys d keyed))
