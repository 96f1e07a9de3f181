-- ===== src/Front/Lookup.antt =====
-- The start that the verbs on one env share: the owner, then the row (crates/seadog/src/verbs).
use seadog.Prelude.{◌≡◌, sym, ap, subst, Option, some, ok, find, ok_or-eq-ok, Text}
use seadog.Core.Failure.{Failure, running, running-Post, lift-Post}
use seadog.Core.Models.{Env}
use seadog.Core.Reap.Routing.{World, on_db}
use seadog.Core.Reap.Keeps.{on_db-Post}
use seadog.Core.Action.{Acting, lift, ◌>>=◌}
use seadog.Core.Post.{Post, Post-map, bind-Post}
use seadog.Core.Sql.{Db, Faults, tick}
use seadog.Core.Rows.{has_guid, optional_env}
use seadog.Core.Store.{get_env}
use seadog.Core.Store.Lookup.{get_env-Post}
use seadog.Front.Context.{Ctx, Verb, require_owner}

module _ {B : Type 0} (Q : B → Db → Type 0) (E : Failure → Db → Type 0) (faults : Faults)
    (ctx : Ctx) (env_id : Text) (db : Db) where
  abbrev Looked : Option Env → Db → Type 0
  Looked found d = (d ≡ tick db) × (optional_env (find (has_guid env_id) db.envs) ≡ ok found)

  looks : ((e : Failure) → E e (tick db)) → Post Looked E (running (get_env faults env_id) db)
  looks stops = running-Post Looked E (get_env faults env_id) db (
      Post-map Looked Looked (λ e d. d ≡ tick db) (λ e. E (Failure.core e)) _ (λ found d h. h)
        (λ e d same. subst (E (Failure.core e)) (sym same) (stops (Failure.core e)))
        (get_env-Post faults env_id db))

  pub looked_up-Post :
      (next : Text → Option Env → Verb B)
      → ((e : Failure) → E e db)
      → ((e : Failure) → E e (tick db))
      → ((owner : Text) (found : Option Env)
          → ctx.owner ≡ some owner
          → optional_env (find (has_guid env_id) db.envs) ≡ ok found
          → Post Q E (next owner found (tick db)))
      → Post Q E (
          (lift (require_owner ctx) >>= λ owner. running (get_env faults env_id) >>= next owner) db)
  unfolding require_owner
  looked_up-Post next nobody stops goes =
      lift-Post Q E (require_owner ctx) (λ owner. running (get_env faults env_id) >>= next owner) db
        (λ e bad. nobody e)
        (λ owner named.
          bind-Post Looked Q E (running (get_env faults env_id)) (next owner) db (looks stops)
            (λ found d (same, read).
              subst (λ d. Post Q E (next owner found d)) (sym same)
                (goes owner found (ok_or-eq-ok _ ctx.owner named) read)))

-- The same on a world.
module _ {B : Type 0} (Q : B → World → Type 0) (E : Failure → World → Type 0) (faults : Faults)
    (ctx : Ctx) (env_id : Text) (w : World) where
  abbrev w1 : World
  w1 = record w { db = tick w.db }

  abbrev Seen : Option Env → World → Type 0
  Seen found w' = (w' ≡ w1) × (optional_env (find (has_guid env_id) w.db.envs) ≡ ok found)

  sees : ((e : Failure) → E e w1) → Post Seen E (running (on_db (get_env faults env_id)) w)
  sees stops = running-Post Seen E (on_db (get_env faults env_id)) w (
      on_db-Post Seen (λ e. E (Failure.core e)) w (get_env faults env_id)
        (Post-map _ (λ found d. Seen found (record w { db = d })) _
          (λ e d. E (Failure.core e) (record w { db = d })) (get_env faults env_id w.db)
          (λ found d (same, read). (ap (λ d. record w { db = d }) same, read))
          (λ e d same.
            subst (λ d. E (Failure.core e) (record w { db = d })) (sym same)
              (stops (Failure.core e)))
          (get_env-Post faults env_id w.db)))

  pub world_looked_up-Post :
      (next : Text → Option Env → Acting Failure World B)
      → ((e : Failure) → E e w)
      → ((e : Failure) → E e w1)
      → ((owner : Text) (found : Option Env)
          → ctx.owner ≡ some owner
          → optional_env (find (has_guid env_id) w.db.envs) ≡ ok found
          → Post Q E (next owner found w1))
      → Post Q E (
          (lift (require_owner ctx) >>= λ owner.
          running (on_db (get_env faults env_id)) >>= next owner)
            w)
  unfolding require_owner
  world_looked_up-Post next nobody stops goes =
      lift-Post Q E (require_owner ctx)
        (λ owner. running (on_db (get_env faults env_id)) >>= next owner) w (λ e bad. nobody e)
        (λ owner named.
          bind-Post Seen Q E (running (on_db (get_env faults env_id))) (next owner) w (sees stops)
            (λ found w' (same, read).
              subst (λ w'. Post Q E (next owner found w')) (sym same)
                (goes owner found (ok_or-eq-ok _ ctx.owner named) read)))
