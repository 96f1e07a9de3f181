-- ===== src/Core/Reap/Returned.antt =====
-- What the sweep of crates/core/src/reap.rs returns.
use seadog.Prelude.{◌≡◌, refl, Bool, List, ok, err, Text}
use seadog.Prelude.Int.{ℤ}
use seadog.Core.Errors.{Error, Fallible}
use seadog.Core.Models.{InstanceSignals}
use seadog.Core.Config.{Config}
use seadog.Core.Action.{gets, ◌>>◌}
use seadog.Core.Sql.{Faults}
use seadog.Core.Store.{write_heartbeat}
use seadog.Core.Post.{Post, Post-any, bind-Post}
use seadog.Core.Reap

module _ (faults : Faults) (config : Config) (now_unix : ℤ) (kento : Reap.Kento)
    (is_uuid : Text → Bool) where
  -- What a sweep returns is the outcome that it has counted.
  abbrev pub Returned : Reap.SweepOutcome → Reap.World → Type 0
  Returned o w = o ≡ w.outcome

  abbrev pub Failed : Error → Reap.World → Type 0
  Failed e w = Unit

  finish-Returned : (w : Reap.World) → Post Returned Failed (Reap.finish faults config now_unix w)
  unfolding Reap.finish
  finish-Returned w =
      bind-Post (λ u w'. Unit {0}) Returned Failed (Reap.on_db (write_heartbeat faults now_unix))
        (λ u. gets (λ w'. w'.outcome)) w (Post-any _) (λ u w' h. refl)

  list_failed-Returned :
      (e : Error) (w : Reap.World)
      → Post Returned Failed (Reap.list_failed faults config now_unix e w)
  unfolding Reap.list_failed
  list_failed-Returned (Error.quorum_lost msg) w =
      bind-Post (λ u w'. Unit {0}) Returned Failed
        (Reap.surface_quorum_loss faults config now_unix msg)
        (λ u. Reap.count (Reap.lose_quorum msg) >> Reap.finish faults config now_unix) w
        (Post-any _) (λ u w' h. finish-Returned _)
  list_failed-Returned (Error.config m) w = tt
  list_failed-Returned (Error.config_validation m) w = tt
  list_failed-Returned (Error.store m) w = tt
  list_failed-Returned (Error.not_found m) w = tt
  list_failed-Returned (Error.exhausted m) w = tt
  list_failed-Returned (Error.validation m) w = tt
  list_failed-Returned (Error.kento m) w = tt
  list_failed-Returned (Error.notify m) w = tt
  list_failed-Returned (Error.sqlite m) w = tt

  pub after_list-Returned :
      (listed : Fallible (List InstanceSignals)) (w : Reap.World)
      → Post Returned Failed (Reap.after_list faults config now_unix kento is_uuid listed w)
  unfolding Reap.after_list Reap.visit_all
  after_list-Returned (err e) w = list_failed-Returned e w
  after_list-Returned (ok instances) w =
      bind-Post (λ u w'. Unit {0}) Returned Failed
        (Reap.visit_all faults config now_unix kento is_uuid instances)
        (λ u.
          Reap.vanished_pass faults config now_unix instances >> Reap.finish faults config now_unix)
        w (Post-any _)
        (λ u w' h.
          bind-Post (λ u w'. Unit {0}) Returned Failed
            (Reap.vanished_pass faults config now_unix instances)
            (λ u. Reap.finish faults config now_unix) w' (Post-any _)
            (λ v w'' k. finish-Returned w''))
