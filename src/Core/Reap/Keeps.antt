-- ===== src/Core/Reap/Keeps.antt =====
-- The rules by which an invariant of a sweep (crates/core/src/reap.rs) passes through the parts that
-- every branch shares: a call of the store, and the routing of an event.
use seadog.Prelude.{
  ◌≡◌, refl, Text, Bool, true, false, if◌then◌else◌, Option, List, ok, err, Bool-cases, inl, inr,
}
use seadog.Prelude.Int.{ℤ}
use seadog.Core.Errors.{Error, Fallible}
use seadog.Core.Models.{InstanceSignals, NotifyState}
use seadog.Core.Config.{Config}
use seadog.Core.Notify.{Event, event_key, Emission, NotifyDecision, decide}
use seadog.Core.Action.{Action, attempt, ◌>>◌}
use seadog.Core.Sql.{EnvRow, Db, Faults, Sql, statement}
use seadog.Core.Store.{put_notify_state, get_notify_state}
use seadog.Core.Post.{Post, Keeps, Keeps-bind, Holds, Keeps-state, Keeps-statement}
use seadog.Core.Reap.{
  count, count_deferred, lose_quorum, after_teardown, World, SweepOutcome, Sweep, on_db, discard,
  found_state, keep_state, deliver, route, surface_quorum_loss,
}

module _ {S A : Type 0} (I : S → Type 0) (m : Action S A) where
  pub Keeps-attempt : Keeps I m → Keeps I (attempt m)
  Keeps-attempt h s i = Keeps-state I m h s i

pub Keeps-discard :
    {A : Type 0} (I : World → Type 0) (m : Sweep A) → Keeps I m → Keeps I (discard m)
Keeps-discard I m h s i = Keeps-state I m h s i

module _ {A : Type 0} (Q : A → World → Type 0) (E : Error → World → Type 0) (w : World) where
  stored-Post :
      (r : Fallible A × Db)
      → Post (λ a d. Q a (record w { db = d })) (λ e d. E e (record w { db = d })) r
      → Post Q E (let (a, d) = r in (a, record w { db = d }))
  stored-Post (ok a, d) h = h
  stored-Post (err e, d) h = h

  pub on_db-Post :
      (m : Sql A)
      → Post (λ a d. Q a (record w { db = d })) (λ e d. E e (record w { db = d })) (m w.db)
      → Post Q E (on_db m w)
  on_db-Post m h = stored-Post (m w.db) h

pub if-Post :
    {A : Type 0} (I E : World → Type 0) (b : Bool) (r t : Fallible A × World)
    → Post (λ a. I) (λ e. E) r
    → Post (λ a. I) (λ e. E) t
    → Post (λ a. I) (λ e. E) (if b then r else t)
if-Post I E true r t h k = h
if-Post I E false r t h k = k

pub if-Holds :
    {A : Type 0} (I E : World → Type 0) (b : Bool) (m n : Sweep A)
    → Holds I E m
    → Holds I E n
    → Holds I E (if b then m else n)
if-Holds I E true m n h k = h
if-Holds I E false m n h k = k

-- An invariant `I` of the world that holds of the rows by `Q` alone, and of nothing that was sent.
pub record Frame (Q : List EnvRow → Type 0) (I : World → Type 0) : Type 1 where
  pub calls : {A : Type 0} (m : Sql A) → Keeps (λ (d : Db). Q d.envs) m → Keeps I (on_db m)
  pub sends : (w : World) (sent : List Emission) → I w → I (record w { sent = sent })

module _ {Q : List EnvRow → Type 0} {I : World → Type 0} (frame : Frame Q I) (faults : Faults) where
  -- A statement that leaves the rows alone.
  pub query-Keeps :
      {A : Type 0} (body : Sql A)
      → ((d : Db) → Q d.envs → Post (λ a (d' : Db). Q d'.envs) (λ e d'. Q d'.envs) (body d))
      → Keeps I (on_db (statement faults body))
  query-Keeps body h =
      frame.calls (statement faults body)
        (Keeps-statement (λ (d : Db). Q d.envs) (λ db n x. x) faults body h)

  module _ (config : Config) (now_unix : ℤ) where
    keep_state-Keeps :
        (decision : NotifyDecision) → Keeps I (keep_state faults config now_unix decision)
    unfolding keep_state put_notify_state
    keep_state-Keeps decision w i = elim (Bool-cases decision.emit) [
      | inl spoken ↦
          rw (spoken, Post)
            (Keeps-discard I (on_db (put_notify_state faults decision.new_state))
              (query-Keeps _ (λ d q. q)) w i)
      | inr silent ↦ rw (silent, Post) i
    ]

    deliver-Keeps :
        (event : Event) (prior : Fallible (Option NotifyState))
        → Keeps I (deliver faults config now_unix event prior)
    unfolding deliver
    deliver-Keeps event prior w i =
        keep_state-Keeps (decide event (found_state prior) config now_unix) _ (frame.sends w _ i)

    pub route-Keeps : (event : Event) → Keeps I (route faults config now_unix event)
    unfolding route get_notify_state
    route-Keeps event =
        Keeps-bind I (attempt (on_db (get_notify_state faults (event_key event))))
          (deliver faults config now_unix event)
          (Keeps-attempt I (on_db (get_notify_state faults (event_key event)))
            (query-Keeps _ (λ d q. q)))
          (deliver-Keeps event)

-- A frame that survives every count but that of the reaped.
pub record Steady (Q : List EnvRow → Type 0) (I : World → Type 0) : Type 1 where
  pub frame : Frame Q I
  pub counts :
      (w : World) (o : SweepOutcome)
      → o.reaped_count ≡ w.outcome.reaped_count
      → I w
      → I (record w { outcome = o })

module _ {Q : List EnvRow → Type 0} {I : World → Type 0} (steady : Steady Q I)
    (faults : Faults) where
  module _ (config : Config) (now_unix : ℤ) where
    routes : (event : Event) → Keeps I (route faults config now_unix event)
    routes event = route-Keeps steady.frame faults config now_unix event

    -- A count and an event.
    pub counted-Keeps :
        (f : SweepOutcome → SweepOutcome) (event : Event)
        → ((o : SweepOutcome) → (f o).reaped_count ≡ o.reaped_count)
        → Keeps I (count f >> route faults config now_unix event)
    counted-Keeps f event same w i = routes event _ (steady.counts w _ (same w.outcome) i)

    surfaced :
        (msg : Text)
        → Keeps I (surface_quorum_loss faults config now_unix msg >> count (lose_quorum msg))
    unfolding surface_quorum_loss
    surfaced msg =
        Keeps-bind I (surface_quorum_loss faults config now_unix msg) (λ u. count (lose_quorum msg))
          (routes _) (λ u w i. steady.counts w (lose_quorum msg w.outcome) refl i)

    -- What follows a failed teardown.
    pub after_teardown-err-Keeps :
        (sig : InstanceSignals) (guid : Text) (e : Error)
        → Keeps I (after_teardown faults config now_unix sig guid (err e))
    unfolding after_teardown
    after_teardown-err-Keeps sig guid (Error.quorum_lost msg) = surfaced msg
    after_teardown-err-Keeps sig guid (Error.config m) = counted-Keeps count_deferred _ (λ o. refl)
    after_teardown-err-Keeps sig guid (Error.config_validation m) =
        counted-Keeps count_deferred _ (λ o. refl)
    after_teardown-err-Keeps sig guid (Error.store m) = counted-Keeps count_deferred _ (λ o. refl)
    after_teardown-err-Keeps sig guid (Error.not_found m) =
        counted-Keeps count_deferred _ (λ o. refl)
    after_teardown-err-Keeps sig guid (Error.exhausted m) =
        counted-Keeps count_deferred _ (λ o. refl)
    after_teardown-err-Keeps sig guid (Error.validation m) =
        counted-Keeps count_deferred _ (λ o. refl)
    after_teardown-err-Keeps sig guid (Error.kento m) = counted-Keeps count_deferred _ (λ o. refl)
    after_teardown-err-Keeps sig guid (Error.notify m) = counted-Keeps count_deferred _ (λ o. refl)
    after_teardown-err-Keeps sig guid (Error.sqlite m) = counted-Keeps count_deferred _ (λ o. refl)
