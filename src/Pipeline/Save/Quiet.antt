-- ===== src/Pipeline/Save/Quiet.antt =====
-- `_deduplicate_and_save` of app/services/pipeline/runner.py does not end a run.
use event_creator.Prelude.{ℕ, ◌+◌, Bool, true, false, Option, List, [], ◌∷◌, ◌++◌, if◌then◌else◌}
use event_creator.Python.Date.{Date}
use event_creator.Python.Exception.{Result, ok, err}
use event_creator.DateParser.{parse_earliest_date}
use event_creator.Database.{World}
use event_creator.Database.Actions.{gets, lift, pure}
use event_creator.Pipeline.Response.{ExtractedEvent}
use event_creator.Pipeline.Shown.{
  ended, IsQuiet, Post, Quiet, Keeps, Keeps-bind, Keeps-cases, Keeps-lift,
}
use event_creator.Pipeline.Steps.{Collaborators, Job}
use event_creator.Pipeline.Save.{
  Key, key_of, mem_key, stored, event_row, integrity_error, add_event, save_events,
  deduplicate_and_save,
}

module _ (env : Collaborators) (job : Job) where
  add_event-Keeps : (e : ExtractedEvent) (d : Option Date) → Keeps job.run_id (add_event job e d)
  unfolding add_event ended
  add_event-Keeps e d = record { at = λ w h. added (stored job.user_id (key_of e) w.db.events) w h }
    where
      added :
          (b : Bool) (w : World)
          → IsQuiet job.run_id w
          → let r : Result (Unit {0}) × World =
              (if b then (err integrity_error, w) else (
                ok tt,
                record w { db = record w.db { events = w.db.events ++ event_row job e d ∷ [] } },
              )) in
            Post job.run_id (Quiet job.run_id) r.0 r.1
      added true w h = h.safe
      added false w h = record { running = h.running; safe = h.safe }

  Keeps-pure : {A : Type 0} (a : A) → Keeps job.run_id (pure a)
  Keeps-pure a = record { at = λ w h. h }

  Keeps-gets : {A : Type 0} (f : World → A) → Keeps job.run_id (gets f)
  Keeps-gets f = record { at = λ w h. h }

  save_events-Keeps :
      (seen : List Key) (n : ℕ) (events : List ExtractedEvent)
      → Keeps job.run_id (save_events env job seen n events)
  unfolding save_events
  save_events-Keeps seen n [] = Keeps-pure n
  save_events-Keeps seen n (e ∷ events) =
      Keeps-cases job.run_id (mem_key (key_of e) seen) _ _ (save_events-Keeps seen n events) (
        Keeps-bind job.run_id (gets (λ w. stored job.user_id (key_of e) w.db.events)) _
          (Keeps-gets (λ w. stored job.user_id (key_of e) w.db.events))
          λ already_exists.
            Keeps-cases job.run_id already_exists _ _ (save_events-Keeps (key_of e ∷ seen) n events)
              (Keeps-bind job.run_id (lift (parse_earliest_date env.dates e.resolved_date)) _
                (Keeps-lift job.run_id (parse_earliest_date env.dates e.resolved_date))
                λ earliest.
                  Keeps-bind job.run_id (add_event job e earliest) _ (add_event-Keeps e earliest)
                    λ _. save_events-Keeps (key_of e ∷ seen) (n + 1) events))

  pub deduplicate_and_save-Keeps :
      (events : List ExtractedEvent) → Keeps job.run_id (deduplicate_and_save env job events)
  unfolding deduplicate_and_save
  deduplicate_and_save-Keeps events = save_events-Keeps [] 0 events
