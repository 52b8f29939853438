-- ===== src/Pipeline/Save/Table.antt =====
-- What `_deduplicate_and_save` of app/services/pipeline/runner.py leaves in the events table.
use event_creator.Prelude.{
  ℕ, ◌+◌, ◌≡◌, refl, sym, ap, ap₂, ◌∙◌, inl, inr, true, false, Option, List, [], ◌∷◌, ◌++◌, map,
  length, All, Among, arith, Bool-cases, ==_iff,
}
use mathlib.Core.List.{append_assoc, append-nil}
use event_creator.Python.Text.{Text, text_eq_iff}
use event_creator.Python.Date.{Date}
use event_creator.Python.Exception.{ok}
use event_creator.DateParser.{parse_earliest_date}
use event_creator.Database.{Event, World}
use event_creator.Pipeline.Response.{ExtractedEvent}
use event_creator.Pipeline.Steps.{Collaborators, Job}
use event_creator.Pipeline.Save.{
  Key, key_of, key_eq, mem_key, has_key, stored, event_row, add_event, save_events,
  deduplicate_and_save,
}

key_eq_sound : (a b : Key) → key_eq a b ≡ true → a ≡ b
unfolding key_eq
key_eq_sound a b h = ground (arith, text_eq_iff a.0 b.0, text_eq_iff a.1 b.1)

key_eq_refl : (a : Key) → key_eq a a ≡ true
unfolding key_eq
key_eq_refl a = rw ((text_eq_iff a.0 a.0).1 refl, (text_eq_iff a.1 a.1).1 refl)

mem_key-All :
    (P : Key → Type 0) (k : Key) (seen : List Key) → mem_key k seen ≡ true → All P seen → P k
unfolding mem_key
mem_key-All P k [] m h = cc
mem_key-All P k (j ∷ seen) m h = elim (Bool-cases (key_eq k j)) [
  | inl e ↦ rw (key_eq_sound k j e) h.0
  | inr e ↦ mem_key-All P k seen (ground arith) h.1
]

-- A stored key stays stored under further rows.
stored-append :
    (user_id : ℕ) (key : Key) (rows more : List Event)
    → stored user_id key rows ≡ true
    → stored user_id key (rows ++ more) ≡ true
unfolding stored
stored-append user_id key [] more h = cc
stored-append user_id key (row ∷ rows) more h = ground (arith, stored-append user_id key rows more)

stored_last :
    (user_id : ℕ) (key : Key) (rows : List Event) (row : Event)
    → has_key user_id key row ≡ true
    → stored user_id key (rows ++ row ∷ []) ≡ true
unfolding stored
stored_last user_id key [] row h = rw h
stored_last user_id key (r ∷ rows) row h = ground (arith, stored_last user_id key rows row h)

has_key-event_row :
    (job : Job) (event : ExtractedEvent) (d : Option Date)
    → has_key job.user_id (key_of event) (event_row job event d) ≡ true
unfolding has_key event_row
has_key-event_row job event d =
    rw ((==_iff job.user_id job.user_id).1 refl, key_eq_refl (key_of event))

-- Every row is added under a key that is not stored when it comes: the constraint is never violated.
pub IsNew : ℕ → List Event → List Event → Type 0
IsNew user_id rows [] = Unit
IsNew user_id rows (row ∷ more) =
    (stored user_id (row.description, row.resolved_date) rows ≡ false)
    × IsNew user_id (rows ++ row ∷ []) more

pub with_events : World → List Event → World
with_events w rows = record w { db = record w.db { events = w.db.events ++ rows } }

All-map {ℓ κ κ'} :
    {A : Type ℓ} {P : A → Type κ} {Q : A → Type κ'}
    → ((x : A) → P x → Q x)
    → (xs : List A) → All P xs
    → All Q xs
All-map f [] h = tt
All-map f (x ∷ xs) h = (f x h.0, All-map f xs h.1)

module _ (env : Collaborators) (job : Job) (date : Text → Option Date)
    (parses : (t : Text) → parse_earliest_date env.dates t ≡ ok (date t)) where
  pub row_of : ExtractedEvent → Event
  row_of e = event_row job e (date e.resolved_date)

  -- What the table has gained: one row for each of some of the events.
  pub record IsSaved (events : List ExtractedEvent) (before : List Event)
      (picked : List ExtractedEvent) : Type 0 where
    pub taken : All (λ e. Among e events) picked
    pub new : IsNew job.user_id before (map row_of picked)
    pub complete :
        All (λ e. stored job.user_id (key_of e) (before ++ map row_of picked) ≡ true) events

  save_new :
      (seen : List Key) (n : ℕ) (e : ExtractedEvent) (events : List ExtractedEvent) (w : World)
      → mem_key (key_of e) seen ≡ false
      → stored job.user_id (key_of e) w.db.events ≡ false
      → save_events env job seen n (e ∷ events) w
        ≡ save_events env job (key_of e ∷ seen) (n + 1) events (with_events w (row_of e ∷ []))
  unfolding save_events add_event with_events row_of
  save_new seen n e events w m s = rw (m, save_events, s, parses e.resolved_date, s)

  save_known :
      (seen : List Key) (n : ℕ) (e : ExtractedEvent) (events : List ExtractedEvent) (w : World)
      → mem_key (key_of e) seen ≡ false
      → stored job.user_id (key_of e) w.db.events ≡ true
      → save_events env job seen n (e ∷ events) w ≡ save_events env job (key_of e ∷ seen) n events w
  unfolding save_events
  save_known seen n e events w m s = rw (m, save_events, s)

  save_seen :
      (seen : List Key) (n : ℕ) (e : ExtractedEvent) (events : List ExtractedEvent) (w : World)
      → mem_key (key_of e) seen ≡ true
      → save_events env job seen n (e ∷ events) w ≡ save_events env job seen n events w
  unfolding save_events
  save_seen seen n e events w m = rw (m, save_events)

  -- The loop from any point, where the keys seen so far are stored.
  record Outcome (seen : List Key) (n : ℕ) (events : List ExtractedEvent) (w : World) : Type 0 where
    picked : List ExtractedEvent
    returns :
        save_events env job seen n events w
        ≡ (ok (n + length picked), with_events w (map row_of picked))
    saved : IsSaved events w.db.events picked

  -- An event whose key is stored adds nothing.
  skip :
      (seen seen' : List Key) (n : ℕ) (e : ExtractedEvent) (events : List ExtractedEvent)
      (w : World)
      → save_events env job seen n (e ∷ events) w ≡ save_events env job seen' n events w
      → stored job.user_id (key_of e) w.db.events ≡ true
      → Outcome seen' n events w
      → Outcome seen n (e ∷ events) w
  skip seen seen' n e events w same s o = record {
    picked = o.picked;
    returns = same ∙ o.returns;
    saved = record {
      taken = All-map (λ x a. inr a) o.picked o.saved.taken;
      new = o.saved.new;
      complete = (
        stored-append job.user_id (key_of e) w.db.events (map row_of o.picked) s,
        o.saved.complete,
      );
    };
  }

  add :
      (seen : List Key) (n : ℕ) (e : ExtractedEvent) (events : List ExtractedEvent) (w : World)
      → mem_key (key_of e) seen ≡ false
      → stored job.user_id (key_of e) w.db.events ≡ false
      → Outcome (key_of e ∷ seen) (n + 1) events (with_events w (row_of e ∷ []))
      → Outcome seen n (e ∷ events) w
  unfolding IsNew row_of event_row with_events
  add seen n e events w m s o =
      let regroup = append_assoc w.db.events (row_of e ∷ []) (map row_of o.picked) in
      record {
        picked = e ∷ o.picked;
        returns =
            save_new seen n e events w m s
            ∙ o.returns
            ∙ ap₂ (λ k w'. (ok k, w')) (omega arith)
                (ap (λ l. record w { db = record w.db { events = l } }) regroup);
        saved = record {
          taken = (inl refl, All-map (λ x a. inr a) o.picked o.saved.taken);
          new = (s, o.saved.new);
          complete = (
            rw regroup at (
                stored-append job.user_id (key_of e) (w.db.events ++ row_of e ∷ [])
                  (map row_of o.picked)
                  (stored_last job.user_id (key_of e) w.db.events (row_of e)
                    (has_key-event_row job e (date e.resolved_date)))),
            rw regroup at o.saved.complete,
          );
        };
      }

  outcome :
      (seen : List Key) (n : ℕ) (events : List ExtractedEvent) (w : World)
      → All (λ k. stored job.user_id k w.db.events ≡ true) seen
      → Outcome seen n events w
  unfolding with_events save_events IsNew row_of event_row
  outcome seen n [] w h = record {
    picked = [];
    returns =
        ap₂ (λ k l. (ok k, record w { db = record w.db { events = l } })) (omega arith)
          (sym (append-nil w.db.events));
    saved = record { taken = tt; new = tt; complete = tt };
  }
  outcome seen n (e ∷ events) w h = elim (Bool-cases (mem_key (key_of e) seen)) [
    | inl m ↦
        skip seen seen n e events w (save_seen seen n e events w m)
          (mem_key-All (λ k. stored job.user_id k w.db.events ≡ true) (key_of e) seen m h)
          (outcome seen n events w h)
    | inr m ↦ elim (Bool-cases (stored job.user_id (key_of e) w.db.events)) [
      | inl s ↦
          skip seen (key_of e ∷ seen) n e events w (save_known seen n e events w m s) s
            (outcome (key_of e ∷ seen) n events w (s, h))
      | inr s ↦ add seen n e events w m s (
          outcome (key_of e ∷ seen) (n + 1) events (with_events w (row_of e ∷ [])) (
            stored_last job.user_id (key_of e) w.db.events (row_of e)
                (has_key-event_row job e (date e.resolved_date)),
            All-map (λ k t. stored-append job.user_id k w.db.events (row_of e ∷ []) t) seen h,
          ))
    ]
  ]

  -- With a date parser that returns for every text, the step returns, for any batch and any table. It
  -- appends one row for each of some events of the batch and returns their number; no row comes under
  -- a key that is stored already, so the constraint is never violated; afterwards every event of the
  -- batch is stored; and nothing but the events table changes.
  pub deduplicate_and_save-IsSaved :
      (events : List ExtractedEvent) (w : World)
      → (picked : List ExtractedEvent) × (deduplicate_and_save env job events w
          ≡ (ok (length picked), with_events w (map row_of picked)))
        × IsSaved events w.db.events picked
  unfolding deduplicate_and_save
  deduplicate_and_save-IsSaved events w =
      let o = outcome [] 0 events w tt in
      (
        o.picked,
        o.returns ∙ ap (λ k. (ok k, with_events w (map row_of o.picked))) (omega arith),
        o.saved,
      )
