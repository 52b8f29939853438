-- ===== src/Pipeline/Shown.antt =====
-- What the progress page can see of a run: whether the tables show it ended, and whether they hold its
-- finished Notify step; and the rules for actions of app/services/pipeline/runner.py that keep a run
-- from being seen as ended too early.
use event_creator.Prelude.{
  ℕ, ◌≡◌, Bool, true, false, ◌&&◌, none, some, List, [], ◌∷◌, ◌++◌, any, All, ◌==◌, arith,
  if◌then◌else◌,
}
use event_creator.Python.Text.{Text}
use event_creator.Python.Exception.{Result, ok, err}
use event_creator.Database.{RunStatus, StepStatus, ProcessingStep, Db, World}
use event_creator.Database.Actions.{M, continue, ◌>>=◌, lift, get_run, update_where}

unfoldable pub is_terminal : RunStatus → Bool
is_terminal RunStatus.success = true
is_terminal RunStatus.failed = true
is_terminal _ = false

is_success : StepStatus → Bool
is_success StepStatus.success = true
is_success _ = false

-- The run's row says that it ended.
unfoldable pub ended : ℕ → Db → Bool
unfolding is_terminal
ended run_id db = elim (get_run run_id db) [ none ↦ false | some r ↦ is_terminal r.status ]

-- The row of a finished Notify step.
pub is_notified : ℕ → ProcessingStep → Bool
unfolding is_success
is_notified run_id s = s.run_id == run_id && (s.step_number == 7 && is_success s.status)

unfoldable pub notified : ℕ → Db → Bool
notified run_id db = any (is_notified run_id) db.steps

module _ (run_id : ℕ) where
  -- A run that is seen as ended has its Notify step.
  abbrev pub IsSafe : Db → Type 0
  IsSafe db = ended run_id db ≡ true → notified run_id db ≡ true

  abbrev pub AllSafe : World → Type 0
  AllSafe w = All IsSafe w.committed

  pub record IsQuiet (w : World) : Type 0 where
    pub running : ended run_id w.db ≡ false
    pub safe : AllSafe w

  abbrev pub Post : {A : Type 0} → (A → World → Type 0) → Result A → World → Type 0
  Post Q (ok a) w = Q a w
  Post Q (err e) w = AllSafe w

  -- From a world with `P` the action returns with `Q`, or raises with nothing unsafe committed.
  pub record Triple {A : Type 0} (P : World → Type 0) (m : M A) (Q : A → World → Type 0)
      : Type 0 where
    pub at : (w : World) → P w → Post Q (m w).0 (m w).1

  rest :
      {A B : Type 0} (Q : A → World → Type 0) (R : B → World → Type 0) (f : A → M B) (r : Result A)
      (w : World)
      → Post Q r w
      → ((a : A) → Triple (Q a) (f a) R)
      → Post R (continue r f w).0 (continue r f w).1
  rest Q R f (ok a) w h k = (k a).at w h
  rest Q R f (err e) w h k = h

  pub Triple-bind :
      {A B : Type 0} {P : World → Type 0} {R : B → World → Type 0} (Q : A → World → Type 0)
      (m : M A) (f : A → M B)
      → Triple P m Q
      → ((a : A) → Triple (Q a) (f a) R)
      → Triple P (m >>= f) R
  Triple-bind {R = R} Q m f km kf = record { at = λ w h. rest Q R f (m w).0 (m w).1 (km.at w h) kf }

  abbrev pub Quiet : {A : Type 0} → A → World → Type 0
  Quiet _ w = IsQuiet w

  abbrev pub Safe : {A : Type 0} → A → World → Type 0
  Safe _ w = AllSafe w

  -- Quiet before and after; quiet before, and nothing unsafe committed after.
  abbrev pub Keeps : {A : Type 0} → M A → Type 0
  Keeps m = Triple IsQuiet m Quiet

  abbrev pub Ends : {A : Type 0} → M A → Type 0
  Ends m = Triple IsQuiet m Safe

  pub Ends-bind :
      {A B : Type 0} (m : M A) (f : A → M B) → Keeps m → ((a : A) → Ends (f a)) → Ends (m >>= f)
  Ends-bind m f km kf = Triple-bind Quiet m f km kf

  pub Keeps-bind :
      {A B : Type 0} (m : M A) (f : A → M B) → Keeps m → ((a : A) → Keeps (f a)) → Keeps (m >>= f)
  Keeps-bind m f km kf = Triple-bind Quiet m f km kf

  pub Keeps-lift : {A : Type 0} (r : Result A) → Keeps (lift r)
  Keeps-lift (ok a) = record { at = λ w h. h }
  Keeps-lift (err e) = record { at = λ w h. h.safe }

  pub Ends-lift : {A : Type 0} (r : Result A) → Ends (lift r)
  Ends-lift (ok a) = record { at = λ w h. h.safe }
  Ends-lift (err e) = record { at = λ w h. h.safe }

  pub Keeps-cases :
      {A : Type 0} (b : Bool) (m n : M A)
      → Keeps m
      → Keeps n
      → Keeps (elim b [ true ↦ m | false ↦ n ])
  Keeps-cases true m n km kn = km
  Keeps-cases false m n km kn = kn

  pub Ends-if : {A : Type 0} (b : Bool) (m n : M A) → Ends m → Ends n → Ends (if b then m else n)
  Ends-if true m n em en = em
  Ends-if false m n em en = en

  -- The row of the Notify step that has begun under an identifier.
  unfoldable pub is_begun : ℕ → ProcessingStep → Bool
  is_begun id s = s.id == id && (s.run_id == run_id && s.step_number == 7)

  pub record IsNotifying (id : ℕ) (w : World) : Type 0 where
    pub quiet : IsQuiet w
    pub begun : any (is_begun id) w.db.steps ≡ true

  pub record IsNotified (w : World) : Type 0 where
    pub quiet : IsQuiet w
    pub finished : notified run_id w.db ≡ true

  any-append_last :
      (p : ProcessingStep → Bool) (s : ProcessingStep) (steps : List ProcessingStep)
      → p s ≡ true
      → any p (steps ++ s ∷ []) ≡ true
  any-append_last p s [] h = rw h
  any-append_last p s (t ∷ steps) h = ground (arith, any-append_last p s steps h)

  pub begun_last :
      (id : ℕ) (s : ProcessingStep) (steps : List ProcessingStep)
      → is_begun id s ≡ true
      → any (is_begun id) (steps ++ s ∷ []) ≡ true
  begun_last id = any-append_last (is_begun id)

  -- Finishing the begun row with success makes it a notified one.
  pub notified-finish :
      (id : ℕ) (lines : List Text) (completed : ℕ) (steps : List ProcessingStep)
      → any (is_begun id) steps ≡ true
      → any (is_notified run_id) (
          update_where
            (λ s. s.id == id)
            (λ s. record s {
              status = StepStatus.success;
              log_lines = lines;
              completed_at = some completed;
            })
            steps)
        ≡ true
  unfolding is_begun is_notified
  notified-finish id lines completed [] h = cc
  notified-finish id lines completed (s ∷ steps) h =
      ground (arith, notified-finish id lines completed steps)
