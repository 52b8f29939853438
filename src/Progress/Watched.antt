-- ===== src/Progress/Watched.antt =====
-- What the browser shows of a run, and when the stream ends (app/services/pipeline/progress.py).
use mathlib.Core.Path.{subst}
use event_creator.Prelude.{
  ℕ, zero, suc, ◌+◌, ◌*◌, ◌≤◌, ◌≡◌, ◌≢◌, refl, ap, sym, ◌∙◌, true, false, Bool-cases, ◌⊎◌, inl, inr,
  Option, none, some, List, [], ◌∷◌, ◌++◌, All, leb, ◌==◌, ==_iff, arith,
}
use event_creator.Python.Text.{Text, text_eq_iff}
use event_creator.Progress.{
  StepView, Statuses, Entries, view_of, build_step_views, Sent, step_changed, run_changed, done,
  Last, latest_status, is_status, send_steps, or_pending_run, send_run, Poll, round, nothing_sent,
  is_terminal_value, rounds, stream_run_progress,
}

-- The page: the statuses that it was sent for its steps, newest first, and the run's.
unfoldable pub page_steps : List Sent → Entries → Entries
page_steps [] page = page
page_steps (step_changed view ∷ sent) page = page_steps sent ((view.number, view.status) ∷ page)
page_steps (run_changed status ∷ sent) page = page_steps sent page
page_steps (done status ∷ sent) page = page_steps sent page

unfoldable pub page_run : List Sent → Option Text → Option Text
page_run [] page = page
page_run (step_changed view ∷ sent) page = page_run sent page
page_run (run_changed status ∷ sent) page = page_run sent (some status)
page_run (done status ∷ sent) page = page_run sent page

page_steps-append :
    (first second : List Sent) (page : Entries)
    → page_steps (first ++ second) page ≡ page_steps second (page_steps first page)
unfolding page_steps
page_steps-append [] second page = refl
page_steps-append (step_changed view ∷ first) second page = page_steps-append first second _
page_steps-append (run_changed status ∷ first) second page = page_steps-append first second page
page_steps-append (done status ∷ first) second page = page_steps-append first second page

page_run-append :
    (first second : List Sent) (page : Option Text)
    → page_run (first ++ second) page ≡ page_run second (page_run first page)
unfolding page_run
page_run-append [] second page = refl
page_run-append (step_changed view ∷ first) second page = page_run-append first second page
page_run-append (run_changed status ∷ first) second page = page_run-append first second _
page_run-append (done status ∷ first) second page = page_run-append first second page

-- The page follows what the stream takes for sent.
page_steps-send_steps :
    (views : List StepView) (last : Entries)
    → page_steps (send_steps views last).1 last ≡ (send_steps views last).0
unfolding page_steps send_steps
page_steps-send_steps [] last = refl
page_steps-send_steps (view ∷ views) last =
    elim (Bool-cases (is_status view.status (latest_status view.number last))) [
      | inl e ↦ rw e (page_steps-send_steps views last)
      | inr e ↦ rw e (page_steps-send_steps views ((view.number, view.status) ∷ last))
    ]

page_run-send_steps :
    (views : List StepView) (last : Entries) (page : Option Text)
    → page_run (send_steps views last).1 page ≡ page
unfolding page_run send_steps
page_run-send_steps [] last page = refl
page_run-send_steps (view ∷ views) last page =
    elim (Bool-cases (is_status view.status (latest_status view.number last))) [
      | inl e ↦ rw e (page_run-send_steps views last page)
      | inr e ↦ rw e (page_run-send_steps views ((view.number, view.status) ∷ last) page)
    ]

is_status-eq :
    (status : Text) (last : Option Text) → is_status status last ≡ true → last ≡ some status
unfolding is_status
is_status-eq status none h = cc
is_status-eq status (some other) h = ap some ((text_eq_iff other status).0 h)

-- A step that no view is about stays as it is.
latest-others :
    (k : ℕ) (views : List StepView) (last : Entries)
    → All (λ v. v.number ≢ k) views
    → latest_status k (send_steps views last).0 ≡ latest_status k last
unfolding send_steps latest_status
latest-others k [] last h = refl
latest-others k (view ∷ views) last h =
    elim (Bool-cases (is_status view.status (latest_status view.number last))) [
      | inl e ↦ rw e (latest-others k views last h.1)
      | inr e ↦ rw e (latest-others k views ((view.number, view.status) ∷ last) h.1 ∙ not_it)
    ]
  where
    not_it : latest_status k ((view.number, view.status) ∷ last) ≡ latest_status k last
    not_it = elim (Bool-cases (view.number == k)) [
      | inl e ↦ absurd (h.0 ((==_iff view.number k).0 e))
      | inr e ↦ rw e refl
    ]

-- No two views are about the same step.
abbrev IsDistinct : List StepView → Type 0
IsDistinct [] = Unit
IsDistinct (view ∷ views) = All (λ v. v.number ≢ view.number) views × IsDistinct views

-- The entries give each view its status.
abbrev pub Shows : Entries → List StepView → Type 0
Shows entries views = All (λ v. latest_status v.number entries ≡ some v.status) views

send_steps-same :
    (view : StepView) (views : List StepView) (last : Entries)
    → is_status view.status (latest_status view.number last) ≡ true
    → (send_steps views last).0 ≡ (send_steps (view ∷ views) last).0
unfolding send_steps
send_steps-same view views last e = rw e refl

send_steps-new :
    (view : StepView) (views : List StepView) (last : Entries)
    → is_status view.status (latest_status view.number last) ≡ false
    → (send_steps views ((view.number, view.status) ∷ last)).0 ≡ (send_steps (view ∷ views) last).0
unfolding send_steps
send_steps-new view views last e = rw e refl

send_steps-Shows :
    (views : List StepView) (last : Entries)
    → IsDistinct views
    → Shows (send_steps views last).0 views
unfolding latest_status
send_steps-Shows [] last h = tt
send_steps-Shows (view ∷ views) last h =
    elim (Bool-cases (is_status view.status (latest_status view.number last))) [
      | inl e ↦
          subst (λ x. Shows x (view ∷ views)) (send_steps-same view views last e)
            (
              latest-others view.number views last h.0
                  ∙ is_status-eq view.status (latest_status view.number last) e,
              send_steps-Shows views last h.1,
            )
      | inr e ↦
          subst (λ x. Shows x (view ∷ views)) (send_steps-new view views last e)
            (
              latest-others view.number views ((view.number, view.status) ∷ last) h.0 ∙ newest,
              send_steps-Shows views ((view.number, view.status) ∷ last) h.1,
            )
    ]
  where
    newest : latest_status view.number ((view.number, view.status) ∷ last) ≡ some view.status
    newest = rw ((==_iff view.number view.number).1 refl) refl

steps-IsDistinct : (statuses : Statuses) → IsDistinct (build_step_views statuses)
unfolding build_step_views view_of
steps-IsDistinct statuses = ground arith

-- What is shown after some events: the seven steps and the run as one poll read them.
pub record IsShown (sent : List Sent) (before : Last) (poll : Poll) : Type 0 where
  pub steps : Shows (page_steps sent before.steps) (build_step_views poll.steps)
  pub run : page_run sent before.run ≡ some (or_pending_run poll.run)

page_run-send_run :
    (status : Text) (last : Option Text) → page_run (send_run status last) last ≡ some status
unfolding page_run send_run
page_run-send_run status last = elim (Bool-cases (is_status status last)) [
  | inl e ↦ rw e (is_status-eq status last e)
  | inr e ↦ rw e refl
]

page_steps-send_run :
    (status : Text) (last : Option Text) (page : Entries)
    → page_steps (send_run status last) page ≡ page
unfolding page_steps send_run
page_steps-send_run status last page = elim (Bool-cases (is_status status last)) [
  | inl e ↦ rw e refl
  | inr e ↦ rw e refl
]

-- A round brings the page to what it read, and the stream knows what the page shows.
round-page :
    (poll : Poll) (last : Last)
    → (page_steps (round poll last).1 last.steps ≡ (round poll last).0.steps)
      × (page_run (round poll last).1 last.run ≡ (round poll last).0.run)
unfolding round
round-page poll last =
    let views = build_step_views poll.steps in
    let run = or_pending_run poll.run in
    (
      page_steps-append (send_steps views last.steps).1 (send_run run last.run) last.steps
          ∙ page_steps-send_run run last.run _
          ∙ page_steps-send_steps views last.steps,
      page_run-append (send_steps views last.steps).1 (send_run run last.run) last.run
          ∙ ap (page_run (send_run run last.run)) (page_run-send_steps views last.steps last.run)
          ∙ page_run-send_run run last.run,
    )

round-Shown : (poll : Poll) (last : Last) → IsShown (round poll last).1 last poll
unfolding round
round-Shown poll last = record {
  steps =
      subst (λ x. Shows x (build_step_views poll.steps)) (sym (round-page poll last).0)
        (send_steps-Shows (build_step_views poll.steps) last.steps (steps-IsDistinct poll.steps));
  run = (round-page poll last).1;
}

Shown-done :
    (sent : List Sent) (last : Last) (poll : Poll) (status : Text)
    → IsShown sent last poll
    → IsShown (sent ++ done status ∷ []) last poll
unfolding page_steps page_run
Shown-done sent last poll status shown = record {
  steps =
      subst (λ x. Shows x (build_step_views poll.steps))
        (sym (page_steps-append sent (done status ∷ []) last.steps)) shown.steps;
  run = page_run-append sent (done status ∷ []) last.run ∙ shown.run;
}

Shown-later :
    (poll later : Poll) (last : Last) (sent : List Sent)
    → IsShown sent (round poll last).0 later
    → IsShown ((round poll last).1 ++ sent) last later
Shown-later poll later last sent shown = record {
  steps =
      subst (λ x. Shows x (build_step_views later.steps))
        (sym (
          page_steps-append (round poll last).1 sent last.steps
          ∙ ap (page_steps sent) (round-page poll last).0))
        shown.steps;
  run =
      page_run-append (round poll last).1 sent last.run
      ∙ ap (page_run sent) (round-page poll last).1
      ∙ shown.run;
}

add_zero : (n : ℕ) → n + 0 ≡ n
add_zero n = omega arith

shifted : (n m : ℕ) → n + 1 + m ≡ n + suc m
shifted n m = omega arith

module _ (polls : ℕ → Poll) (poll_interval max_time : ℕ) where
  -- The events end with a poll after which the run is over or the time is up, and the page shows what
  -- that poll read.
  pub record Ends (k n elapsed : ℕ) (last : Last) (r : Option (List Sent)) : Type 0 where
    pub sent : List Sent
    pub returned : r ≡ some sent
    pub m : ℕ
    pub in_time : m ≤ k
    pub shown : IsShown sent last (polls (n + m))
    pub why :
        (is_terminal_value (or_pending_run (polls (n + m)).run) ≡ true)
        ⊎ (max_time ≤ elapsed + m * poll_interval)

  -- A round after which the run goes on.
  rounds-next :
      (k n elapsed : ℕ) (last : Last) {later : List Sent}
      → is_terminal_value (or_pending_run (polls n).run) ≡ false
      → leb max_time elapsed ≡ false
      → rounds polls poll_interval max_time k
          (n + 1)
          (elapsed + poll_interval)
          (round (polls n) last).0
        ≡ some later
      → rounds polls poll_interval max_time (suc k) n elapsed last
        ≡ some ((round (polls n) last).1 ++ later)
  unfolding rounds
  rounds-next k n elapsed last e t h = rw (e, t, h) refl

  over :
      (k n elapsed : ℕ) (last : Last)
      → is_terminal_value (or_pending_run (polls n).run) ≡ true
      → Ends k n elapsed last (rounds polls poll_interval max_time (suc k) n elapsed last)
  unfolding rounds
  over k n elapsed last e = record {
    sent = (round (polls n) last).1 ++ done (or_pending_run (polls n).run) ∷ [];
    returned = rw e refl;
    m = 0;
    in_time = omega arith;
    shown = rw (add_zero n) (Shown-done _ last (polls n) _ (round-Shown (polls n) last));
    why = inl (rw (add_zero n) e);
  }

  timed_out :
      (k n elapsed : ℕ) (last : Last)
      → is_terminal_value (or_pending_run (polls n).run) ≡ false
      → leb max_time elapsed ≡ true
      → Ends k n elapsed last (rounds polls poll_interval max_time (suc k) n elapsed last)
  unfolding rounds
  timed_out k n elapsed last e t = record {
    sent = (round (polls n) last).1;
    returned = rw (e, t) refl;
    m = 0;
    in_time = omega arith;
    shown = rw (add_zero n) (round-Shown (polls n) last);
    why = inr (ground arith);
  }

  times_suc : (k : ℕ) → suc k * poll_interval ≡ k * poll_interval + poll_interval
  times_suc k = grind arith

  rounds-Ends :
      (k n elapsed : ℕ) (last : Last)
      → max_time ≤ elapsed + k * poll_interval
      → Ends k n elapsed last (rounds polls poll_interval max_time (suc k) n elapsed last)
  rounds-Ends zero n elapsed last h =
      elim (Bool-cases (is_terminal_value (or_pending_run (polls n).run))) [
        | inl e ↦ over zero n elapsed last e
        | inr e ↦ timed_out zero n elapsed last e (ground arith)
      ]
  rounds-Ends (suc k) n elapsed last h =
      elim (Bool-cases (is_terminal_value (or_pending_run (polls n).run))) [
        | inl e ↦ over (suc k) n elapsed last e
        | inr e ↦ elim (Bool-cases (leb max_time elapsed)) [
          | inl t ↦ timed_out (suc k) n elapsed last e t
          | inr t ↦
              let ih =
                rounds-Ends k (n + 1) (elapsed + poll_interval) (round (polls n) last).0
                  (omega (arith, h, times_suc k)) in
              record {
                sent = (round (polls n) last).1 ++ ih.sent;
                returned = rounds-next (suc k) n elapsed last e t ih.returned;
                m = suc ih.m;
                in_time = omega (arith, ih.in_time);
                shown =
                    subst (λ i. IsShown ((round (polls n) last).1 ++ ih.sent) last (polls i))
                      (shifted n ih.m)
                      (Shown-later (polls n) (polls (n + 1 + ih.m)) last ih.sent ih.shown);
                why = elim ih.why [
                  | inl over ↦ inl (
                      subst (λ i. is_terminal_value (or_pending_run (polls i).run) ≡ true)
                        (shifted n ih.m) over)
                  | inr late ↦ inr (omega (arith, late, times_suc ih.m))
                ];
              }
        ]
      ]

-- With enough fuel for the time limit the stream returns. It ends after a poll within that number, when
-- the run was over or the time was up, and the page that follows its events then shows the seven steps
-- and the run exactly as that poll read them.
pub stream_run_progress-Ends :
    (polls : ℕ → Poll) (poll_interval max_time k : ℕ)
    → max_time ≤ k * poll_interval
    → Ends polls poll_interval max_time k 0 0 nothing_sent
        (stream_run_progress polls poll_interval max_time (suc k))
unfolding stream_run_progress
stream_run_progress-Ends polls poll_interval max_time k h =
    rounds-Ends polls poll_interval max_time k 0 0 nothing_sent (omega (arith, h))
