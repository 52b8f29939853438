-- ===== src/Events/Answers.antt =====
-- When a page of events can be answered (`to_event_read` of app/api/v1/events.py and
-- app/core/calendar_url.py).
use event_creator.Prelude.{
  ◌+◌, ◌<◌, ◌≡◌, refl, ap, true, Bool-cases, inl, inr, Option, none, some, List, [], ◌∷◌, All,
  length, leb, arith,
}
use event_creator.Python.Text.{Text}
use event_creator.Python.Date.{Date}
use event_creator.Python.Exception.{Result, ok, ◌>>=◌, >>=-eq-ok}
use event_creator.Events.Links.{
  Formats, max_ordinal, dated_url, fromordinal, build_google_calendar_url, build_google_tasks_url,
}
use event_creator.Events.{EventRow, Table, EventRead, to_event_read, to_event_reads}

-- There is a day after the date.
abbrev pub IsLinkable : Option Date → Type 0
IsLinkable none = Unit
IsLinkable (some d) = d < max_ordinal

module _ (formats : Formats) where
  link-IsLinkable :
      (title raw : Text) (names : List Text) (d : Option Date) {url : Option Text}
      → build_google_calendar_url formats title d raw names ≡ ok url
      → IsLinkable d
  unfolding build_google_calendar_url fromordinal
  link-IsLinkable title raw names none h = tt
  link-IsLinkable title raw names (some d) h = elim (Bool-cases (leb (d + 1) max_ordinal)) [
    | inl b ↦ ground arith
    | inr b ↦ let h' = rw (build_google_calendar_url, fromordinal, b) at h in absurd (cc)
  ]

  linked :
      (title raw : Text) (names : List Text) (d : Option Date)
      → IsLinkable d
      → (url : Option Text) × (build_google_calendar_url formats title d raw names ≡ ok url)
  unfolding build_google_calendar_url fromordinal
  linked title raw names none h = (none, refl)
  linked title raw names (some d) h =
      let b : leb (d + 1) max_ordinal ≡ true = ground arith in
      (
        some (dated_url formats title d raw names (d + 1)),
        rw (build_google_calendar_url, fromordinal, b) refl,
      )

  to_event_read-IsLinkable :
      (row : EventRow) {read : EventRead}
      → to_event_read formats row ≡ ok read
      → IsLinkable row.event.resolved_date_earliest
  unfolding to_event_read
  to_event_read-IsLinkable row h =
      let (url, built, _) =
        >>=-eq-ok
          (build_google_calendar_url formats row.event.description row.event.resolved_date_earliest
            row.event.raw_date_text row.event.agreed_by)
          _ h in
      link-IsLinkable row.event.description row.event.raw_date_text row.event.agreed_by
        row.event.resolved_date_earliest built

  to_event_read-answered :
      (row : EventRow)
      → IsLinkable row.event.resolved_date_earliest
      → (read : EventRead) × (to_event_read formats row ≡ ok read)
  unfolding to_event_read
  to_event_read-answered row h =
      let (url, built) =
        linked row.event.description row.event.raw_date_text row.event.agreed_by
          row.event.resolved_date_earliest h in
      (
        _,
        ap
            (λ (r : Result (Option Text)). r >>= λ calendar_url. ok (record {
              row = row;
              calendar_url = calendar_url;
              tasks_url =
                  build_google_tasks_url formats row.event.description
                    row.event.resolved_date_earliest;
            }))
            built,
      )

  -- A page of events is answered, with one entry for each row, exactly when each of its dates has a day
  -- after it: one event on the last date of Python's calendar makes the whole page fail.
  pub to_event_reads-IsLinkable :
      (rows : Table)
      → ((reads : List EventRead)
          → to_event_reads formats rows ≡ ok reads
          → All (λ row. IsLinkable row.event.resolved_date_earliest) rows)
        × (All (λ row. IsLinkable row.event.resolved_date_earliest) rows
            → (reads : List EventRead) × (to_event_reads formats rows ≡ ok reads)
              × (length reads ≡ length rows))
  unfolding to_event_reads
  to_event_reads-IsLinkable [] = (λ reads h. tt, λ h. ([], refl, refl))
  to_event_reads-IsLinkable (row ∷ rows) =
      let (fails, answers) = to_event_reads-IsLinkable rows in
      (
        λ reads h.
            let (read, first, rest) = >>=-eq-ok (to_event_read formats row) _ h in
            let (others, more, _) = >>=-eq-ok (to_event_reads formats rows) _ rest in
            (to_event_read-IsLinkable row first, fails others more),
        λ h.
            let (read, first) = to_event_read-answered row h.0 in
            let (others, more, count) = answers h.1 in
            (read ∷ others, rw (first, more) refl, omega (arith, count)),
      )
