-- ===== src/MessageFilter/DateOrder.antt =====
-- The day and month order that app/core/message_filter.py infers for a whole file: which exports are
-- read back with the dates that they were written with.
use event_creator.Prelude.{
  ℕ, ◌≤◌, ◌≡◌, refl, ap, ap₂, ◌%◌, Bool, true, false, Option, none, some, List, [], ◌∷◌, All, map,
  count_if, ltb, arith, if◌then◌else◌,
}
use event_creator.Python.Date.{Date, make_date}
use event_creator.MessageFilter.Formats.{LineDate}
use event_creator.MessageFilter.{
  Order, mdy, dmy, votes_dmy, votes_mdy, normalise_year, infer_date_order, resolve,
}

-- The date of a message, with its whole year, before the phone writes it.
pub record Day : Type 0 where
  pub year : ℕ
  pub month : ℕ
  pub day : ℕ

-- `none` is a line that continues a message.
abbrev pub Days : Type 0
Days = List (Option Day)

unfoldable pub written : Order → Option Day → Option LineDate
written order none = none
written mdy (some t) = some (record { a = t.month; b = t.day; year = t.year % 100; iso = false })
written dmy (some t) = some (record { a = t.day; b = t.month; year = t.year % 100; iso = false })

pub true_date : Option Day → Option Date
true_date none = none
true_date (some t) = make_date t.year t.month t.day

pub swapped_date : Option Day → Option Date
swapped_date none = none
swapped_date (some t) = make_date t.year t.day t.month

-- A month of the year, and one of the hundred years that two digits stand for in POSIX.
abbrev pub IsWritable : Option Day → Type 0
IsWritable none = Unit
IsWritable (some t) = (t.month ≤ 12) × (1969 ≤ t.year) × (t.year ≤ 2068)

abbrev pub is_late : Option Day → Bool
is_late none = false
is_late (some t) = ltb 12 t.day

no_dmy_votes : (days : Days) → All IsWritable days → count_if votes_dmy (map (written mdy) days) ≡ 0
unfolding written
no_dmy_votes [] h = refl
no_dmy_votes (none ∷ days) h = no_dmy_votes days h.1
no_dmy_votes (some t ∷ days) h = ground (arith, no_dmy_votes days h.1)

no_mdy_votes : (days : Days) → All IsWritable days → count_if votes_mdy (map (written dmy) days) ≡ 0
unfolding written
no_mdy_votes [] h = refl
no_mdy_votes (none ∷ days) h = no_mdy_votes days h.1
no_mdy_votes (some t ∷ days) h = ground (arith, no_mdy_votes days h.1)

dmy_votes : (days : Days) → count_if votes_dmy (map (written dmy) days) ≡ count_if is_late days
unfolding written
dmy_votes [] = refl
dmy_votes (none ∷ days) = dmy_votes days
dmy_votes (some t ∷ days) = ground (arith, dmy_votes days)

infer-mdy : (days : Days) → All IsWritable days → infer_date_order (map (written mdy) days) ≡ mdy
unfolding infer_date_order
infer-mdy days h = ground (arith, no_dmy_votes days h)

infer-dmy :
    (days : Days)
    → All IsWritable days
    → infer_date_order (map (written dmy) days)
      ≡ (if ltb 0 (count_if is_late days) then dmy else mdy)
unfolding infer_date_order
infer-dmy days h = rw (no_mdy_votes days h, dmy_votes days)

century : (y : ℕ) → 1969 ≤ y → y ≤ 2068 → normalise_year (y % 100) ≡ y
unfolding normalise_year
century y from to = ground arith

resolve-written :
    (order : Order) (days : Days)
    → All IsWritable days
    → map (resolve order) (map (written order) days) ≡ map true_date days
unfolding resolve written true_date
resolve-written order [] h = refl
resolve-written order (none ∷ days) h = ap (λ l. none ∷ l) (resolve-written order days h.1)
resolve-written mdy (some t ∷ days) h =
    ap₂ (λ y l. make_date y t.month t.day ∷ l) (century t.year h.0.1 h.0.2)
      (resolve-written mdy days h.1)
resolve-written dmy (some t ∷ days) h =
    ap₂ (λ y l. make_date y t.month t.day ∷ l) (century t.year h.0.1 h.0.2)
      (resolve-written dmy days h.1)

resolve-swapped :
    (days : Days)
    → All IsWritable days
    → map (resolve mdy) (map (written dmy) days) ≡ map swapped_date days
unfolding resolve written swapped_date
resolve-swapped [] h = refl
resolve-swapped (none ∷ days) h = ap (λ l. none ∷ l) (resolve-swapped days h.1)
resolve-swapped (some t ∷ days) h =
    ap₂ (λ y l. make_date y t.day t.month ∷ l) (century t.year h.0.1 h.0.2)
      (resolve-swapped days h.1)

-- The dates that the filter gives the lines of an export written in the order.
unfoldable pub read_back : Order → Days → List (Option Date)
read_back order days =
    let line_dates = map (written order) days in
    map (resolve (infer_date_order line_dates)) line_dates

-- An export written month first, with months from 1 to 12, is read with its true dates.
pub read_back-mdy : (days : Days) → All IsWritable days → read_back mdy days ≡ map true_date days
unfolding read_back
read_back-mdy days h = rw (infer-mdy days h) (resolve-written mdy days h)

-- An export written day first is read with its true dates if some day is after the 12th; if none is,
-- every date is read with day and month exchanged.
pub read_back-dmy :
    (days : Days)
    → All IsWritable days
    → read_back dmy days
      ≡ (if ltb 0 (count_if is_late days) then map true_date days else map swapped_date days)
unfolding read_back
read_back-dmy days h = rw (infer-dmy days h) (pick (ltb 0 (count_if is_late days)))
  where
    pick :
        (b : Bool)
        → map (resolve (if b then dmy else mdy)) (map (written dmy) days)
          ≡ (if b then map true_date days else map swapped_date days)
    pick true = resolve-written dmy days h
    pick false = resolve-swapped days h
