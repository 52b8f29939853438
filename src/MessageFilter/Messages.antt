-- ===== src/MessageFilter/Messages.antt =====
-- An export as a header and a list of messages, each a dated line with the lines that continue it:
-- the view of the text that `filter_messages_within_window` of app/core/message_filter.py is about.
use event_creator.Prelude.{
  ℕ, ◌+◌, ◌≤◌, ◌≡◌, refl, ap, Bool, true, false, Option, none, some, List, [], ◌∷◌, ◌++◌, All,
  somes, ltb, arith, if◌then◌else◌,
}
use event_creator.Python.Text.{Text}
use event_creator.Python.Date.{Date, minus_days}
use event_creator.MessageFilter.{latest, in_window, keep_lines}

pub record Message : Type 0 where
  pub first : Text
  pub day : Date
  pub more : List Text

pub record Export : Type 0 where
  pub header : List Text
  pub messages : List Message

-- Lines before the first date are the header, others continue the message above them.
pub export : List Text → List (Option Date) → Export
export [] parsed = record { header = []; messages = [] }
export (line ∷ lines) [] = record { header = []; messages = [] }
export (line ∷ lines) (none ∷ parsed) =
    let e = export lines parsed in record { header = line ∷ e.header; messages = e.messages }
export (line ∷ lines) (some d ∷ parsed) =
    let e = export lines parsed in
    record {
      header = [];
      messages = record { first = line; day = d; more = e.header } ∷ e.messages;
    }

-- The lines of the messages whose day passes the test.
pub lines_where : (Date → Bool) → List Message → List Text
lines_where p [] = []
lines_where p (m ∷ ms) =
    let rest = lines_where p ms in if p m.day then m.first ∷ (m.more ++ rest) else rest

-- The lines of the messages that are less than `window_days` older than the newest.
pub recent : Date → ℕ → List Message → List Text
unfolding lines_where
recent newest window_days = lines_where (λ day. ltb newest (day + window_days))

-- A dated line starts a message, whatever was kept before it.
dated_line :
    (kept keep : Bool) (line : Text) (tail header rest : List Text)
    → tail ≡ (if kept then header else []) ++ rest
    → (elim kept [ true ↦ line ∷ tail | false ↦ tail ])
      ≡ (if keep then [] else []) ++ (if kept then line ∷ (header ++ rest) else rest)
dated_line true true line tail header rest h = ap (λ l. line ∷ l) h
dated_line true false line tail header rest h = ap (λ l. line ∷ l) h
dated_line false true line tail header rest h = h
dated_line false false line tail header rest h = h

pub keep_lines-export :
    (cutoff anchor : Date) (keep : Bool) (lines : List Text) (parsed : List (Option Date))
    → keep_lines cutoff anchor keep lines parsed
      ≡ (if keep then (export lines parsed).header else [])
        ++ lines_where (in_window cutoff anchor) (export lines parsed).messages
unfolding keep_lines export lines_where
keep_lines-export cutoff anchor true [] parsed = refl
keep_lines-export cutoff anchor false [] parsed = refl
keep_lines-export cutoff anchor true (line ∷ lines) [] = refl
keep_lines-export cutoff anchor false (line ∷ lines) [] = refl
keep_lines-export cutoff anchor true (line ∷ lines) (none ∷ parsed) =
    ap (λ l. line ∷ l) (keep_lines-export cutoff anchor true lines parsed)
keep_lines-export cutoff anchor false (line ∷ lines) (none ∷ parsed) =
    keep_lines-export cutoff anchor false lines parsed
keep_lines-export cutoff anchor keep (line ∷ lines) (some d ∷ parsed) =
    let kept = in_window cutoff anchor d in
    dated_line kept keep line (keep_lines cutoff anchor kept lines parsed)
      (export lines parsed).header
      (lines_where (in_window cutoff anchor) (export lines parsed).messages)
      (keep_lines-export cutoff anchor kept lines parsed)

-- Every day of a message is one of the dates that resolved.
pub All-export :
    (P : Date → Type 0) (lines : List Text) (parsed : List (Option Date))
    → All P (somes parsed)
    → All (λ m. P m.day) (export lines parsed).messages
unfolding export
All-export P [] parsed h = tt
All-export P (line ∷ lines) [] h = tt
All-export P (line ∷ lines) (none ∷ parsed) h = All-export P lines parsed h
All-export P (line ∷ lines) (some d ∷ parsed) h = (h.0, All-export P lines parsed h.1)

le-latest : (d : Date) (ds : List Date) → d ≤ latest d ds
unfolding latest
le-latest d [] = omega arith
le-latest d (e ∷ es) = ground (arith, le-latest (if ltb d e then e else d) es)

-- `latest` is the greatest of the dates.
pub latest_max : (d : Date) (ds : List Date) → All (λ e. e ≤ latest d ds) (d ∷ ds)
unfolding latest
latest_max d [] = (omega arith, tt)
latest_max d (e ∷ es) =
    let c = (if ltb d e then e else d) in
    let ih = latest_max c es in (ground (arith, ih.0), (ground (arith, ih.0), ih.1))

-- With the newest date as the anchor the two tests of the window are one sum.
pub recent-eq :
    (newest window_days : ℕ) (cutoff : Date) (ms : List Message)
    → minus_days newest window_days ≡ some cutoff
    → All (λ m. m.day ≤ newest) ms
    → lines_where (in_window cutoff newest) ms ≡ recent newest window_days ms
unfolding minus_days recent
recent-eq newest window_days cutoff [] e h = refl
recent-eq newest window_days cutoff (m ∷ ms) e h =
    ground (arith, recent-eq newest window_days cutoff ms e h.1)
