-- ===== src/Pipeline/Response.antt =====
-- `_parse_events` of app/services/pipeline/runner.py, and the events that it yields
-- (app/schemas/pipeline.py). `json.loads` and pydantic's `model_validate` are the record `Json`.
pub mod Tests
use event_creator.Prelude.{
  ℕ, ◌-◌, Bool, ◌&&◌, ◌||◌, List, [], ◌∷◌, ◌++◌, leb, ◌==◌, if◌then◌else◌, length, take,
}
use event_creator.Python.Text.{Text, lit, starts_with, ends_with, strip}
use event_creator.Python.Json.{
  Value, Items, null, boolean, number, string, array, object, nil, cons,
}
use event_creator.Python.Exception.{Result, ok, err, value_error, ◌>>=◌}

pub record ExtractedEvent : Type 0 where
  pub kind : Text
  pub description : Text
  pub resolved_date : Text
  pub raw_date_text : Text
  pub agreed_by : List Text

pub record Json : Type 0 where
  pub loads : Text → Result Value
  pub model_validate : Value → Result ExtractedEvent

is_alnum : ℕ → Bool
is_alnum c = (leb 0x30 c && leb c 0x39) || (leb 0x41 c && leb c 0x5A) || (leb 0x61 c && leb c 0x7A)

-- `[a-zA-Z0-9]*\n?` consumed: no character that the star takes is a newline, so nothing is given back.
skip_language : Text → Text
unfolding is_alnum
skip_language [] = []
skip_language (c ∷ s) =
    let rest = skip_language s in if is_alnum c then rest else if c == 0x0A then s else c ∷ s

fence : Text
fence = 0x60 ∷ 0x60 ∷ 0x60 ∷ []

-- `re.sub(r"^```[a-zA-Z0-9]*\n?", "", s)` for a text that starts with the fence.
drop_opening : Text → Text
unfolding skip_language
drop_opening (a ∷ b ∷ c ∷ s) = skip_language s
drop_opening s = s

-- `re.sub(r"\n?```$", "", s)`: `$` is the end of the text, or stands before its last newline.
drop_closing : Text → Text
unfolding fence
drop_closing s =
    if ends_with (0x0A ∷ fence) s
    then take (length s - 4) s
    else if ends_with fence s
    then take (length s - 3) s
    else if ends_with (0x0A ∷ (fence ++ 0x0A ∷ [])) s
    then take (length s - 5) s ++ 0x0A ∷ []
    else if ends_with (fence ++ 0x0A ∷ []) s
    then take (length s - 4) s ++ 0x0A ∷ []
    else s

clean : Text → Text
clean raw =
    let cleaned = strip raw in
    if starts_with fence cleaned then strip (drop_closing (drop_opening cleaned)) else cleaned

module _ (json : Json) where
  -- `[ExtractedEvent.model_validate(item) for item in data]`
  validate_items : Items → Result (List ExtractedEvent)
  validate_items nil = ok []
  validate_items (cons item items) = do
    event ← json.model_validate item
    events ← validate_items items
    ok (event ∷ events)

  validate : Value → Result (List ExtractedEvent)
  validate (array items) = validate_items items
  validate _ = err (value_error (lit "expected a JSON array of events"))

  pub parse_events : Text → Result (List ExtractedEvent)
  parse_events raw = do value ← json.loads (clean raw); validate value
