-- ===== src/Pipeline/Response/Tests.antt =====
-- `_parse_events` of app/services/pipeline/runner.py on answers with and without a fence.
use event_creator.Prelude.{◌≡◌, refl, [], ◌∷◌, if◌then◌else◌}
use event_creator.Python.Text.{lit, text_eq, strip, starts_with, ends_with, lstrip_while, is_space}
use event_creator.Python.Exception.{ok, err, value_error}
use event_creator.Python.Json.{null, array, object, end, cons, nil}
use event_creator.Pipeline.Response.{
  Json, ExtractedEvent, is_alnum, skip_language, fence, drop_opening, drop_closing, clean,
  validate_items, validate, parse_events,
}

clean_fenced : clean (lit " ```json\n[]\n```\n") ≡ lit "[]"
unfolding clean drop_closing drop_opening skip_language is_alnum fence strip starts_with ends_with
    lstrip_while is_space lit
clean_fenced = refl

clean_plain : clean (lit " [1] ") ≡ lit "[1]"
unfolding clean drop_closing drop_opening skip_language is_alnum fence strip starts_with ends_with
    lstrip_while is_space lit
clean_plain = refl

abbrev call : ExtractedEvent
call = record {
  kind = lit "plan";
  description = lit "Call";
  resolved_date = [];
  raw_date_text = [];
  agreed_by = [];
}

-- Reads `[null]` and nothing else.
abbrev small_json : Json
small_json = record {
  loads = λ t. if text_eq t (lit "[null]") then ok (array (cons null nil)) else ok (object end);
  model_validate = λ v. ok call;
}

parse_events_fenced : parse_events small_json (lit "```\n[null]```") ≡ ok (call ∷ [])
unfolding parse_events validate validate_items clean drop_closing drop_opening skip_language
    is_alnum fence strip starts_with ends_with lstrip_while is_space lit text_eq
parse_events_fenced = refl

parse_events_object :
    parse_events small_json (lit "{}") ≡ err (value_error (lit "expected a JSON array of events"))
unfolding parse_events validate validate_items clean drop_closing drop_opening skip_language
    is_alnum fence strip starts_with ends_with lstrip_while is_space lit text_eq
parse_events_object = refl
