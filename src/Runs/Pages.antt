-- ===== src/Runs/Pages.antt =====
-- The pages of a step's log lines (`paginate_log_lines` of app/services/processing_logs.py).
use event_creator.Prelude.{
  ℕ, zero, suc, ◌+◌, ◌-◌, ◌*◌, ◌≤◌, ◌≡◌, refl, sym, ◌∙◌, Option, List, [], ◌++◌, take, take-drop,
  take_all, arith,
}
use event_creator.Python.Text.{Text}
use event_creator.Runs.{Database, log_page_size, filter_log_lines, paginate_log_lines}

-- The lines of the first pages, one page after another.
unfoldable pub log_pages : List Text → ℕ → List Text
log_pages lines zero = []
log_pages lines (suc n) = log_pages lines n ++ (paginate_log_lines lines (suc n)).0

page_before : (n : ℕ) → (suc n - 1) * log_page_size ≡ n * log_page_size
page_before n = omega arith

page_count : (n : ℕ) → suc n * log_page_size ≡ n * log_page_size + log_page_size
page_count n = omega arith

log_pages-take : (lines : List Text) (n : ℕ) → log_pages lines n ≡ take (n * log_page_size) lines
unfolding log_pages paginate_log_lines
log_pages-take lines zero = refl
log_pages-take lines (suc n) =
    rw (log_pages-take lines n, page_before n, page_count n)
      (sym (take-drop (n * log_page_size) log_page_size lines))

-- The pages of the lines that a search finds, from the first on, as many as the total that comes with
-- each of them asks for, are together all lines that the search finds, each once, in their order.
pub paginate_log_lines-pages :
    (database : Database) (log_lines : List Text) (sought : Option Text) (n page : ℕ)
    → (paginate_log_lines (filter_log_lines database log_lines sought) page).1 ≤ n * log_page_size
    → log_pages (filter_log_lines database log_lines sought) n
      ≡ filter_log_lines database log_lines sought
unfolding paginate_log_lines
paginate_log_lines-pages database log_lines sought n page enough =
    log_pages-take (filter_log_lines database log_lines sought) n
    ∙ take_all (n * log_page_size) (filter_log_lines database log_lines sought) enough
