-- ===== src/Events/Pages.antt =====
-- The pages of a listing (`list_user_events` of app/api/v1/events.py).
use event_creator.Prelude.{
  ℕ, zero, suc, ◌+◌, ◌-◌, ◌*◌, ◌≤◌, ◌≡◌, refl, sym, ◌∙◌, [], ◌++◌, length, take, filter, arith,
  take-drop, take_all,
}
use event_creator.Events.{
  Table, SortOrder, Filters, Postgres, page_size, conditions, window, list_user_events,
}

page_before : (n : ℕ) → (suc n - 1) * page_size ≡ n * page_size
page_before n = omega arith

page_count : (n : ℕ) → suc n * page_size ≡ n * page_size + page_size
page_count n = omega arith

module _ (database : Postgres) where
  -- The rows of the first pages, one page after another.
  unfoldable pub pages : Table → ℕ → Filters → ℕ → Table
  pages table user_id filters zero = []
  pages table user_id filters (suc n) =
      pages table user_id filters n ++ (list_user_events database table user_id (suc n) filters).0

  pages-take :
      (table : Table) (user_id : ℕ) (filters : Filters) (n : ℕ)
      → pages table user_id filters n
        ≡ take
            (n * page_size)
            (database.order_by filters.sort (filter (conditions database user_id filters) table))
  unfolding pages list_user_events window
  pages-take table user_id filters zero = refl
  pages-take table user_id filters (suc n) =
      let rows =
        database.order_by filters.sort (filter (conditions database user_id filters) table) in
      rw (pages-take table user_id filters n, page_before n, page_count n)
        (sym (take-drop (n * page_size) page_size rows))

  -- Where `ORDER BY` gives the same rows each time and loses none, the pages from the first on, when
  -- they are as many as the total that comes with each of them asks for, are together all the rows
  -- that the filters leave, each once, in that order.
  pub list_user_events-pages :
      (table : Table) (user_id : ℕ) (filters : Filters) (n : ℕ)
      → ((sort : SortOrder) (rows : Table) → length (database.order_by sort rows) ≡ length rows)
      → (list_user_events database table user_id n filters).1 ≤ n * page_size
      → pages table user_id filters n
        ≡ database.order_by filters.sort (filter (conditions database user_id filters) table)
  unfolding list_user_events
  list_user_events-pages table user_id filters n keeps enough =
      let kept = filter (conditions database user_id filters) table in
      let counted = keeps filters.sort kept in
      pages-take table user_id filters n
      ∙ take_all (n * page_size) (database.order_by filters.sort kept)
          (omega (arith, counted, enough))
