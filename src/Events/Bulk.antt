-- ===== src/Events/Bulk.antt =====
-- The actions on sets of events: `bulk_delete_events` and `bulk_review_events` of
-- app/api/v1/events.py.
use mathlib.Core.Path.{fun_ext}
use event_creator.Prelude.{
  ℕ, ◌≡◌, refl, ap, ap₂, ◌∙◌, Bool, true, false, not, ◌&&◌, Bool-cases, inl, inr, List, [], ◌∷◌,
  map, filter, any, ◌==◌, ==_iff, arith,
}
use event_creator.Database.Actions.{update_where}
use event_creator.Events.{
  Table, mem, dedupe, BulkActionResult, chosen, bulk_result, bulk_delete_events, reviewed_as,
  bulk_review_events,
}

-- Some row of the user has the identifier.
unfoldable pub owns : Table → ℕ → ℕ → Bool
owns table user_id id = any (λ row. row.id == id && row.event.user_id == user_id) table

mem_eq : (i j : ℕ) (ids : List ℕ) → (i == j) ≡ true → mem i ids ≡ mem j ids
mem_eq i j ids e = ap (λ k. mem k ids) ((==_iff i j).0 e)

mem-dedupe :
    (id : ℕ) (seen ids : List ℕ) → mem id (dedupe seen ids) ≡ (mem id ids && not (mem id seen))
unfolding mem dedupe
mem-dedupe id seen [] = refl
mem-dedupe id seen (i ∷ ids) = elim (Bool-cases (i == id)) [
  | inl e ↦ elim (Bool-cases (mem i seen)) [
    | inl s ↦ ground (arith, mem-dedupe id seen ids, mem_eq i id seen)
    | inr s ↦ ground (arith, mem-dedupe id (i ∷ seen) ids, mem_eq i id seen)
  ]
  | inr e ↦ elim (Bool-cases (mem i seen)) [
    | inl s ↦ ground (arith, mem-dedupe id seen ids)
    | inr s ↦ ground (arith, mem-dedupe id (i ∷ seen) ids)
  ]
]

mem-filter : (p : ℕ → Bool) (id : ℕ) (ids : List ℕ) → mem id (filter p ids) ≡ (mem id ids && p id)
unfolding mem
mem-filter p id [] = refl
mem-filter p id (i ∷ ids) = elim (Bool-cases (p i)) [
  | inl e ↦ ground (arith, mem-filter p id ids, ap p {x = i} {y = id})
  | inr e ↦ ground (arith, mem-filter p id ids)
]

mem-chosen :
    (requested : List ℕ) (user_id id : ℕ) (table : Table)
    → mem id (map (λ row. row.id) (filter (chosen requested user_id) table))
      ≡ (mem id requested && owns table user_id id)
unfolding mem chosen owns
mem-chosen requested user_id id [] = ground arith
mem-chosen requested user_id id (row ∷ table) = elim (Bool-cases (row.id == id)) [
  | inl e ↦ ground (arith, mem-chosen requested user_id id table, mem_eq row.id id requested)
  | inr e ↦ ground (arith, mem-chosen requested user_id id table, mem_eq row.id id requested)
]

mem-dedupe_all : (id : ℕ) (ids : List ℕ) → mem id (dedupe [] ids) ≡ mem id ids
unfolding mem
mem-dedupe_all id ids = mem-dedupe id [] ids ∙ ground arith

chosen-dedupe : (ids : List ℕ) (user_id : ℕ) → chosen (dedupe [] ids) user_id ≡ chosen ids user_id
unfolding chosen
chosen-dedupe ids user_id =
    fun_ext λ row. ap (λ b. b && row.event.user_id == user_id) (mem-dedupe_all row.id ids)

-- Each identifier that was asked for is reported once as done or as failed: as done exactly when the
-- user has an event with it. No other identifier is reported.
pub record IsSplit (table : Table) (event_ids : List ℕ) (user_id : ℕ) (result : BulkActionResult)
    : Type 0 where
  pub succeeded :
      (id : ℕ) → mem id result.succeeded_ids ≡ (mem id event_ids && owns table user_id id)
  pub failed :
      (id : ℕ) → mem id result.failed_ids ≡ (mem id event_ids && not (owns table user_id id))

bulk_result-IsSplit :
    (table : Table) (event_ids : List ℕ) (user_id : ℕ)
    → IsSplit table event_ids user_id (bulk_result table (dedupe [] event_ids) user_id)
unfolding bulk_result
bulk_result-IsSplit table event_ids user_id =
    let succeeded : (id : ℕ)
        → mem id (bulk_result table (dedupe [] event_ids) user_id).succeeded_ids
          ≡ (mem id event_ids && owns table user_id id) =
      λ id.
        mem-chosen (dedupe [] event_ids) user_id id table
        ∙ ap (λ b. b && owns table user_id id) (mem-dedupe_all id event_ids) in
    record {
      succeeded = succeeded;
      failed = λ id.
          mem-filter _ id (dedupe [] event_ids)
          ∙ ap₂ (λ a b. a && not b) (mem-dedupe_all id event_ids) (succeeded id)
          ∙ apart (mem id event_ids) (owns table user_id id);
    }
  where
    apart : (a b : Bool) → (a && not (a && b)) ≡ (a && not b)
    apart true b = refl
    apart false b = refl

-- A bulk deletion reports each identifier that was asked for as done exactly when the user has an
-- event with it and as failed otherwise, and leaves exactly the rows that are another user's or were
-- not asked for, however often an identifier is repeated.
pub bulk_delete_events-IsSplit :
    (table : Table) (event_ids : List ℕ) (user_id : ℕ)
    → IsSplit table event_ids user_id (bulk_delete_events table event_ids user_id).0
      × ((bulk_delete_events table event_ids user_id).1
          ≡ filter (λ row. not (mem row.id event_ids && row.event.user_id == user_id)) table)
unfolding bulk_delete_events chosen
bulk_delete_events-IsSplit table event_ids user_id = (
  bulk_result-IsSplit table event_ids user_id,
  ap (λ p. filter (λ row. not (p row)) table) (chosen-dedupe event_ids user_id),
)

-- A bulk review reports in the same way, marks exactly the user's events that were asked for as
-- reviewed, and changes no other row.
pub bulk_review_events-IsSplit :
    (table : Table) (event_ids : List ℕ) (user_id : ℕ)
    → IsSplit table event_ids user_id (bulk_review_events table event_ids user_id).0
      × ((bulk_review_events table event_ids user_id).1
          ≡ update_where
              (λ row. mem row.id event_ids && row.event.user_id == user_id)
              (λ row. record row { event = record row.event { reviewed = true } })
              table)
unfolding bulk_review_events chosen reviewed_as
bulk_review_events-IsSplit table event_ids user_id = (
  bulk_result-IsSplit table event_ids user_id,
  ap (λ p. update_where p (reviewed_as true) table) (chosen-dedupe event_ids user_id),
)
