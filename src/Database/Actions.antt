-- ===== src/Database/Actions.antt =====
-- Actions on the world, and the session calls of the source: `session.commit()`, a read of the clock,
-- rows added, updated and looked up.
use event_creator.Prelude.{
  ◌≡◌, refl, ℕ, ◌+◌, Bool, true, false, Option, none, some, List, [], ◌∷◌, ◌++◌, ◌==◌,
}
use event_creator.Python.Exception.{Result, ok, err}
use event_creator.Database.{ProcessingRun, ProcessingStep, HostUser, Db, World}

abbrev pub M : Type 0 → Type 0
M A = World → Result A × World

abbrev pub continue : {A B : Type 0} → Result A → (A → M B) → M B
continue (ok a) f w = f a w
continue (err e) f w = (err e, w)

infixl 5 ◌>>=◌ ◌>>◌
abbrev pub ◌>>=◌ : {A B : Type 0} → M A → (A → M B) → M B
◌>>=◌ m f w = let (r, w') = m w in continue r f w'

abbrev pub ◌>>◌ : {A B : Type 0} → M A → M B → M B
m >> n = m >>= λ _. n

continued :
    {A B : Type 0} (r : Result A) (f : A → M B) (w : World) {b : B} {final : World}
    → continue r f w ≡ (ok b, final)
    → (a : A) × (r ≡ ok a) × (f a w ≡ (ok b, final))
continued (ok a) f w h = (a, refl, h)
continued (err e) f w h = cc

-- A sequence that returned: its first action returned, and the rest ran from where it stopped.
pub >>=-done :
    {A B : Type 0} (m : M A) (f : A → M B) (w : World) {b : B} {final : World}
    → (m >>= f) w ≡ (ok b, final)
    → (a : A) × ((m w).0 ≡ ok a) × (f a (m w).1 ≡ (ok b, final))
>>=-done m f w h = continued (m w).0 f (m w).1 h

abbrev pub pure : {A : Type 0} → A → M A
pure a w = (ok a, w)

-- A call whose exception is not caught; one whose outcome is inspected.
abbrev pub lift : {A : Type 0} → Result A → M A
lift r w = (r, w)

abbrev pub gets : {A : Type 0} → (World → A) → M A
gets f w = (ok (f w), w)

abbrev pub update_db : (Db → Db) → M (Unit {0})
update_db f w = (ok tt, record w { db = f w.db })

-- `session.commit()`
abbrev pub commit : M (Unit {0})
commit w = (ok tt, record w { committed = w.db ∷ w.committed })

-- `datetime.now(timezone.utc)`, the next reading of the clock.
abbrev pub utcnow : (ℕ → ℕ) → M ℕ
utcnow clock w = (ok (clock w.reads), record w { reads = w.reads + 1 })

-- `uuid.uuid4()`
abbrev pub fresh_id : M ℕ
fresh_id w = (ok w.next_id, record w { next_id = w.next_id + 1 })

module _ {A : Type 0} where
  -- The rows with a key, changed; the first row with a key.
  abbrev pub update_where : (A → Bool) → (A → A) → List A → List A
  update_where p f [] = []
  update_where p f (x ∷ xs) =
      let rest = update_where p f xs in elim (p x) [ true ↦ f x ∷ rest | false ↦ x ∷ rest ]

  abbrev pub find_where : (A → Bool) → List A → Option A
  find_where p [] = none
  find_where p (x ∷ xs) = let rest = find_where p xs in elim (p x) [ true ↦ some x | false ↦ rest ]

-- An attribute of the run with the identifier is set.
abbrev pub set_run : ℕ → (ProcessingRun → ProcessingRun) → M (Unit {0})
set_run run_id f = update_db λ db. record db { runs = update_where (λ r. r.id == run_id) f db.runs }

abbrev pub set_step : ℕ → (ProcessingStep → ProcessingStep) → M (Unit {0})
set_step step_id f =
    update_db λ db. record db { steps = update_where (λ s. s.id == step_id) f db.steps }

abbrev pub add_step : ProcessingStep → M (Unit {0})
add_step row = update_db λ db. record db { steps = db.steps ++ row ∷ [] }

-- `session.get(ProcessingRun, run_id)`, `session.get(HostUser, user_id)`
abbrev pub get_run : ℕ → Db → Option ProcessingRun
get_run run_id db = find_where (λ r. r.id == run_id) db.runs

abbrev pub get_host_user : ℕ → Db → Option HostUser
get_host_user user_id db = find_where (λ u. u.id == user_id) db.users
