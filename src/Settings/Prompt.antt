-- ===== src/Settings/Prompt.antt =====
-- The prompt that a user sets (`set_user_prompt` of app/api/v1/llm_prompt.py).
use event_creator.Prelude.{
  ap, ℕ, ◌≡◌, refl, true, Bool-cases, inl, inr, Option, none, some, List, [], ◌∷◌, ◌++◌, any, ◌==◌,
  ==_iff, arith,
}
use event_creator.Python.Text.{Text}
use event_creator.Python.Exception.{ok}
use event_creator.Database.{LlmPrompt, World}
use event_creator.Database.Actions.{find_where, update_where}
use event_creator.UserSettings.{last_commit}
use event_creator.Settings.{
  find_prompt, get_user_prompt, insert_prompt, rolled_back, set_text, set_created, set_found,
  set_user_prompt,
}

module _ (user_id : ℕ) (prompt_text : Text) where
  -- The user's prompt is the text.
  abbrev HasText : List LlmPrompt → Type 0
  HasText prompts =
      (p : LlmPrompt) × (find_where (λ p. p.user_id == user_id) prompts ≡ some p)
      × (p.prompt_text ≡ prompt_text)

  set-HasText :
      (prompts : List LlmPrompt)
      → any (λ p. p.user_id == user_id) prompts ≡ true
      → HasText (
          update_where
            (λ p. p.user_id == user_id)
            (λ p. record p { prompt_text = prompt_text })
            prompts)
  set-HasText [] h = absurd (cc)
  set-HasText (p ∷ prompts) h = elim (Bool-cases (p.user_id == user_id)) [
    | inl e ↦ (record p { prompt_text = prompt_text }, ground arith, refl)
    | inr e ↦ let (q, found, text) = set-HasText prompts (ground arith) in (q, ground arith, text)
  ]

  found-any :
      (prompts : List LlmPrompt) (p : LlmPrompt)
      → find_where (λ p. p.user_id == user_id) prompts ≡ some p
      → any (λ p. p.user_id == user_id) prompts ≡ true
  found-any [] p h = cc
  found-any (q ∷ prompts) p h = elim (Bool-cases (q.user_id == user_id)) [
    | inl e ↦ ground arith
    | inr e ↦ ground (arith, found-any prompts p)
  ]

  any-last :
      (prompts : List LlmPrompt) (p : LlmPrompt)
      → (p.user_id == user_id) ≡ true
      → any (λ p. p.user_id == user_id) (prompts ++ p ∷ []) ≡ true
  any-last [] p h = ground arith
  any-last (q ∷ prompts) p h = ground (arith, any-last prompts p h)

  last-HasText :
      (prompts : List LlmPrompt)
      → find_where (λ p. p.user_id == user_id) prompts ≡ none
      → HasText (prompts ++ record { user_id = user_id; prompt_text = prompt_text } ∷ [])
  last-HasText [] h = (
    record { user_id = user_id; prompt_text = prompt_text },
    ground (arith, (==_iff user_id user_id).1 refl),
    refl,
  )
  last-HasText (q ∷ prompts) h = elim (Bool-cases (q.user_id == user_id)) [
    | inl e ↦ absurd (ground arith)
    | inr e ↦ let (p, found, text) = last-HasText prompts (ground arith) in (p, ground arith, text)
  ]

  found-HasText :
      (theirs : Option LlmPrompt) (w : World) (before : Option LlmPrompt)
      → find_prompt user_id w ≡ before
      → ((p : LlmPrompt) → theirs ≡ some p → p.user_id ≡ user_id)
      → ((saved : LlmPrompt) × ((set_found theirs user_id prompt_text before w).0 ≡ ok saved)
          × (saved.prompt_text ≡ prompt_text))
        × HasText (set_found theirs user_id prompt_text before w).1.db.prompts
        × (last_commit (set_found theirs user_id prompt_text before w).1
            ≡ (set_found theirs user_id prompt_text before w).1.db)
  unfolding set_found set_created set_text insert_prompt rolled_back last_commit find_prompt
  found-HasText theirs w (some p) e own = (
    (record p { prompt_text = prompt_text }, refl, refl),
    set-HasText w.db.prompts (found-any w.db.prompts p e),
    refl,
  )
  found-HasText none w none e own = (
    (record { user_id = user_id; prompt_text = prompt_text }, refl, refl),
    last-HasText w.db.prompts e,
    refl,
  )
  found-HasText (some p) w none e own = (
    (record p { prompt_text = prompt_text }, refl, refl),
    set-HasText _ (any-last (last_commit w).prompts p ((==_iff p.user_id user_id).1 (own p refl))),
    refl,
  )

-- After a user sets the prompt, whether or not there was one and whether or not another request creates
-- it at the same moment, the user's stored and committed prompt is the text that was set, and the text
-- is the answer.
pub set_user_prompt-HasText :
    (theirs : Option LlmPrompt) (user_id : ℕ) (prompt_text : Text) (w : World)
    → ((p : LlmPrompt) → theirs ≡ some p → p.user_id ≡ user_id)
    → ((set_user_prompt theirs user_id prompt_text w).0 ≡ ok prompt_text)
      × ((p : LlmPrompt) × (find_prompt user_id (set_user_prompt theirs user_id prompt_text w).1
            ≡ some p)
          × (p.prompt_text ≡ prompt_text))
      × (last_commit (set_user_prompt theirs user_id prompt_text w).1
          ≡ (set_user_prompt theirs user_id prompt_text w).1.db)
unfolding set_user_prompt get_user_prompt find_prompt
set_user_prompt-HasText theirs user_id prompt_text w own =
    let ((saved, returned, same), text, seen) =
      found-HasText user_id prompt_text theirs w (find_prompt user_id w) refl own in
    rw (returned, set_user_prompt) (ap ok same, text, seen)
