-- ===== src/Events/Search.antt =====
-- The search text of a listing (`list_user_events` of app/api/v1/events.py) and PostgreSQL's `ILIKE`.
use mathlib.Core.Path.{fun_ext}
use event_creator.Prelude.{
  ℕ, ◌≡◌, refl, ap, ◌∙◌, Bool, true, false, ◌||◌, ◌&&◌, Bool-cases, inl, inr, [], ◌∷◌, ◌++◌, ◌==◌,
  if◌then◌else◌,
}
use event_creator.Python.Text.{Text}
use event_creator.Events.{Postgres, escaped, like_pattern}

-- Some end of the text, itself and the empty one among them.
unfoldable pub some_end : (Text → Bool) → Text → Bool
some_end p [] = p []
some_end p (d ∷ t) = p (d ∷ t) || some_end p t

-- The documented meaning of a pattern, where `same` compares two characters (without their case, for
-- `ILIKE`): `%` is any text, `_` any character, a backslash takes the next character as it is.
module _ (same : ℕ → ℕ → Bool) where
  unfoldable pub next_is : ℕ → (Text → Bool) → Text → Bool
  next_is c p [] = false
  next_is c p (d ∷ t) = same c d && p t

  unfoldable pub any_next : (Text → Bool) → Text → Bool
  any_next p [] = false
  any_next p (d ∷ t) = p t

  unfoldable pub is_empty : Text → Bool
  is_empty [] = true
  is_empty (d ∷ t) = false

  -- `true` for a character after a backslash.
  unfoldable pub like_from : Bool → Text → Text → Bool
  unfolding next_is any_next is_empty some_end
  like_from after [] = is_empty
  like_from true (c ∷ pattern) = next_is c (like_from false pattern)
  like_from false (c ∷ pattern) =
      let rest = like_from false pattern in
      let quoted = like_from true pattern in
      if c == 0x5C
      then quoted
      else if c == 0x25
      then some_end rest
      else if c == 0x5F
      then any_next rest
      else next_is c rest

  unfoldable pub like : Text → Text → Bool
  like = like_from false

  -- The text starts with the searched text; it contains it.
  unfoldable pub starts : Text → Text → Bool
  starts [] t = true
  starts (c ∷ s) [] = false
  starts (c ∷ s) (d ∷ t) = same c d && starts s t

  unfoldable pub contains_same : Text → Text → Bool
  unfolding some_end
  contains_same s = some_end (starts s)

  some_end-is_empty : (t : Text) → some_end is_empty t ≡ true
  unfolding some_end is_empty
  some_end-is_empty [] = refl
  some_end-is_empty (d ∷ t) = some_end-is_empty t

  -- A character of the searched text, escaped or not, stands for itself.
  like-character :
      (c : ℕ) (s t : Text)
      → like (escaped (c ∷ s) ++ 0x25 ∷ []) t ≡ next_is c (like (escaped s ++ 0x25 ∷ [])) t
  unfolding like like_from escaped
  like-character c s t = elim (Bool-cases (c == 0x5C)) [
    | inl e ↦ rw e refl
    | inr e ↦ elim (Bool-cases (c == 0x25)) [
      | inl f ↦ rw (e, f) refl
      | inr f ↦ elim (Bool-cases (c == 0x5F)) [
        | inl g ↦ rw (e, f, g) refl
        | inr g ↦ rw (e, f, g, e, f, g) refl
      ]
    ]
  ]

  like-escaped : (s t : Text) → like (escaped s ++ 0x25 ∷ []) t ≡ starts s t
  unfolding like like_from escaped starts next_is
  like-escaped [] t = some_end-is_empty t
  like-escaped (c ∷ s) [] = like-character c s []
  like-escaped (c ∷ s) (d ∷ t) =
      like-character c s (d ∷ t) ∙ ap (λ b. same c d && b) (like-escaped s t)

  -- Where `ILIKE` has its documented meaning, the pattern that a listing builds from a search text
  -- matches exactly the texts that contain the search text, whatever metacharacters are in it: none of
  -- them acts as a wildcard or ends an escape.
  pub like_pattern-contains :
      (database : Postgres)
      → ((pattern t : Text) → database.ilike pattern t ≡ like pattern t)
      → (search t : Text) → database.ilike (like_pattern search) t ≡ contains_same search t
  unfolding like_pattern like like_from contains_same
  like_pattern-contains database documented search t =
      documented (like_pattern search) t ∙ ap (λ p. some_end p t) (fun_ext (like-escaped search))
