-- ===== src/Prelude/Lists.antt =====
-- Lists measured by native numbers, under the library's names, and predicates on lists.
use Prim.Native.Nat.{ℕ, zero, suc, ◌+◌, ◌≤◌}
use mathlib.Core.Path.{◌≡◌, refl, sym, ap, ◌∙◌}
use mathlib.Core.Logic.{◌⊎◌, inl, inr}
use mathlib.Core.Bool.{Bool, true, false, ◌||◌, ◌&&◌, false≢true}
use mathlib.Core.List.{List, [], ◌∷◌, ◌++◌}
use mathlib.Core.Option.{Option, none, some}
use native.Mathlib.Omega.{arith}

-- The empty type, at every level.
pub data Empty {ℓ} : Type ℓ where

zero_add : (k : ℕ) → zero + k ≡ k
zero_add k = omega arith

suc_plus : (m k : ℕ) → suc m + k ≡ suc (m + k)
suc_plus m k = omega arith

module _ {ℓ} {A : Type ℓ} where
  abbrev pub length : List A → ℕ
  length [] = 0
  length (x ∷ xs) = suc (length xs)

  abbrev pub take : ℕ → List A → List A
  take zero xs = []
  take (suc n) [] = []
  take (suc n) (x ∷ xs) = x ∷ take n xs

  abbrev pub drop : ℕ → List A → List A
  drop zero xs = xs
  drop (suc n) [] = []
  drop (suc n) (x ∷ xs) = drop n xs

  pub take_nil : (n : ℕ) → take n [] ≡ []
  take_nil zero = refl
  take_nil (suc n) = refl

  -- A list is taken in two parts; a list that is not longer is taken whole.
  pub take-drop : (m k : ℕ) (xs : List A) → take (m + k) xs ≡ take m xs ++ take k (drop m xs)
  take-drop zero k xs = rw (zero_add k) refl
  take-drop (suc m) k [] = rw (suc_plus m k) (sym (take_nil k))
  take-drop (suc m) k (x ∷ xs) = rw (suc_plus m k) (ap (λ l. x ∷ l) (take-drop m k xs))

  pub take_all : (n : ℕ) (xs : List A) → length xs ≤ n → take n xs ≡ xs
  take_all n [] h = take_nil n
  take_all zero (x ∷ xs) h = absurd (omega arith)
  take_all (suc n) (x ∷ xs) h = ap (λ l. x ∷ l) (take_all n xs (omega arith))

  pub length-append : (xs ys : List A) → length (xs ++ ys) ≡ length xs + length ys
  length-append [] ys = omega arith
  length-append (x ∷ xs) ys = omega (arith, length-append xs ys)

  -- The last element.
  abbrev pub last_of : List A → Option A
  last_of [] = none
  last_of (x ∷ []) = some x
  last_of (x ∷ y ∷ xs) = last_of (y ∷ xs)

  pub last_of-append : (xs : List A) (x : A) → last_of (xs ++ x ∷ []) ≡ some x
  last_of-append [] x = refl
  last_of-append (y ∷ []) x = refl
  last_of-append (y ∷ z ∷ xs) x = last_of-append (z ∷ xs) x

  -- Python's `any` and `all` over a test.
  abbrev pub any : (A → Bool) → List A → Bool
  any p [] = false
  any p (x ∷ xs) = p x || any p xs

  abbrev pub all : (A → Bool) → List A → Bool
  all p [] = true
  all p (x ∷ xs) = p x && all p xs

  -- `sum(1 for x in xs if p(x))`
  abbrev pub count_if : (A → Bool) → List A → ℕ
  count_if p [] = 0
  count_if p (x ∷ xs) = let n = count_if p xs in elim (p x) [ true ↦ suc n | false ↦ n ]

  -- `[y for y in map(f, xs) if y is not None]`
  abbrev pub somes : List (Option A) → List A
  somes [] = []
  somes (none ∷ xs) = somes xs
  somes (some x ∷ xs) = x ∷ somes xs

  -- `[x for x in xs if p(x)]`
  abbrev pub filter : (A → Bool) → List A → List A
  filter p [] = []
  filter p (x ∷ xs) = let rest = filter p xs in elim (p x) [ true ↦ x ∷ rest | false ↦ rest ]

  -- `x in xs`, with the place kept.
  abbrev pub Among : A → List A → Type ℓ
  Among x [] = Empty
  Among x (y ∷ xs) = (x ≡ y) ⊎ Among x xs

abbrev pub All {ℓ κ} : {A : Type ℓ} → (A → Type κ) → List A → Type κ
All P [] = Unit
All P (x ∷ xs) = P x × All P xs

module _ {ℓ} {A : Type ℓ} (p : A → Bool) where
  filter_cons :
      (x y : A) (xs rest : List A) (b : Bool)
      → p y ≡ b
      → (Among x rest → Among x xs × (p x ≡ true))
      → Among x (elim b [ true ↦ y ∷ rest | false ↦ rest ])
      → Among x (y ∷ xs) × (p x ≡ true)
  filter_cons x y xs rest true e later (inl same) = (inl same, ap p same ∙ e)
  filter_cons x y xs rest true e later (inr a) = (inr (later a).0, (later a).1)
  filter_cons x y xs rest false e later a = (inr (later a).0, (later a).1)

  -- What a filter keeps stood in the list and passes the test.
  pub Among-filter : (x : A) (xs : List A) → Among x (filter p xs) → Among x xs × (p x ≡ true)
  Among-filter x [] a = elim a [ ]
  Among-filter x (y ∷ xs) a = filter_cons x y xs (filter p xs) (p y) refl (Among-filter x xs) a

  -- What holds of all that a filter keeps holds of all that pass the test.
  pub All-filter {κ} :
      (P : A → Type κ) (xs : List A) → All P (filter p xs) → All (λ x. p x ≡ true → P x) xs
  All-filter P [] h = tt
  All-filter P (x ∷ xs) h = go (p x) refl h (All-filter P xs)
    where
      go :
          (b : Bool)
          → p x ≡ b
          → All P (elim b [ true ↦ x ∷ filter p xs | false ↦ filter p xs ])
          → (All P (filter p xs) → All (λ x. p x ≡ true → P x) xs)
          → All (λ x. p x ≡ true → P x) (x ∷ xs)
      go true e h later = ((λ _. h.0), later h.1)
      go false e h later = ((λ t. absurd (false≢true (sym e ∙ t))), later h)

  -- A filter that keeps nothing leaves nothing that passes.
  pub none-filter : (xs : List A) → filter p xs ≡ [] → All (λ x. p x ≡ false) xs
  none-filter [] e = tt
  none-filter (x ∷ xs) e = go (p x) refl e (none-filter xs)
    where
      go :
          (b : Bool)
          → p x ≡ b
          → (elim b [ true ↦ x ∷ filter p xs | false ↦ filter p xs ]) ≡ []
          → (filter p xs ≡ [] → All (λ x. p x ≡ false) xs)
          → All (λ x. p x ≡ false) (x ∷ xs)
      go true t e later = cc
      go false f e later = (f, later e)
