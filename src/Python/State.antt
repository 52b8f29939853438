-- ===== src/Python/State.antt =====
-- Methods that change the fields of an object and may raise: the object comes back either way.
use event_creator.Prelude.{◌≡◌, refl}
use event_creator.Python.Exception.{Exception, Result, ok, err}

abbrev pub Method : Type 0 → Type 0 → Type 0
Method S A = S → Result A × S

module _ {S : Type 0} where
  abbrev pub resume : {A B : Type 0} → Result A → (A → Method S B) → Method S B
  resume (ok value) after self = after value self
  resume (err exception) after self = (err exception, self)

  infixl 5 ◌>>=◌ ◌>>◌
  abbrev pub ◌>>=◌ : {A B : Type 0} → Method S A → (A → Method S B) → Method S B
  ◌>>=◌ before after self = let (r, self') = before self in resume r after self'

  abbrev pub ◌>>◌ : {A B : Type 0} → Method S A → Method S B → Method S B
  before >> after = before >>= λ _. after

  abbrev pub return : {A : Type 0} → A → Method S A
  return value self = (ok value, self)

  abbrev pub raise : {A : Type 0} → Exception → Method S A
  raise exception self = (err exception, self)

  abbrev pub outcome : {A : Type 0} → Result A → Method S A
  outcome r self = (r, self)

  abbrev pub read : {A : Type 0} → (S → A) → Method S A
  read f self = (ok (f self), self)

  abbrev pub write : (S → S) → Method S (Unit {0})
  write f self = (ok tt, f self)

  -- `try: ... except ...`: the call's own outcome, as a value.
  abbrev pub attempt : {A : Type 0} → Method S A → Method S (Result A)
  attempt before self = let (r, self') = before self in (ok r, self')

  resumed :
      {A B : Type 0} (r : Result A) (after : A → Method S B) (self : S) {last : B} {final : S}
      → resume r after self ≡ (ok last, final)
      → (value : A) × (r ≡ ok value) × (after value self ≡ (ok last, final))
  resumed (ok value) after self done = (value, refl, done)
  resumed (err exception) after self done = cc

  -- A sequence of calls that returned: the first returned, and the rest ran from its state.
  pub >>=-returned :
      {A B : Type 0} (before : Method S A) (after : A → Method S B) (self : S) {last : B}
      {final : S}
      → (before >>= after) self ≡ (ok last, final)
      → (value : A) × ((before self).0 ≡ ok value)
        × (after value (before self).1 ≡ (ok last, final))
  >>=-returned before after self done = resumed (before self).0 after (before self).1 done
