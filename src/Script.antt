-- ===== src/Script.antt =====
-- Runs of client/main.go, go-controller/cmd/controller/main.go and go-controller/pkg/consensus/raft.go that
-- may end with an error: actions on the world, which is all that the program does not hold itself.
pub mod Passes
use aero_mq.Prelude.{Bool, Option, none, some, Text, ◌++◌, if◌then◌else◌, ◌⊎◌, inl, inr, ◌≡◌, refl}

-- A value, or an error's text.
pub data Result (A : Type 0) : Type 0 where
  value : A → Result A
  failure : Text → Result A

pub Result-cases :
    {A : Type 0} (r : Result A) → ((e : Text) × (r ≡ failure e)) ⊎ ((a : A) × (r ≡ value a))
Result-cases (failure e) = inl (e, refl)
Result-cases (value a) = inr (a, refl)

abbrev pub Script : Type 0 → Type 0 → Type 0
Script World A = World → Result A × World

module _ {World : Type 0} where
  infixl 5 ◌>>=◌ ◌>>◌
  unfoldable pub ◌>>=◌ : {A B : Type 0} → Script World A → (A → Script World B) → Script World B
  ◌>>=◌ m f w = let (r, w') = m w in elim r [ value a ↦ f a w' | failure e ↦ (failure e, w') ]

  abbrev pub ◌>>◌ : {A B : Type 0} → Script World A → Script World B → Script World B
  m >> k = m >>= λ _. k

  abbrev pub pure : {A : Type 0} → A → Script World A
  pure a w = (value a, w)

  abbrev pub lift : {A : Type 0} → Result A → Script World A
  lift r w = (r, w)

  -- A step that cannot fail.
  abbrev pub act : (World → World) → Script World (Unit {0})
  act f w = (value tt, f w)

  -- `if …  { log.Fatalf(message) }`
  unfoldable pub fatal_if : Bool → Text → Script World (Unit {0})
  fatal_if b message w = (if b then failure message else value tt, w)

  -- `if err != nil { log.Fatalf(prefix + "%v", err) }`
  unfoldable pub or_fatal : {A : Type 0} → Text → Result A → Script World A
  or_fatal prefix (value a) w = (value a, w)
  or_fatal prefix (failure e) w = (failure (prefix ++ e), w)

  -- The same for a step of the world.
  unfoldable pub failing_as : {A : Type 0} → Text → Script World A → Script World A
  unfolding or_fatal
  failing_as prefix m w = let (r, w') = m w in or_fatal prefix r w'

  unfoldable pub check : Text → Option Text → Script World (Unit {0})
  check prefix none w = (value tt, w)
  check prefix (some e) w = (failure (prefix ++ e), w)
