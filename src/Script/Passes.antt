-- ===== src/Script/Passes.antt =====
-- What a run of the client that passes has passed: each lemma hands the step's result and the rest of
-- the run to a proof about them.
use aero_mq.Prelude.{
  Bool, true, false, ◌≡◌, refl, sym, ◌∙◌, inl, inr, Option, none, some, Text, arith,
}
use aero_mq.Script.{Result, Result-cases, value, failure}
use aero_mq.Script.{Script, ◌>>=◌, ◌>>◌, act, fatal_if, or_fatal, failing_as, check}

module _ {World C : Type 0} where
  pub bind-passes :
      {A B : Type 0} (m : Script World A) (f : A → Script World B) (w : World) {b : B}
      → ((m >>= f) w).0 ≡ value b
      → ((a : A) → (m w).0 ≡ value a → (f a (m w).1).0 ≡ value b → C)
      → C
  unfolding ◌>>=◌
  bind-passes m f w {b} h next = elim (Result-cases (m w).0) [
    | inl (e, q) ↦ absurd (ground (arith, q, h))
    | inr (a, q) ↦
        let goes : ((m >>= f) w).0 ≡ (f a (m w).1).0 = rw (q, ◌>>=◌) refl in next a q (sym goes ∙ h)
  ]

  pub fatal_if-passes :
      {B : Type 0} (b : Bool) (message : Text) (k : Script World B) (w : World) {x : B}
      → ((fatal_if b message >> k) w).0 ≡ value x
      → (b ≡ false → (k w).0 ≡ value x → C)
      → C
  unfolding ◌>>=◌ fatal_if
  fatal_if-passes true message k w h next = absurd (ground (arith, h))
  fatal_if-passes false message k w h next = next refl h

  pub or_fatal-passes :
      {A B : Type 0} (prefix : Text) (r : Result A) (f : A → Script World B) (w : World) {b : B}
      → ((or_fatal prefix r >>= f) w).0 ≡ value b
      → ((a : A) → r ≡ value a → (f a w).0 ≡ value b → C)
      → C
  unfolding ◌>>=◌ or_fatal
  or_fatal-passes prefix (value a) f w h next = next a refl h
  or_fatal-passes prefix (failure e) f w h next = absurd (ground (arith, h))

  pub failing_as-passes :
      {A B : Type 0} (prefix : Text) (m : Script World A) (f : A → Script World B) (w : World)
      {b : B}
      → ((failing_as prefix m >>= f) w).0 ≡ value b
      → ((a : A) → (m w).0 ≡ value a → (f a (m w).1).0 ≡ value b → C)
      → C
  unfolding ◌>>=◌ failing_as or_fatal
  failing_as-passes prefix m f w h next = or_fatal-passes prefix (m w).0 f (m w).1 h next

  pub check-passes :
      {B : Type 0} (prefix : Text) (o : Option Text) (k : Script World B) (w : World) {x : B}
      → ((check prefix o >> k) w).0 ≡ value x
      → ((k w).0 ≡ value x → C)
      → C
  unfolding ◌>>=◌ check
  check-passes prefix none k w h next = next h
  check-passes prefix (some e) k w h next = absurd (ground (arith, h))

  pub act-passes :
      {B : Type 0} (f : World → World) (k : Script World B) (w : World) {x : B}
      → ((act f >> k) w).0 ≡ value x
      → ((k (f w)).0 ≡ value x → C)
      → C
  unfolding ◌>>=◌
  act-passes f k w h next = next h

-- The last step of a run.
pub fatal_if-last :
    {World : Type 0} (b : Bool) (message : Text) (w : World)
    → (fatal_if b message w).0 ≡ value tt
    → b ≡ false
unfolding fatal_if
fatal_if-last true message w h = absurd (ground (arith, h))
fatal_if-last false message w h = refl
