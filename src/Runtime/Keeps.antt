-- ===== src/Runtime/Keeps.antt =====
-- What a chain of steps keeps of the world, however the steps end.
use dinner_is_servered.Prelude.{Bool, true, false, if◌then◌else◌, ◌≡◌, inl, inr, refl, ◌∙◌}
use dinner_is_servered.Runtime.{
  World, Exception, Outcome, M, ◌>>=◌, pure, raise, lift, update, gets,
}
use dinner_is_servered.Runtime.Inversion.{Outcome-cases}

module _ {X : Type 0} (view : World → X) where
  pub record Keeps {A : Type 0} (m : M A) : Type 0 where
    pub keeps : (w : World) → view (m w).1 ≡ view w

  -- in one world
  pub bind-Keeps :
      {A B : Type 0} (m : M A) (f : A → M B) (w : World)
      → view (m w).1 ≡ view w
      → ((a : A) → Keeps (f a))
      → view ((m >>= f) w).1 ≡ view w
  unfolding ◌>>=◌
  bind-Keeps m f w h k = elim (Outcome-cases (m w).0) [
    | inl (a, e) ↦ rw (e, ◌>>=◌) ((k a).keeps (m w).1 ∙ h)
    | inr (inl (x, e)) ↦ rw (e, ◌>>=◌) h
    | inr (inr e) ↦ rw (e, ◌>>=◌) h
  ]

  pub Keeps-bind :
      {A B : Type 0} (m : M A) (f : A → M B) → Keeps m → ((a : A) → Keeps (f a)) → Keeps (m >>= f)
  Keeps-bind m f h k = record { keeps = λ w. bind-Keeps m f w (h.keeps w) k }

  pub Keeps-pure : {A : Type 0} (a : A) → Keeps (pure a)
  unfolding pure
  Keeps-pure a = record { keeps = λ w. refl }

  pub Keeps-raise : (A : Type 0) (e : Exception) → Keeps (raise {A = A} e)
  unfolding raise
  Keeps-raise A e = record { keeps = λ w. refl }

  pub Keeps-lift : {A : Type 0} (o : Outcome A) → Keeps (lift o)
  unfolding lift
  Keeps-lift o = record { keeps = λ w. refl }

  pub Keeps-update : (f : World → World) → ((w : World) → view (f w) ≡ view w) → Keeps (update f)
  unfolding update
  Keeps-update f h = record { keeps = h }

  pub Keeps-lift_bind :
      {A B : Type 0} (o : Outcome A) (f : A → M B) → ((a : A) → Keeps (f a)) → Keeps (lift o >>= f)
  Keeps-lift_bind o f h = Keeps-bind (lift o) f (Keeps-lift o) h

  pub Keeps-gets_bind :
      {A B : Type 0} (g : World → A) (f : A → M B) → ((a : A) → Keeps (f a)) → Keeps (gets g >>= f)
  unfolding gets ◌>>=◌
  Keeps-gets_bind g f h = record { keeps = λ w. (h (g w)).keeps w }

  pub Keeps-if :
      {A : Type 0} (b : Bool) (m n : M A) → Keeps m → Keeps n → Keeps (if b then m else n)
  Keeps-if true m n h k = h
  Keeps-if false m n h k = k
