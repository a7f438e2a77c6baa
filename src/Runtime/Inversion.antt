-- ===== src/Runtime/Inversion.antt =====
-- Taking apart a chain of steps that returned.
use dinner_is_servered.Prelude.{subst, ◌≡◌, ◌⊎◌, inl, inr, refl, sym, ◌∙◌, ap}
use dinner_is_servered.Runtime.{
  World, Exception, Outcome, returns, throws, undefined, M, ◌>>=◌, pure, lift, and_then,
}

module _ {A : Type 0} where
  pub Outcome-cases :
      (o : Outcome A)
      → ((a : A) × (o ≡ returns a)) ⊎ ((e : Exception) × (o ≡ throws e)) ⊎ (o ≡ undefined)
  Outcome-cases (returns a) = inl (a, refl)
  Outcome-cases (throws e) = inr (inl (e, refl))
  Outcome-cases undefined = inr (inr refl)

pub returns-injective : {A : Type 0} (a b : A) → returns a ≡ returns b → a ≡ b
returns-injective a b e = cc

module _ {A B : Type 0} where
  pub and_then-returns :
      (o : Outcome A) (f : A → Outcome B) (b : B)
      → and_then o f ≡ returns b
      → (a : A) × (o ≡ returns a) × (f a ≡ returns b)
  and_then-returns (returns a) f b h = (a, refl, h)
  and_then-returns (throws e) f b h = absurd cc
  and_then-returns undefined f b h = absurd cc

  pub >>=-returns :
      (m : M A) (f : A → M B) (w : World) (b : B)
      → ((m >>= f) w).0 ≡ returns b
      → (a : A) × ((m w).0 ≡ returns a) × ((m >>= f) w ≡ f a (m w).1)
  unfolding ◌>>=◌
  >>=-returns m f w b h = elim (Outcome-cases (m w).0) [
    | inl (a, e) ↦ (a, e, rw (e, ◌>>=◌))
    | inr (inl (x, e)) ↦ let z : throws x ≡ returns b = rw (e, ◌>>=◌) at h in absurd cc
    | inr (inr e) ↦ let z : undefined ≡ returns b = rw (e, ◌>>=◌) at h in absurd cc
  ]

pub steps-returns :
    {A B : Type 0} (m : M A) (f : A → M B) (w : World) (b : B)
    → ((m >>= f) w).0 ≡ returns b
    → (a : A) × ((m w).0 ≡ returns a) × ((f a (m w).1).0 ≡ returns b)
steps-returns m f w b h = let (a, e, k) = >>=-returns m f w b h in (a, e, sym (ap (λ r. r.0) k) ∙ h)

pub lift-returns :
    {A B : Type 0} (o : Outcome A) (f : A → M B) (w : World) (b : B)
    → ((lift o >>= f) w).0 ≡ returns b
    → (a : A) × (o ≡ returns a) × ((f a w).0 ≡ returns b)
unfolding lift
lift-returns o f w b h = steps-returns (lift o) f w b h

pub pure-returns : {A : Type 0} (a : A) (w : World) (b : A) → (pure a w).0 ≡ returns b → a ≡ b
unfolding pure
pure-returns a w b h = cc

-- What the last steps leave behind when they return, the whole does.
pub leaves-bind :
    {A B : Type 0} (m : M A) (f : A → M B) (P : World → Type 0) (b : B)
    → ((a : A) (w : World) → (f a w).0 ≡ returns b → P (f a w).1)
    → (w : World) → ((m >>= f) w).0 ≡ returns b
    → P ((m >>= f) w).1
leaves-bind m f P b k w h =
    let (a, _, e) = >>=-returns m f w b h in
    subst (λ r. P r.1) (sym e) (k a (m w).1 (sym (ap (λ r. r.0) e) ∙ h))
