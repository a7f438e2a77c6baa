-- ===== src/App/Form/Throws.antt =====
-- How get_relevant_information and get_images end on any body.
use dinner_is_servered.Prelude.{
  ℕ, zero, suc, ◌≡◌, ◌⊎◌, inl, inr, refl, Bool, true, false, List, [], ◌∷◌, ◌++◌, Bytes,
  if◌then◌else◌, ltb, length, take, drop,
}
use dinner_is_servered.Runtime.{
  Outcome, returns, throws, undefined, Exception, invalid_argument, out_of_range, and_then,
}
use dinner_is_servered.Runtime.Numbers.{Parsed, parsed, invalid, too_large, stoi}
use dinner_is_servered.Runtime.Search.{substr}
use dinner_is_servered.App.Form.{
  value_at, get_relevant_information, number_of, images_loop, get_images,
}

-- What std::stoi and std::string::substr throw.
abbrev pub OfNumber : Exception → Type 0
OfNumber invalid_argument = Unit
OfNumber out_of_range = Unit
OfNumber _ = ⊥

pub record Ends {A : Type 0} (o : Outcome A) : Type 0 where
  pub ending : ((a : A) × (o ≡ returns a)) ⊎ ((e : Exception) × (o ≡ throws e) × OfNumber e)

Ends-and_then :
    {A B : Type 0} (o : Outcome A) (f : A → Outcome B)
    → Ends o
    → ((a : A) → Ends (f a))
    → Ends (and_then o f)
Ends-and_then (returns a) f h k = k a
Ends-and_then (throws e) f h k = elim h.ending [
  | inl (a, z) ↦ absurd cc
  | inr (x, z, n) ↦ record { ending = inr (x, cc, n) }
]
Ends-and_then undefined f h k = elim h.ending [ inl (a, z) ↦ absurd cc | inr (x, z, n) ↦ absurd cc ]

Ends-returns : {A : Type 0} (a : A) → Ends (returns a)
Ends-returns a = record { ending = inl (a, refl) }

Ends-if : (A : Type 0) (b : Bool) (a : A) → Ends (if b then throws out_of_range else returns a)
Ends-if A true a = record { ending = inr (out_of_range, refl, tt) }
Ends-if A false a = Ends-returns a

Ends-substr : (s : Bytes) (from count : ℕ) → Ends (substr s from count)
unfolding substr
Ends-substr s from count = Ends-if Bytes (ltb (length s) from) (take count (drop from s))

Ends-value_at : (body : Bytes) (index : ℕ) → Ends (value_at body index)
unfolding value_at
Ends-value_at body index = Ends-substr body index _

Ends-number_of : (p : Parsed) → Ends (number_of p)
unfolding number_of
Ends-number_of (parsed n) = Ends-returns n
Ends-number_of invalid = record { ending = inr (invalid_argument, refl, tt) }
Ends-number_of too_large = record { ending = inr (out_of_range, refl, tt) }

Ends-images_loop : (n : ℕ) (body : Bytes) (images : List Bytes) → Ends (images_loop n body images)
unfolding images_loop
Ends-images_loop zero body images = Ends-returns images
Ends-images_loop (suc n) body images =
    Ends-and_then (value_at body _) _ (Ends-value_at body _) (λ image.
      Ends-and_then (substr body _ _) _ (Ends-substr body _ _)
        (λ rest. Ends-images_loop n rest (images ++ image ∷ [])))

pub Ends-get_relevant_information : (body : Bytes) → Ends (get_relevant_information body)
unfolding get_relevant_information
Ends-get_relevant_information body = Ends-value_at body _

pub Ends-get_images : (body : Bytes) → Ends (get_images body)
unfolding get_images
Ends-get_images body = Ends-and_then (value_at body _) _ (Ends-value_at body _) (λ s.
    Ends-and_then (number_of (stoi s)) _ (Ends-number_of (stoi s))
      (λ n. Ends-images_loop _ body []))
