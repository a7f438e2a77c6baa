-- ===== src/Dispatch/Longest/Changes.antt =====
-- One loop over the paths of a type, and the choice before and behind it.
use dinner_is_servered.Prelude.{
  ℕ, ◌≤◌, ◌<◌, true, false, ◌≡◌, ◌≢◌, ◌⊎◌, inl, inr, refl, sym, ◌∙◌, List, [], ◌∷◌, Bytes, arith,
  length, begins_with, All, Bool-cases,
}
use dinner_is_servered.Dispatch.Request.{RequestType}
use dinner_is_servered.Dispatch.Longest.{Longest, improves, scan}

module _ (result : Bytes) (type : RequestType) where
  -- The loop leaves the choice, or ends with a longer path of its own.
  pub record Changed (paths : List Bytes) (best new : Longest) : Type 1 where
    pub type_is : new.type ≡ type
    pub size_is : new.size ≡ length new.path
    pub matched : begins_with result new.path ≡ true
    pub longer : best.size < new.size
    pub listed : (P : Bytes → Type 0) → All P paths → P new.path

  abbrev own : Bytes → Longest
  own p = record { size = length p; path = p; type = type }

  improves-facts :
      (p : Bytes) (n : ℕ)
      → improves result p n ≡ true
      → (begins_with result p ≡ true) × (n < length p)
  unfolding improves
  improves-facts p n h = ground arith

  Changed-own :
      (p : Bytes) (paths : List Bytes) (best : Longest)
      → improves result p best.size ≡ true
      → Changed (p ∷ paths) best (own p)
  Changed-own p paths best h = record {
    type_is = refl;
    size_is = refl;
    matched = (improves-facts p best.size h).0;
    longer = (improves-facts p best.size h).1;
    listed = λ P a. a.0;
  }

  Changed-cons :
      (p : Bytes) (paths : List Bytes) (best middle new : Longest)
      → best.size ≤ middle.size
      → Changed paths middle new
      → Changed (p ∷ paths) best new
  Changed-cons p paths best middle new h c = record {
    type_is = c.type_is;
    size_is = c.size_is;
    matched = c.matched;
    longer = omega (arith, c.longer);
    listed = λ P a. c.listed P a.1;
  }

  pub scan-cases :
      (paths : List Bytes) (best : Longest)
      → (scan result type paths best ≡ best) ⊎ Changed paths best (scan result type paths best)
  unfolding scan
  scan-cases [] best = inl refl
  scan-cases (p ∷ paths) best = elim (Bool-cases (improves result p best.size)) [
    | inl e ↦ rw e (elim (scan-cases paths (own p)) [
      | inl same ↦ inr (rw same (Changed-own p paths best e))
      | inr c ↦
          inr (
            Changed-cons p paths best (own p) _ (omega (arith, (improves-facts p best.size e).1)) c)
    ])
    | inr e ↦ rw e (elim (scan-cases paths best) [
      | inl same ↦ inl same
      | inr c ↦ inr (Changed-cons p paths best best _ (omega arith) c)
    ])
  ]

  -- A loop that ends with the type of another leaves the choice.
  pub scan_unchanged :
      (paths : List Bytes) (best : Longest) (t : RequestType)
      → type ≢ t
      → (scan result type paths best).type ≡ t
      → scan result type paths best ≡ best
  scan_unchanged paths best t ne h = elim (scan-cases paths best) [
    | inl same ↦ same
    | inr c ↦ absurd (ne (sym c.type_is ∙ h))
  ]

  length-le_of_not :
      (p : Bytes) (m n : ℕ)
      → improves result p m ≡ true
      → improves result p n ≡ false
      → length p ≤ n
  unfolding improves
  length-le_of_not p m n h k = ground arith

  improves_mono :
      (p : Bytes) (m n : ℕ) → m ≤ n → improves result p m ≡ false → improves result p n ≡ false
  unfolding improves
  improves_mono p m n h k = ground arith

  -- Started from a choice in between, the loop ends alike.
  pub scan_between :
      (paths : List Bytes) (low high : Longest)
      → low.size ≤ high.size
      → high.size < (scan result type paths low).size
      → scan result type paths high ≡ scan result type paths low
  unfolding scan
  scan_between [] low high h k = absurd (omega arith)
  scan_between (p ∷ paths) low high h k = elim (Bool-cases (improves result p low.size)) [
    | inl e ↦ elim (Bool-cases (improves result p high.size)) [
      | inl f ↦ rw (e, f)
      | inr f ↦
          rw (e, f)
            (scan_between paths (own p) high (length-le_of_not p low.size high.size e f)
              (rw (e, scan) at k))
    ]
    | inr e ↦
        rw (e, improves_mono p low.size high.size h e)
          (scan_between paths low high h (rw (e, scan) at k))
  ]
