-- ===== src/Dispatch/Target/Normal.antt =====
-- The path that is looked up: slashes in a row and at its end.
use dinner_is_servered.Prelude.{
  ℕ, zero, suc, ◌<◌, Bool, true, false, ◌&&◌, ◌≡◌, ◌≢◌, ◌⊎◌, inl, inr, refl, sym, ap, ◌∙◌, subst,
  List, [], ◌∷◌, ◌++◌, none, some, Bytes, ◌==◌, arith, length, ltb, append-nil, append_assoc,
  Bool-cases,
}
use dinner_is_servered.Dispatch.Target.{squeeze, back, pop_back, trims, trim_loop, trim, normalize}

-- The first loop with no accumulator.
squeezed : Bool → Bytes → Bytes
squeezed p [] = []
squeezed p (c ∷ t) = elim (c == b'/' && p) [
  | true ↦ squeezed p t
  | false ↦ c ∷ squeezed (c == b'/') t
]

squeeze-squeezed : (r : Bytes) (p : Bool) (t : Bytes) → squeeze r p t ≡ r ++ squeezed p t
unfolding squeeze squeezed
squeeze-squeezed r p [] = sym (append-nil r)
squeeze-squeezed r p (c ∷ t) = elim (Bool-cases (c == b'/' && p)) [
  | inl e ↦ rw (e, squeeze, squeezed) (squeeze-squeezed r p t)
  | inr e ↦
      rw (e, squeeze, squeezed) (squeeze-squeezed (r ++ c ∷ []) (c == b'/') t ∙ append_assoc r _ _)
]

-- No slash follows a slash; `p` says that a slash comes before.
abbrev pub NoDoubleSlash : Bool → Bytes → Type 0
NoDoubleSlash p [] = Unit
NoDoubleSlash p (c ∷ s) = ((c == b'/' && p) ≡ false) × NoDoubleSlash (c == b'/') s

squeezed-NoDoubleSlash : (p : Bool) (t : Bytes) → NoDoubleSlash p (squeezed p t)
unfolding squeezed
squeezed-NoDoubleSlash p [] = tt
squeezed-NoDoubleSlash p (c ∷ t) = elim (Bool-cases (c == b'/' && p)) [
  | inl e ↦ rw (e, squeezed) (squeezed-NoDoubleSlash p t)
  | inr e ↦ rw (e, squeezed) (e, squeezed-NoDoubleSlash (c == b'/') t)
]

squeezed_of_NoDoubleSlash : (p : Bool) (t : Bytes) → NoDoubleSlash p t → squeezed p t ≡ t
unfolding squeezed
squeezed_of_NoDoubleSlash p [] h = refl
squeezed_of_NoDoubleSlash p (c ∷ t) (e, h) =
    rw (e, squeezed) (ap (◌∷◌ c) (squeezed_of_NoDoubleSlash (c == b'/') t h))

squeezed-ne-nil : (t : Bytes) → t ≢ [] → squeezed false t ≢ []
unfolding squeezed
squeezed-ne-nil [] h e = h refl
squeezed-ne-nil (c ∷ t) h e = ground arith

pop_back-NoDoubleSlash : (p : Bool) (s : Bytes) → NoDoubleSlash p s → NoDoubleSlash p (pop_back s)
unfolding pop_back
pop_back-NoDoubleSlash p [] h = tt
pop_back-NoDoubleSlash p (c ∷ []) h = tt
pop_back-NoDoubleSlash p (c ∷ d ∷ s) (e, h) = (e, pop_back-NoDoubleSlash (c == b'/') (d ∷ s) h)

length-pop_back : (c : ℕ) (s : Bytes) → length (pop_back (c ∷ s)) ≡ length s
unfolding pop_back
length-pop_back c [] = refl
length-pop_back c (d ∷ s) = ap suc (length-pop_back d s)

back_of_cons : (c : ℕ) (s : Bytes) → (d : ℕ) × (back (c ∷ s) ≡ some d)
unfolding back
back_of_cons c [] = (c, refl)
back_of_cons c (d ∷ s) = back_of_cons d s

trims_of_cons : (c : ℕ) (s : Bytes) → (trims (c ∷ s) ≡ some true) ⊎ (trims (c ∷ s) ≡ some false)
unfolding trims
trims_of_cons c s =
    let (d, e) = back_of_cons c s in
    elim (Bool-cases (d == b'/' && ltb 1 (length (c ∷ s)))) [
      | inl h ↦ inl (rw e (ap some h))
      | inr h ↦ inr (rw e (ap some h))
    ]

trims-lt : (c : ℕ) (s : Bytes) → trims (c ∷ s) ≡ some true → 0 < length s
unfolding trims
trims-lt c s h = let (d, e) = back_of_cons c s in ground (arith, e)

cons-ne-nil {ℓ} : {A : Type ℓ} (x : A) (xs : List A) → x ∷ xs ≢ []
cons-ne-nil x xs e = cc

-- What the second loop returns when it is given a string that is not empty.
record Trimmed (s r : Bytes) : Type 0 where
  not_empty : r ≢ []
  no_trailing : trims r ≡ some false
  keeps : (p : Bool) → NoDoubleSlash p s → NoDoubleSlash p r

trim_loop-Trimmed :
    (fuel : ℕ) (c : ℕ) (s : Bytes)
    → length s < fuel
    → (r : Bytes) × (trim_loop fuel (c ∷ s) ≡ some r) × Trimmed (c ∷ s) r
unfolding trim_loop pop_back
trim_loop-Trimmed zero c s h = elim h [ ]
trim_loop-Trimmed (suc fuel) c [] h = elim (trims_of_cons c []) [
  | inl e ↦ absurd (omega (arith, trims-lt c [] e))
  | inr e ↦ (
    c ∷ [],
    rw (e, trim_loop),
    record { not_empty = cons-ne-nil c _; no_trailing = e; keeps = λ p k. k },
  )
]
trim_loop-Trimmed (suc fuel) c (d ∷ s) h =
    let (r, e', t) =
      trim_loop-Trimmed fuel c (pop_back (d ∷ s)) (omega (arith, length-pop_back d s)) in
    elim (trims_of_cons c (d ∷ s)) [
      | inl e ↦ (
        r,
        rw (e, trim_loop) e',
        record {
          not_empty = t.not_empty;
          no_trailing = t.no_trailing;
          keeps = λ p k. t.keeps p (pop_back-NoDoubleSlash p (c ∷ d ∷ s) k);
        },
      )
      | inr e ↦ (
        c ∷ d ∷ s,
        rw (e, trim_loop),
        record { not_empty = cons-ne-nil c _; no_trailing = e; keeps = λ p k. k },
      )
    ]

trim-Trimmed : (s : Bytes) → s ≢ [] → (r : Bytes) × (trim s ≡ some r) × Trimmed s r
unfolding trim
trim-Trimmed [] h = absurd (h refl)
trim-Trimmed (c ∷ s) h = trim_loop-Trimmed (suc (length (c ∷ s))) c s (omega arith)

trim_of_no_trailing : (r : Bytes) → trims r ≡ some false → trim r ≡ some r
unfolding trim trim_loop
trim_of_no_trailing r e = rw (e, trim_loop)

-- A path with no two slashes in a row, and none at the end but that of "/" itself.
pub record IsNormal (r : Bytes) : Type 0 where
  pub not_empty : r ≢ []
  pub no_double : NoDoubleSlash false r
  pub no_trailing : trims r ≡ some false

-- On a target that is not empty the loops end, and the path is normal.
pub normalize-IsNormal :
    (target : Bytes) → target ≢ [] → (r : Bytes) × (normalize target ≡ some r) × IsNormal r
unfolding normalize
normalize-IsNormal target h =
    let (r, e, t) = trim-Trimmed (squeezed false target) (squeezed-ne-nil target h) in
    (
      r,
      rw squeeze-squeezed e,
      record {
        not_empty = t.not_empty;
        no_double = t.keeps false (squeezed-NoDoubleSlash false target);
        no_trailing = t.no_trailing;
      },
    )

normalize_of_IsNormal : (r : Bytes) → IsNormal r → normalize r ≡ some r
unfolding normalize
normalize_of_IsNormal r n =
    rw squeeze-squeezed
      (rw (squeezed_of_NoDoubleSlash false r n.no_double) (trim_of_no_trailing r n.no_trailing))

pub normalize_of_nil : normalize [] ≡ none
unfolding normalize squeeze trim trim_loop trims back
normalize_of_nil = refl

pub IsNormal-of_normalize : (target r : Bytes) → normalize target ≡ some r → IsNormal r
IsNormal-of_normalize [] r e = let same : none ≡ some r = sym normalize_of_nil ∙ e in absurd cc
IsNormal-of_normalize (c ∷ target) r e =
    let (r', e', n) = normalize-IsNormal (c ∷ target) (cons-ne-nil c target) in
    let same : r' ≡ r = cc in subst IsNormal same n

-- On a target that is not empty the loops end, the path is normal, and to normalise it once more
-- changes nothing.
pub normalize_idempotent :
    (target : Bytes)
    → target ≢ []
    → (r : Bytes) × (normalize target ≡ some r) × IsNormal r × (normalize r ≡ some r)
normalize_idempotent target h =
    let (r, e, n) = normalize-IsNormal target h in (r, e, n, normalize_of_IsNormal r n)
