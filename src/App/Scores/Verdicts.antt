-- ===== src/App/Scores/Verdicts.antt =====
-- What get_best_image_index makes of each image, and the index that these verdicts decide.
use dinner_is_servered.Prelude.{
  ℕ, suc, ◌<◌, ◌≤◌, ◌≡◌, ◌⊎◌, inl, inr, refl, sym, ap, ◌∙◌, subst, Bool-cases, List, [], ◌∷◌, ◌++◌,
  append_assoc, append-nil, length-append, ltb, if◌then◌else◌, length, All, All-append, arith,
}
use dinner_is_servered.Runtime.Numbers.{ℤ, pos, negsuc}

-- No transfer could be set up, it failed, its answer could not be read as a number, or it is a score.
pub data Verdict : Type 0 where
  skipped unreachable unread : Verdict
  scored : ℕ → Verdict

abbrev larger : ℕ → ℕ → ℕ
larger a b = if ltb a b then b else a

-- The highest score, and 0 where there is none.
abbrev pub top : List Verdict → ℕ
top [] = 0
top (scored s ∷ vs) = larger s (top vs)
top (v ∷ vs) = top vs

-- A verdict that changes nothing, where the highest score is `m`.
abbrev pub Below : ℕ → Verdict → Type 0
Below m skipped = Unit
Below m unreachable = ⊥
Below m unread = ⊥
Below m (scored s) = s ≤ m

-- A score below `m`, if it is one.
abbrev pub Under : ℕ → Verdict → Type 0
Under m (scored s) = s < m
Under m v = Unit

-- The verdict behind the verdicts `before` sets the index: to a code of a failure, or to its place,
-- where it is a score higher than all before it, and than 0.
abbrev pub Decides : List Verdict → Verdict → ℤ → Type 0
Decides before skipped index = ⊥
Decides before unreachable index = index ≡ negsuc 1
Decides before unread index = index ≡ negsuc 2
Decides before (scored s) index = (index ≡ pos (length before)) × (0 < s) × All (Under s) before

pub record Decided (vs : List Verdict) (index : ℤ) : Type 0 where
  pub before : List Verdict
  pub verdict : Verdict
  pub behind : List Verdict
  pub splits : vs ≡ before ++ verdict ∷ behind
  pub decides : Decides before verdict index
  pub keeps : All (Below (top (before ++ verdict ∷ []))) behind

-- The index is -1 where there is no score above 0 and no failure; else the last verdict that sets it
-- decides.
abbrev pub Chosen : List Verdict → ℤ → Type 0
Chosen vs index = (index ≡ negsuc 0) × All (Below 0) vs ⊎ Decided vs index

top-append : (a b : List Verdict) → top (a ++ b) ≡ larger (top a) (top b)
top-append [] b = ground arith
top-append (skipped ∷ a) b = top-append a b
top-append (unreachable ∷ a) b = top-append a b
top-append (unread ∷ a) b = top-append a b
top-append (scored s ∷ a) b = ground (arith, top-append a b)

top-Below : (m : ℕ) (b : List Verdict) → All (Below m) b → top b ≤ m
top-Below m [] h = omega arith
top-Below m (skipped ∷ b) h = top-Below m b h.1
top-Below m (unreachable ∷ b) h = absurd h.0
top-Below m (unread ∷ b) h = absurd h.0
top-Below m (scored s ∷ b) h = ground (arith, h.0, top-Below m b h.1)

-- What changes nothing leaves the highest score.
top-keeps : (a b : List Verdict) → All (Below (top a)) b → top (a ++ b) ≡ top a
top-keeps a b h = ground (arith, top-append a b, top-Below (top a) b h)

top-Under : (s : ℕ) (vs : List Verdict) → top vs < s → All (Under s) vs
top-Under s [] h = tt
top-Under s (skipped ∷ vs) h = (tt, top-Under s vs h)
top-Under s (unreachable ∷ vs) h = (tt, top-Under s vs h)
top-Under s (unread ∷ vs) h = (tt, top-Under s vs h)
top-Under s (scored n ∷ vs) h = (ground (arith, h), top-Under s vs (ground (arith, h)))

-- One more verdict that changes nothing.
Chosen-keeps :
    (vs : List Verdict) (index : ℤ) (v : Verdict)
    → Chosen vs index
    → Below (top vs) v
    → Chosen (vs ++ v ∷ []) index
Chosen-keeps vs index v (inl (e, a)) b =
    let zero_top : top vs ≡ 0 = omega (arith, top-Below 0 vs a) in
    inl (e, All-append (Below 0) vs (v ∷ []) a (subst (λ m. Below m v) zero_top b, tt))
Chosen-keeps vs index v (inr d) b =
    let front = d.before ++ d.verdict ∷ [] in
    let split : vs ≡ front ++ d.behind =
      d.splits ∙ sym (append_assoc d.before (d.verdict ∷ []) d.behind) in
    let same : top vs ≡ top front = ap top split ∙ top-keeps front d.behind d.keeps in
    inr (record {
      before = d.before;
      verdict = d.verdict;
      behind = d.behind ++ v ∷ [];
      splits =
          ap (λ x. x ++ v ∷ []) d.splits ∙ append_assoc d.before (d.verdict ∷ d.behind) (v ∷ []);
      decides = d.decides;
      keeps =
          All-append (Below (top front)) d.behind (v ∷ []) d.keeps
            (subst (λ m. Below m v) same b, tt);
    })

Chosen-Decides :
    (vs : List Verdict) (index : ℤ) (v : Verdict) → Decides vs v index → Chosen (vs ++ v ∷ []) index
Chosen-Decides vs index v d =
    inr (record { before = vs; verdict = v; behind = []; splits = refl; decides = d; keeps = tt })

-- The index and the highest score, behind one more verdict.
abbrev pub after : ℕ → Verdict → ℤ × ℕ → ℤ × ℕ
after i skipped best = best
after i unreachable best = (negsuc 1, best.1)
after i unread best = (negsuc 2, best.1)
after i (scored s) best = if ltb best.1 s then (pos i, s) else best

abbrev pub after_all : ℕ → List Verdict → ℤ × ℕ → ℤ × ℕ
after_all i [] best = best
after_all i (v ∷ vs) best = after_all (suc i) vs (after i v best)

pub record Right (vs : List Verdict) (best : ℤ × ℕ) : Type 0 where
  pub chosen : Chosen vs best.0
  pub highest : best.1 ≡ top vs

top-failure : (vs : List Verdict) (v : Verdict) → top (v ∷ []) ≡ 0 → top (vs ++ v ∷ []) ≡ top vs
top-failure vs v h = ground (arith, h, top-append vs (v ∷ []))

after-Right :
    (vs : List Verdict) (v : Verdict) (best : ℤ × ℕ)
    → Right vs best
    → Right (vs ++ v ∷ []) (after (length vs) v best)
after-Right vs skipped best r = record {
  chosen = Chosen-keeps vs best.0 skipped r.chosen tt;
  highest = r.highest ∙ sym (top-keeps vs (skipped ∷ []) (tt, tt));
}
after-Right vs unreachable best r = record {
  chosen = Chosen-Decides vs (negsuc 1) unreachable refl;
  highest = r.highest ∙ sym (top-failure vs unreachable refl);
}
after-Right vs unread best r = record {
  chosen = Chosen-Decides vs (negsuc 2) unread refl;
  highest = r.highest ∙ sym (top-failure vs unread refl);
}
after-Right vs (scored s) best r = elim (Bool-cases (ltb best.1 s)) [
  | inl e ↦
      let higher : top vs < s = ground (arith, e, r.highest) in
      rw e (record {
        chosen =
            Chosen-Decides vs (pos (length vs)) (scored s)
              (refl, omega (arith, higher), top-Under s vs higher);
        highest = ground (arith, higher, top-append vs (scored s ∷ []));
      })
  | inr e ↦
      let lower : s ≤ top vs = ground (arith, e, r.highest) in
      rw e (record {
        chosen = Chosen-keeps vs best.0 (scored s) r.chosen lower;
        highest = r.highest ∙ sym (top-keeps vs (scored s ∷ []) (lower, tt));
      })
]

after_all-Right :
    (done vs : List Verdict) (best : ℤ × ℕ)
    → Right done best
    → Right (done ++ vs) (after_all (length done) vs best)
after_all-Right done [] best r = subst (λ x. Right x best) (sym (append-nil done)) r
after_all-Right done (v ∷ vs) best r =
    let next =
      after_all-Right (done ++ v ∷ []) vs (after (length done) v best)
        (after-Right done v best r) in
    let one : length (done ++ v ∷ []) ≡ suc (length done) =
      omega (arith, length-append done (v ∷ [])) in
    subst (λ x. Right x (after_all (suc (length done)) vs (after (length done) v best)))
      (append_assoc done (v ∷ []) vs)
      (subst (λ n. Right ((done ++ v ∷ []) ++ vs) (after_all n vs (after (length done) v best))) one
        next)

-- The verdicts from the first on, with the index at -1 and the highest score at 0.
pub after_all-Chosen : (vs : List Verdict) → Chosen vs (after_all 0 vs (negsuc 0, 0)).0
after_all-Chosen vs =
    (after_all-Right [] vs (negsuc 0, 0)
      (record { chosen = inl (refl, tt); highest = refl })).chosen
