-- ===== src/App/Form/Lines.antt =====
-- The search of get_relevant_information and get_images, line by line: where a header with the empty
-- line behind it stands in a text of lines, and where a line ends.
use dinner_is_servered.Prelude.{
  ℕ, suc, ◌+◌, ◌≡◌, ◌⊎◌, refl, sym, ap, ◌∙◌, Bool, true, false, not, ◌&&◌, [], ◌∷◌, ◌++◌,
  append_assoc, Bytes, ◌==◌, equal, arith, begins_with, begins_with-append, length, length-append,
}
use dinner_is_servered.Runtime.Search.{find_at}
use dinner_is_servered.App.Form.{crlf}

-- no carriage return
abbrev pub no_cr : Bytes → Bool
no_cr [] = true
no_cr (c ∷ s) = not (c == b'\r') && no_cr s

-- The header is no end of the line.
abbrev pub no_suffix : Bytes → Bytes → Bool
no_suffix h [] = not (equal [] h)
no_suffix h (c ∷ u) = not (equal (c ∷ u) h) && no_suffix h u

-- A line that is the header, or has an empty line behind it, or neither.
begins_with-header :
    (u h rest : Bytes)
    → no_cr u ≡ true
    → no_cr h ≡ true
    → begins_with (u ++ (crlf ++ rest)) (h ++ (crlf ++ crlf)) ≡ (equal u h && begins_with rest crlf)
unfolding begins_with equal
begins_with-header [] [] rest p q = refl
begins_with-header [] (c ∷ h) rest p q = ground arith
begins_with-header (c ∷ u) [] rest p q = ground arith
begins_with-header (c ∷ u) (d ∷ h) rest p q = ground (arith, begins_with-header u h rest)

-- The target stands nowhere in front of `rest`.
abbrev Misses : Bytes → Bytes → Bytes → Type 0
Misses t [] rest = Unit
Misses t (c ∷ u) rest = (begins_with (c ∷ (u ++ rest)) t ≡ false) × Misses t u rest

find_at-Misses :
    (t u rest : Bytes) (n : ℕ)
    → Misses t u rest
    → find_at n (u ++ rest) t ≡ find_at (n + length u) rest t
unfolding find_at
find_at-Misses t [] rest n m = ap (λ k. find_at k rest t) (omega arith)
find_at-Misses t (c ∷ u) rest n (e, m) =
    rw (e, find_at) (find_at-Misses t u rest (suc n) m ∙ ap (λ k. find_at k rest t) (omega arith))

module _ (h : Bytes) where
  abbrev pub header : Bytes
  header = b'C' ∷ h

  line-Misses :
      (u rest : Bytes)
      → no_cr u ≡ true
      → no_cr h ≡ true
      → (no_suffix header u ≡ true) ⊎ (begins_with rest crlf ≡ false)
      → Misses (header ++ (crlf ++ crlf)) (u ++ crlf) rest
  unfolding begins_with
  line-Misses [] rest p q k = (ground arith, (ground arith, tt))
  line-Misses (c ∷ u) rest p q k =
      let e = begins_with-header (c ∷ u) header rest p q in
      let here : (equal (c ∷ u) header && begins_with rest crlf) ≡ false = ground (arith, k) in
      (
        ap (λ s. begins_with (c ∷ s) (header ++ (crlf ++ crlf))) (append_assoc u crlf rest)
            ∙ e
            ∙ here,
        line-Misses u rest (ground (arith, p)) q (ground (arith, k)),
      )

  -- A line in which the header does not stand, or which no empty line follows, is passed over.
  pub find_at-line :
      (u rest : Bytes) (n : ℕ)
      → no_cr u ≡ true
      → no_cr h ≡ true
      → (no_suffix header u ≡ true) ⊎ (begins_with rest crlf ≡ false)
      → find_at n (u ++ (crlf ++ rest)) (header ++ (crlf ++ crlf))
        ≡ find_at (n + (length u + 2)) rest (header ++ (crlf ++ crlf))
  find_at-line u rest n p q k =
      sym (ap (λ s. find_at n s (header ++ (crlf ++ crlf))) (append_assoc u crlf rest))
      ∙ find_at-Misses (header ++ (crlf ++ crlf)) (u ++ crlf) rest n (line-Misses u rest p q k)
      ∙ ap (λ m. find_at (n + m) rest (header ++ (crlf ++ crlf))) (length-append u crlf)

pub find_at-here : (t rest : Bytes) (n : ℕ) → find_at n (t ++ rest) t ≡ n
unfolding find_at begins_with
find_at-here [] [] n = refl
find_at-here [] (c ∷ rest) n = refl
find_at-here (c ∷ t) rest n = rw (begins_with-append (c ∷ t) rest, find_at) refl

-- The end of a line.
pub find_at-crlf :
    (u rest : Bytes) (n : ℕ) → no_cr u ≡ true → find_at n (u ++ (crlf ++ rest)) crlf ≡ n + length u
unfolding find_at begins_with
find_at-crlf [] rest n h = omega arith
find_at-crlf (c ∷ u) rest n h = ground (arith, h, find_at-crlf u rest (suc n))
