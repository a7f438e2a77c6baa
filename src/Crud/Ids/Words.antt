-- ===== src/Crud/Ids/Words.antt =====
-- The words of the ids file behind an append.
use dinner_is_servered.Prelude.{
  ℕ, suc, ◌^◌, ◌<◌, ◌%◌, ◌≡◌, refl, sym, ap, ◌∙◌, inl, inr, false, List, [], ◌∷◌, ◌++◌, append-nil,
  append_assoc, Bytes, Bool-cases, All,
}
use dinner_is_servered.Runtime.{World, returns}
use dinner_is_servered.Runtime.Numbers.{is_blank, to_string}
use dinner_is_servered.Runtime.Words.{words, words_from}
use dinner_is_servered.Crud.Ids.{is_line_of, next_id}
use dinner_is_servered.Crud.Ids.Replace.{NoBlank, IsWord, id_line, id_line-IsWord, next_id-first}

words_from-newline :
    (w s rest : Bytes) → words_from w (s ++ b'\n' ∷ rest) ≡ words_from w s ++ words_from [] rest
unfolding words_from
words_from-newline [] [] rest = refl
words_from-newline (x ∷ xs) [] rest = refl
words_from-newline [] (c ∷ s) rest = elim (Bool-cases (is_blank c)) [
  | inl e ↦ rw (e, words_from) (words_from-newline [] s rest)
  | inr e ↦ rw (e, words_from) (words_from-newline (c ∷ []) s rest)
]
words_from-newline (x ∷ xs) (c ∷ s) rest = elim (Bool-cases (is_blank c)) [
  | inl e ↦ rw (e, words_from) (ap (λ ws. (x ∷ xs) ∷ ws) (words_from-newline [] s rest))
  | inr e ↦ rw (e, words_from) (words_from-newline (x ∷ (xs ++ c ∷ [])) s rest)
]

words_from-last :
    (x : ℕ) (xs ys : Bytes) → NoBlank ys → words_from (x ∷ xs) ys ≡ (x ∷ (xs ++ ys)) ∷ []
unfolding words_from
words_from-last x xs [] h = ap (λ s. (x ∷ s) ∷ []) (sym (append-nil xs))
words_from-last x xs (y ∷ ys) (e, h) =
    rw (e, words_from)
      (words_from-last x (xs ++ y ∷ []) ys h ∙ ap (λ s. (x ∷ s) ∷ []) (append_assoc xs (y ∷ []) ys))

words_from-one : (w : Bytes) → IsWord w → words_from [] w ≡ w ∷ []
unfolding words_from
words_from-one [] h = absurd (h.0 refl)
words_from-one (x ∷ xs) (ne, (e, h)) = rw (e, words_from) (words_from-last x [] xs h)

-- No line is that of the name.
abbrev pub HasNoLine : Bytes → List Bytes → Type 0
HasNoLine name = All (λ l. is_line_of name l ≡ false)

next_id-last :
    (name : Bytes) (n : ℕ) (lines : List Bytes) (w : World)
    → n < 2 ^ 64
    → HasNoLine name lines
    → next_id name (lines ++ id_line name n ∷ []) w ≡ (returns (to_string (suc n % 2 ^ 64)), w)
unfolding next_id
next_id-last name n [] w h a = next_id-first name n [] w h
next_id-last name n (l ∷ lines) w h (e, a) = rw (e, next_id) (next_id-last name n lines w h a)

-- A line appended to a file that has none for the name.
pub next_id-appended :
    (name content : Bytes) (n : ℕ) (w : World)
    → NoBlank name
    → n < 2 ^ 64
    → HasNoLine name (words content)
    → next_id name (words (content ++ b'\n' ∷ id_line name n)) w
      ≡ (returns (to_string (suc n % 2 ^ 64)), w)
unfolding words
next_id-appended name content n w h k a =
    ap (λ ws. next_id name ws w)
      (words_from-newline [] content (id_line name n)
        ∙ ap (λ ws. words_from [] content ++ ws)
            (words_from-one (id_line name n) (id_line-IsWord name n h)))
    ∙ next_id-last name n (words_from [] content) w k a
