-- ===== src/Crud/Ids/Replace.antt =====
-- generateEntityId behind the rewriting of the file by writeEntityId.
use mathlib.Core.List.{map}
use dinner_is_servered.Prelude.{
  ℕ, zero, suc, ◌+◌, ◌/◌, ltb, ◌%◌, ◌^◌, ◌<◌, ◌≡◌, ◌≢◌, ◌⊎◌, inl, inr, refl, sym, ap, ◌∙◌, true,
  false, List, [], ◌∷◌, ◌++◌, append-nil, append_assoc, Bytes, arith, length, take, drop, equal_iff,
  if◌then◌else◌, Bool-cases, All, All-append,
}
use dinner_is_servered.Runtime.{World, returns, pure, lift, ◌>>=◌}
use dinner_is_servered.Runtime.Numbers.{is_blank, digits, to_string}
use dinner_is_servered.Runtime.Words.{words, words_from}
use dinner_is_servered.Runtime.Decimal.{stoull-to_string}
use dinner_is_servered.Crud.Ids.{is_line_of, size_of, next_id, replace_ids}

abbrev pub NoBlank : Bytes → Type 0
NoBlank = All (λ c. is_blank c ≡ false)

abbrev pub IsWord : Bytes → Type 0
IsWord w = (w ≢ []) × NoBlank w

cons-ne_nil : (c : ℕ) (cs : Bytes) → (c ∷ cs) ≢ []
cons-ne_nil c cs e = absurd cc

words_from-IsWord : (w s : Bytes) → NoBlank w → All IsWord (words_from w s)
unfolding words_from
words_from-IsWord [] [] h = tt
words_from-IsWord (x ∷ xs) [] h = ((cons-ne_nil x xs, h), tt)
words_from-IsWord [] (c ∷ s) h = elim (Bool-cases (is_blank c)) [
  | inl e ↦ rw (e, words_from) (words_from-IsWord [] s tt)
  | inr e ↦ rw (e, words_from) (words_from-IsWord (c ∷ []) s (e, tt))
]
words_from-IsWord (x ∷ xs) (c ∷ s) h = elim (Bool-cases (is_blank c)) [
  | inl e ↦ rw (e, words_from) ((cons-ne_nil x xs, h), words_from-IsWord [] s tt)
  | inr e ↦
      rw (e, words_from)
        (words_from-IsWord (x ∷ (xs ++ c ∷ [])) s (h.0, All-append _ xs (c ∷ []) h.1 (e, tt)))
]

words_from-nil : words_from [] [] ≡ []
unfolding words_from
words_from-nil = refl

words_from-line :
    (x : ℕ) (xs ys rest : Bytes)
    → NoBlank ys
    → words_from (x ∷ xs) (ys ++ b'\n' ∷ rest) ≡ (x ∷ (xs ++ ys)) ∷ words_from [] rest
unfolding words_from
words_from-line x xs [] rest h = ap (λ s. (x ∷ s) ∷ words_from [] rest) (sym (append-nil xs))
words_from-line x xs (y ∷ ys) rest (e, h) =
    rw (e, words_from)
      (words_from-line x (xs ++ y ∷ []) ys rest h
        ∙ ap (λ s. (x ∷ s) ∷ words_from [] rest) (append_assoc xs (y ∷ []) ys))

words_from-word :
    (w rest : Bytes) → IsWord w → words_from [] (w ++ b'\n' ∷ rest) ≡ w ∷ words_from [] rest
unfolding words_from
words_from-word [] rest h = absurd (h.0 refl)
words_from-word (x ∷ xs) rest (ne, (e, h)) = rw (e, words_from) (words_from-line x [] xs rest h)

digits-NoBlank : (fuel n : ℕ) (s : Bytes) → NoBlank s → NoBlank (digits fuel n s)
unfolding digits
digits-NoBlank zero n s h = h
digits-NoBlank (suc fuel) n s h =
    let d : is_blank (48 + n % 10) ≡ false = ground arith in
    elim (Bool-cases (ltb n 10)) [
      | inl e ↦ rw (e, digits) (d, h)
      | inr e ↦ rw (e, digits) (digits-NoBlank fuel (n / 10) _ (d, h))
    ]

-- The line of a name.
abbrev pub id_line : Bytes → ℕ → Bytes
id_line name max_id = name ++ (b':' ∷ to_string max_id)

pub id_line-IsWord : (name : Bytes) (max_id : ℕ) → NoBlank name → IsWord (id_line name max_id)
unfolding to_string
id_line-IsWord [] n h = (cons-ne_nil _ _, (refl, digits-NoBlank (suc n) n [] tt))
id_line-IsWord (c ∷ name) n h =
    (cons-ne_nil _ _, (h.0, All-append _ name _ h.1 (refl, digits-NoBlank (suc n) n [] tt)))

abbrev replaced : Bytes → ℕ → Bytes → Bytes
replaced name max_id line = if is_line_of name line then id_line name max_id else line

words-replace_ids :
    (name : Bytes) (max_id : ℕ) (lines : List Bytes)
    → NoBlank name
    → All IsWord lines
    → words_from [] (replace_ids name max_id lines) ≡ map (replaced name max_id) lines
unfolding replace_ids
words-replace_ids name n [] h a = words_from-nil
words-replace_ids name n (l ∷ lines) h (k, a) = elim (Bool-cases (is_line_of name l)) [
  | inl e ↦ rw e (
      words_from-word (id_line name n) _ (id_line-IsWord name n h)
      ∙ ap (λ ws. id_line name n ∷ ws) (words-replace_ids name n lines h a))
  | inr e ↦ rw e (words_from-word l _ k ∙ ap (λ ws. l ∷ ws) (words-replace_ids name n lines h a))
]

take-id_line :
    (name rest : Bytes) → take (suc (length name)) (name ++ b':' ∷ rest) ≡ name ++ b':' ∷ []
take-id_line [] rest = refl
take-id_line (c ∷ name) rest = ap (λ s. c ∷ s) (take-id_line name rest)

drop-id_line : (name rest : Bytes) → drop (suc (length name)) (name ++ b':' ∷ rest) ≡ rest
drop-id_line [] rest = refl
drop-id_line (c ∷ name) rest = drop-id_line name rest

is_line_of-id_line : (name : Bytes) (n : ℕ) → is_line_of name (id_line name n) ≡ true
unfolding is_line_of
is_line_of-id_line name n = (equal_iff _ _).1 (take-id_line name (to_string n))

-- Some line is that of the name.
abbrev pub HasLine : Bytes → List Bytes → Type 0
HasLine name [] = ⊥
HasLine name (l ∷ lines) = (is_line_of name l ≡ true) ⊎ HasLine name lines

pub next_id-first :
    (name : Bytes) (n : ℕ) (lines : List Bytes) (w : World)
    → n < 2 ^ 64
    → next_id name (id_line name n ∷ lines) w ≡ (returns (to_string (suc n % 2 ^ 64)), w)
unfolding next_id size_of lift pure ◌>>=◌
next_id-first name n lines w h =
    rw (is_line_of-id_line name n, next_id)
      (rw (drop-id_line name (to_string n)) (rw (stoull-to_string n h) refl))

next_id-replaced :
    (name : Bytes) (n : ℕ) (lines : List Bytes) (w : World)
    → n < 2 ^ 64
    → HasLine name lines
    → next_id name (map (replaced name n) lines) w ≡ (returns (to_string (suc n % 2 ^ 64)), w)
unfolding next_id
next_id-replaced name n [] w h has = elim has [ ]
next_id-replaced name n (l ∷ lines) w h has = elim (Bool-cases (is_line_of name l)) [
  | inl e ↦ rw e (next_id-first name n _ w h)
  | inr e ↦ rw e (
      rw (e, next_id)
        (next_id-replaced name n lines w h
          (elim has [ inl k ↦ let z : true ≡ false = sym k ∙ e in absurd cc | inr k ↦ k ])))
]

-- The words of a file that has a line for the name, and has been rewritten.
pub next_id-replace_ids :
    (name content : Bytes) (n : ℕ) (w : World)
    → NoBlank name
    → n < 2 ^ 64
    → HasLine name (words content)
    → next_id name (words (replace_ids name n (words content))) w
      ≡ (returns (to_string (suc n % 2 ^ 64)), w)
unfolding words
next_id-replace_ids name content n w h k has =
    ap (λ ls. next_id name ls w)
      (words-replace_ids name n (words content) h (words_from-IsWord [] content tt))
    ∙ next_id-replaced name n (words content) w k has
