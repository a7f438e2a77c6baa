-- ===== src/Crud/Manager/Sorted.antt =====
-- The sort of listObjects.
use dinner_is_servered.Prelude.{
  Bool-cases, ◌⊎◌, inl, inr, ◌≡◌, ◌↔◌, refl, false, true, List, [], ◌∷◌, Bytes, arith,
}
use dinner_is_servered.Runtime.Dictionary.{less}
use dinner_is_servered.Crud.Manager.{insert, sort}

abbrev pub Elem : {A : Type 0} → A → List A → Type 0
Elem a [] = ⊥
Elem a (x ∷ xs) = (x ≡ a) ⊎ Elem a xs

-- No name is less than the one before it.
abbrev pub IsSorted : List Bytes → Type 0
IsSorted [] = Unit
IsSorted (n ∷ []) = Unit
IsSorted (n ∷ m ∷ names) = (less m n ≡ false) × IsSorted (m ∷ names)

less_asym : (a b : Bytes) → less a b ≡ true → less b a ≡ false
unfolding less
less_asym [] [] h = absurd cc
less_asym [] (y ∷ ys) h = refl
less_asym (x ∷ xs) [] h = absurd cc
less_asym (x ∷ xs) (y ∷ ys) h = ground (arith, less_asym xs ys)

-- A name that is put in behind a name that is no greater.
insert-IsSorted_behind :
    (n name : Bytes) (names : List Bytes)
    → less name n ≡ false
    → IsSorted (n ∷ names)
    → IsSorted (n ∷ insert name names)
unfolding insert
insert-IsSorted_behind n name [] h s = (h, tt)
insert-IsSorted_behind n name (m ∷ names) h (k, s) = elim (Bool-cases (less m name)) [
  | inl e ↦ rw e (k, insert-IsSorted_behind m name names (less_asym m name e) s)
  | inr e ↦ rw e (h, (e, s))
]

insert-IsSorted :
    (name : Bytes) (names : List Bytes) → IsSorted names → IsSorted (insert name names)
unfolding insert
insert-IsSorted name [] s = tt
insert-IsSorted name (n ∷ names) s = elim (Bool-cases (less n name)) [
  | inl e ↦ rw e (insert-IsSorted_behind n name names (less_asym n name e) s)
  | inr e ↦ rw e (e, s)
]

pub sort-IsSorted : (names : List Bytes) → IsSorted (sort names)
unfolding sort
sort-IsSorted [] = tt
sort-IsSorted (name ∷ names) = insert-IsSorted name (sort names) (sort-IsSorted names)

module _ {A B C : Type 0} where
  -- The first two of three cases, in the other order.
  swap_first : A ⊎ (B ⊎ C) → B ⊎ (A ⊎ C)
  swap_first (inl a) = inr (inl a)
  swap_first (inr (inl b)) = inl b
  swap_first (inr (inr c)) = inr (inr c)

  map_right : (B → C) → A ⊎ B → A ⊎ C
  map_right f (inl a) = inl a
  map_right f (inr b) = inr (f b)

module _ (n : Bytes) where
  Elem-insert :
      (name : Bytes) (names : List Bytes) → Elem n (insert name names) ↔ Elem n (name ∷ names)
  unfolding insert
  Elem-insert name [] = (λ h. h, λ h. h)
  Elem-insert name (m ∷ names) =
      let rest = Elem-insert name names in
      elim (Bool-cases (less m name)) [
        | inl e ↦ rw e (λ h. swap_first (map_right rest.0 h), λ h. map_right rest.1 (swap_first h))
        | inr e ↦ rw e (λ h. h, λ h. h)
      ]

  pub Elem-sort : (names : List Bytes) → Elem n (sort names) ↔ Elem n names
  unfolding sort
  Elem-sort [] = (λ h. h, λ h. h)
  Elem-sort (name ∷ names) =
      let put_in = Elem-insert name (sort names) in
      let rest = Elem-sort names in
      (λ h. map_right rest.0 (put_in.0 h), λ h. put_in.1 (map_right rest.1 h))
