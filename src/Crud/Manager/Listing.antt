-- ===== src/Crud/Manager/Listing.antt =====
-- listObjects: the names are in order, and are those of the files in the directory of the entity.
use dinner_is_servered.Prelude.{
  Bool, true, false, inl, inr, ◌≡◌, ◌≢◌, ◌↔◌, refl, sym, ap, ap₂, subst, ◌∙◌, List, [], ◌∷◌, ◌++◌,
  some, Bytes, if◌then◌else◌,
}
use dinner_is_servered.Runtime.{World, returns}
use dinner_is_servered.Runtime.Files.{
  Node, directory, regular, FilePath, FileSystem, parts_of, same_path, same_path_iff, status,
}
use dinner_is_servered.Runtime.Disk.{parent, below}
use dinner_is_servered.Runtime.Quiet.{
  OnlyLogs, OnlyLogs-pure, OnlyLogs-gets, OnlyLogs-bind, OnlyLogs-cast,
}
use dinner_is_servered.Dispatch.Routes.{CrudPath}
use dinner_is_servered.Crud.Ids.{entity_directory}
use dinner_is_servered.Crud.Manager.{last_part, file_names, sort, names_below, list_objects}
use dinner_is_servered.Crud.Manager.Sorted.{Elem, IsSorted, sort-IsSorted, Elem-sort}

parent-append : (p : FilePath) (n : Bytes) → parent (p ++ n ∷ []) ≡ p
unfolding parent
parent-append [] n = refl
parent-append (x ∷ []) n = refl
parent-append (x ∷ y ∷ p) n = ap (◌∷◌ x) (parent-append (y ∷ p) n)

last_part-append : (p : FilePath) (n : Bytes) → last_part (p ++ n ∷ []) ≡ n
unfolding last_part
last_part-append [] n = refl
last_part-append (x ∷ []) n = refl
last_part-append (x ∷ y ∷ p) n = last_part-append (y ∷ p) n

parent-last_part : (x : Bytes) (p : FilePath) → x ∷ p ≡ parent (x ∷ p) ++ last_part (x ∷ p) ∷ []
unfolding parent last_part
parent-last_part x [] = refl
parent-last_part x (y ∷ p) = ap (◌∷◌ x) (parent-last_part y p)

append-ne-nil : (p : FilePath) (n : Bytes) → p ++ n ∷ [] ≢ []
append-ne-nil [] n h = absurd cc
append-ne-nil (x ∷ p) n h = absurd cc

-- A regular file of the name `n` right in the directory `p`.
abbrev pub IsIn : FilePath → FileSystem → Bytes → Type 0
IsIn p fs n = (content : Bytes) × Elem (p ++ n ∷ [], regular content) fs

module _ (p : FilePath) (n : Bytes) where
  abbrev Listed : FileSystem → Type 0
  Listed fs = Elem n (file_names (below p fs))

  -- The entry that stands first, by whether its path is right in the directory.
  first-Elem :
      (x : Bytes) (xs : FilePath) (node : Node) (fs : FileSystem) (b : Bool)
      → same_path (parent (x ∷ xs)) p ≡ b
      → (Listed fs → IsIn p fs n)
      → Elem n (file_names (if b then (x ∷ xs, node) ∷ below p fs else below p fs))
      → IsIn p ((x ∷ xs, node) ∷ fs) n
  unfolding file_names
  first-Elem x xs directory fs true e rest h = let (c, m) = rest h in (c, inr m)
  first-Elem x xs (regular c) fs true e rest (inl k) =
      let path : x ∷ xs ≡ p ++ n ∷ [] =
        parent-last_part x xs
        ∙ ap₂ (λ (q : FilePath) m. q ++ m ∷ []) ((same_path_iff (parent (x ∷ xs)) p).0 e) k in
      (c, inl (ap (λ (q : FilePath). (q, regular c)) path))
  first-Elem x xs (regular c) fs true e rest (inr h) = let (c', m) = rest h in (c', inr m)
  first-Elem x xs node fs false e rest h = let (c, m) = rest h in (c, inr m)

  below-Elem : (fs : FileSystem) → Listed fs → IsIn p fs n
  unfolding below file_names
  below-Elem [] h = absurd h
  below-Elem (([], node) ∷ fs) h = let (c, m) = below-Elem fs h in (c, inr m)
  below-Elem ((x ∷ xs, node) ∷ fs) h = first-Elem x xs node fs _ refl (below-Elem fs) h

  skip_first :
      (entry : FilePath × Node) (fs : FileSystem) (b : Bool)
      → Listed fs
      → Elem n (file_names (if b then entry ∷ below p fs else below p fs))
  unfolding file_names
  skip_first (q, directory) fs true h = h
  skip_first (q, regular c) fs true h = inr h
  skip_first entry fs false h = h

  later-Listed :
      (q : FilePath) (node : Node) (fs : FileSystem) → Listed fs → Listed ((q, node) ∷ fs)
  unfolding below
  later-Listed [] node fs h = h
  later-Listed (x ∷ xs) node fs h = skip_first (x ∷ xs, node) fs (same_path (parent (x ∷ xs)) p) h

  first-Listed :
      (q : FilePath) (c : Bytes) (fs : FileSystem)
      → q ≢ []
      → parent q ≡ p
      → last_part q ≡ n
      → Listed ((q, regular c) ∷ fs)
  unfolding below file_names
  first-Listed [] c fs h e k = absurd (h refl)
  first-Listed (x ∷ xs) c fs h e k = rw ((same_path_iff (parent (x ∷ xs)) p).1 e) (inl k)

  Elem-below :
      (fs : FileSystem) (content : Bytes) → Elem (p ++ n ∷ [], regular content) fs → Listed fs
  Elem-below [] c h = absurd h
  Elem-below ((q, node) ∷ fs) c (inl e) =
      subst (λ z. Listed (z ∷ fs)) (sym e)
        (first-Listed (p ++ n ∷ []) c fs (append-ne-nil p n) (parent-append p n)
          (last_part-append p n))
  Elem-below ((q, node) ∷ fs) c (inr h) = later-Listed q node fs (Elem-below fs c h)

names_in : FileSystem → FilePath → List Bytes
names_in fs p = sort (file_names (below p fs))

-- The path that listObjects iterates over.
abbrev pub listed_path : CrudPath → FilePath
listed_path path = parts_of (entity_directory path ++ b'/' ∷ [])

-- The names in order, and just those of the regular files right in the directory.
pub record IsListing (p : FilePath) (fs : FileSystem) (names : List Bytes) : Type 0 where
  pub sorted : IsSorted names
  pub listed : (n : Bytes) → Elem n names ↔ IsIn p fs n

names_in-IsListing : (fs : FileSystem) (p : FilePath) → IsListing p fs (names_in fs p)
unfolding names_in
names_in-IsListing fs p = record {
  sorted = sort-IsSorted (file_names (below p fs));
  listed = λ n.
      let s = Elem-sort n (file_names (below p fs)) in
      (λ h. below-Elem p n fs (s.0 h), λ h. let (c, m) = h in s.1 (Elem-below p n fs c m));
}

pub list_objects-IsListing :
    (path : CrudPath) (w : World)
    → status w.files (listed_path path) ≡ some directory
    → (names : List Bytes) × OnlyLogs (list_objects path) w (returns names)
      × IsListing (listed_path path) w.files names
unfolding list_objects names_below names_in
list_objects-IsListing path w h =
    let p = listed_path path in
    (
      names_in w.files p,
      OnlyLogs-bind _ _ w (some directory) _
          (OnlyLogs-cast _ w _ _ (ap returns h) (OnlyLogs-gets w _))
          (λ w' q.
            OnlyLogs-bind _ _ w' (file_names (below p w.files)) _
              (OnlyLogs-cast _ w' _ _ (ap (λ fs. returns (file_names (below p fs))) q.files)
                (OnlyLogs-gets w' _))
              (λ w'' q'. OnlyLogs-pure w'' _)),
      names_in-IsListing w.files p,
    )
