-- ===== src/Runtime/Contents.antt =====
-- The contents of the regular files, as a map from paths, and what the changes of Runtime/Disk leave of
-- it.
use dinner_is_servered.Prelude.{
  some-injective, Bool, true, false, Bool-cases, ◌≡◌, ◌≢◌, refl, sym, ap, ◌∙◌, subst, ◌⊎◌, inl, inr,
  List, [], ◌∷◌, ◌++◌, Option, none, some, Bytes, if◌then◌else◌,
}
use dinner_is_servered.Runtime.Files.{
  Node, directory, regular, FilePath, FileSystem, parts_of, same_path, same_path_iff, entry, status,
}
use dinner_is_servered.Runtime.Disk.{
  put, delete_entry, write, make_directories, create_directories, remove_node, remove, entry-put,
  entry-delete_entry, below,
}

abbrev pub text_of : Option Node → Option Bytes
text_of none = none
text_of (some directory) = none
text_of (some (regular content)) = some content

abbrev pub content_at : FilePath → FileSystem → Option Bytes
content_at q fs = text_of (entry q fs)

pub distinct_paths : (p q : FilePath) → q ≢ p → same_path p q ≡ false
distinct_paths p q h = elim (Bool-cases (same_path p q)) [
  | inl e ↦ absurd (h (sym ((same_path_iff p q).0 e)))
  | inr e ↦ e
]

true-ne-false : true ≢ false
true-ne-false e = absurd cc

entry-put_other :
    (p q : FilePath) (n : Node) (fs : FileSystem) → q ≢ p → entry q (put p n fs) ≡ entry q fs
unfolding entry put
entry-put_other p q n [] h = rw (distinct_paths p q h) refl
entry-put_other p q n ((r, m) ∷ fs) h = elim (Bool-cases (same_path r p)) [
  | inl e ↦
      let other : same_path r q ≡ false =
        ap (λ x. same_path x q) ((same_path_iff r p).0 e) ∙ distinct_paths p q h in
      rw e (rw (distinct_paths p q h) (rw other refl))
  | inr e ↦ rw e (ap (λ x. if same_path r q then some m else x) (entry-put_other p q n fs h))
]

entry-delete_other :
    (p q : FilePath) (fs : FileSystem) → q ≢ p → entry q (delete_entry p fs) ≡ entry q fs
unfolding entry delete_entry
entry-delete_other p q [] h = refl
entry-delete_other p q ((r, m) ∷ fs) h = elim (Bool-cases (same_path r p)) [
  | inl e ↦
      let other : same_path r q ≡ false =
        ap (λ x. same_path x q) ((same_path_iff r p).0 e) ∙ distinct_paths p q h in
      rw e (rw other (entry-delete_other p q fs h))
  | inr e ↦ rw e (ap (λ x. if same_path r q then some m else x) (entry-delete_other p q fs h))
]

entry-status : (fs : FileSystem) (p : FilePath) → status fs p ≡ none → entry p fs ≡ none
unfolding status
entry-status fs [] h = absurd cc
entry-status fs ([] ∷ []) h = absurd cc
entry-status fs ([] ∷ q ∷ ps) h = h
entry-status fs ((x ∷ xs) ∷ ps) h = h

-- The tests of one path and another, by a flag.
pub same_path-cases : (p q : FilePath) → (p ≡ q) ⊎ (q ≢ p)
same_path-cases p q = elim (Bool-cases (same_path p q)) [
  | inl e ↦ inl ((same_path_iff p q).0 e)
  | inr e ↦ inr (λ z. absurd (true-ne-false (sym ((same_path_iff p q).1 (sym z)) ∙ e)))
]

-- A new directory has no content, as nothing before it.
content_at-new_directory :
    (p q : FilePath) (fs : FileSystem)
    → status fs p ≡ none
    → content_at q (put p directory fs) ≡ content_at q fs
content_at-new_directory p q fs h = elim (same_path-cases p q) [
  | inl same ↦
      subst (λ r. content_at r (put p directory fs) ≡ content_at r fs) same
        (ap text_of (entry-put p directory fs) ∙ sym (ap text_of (entry-status fs p h)))
  | inr other ↦ ap text_of (entry-put_other p q directory fs other)
]

Node-cases :
    (o : Option Node) → (o ≡ none) ⊎ (o ≡ some directory) ⊎ ((c : Bytes) × (o ≡ some (regular c)))
Node-cases none = inl refl
Node-cases (some directory) = inr (inl refl)
Node-cases (some (regular c)) = inr (inr (c, refl))

content_at-make_directories :
    (q done ps : FilePath) (fs fs' : FileSystem)
    → make_directories done ps fs ≡ some fs'
    → content_at q fs' ≡ content_at q fs
unfolding make_directories
content_at-make_directories q done [] fs fs' h = ap (content_at q) (sym (some-injective _ _ h))
content_at-make_directories q done (p ∷ ps) fs fs' h =
    elim (Node-cases (status fs (done ++ p ∷ []))) [
      | inl e ↦
          content_at-make_directories q (done ++ p ∷ []) ps (put (done ++ p ∷ []) directory fs) fs'
            (rw (e, make_directories) at h)
          ∙ content_at-new_directory (done ++ p ∷ []) q fs e
      | inr (inl e) ↦
          content_at-make_directories q (done ++ p ∷ []) ps fs fs' (rw (e, make_directories) at h)
      | inr (inr (c, e)) ↦ let z : none ≡ some fs' = rw (e, make_directories) at h in absurd cc
    ]

pub content_at-create_directories :
    (q : FilePath) (path : Bytes) (fs fs' : FileSystem)
    → create_directories path fs ≡ some fs'
    → content_at q fs' ≡ content_at q fs
unfolding create_directories
content_at-create_directories q [] fs fs' h = absurd cc
content_at-create_directories q (c ∷ cs) fs fs' h =
    content_at-make_directories q [] (parts_of (c ∷ cs)) fs fs' h

pub content_at-write :
    (q : FilePath) (path content : Bytes) (fs : FileSystem)
    → q ≢ parts_of path
    → content_at q (write path content fs) ≡ content_at q fs
unfolding write
content_at-write q path content fs h =
    ap text_of (entry-put_other (parts_of path) q (regular content) fs h)

pub content_at-written :
    (path content : Bytes) (fs : FileSystem)
    → content_at (parts_of path) (write path content fs) ≡ some content
unfolding write
content_at-written path content fs = ap text_of (entry-put (parts_of path) (regular content) fs)

-- What is at `q` where there is nothing at `p`.
abbrev pub cleared : FilePath → FilePath → Option Bytes → Option Bytes
cleared p q o = if same_path q p then none else o

content_at-delete_entry :
    (p q : FilePath) (fs : FileSystem)
    → content_at q (delete_entry p fs) ≡ cleared p q (content_at q fs)
content_at-delete_entry p q fs = elim (same_path-cases p q) [
  | inl same ↦
      subst (λ r. content_at r (delete_entry p fs) ≡ cleared p r (content_at r fs)) same
        (ap text_of (entry-delete_entry p fs)
          ∙ sym (ap (λ b. if b then none else content_at p fs) ((same_path_iff p p).1 refl)))
  | inr other ↦
      ap text_of (entry-delete_other p q fs other)
      ∙ sym (
          ap (λ b. if b then none else content_at q fs)
            (distinct_paths q p (λ e. absurd (other (sym e)))))
]

Nil-cases : {A : Type 0} (xs : List A) → (xs ≡ []) ⊎ ((x : A) × (ys : List A) × (xs ≡ x ∷ ys))
Nil-cases [] = inl refl
Nil-cases (x ∷ xs) = inr (x, xs, refl)

-- What the removal of a file leaves; the flag is whether there was one.
abbrev left_by : FilePath → FilePath → FileSystem → Bool → Option Bytes
left_by p q fs b = if b then cleared p q (content_at q fs) else content_at q fs

left_by-result :
    (p q : FilePath) (fs : FileSystem) (u v : FileSystem × Bool)
    → some u ≡ some v
    → content_at q u.0 ≡ left_by p q fs u.1
    → content_at q v.0 ≡ left_by p q fs v.1
left_by-result p q fs u v h k =
    let e = some-injective u v h in
    sym (ap (λ x. content_at q x.0) e) ∙ k ∙ ap (λ x. left_by p q fs x.1) e

content_at-remove_node :
    (p q : FilePath) (o : Option Node) (fs fs' : FileSystem) (b : Bool)
    → remove_node p o fs ≡ some (fs', b)
    → content_at q fs' ≡ left_by p q fs b
unfolding remove_node
content_at-remove_node p q none fs fs' b h = left_by-result p q fs (fs, false) (fs', b) h refl
content_at-remove_node p q (some (regular content)) fs fs' b h =
    left_by-result p q fs (delete_entry p fs, true) (fs', b) h (content_at-delete_entry p q fs)
content_at-remove_node p q (some directory) fs fs' b h = elim (Nil-cases (below p fs)) [
  | inl e ↦
      left_by-result p q fs (delete_entry p fs, true) (fs', b) (rw (e, remove_node) at h)
        (content_at-delete_entry p q fs)
  | inr (x, xs, e) ↦ let z = rw (e, remove_node) at h in absurd cc
]

pub content_at-remove :
    (q : FilePath) (path : Bytes) (fs fs' : FileSystem) (b : Bool)
    → remove path fs ≡ some (fs', b)
    → content_at q fs'
      ≡ (if b then cleared (parts_of path) q (content_at q fs) else content_at q fs)
unfolding remove
content_at-remove q path fs fs' b h =
    content_at-remove_node (parts_of path) q (status fs (parts_of path)) fs fs' b h
