-- ===== src/App/Form/Places.antt =====
-- Where the value of a field stands in the form that app_pages/landing_page.js sends.
use dinner_is_servered.Prelude.{
  ℕ, suc, ◌+◌, ◌≡◌, inl, inr, refl, sym, ap, ◌∙◌, if◌then◌else◌, subst, Bool, Bool-cases, true,
  false, List, [], ◌∷◌, ◌++◌, append_assoc, Bytes, equal, arith, begins_with, length, length-append,
}
use dinner_is_servered.Runtime.Search.{find_at}
use dinner_is_servered.App.Form.{crlf}
use dinner_is_servered.App.Form.Lines.{no_cr, find_at-line, find_at-here}
use dinner_is_servered.App.Form.Parts.{
  FieldName, same_name, header_tail, Parts, delimiter, form_text, values, all_no_cr,
}
use dinner_is_servered.App.Form.Headers.{
  header-no_cr, header_of, headers-no_suffix, form-begins, same_name-same, target,
}

-- Where the value of the first field of a name stands in a form that begins at `n`.
pub record Found (boundary : Bytes) (name : FieldName) (n : ℕ) (body value : Bytes)
    (others : List Bytes) : Type 0 where
  pub before : Bytes
  pub parts : Parts
  pub splits : body ≡ before ++ (value ++ (crlf ++ form_text boundary parts))
  pub place : find_at n body (target name) + length (target name) ≡ n + length before
  pub left : values name parts ≡ others
  pub clean : all_no_cr parts ≡ true
  pub value_clean : no_cr value ≡ true

module _ (boundary : Bytes) (name : FieldName) (clean_boundary : no_cr boundary ≡ true) where
  -- A line of the delimiter.
  find_at-delimiter :
      (c : ℕ) (rest : Bytes) (n : ℕ)
      → begins_with (c ∷ rest) crlf ≡ false
      → find_at n (delimiter boundary ++ (crlf ++ (c ∷ rest))) (target name)
        ≡ find_at (n + (length (delimiter boundary) + 2)) (c ∷ rest) (target name)
  find_at-delimiter c rest n h =
      find_at-line (header_tail name) (delimiter boundary) (c ∷ rest) n clean_boundary
        (header-no_cr name) (inr h)

  abbrev pub part_text : FieldName → Bytes → Bytes → Bytes
  part_text m u rest =
      delimiter boundary ++ (crlf ++ (header_of m ++ (crlf ++ (crlf ++ (u ++ (crlf ++ rest))))))

  -- A part of another name is passed over.
  find_at-part :
      (m : FieldName) (u : Bytes) (parts : Parts) (n : ℕ)
      → same_name m name ≡ false
      → no_cr u ≡ true
      → find_at n (part_text m u (form_text boundary parts)) (target name)
        ≡ find_at
            (n
              + (length (delimiter boundary) + 2)
              + (length (header_of m) + 2)
              + 2
              + (length u + 2))
            (form_text boundary parts)
            (target name)
  unfolding begins_with equal
  find_at-part m u parts n d p =
      find_at-delimiter b'C' _ n refl
      ∙ find_at-line (header_tail name) (header_of m) _ _ (header-no_cr m) (header-no_cr name)
          (inl (headers-no_suffix m name d))
      ∙ find_at-line (header_tail name) [] _ _ refl (header-no_cr name) (inl refl)
      ∙ find_at-line (header_tail name) u (form_text boundary parts) _ p (header-no_cr name)
          (inr (form-begins boundary parts))

  place-first :
      (u rest : Bytes) (n : ℕ)
      → find_at n (part_text name u rest) (target name) + length (target name)
        ≡ n + length (delimiter boundary ++ (crlf ++ target name))
  unfolding begins_with
  place-first u rest n =
      let e =
        find_at-delimiter b'C' _ n refl
        ∙ ap (λ s. find_at (n + (length (delimiter boundary) + 2)) s (target name))
            (sym (append_assoc (header_of name) (crlf ++ crlf) (u ++ (crlf ++ rest))))
        ∙ find_at-here (target name) (u ++ (crlf ++ rest)) _ in
      ap (λ k. k + length (target name)) e
      ∙ steps n (length (delimiter boundary)) (length (target name))
      ∙ ap (λ k. n + k) (sym (length-append (delimiter boundary) (crlf ++ target name)))
    where
      steps : (n d t : ℕ) → n + (d + 2) + t ≡ n + (d + suc (suc t))
      steps n d t = omega arith

  part_text-splits :
      (u rest : Bytes)
      → part_text name u rest
        ≡ (delimiter boundary ++ (crlf ++ target name)) ++ (u ++ (crlf ++ rest))
  part_text-splits u rest =
      ap (λ s. delimiter boundary ++ (crlf ++ s))
        (sym (append_assoc (header_of name) (crlf ++ crlf) (u ++ (crlf ++ rest))))
      ∙ sym (append_assoc (delimiter boundary) (crlf ++ target name) (u ++ (crlf ++ rest)))

  part_text-append : (m : FieldName) (u a b : Bytes) → part_text m u (a ++ b) ≡ part_text m u a ++ b
  part_text-append m u a b = simp append_assoc

  pub length-part_text :
      (m : FieldName) (u a : Bytes)
      → length (part_text m u a)
        ≡ length (delimiter boundary)
          + 2
          + (length (header_of m) + 2)
          + 2
          + (length u + 2)
          + length a
  length-part_text m u a =
      let value = u ++ (crlf ++ a) in
      omega (
        arith,
        length-append boundary (crlf ++ (header_of m ++ (crlf ++ (crlf ++ value)))),
        length-append (header_tail m) (crlf ++ (crlf ++ value)),
        length-append u (crlf ++ a),
      )

  Found-here :
      (m : FieldName) (u : Bytes) (parts : Parts) (n : ℕ)
      → m ≡ name
      → all_no_cr ((m, u) ∷ parts) ≡ true
      → Found boundary name n (part_text m u (form_text boundary parts)) u (values name parts)
  Found-here m u parts n e p = record {
    before = delimiter boundary ++ (crlf ++ target name);
    parts = parts;
    splits = ap (λ x. part_text x u (form_text boundary parts)) e ∙ part_text-splits u _;
    place =
        subst
          (λ x.
            find_at n (part_text x u (form_text boundary parts)) (target name)
              + length (target name)
            ≡ n + length (delimiter boundary ++ (crlf ++ target name)))
          (sym e) (place-first u (form_text boundary parts) n);
    left = refl;
    clean = ground (arith, p);
    value_clean = ground (arith, p);
  }

  Found-behind :
      (m : FieldName) (u : Bytes) (parts : Parts) (n : ℕ) (value : Bytes) (others : List Bytes)
      → same_name m name ≡ false
      → all_no_cr ((m, u) ∷ parts) ≡ true
      → Found boundary name
          (n + (length (delimiter boundary) + 2) + (length (header_of m) + 2) + 2 + (length u + 2))
          (form_text boundary parts)
          value
          others
      → Found boundary name n (form_text boundary ((m, u) ∷ parts)) value others
  Found-behind m u parts n value others e p f = record {
    before = part_text m u f.before;
    parts = f.parts;
    splits = ap (part_text m u) f.splits ∙ part_text-append m u f.before _;
    place =
        ap (λ k. k + length (target name)) (find_at-part m u parts n e (ground (arith, p)))
        ∙ f.place
        ∙ omega (arith, length-part_text m u f.before);
    left = f.left;
    clean = f.clean;
    value_clean = f.value_clean;
  }

  same_value :
      (u value : Bytes) (us others : List Bytes)
      → u ∷ us ≡ value ∷ others
      → (u ≡ value) × (us ≡ others)
  same_value u value us others h = (cc, cc)

  values-same :
      (m : FieldName) (u : Bytes) (parts : Parts) (b : Bool)
      → same_name m name ≡ b
      → values name ((m, u) ∷ parts) ≡ (if b then u ∷ values name parts else values name parts)
  values-same m u parts b e = rw e refl

  pub find_place :
      (parts : Parts) (n : ℕ) (value : Bytes) (others : List Bytes)
      → all_no_cr parts ≡ true
      → values name parts ≡ value ∷ others
      → Found boundary name n (form_text boundary parts) value others
  find_place [] n value others p h = absurd cc
  find_place ((m, u) ∷ parts) n value others p h = elim (Bool-cases (same_name m name)) [
    | inl e ↦
        let (f, g) =
          same_value u value (values name parts) others (sym (values-same m u parts true e) ∙ h) in
        subst (λ v. Found boundary name n (part_text m u (form_text boundary parts)) v others) f
          (subst (λ o. Found boundary name n (part_text m u (form_text boundary parts)) u o) g
            (Found-here m u parts n (same_name-same m name e) p))
    | inr e ↦ Found-behind m u parts n value others e p (
        find_place parts _ value others (ground (arith, p))
          (sym (values-same m u parts false e) ∙ h))
  ]
