-- ===== src/App/Form/Reads.antt =====
-- get_relevant_information and get_images on the form that app_pages/landing_page.js sends.
use dinner_is_servered.Prelude.{
  ◌+◌, ◌<◌, ◌≤◌, ◌^◌, ◌≡◌, inl, inr, sym, ap, Bool-cases, ◌∙◌, true, List, [], ◌∷◌, ◌++◌,
  append_assoc, append-nil, Bytes, arith, length, length-append,
}
use dinner_is_servered.Runtime.{Outcome, returns, and_then}
use dinner_is_servered.Runtime.Search.{npos, find_sub, substr, size_add}
use dinner_is_servered.Runtime.Numbers.{ℤ, to_string, stoi}
use dinner_is_servered.Runtime.Decimal.{stoi-to_string}
use dinner_is_servered.App.Form.{
  crlf, value_index, value_at, get_relevant_information, get_images, images_loop, number_of,
  rounds_of,
}
use dinner_is_servered.App.Form.Lines.{no_cr}
use dinner_is_servered.App.Form.Parts.{
  FieldName, same_name, relevant_info, number_of_images, file_upload, Parts, form_text, values,
  all_no_cr,
}
use dinner_is_servered.App.Form.Headers.{target}
use dinner_is_servered.App.Form.Places.{length-part_text, Found, find_place}
use dinner_is_servered.App.Form.Values.{
  value_index-small, value_at-line, rest-line, zero_plus, length-line, target-relevant_info,
  target-number_of_images, target-file_upload,
}

module _ (boundary : Bytes) (clean_boundary : no_cr boundary ≡ true) where
  -- The first value of a name, with what the text is behind it.
  record Read (name : FieldName) (parts : Parts) (value : Bytes) (others : List Bytes)
      : Type 0 where
    later : Parts
    reads :
        value_at (form_text boundary parts) (value_index (form_text boundary parts) (target name))
        ≡ returns value
    leaves :
        substr
          (form_text boundary parts)
          (size_add
            (find_sub
              (form_text boundary parts)
              crlf
              (value_index (form_text boundary parts) (target name)))
            2)
          npos
        ≡ returns (form_text boundary later)
    later_values : values name later ≡ others
    later_clean : all_no_cr later ≡ true
    shorter : length (form_text boundary later) ≤ length (form_text boundary parts)

  Found-Read :
      (name : FieldName) (parts : Parts) (value : Bytes) (others : List Bytes)
      → length (form_text boundary parts) < 2 ^ 31
      → Found boundary name 0 (form_text boundary parts) value others
      → Read name parts value others
  Found-Read name parts value others small f =
      let body = form_text boundary parts in
      let rest = form_text boundary f.parts in
      let size : length body ≡ length f.before + length value + 2 + length rest =
        ap length f.splits ∙ length-line f.before value rest in
      let index : value_index body (target name) ≡ length f.before =
        value_index-small body (target name) (length f.before)
          (f.place ∙ zero_plus (length f.before)) (omega (arith, size, small)) in
      record {
        later = f.parts;
        reads =
            ap (value_at body) index
            ∙ ap (λ s. value_at s (length f.before)) f.splits
            ∙ value_at-line f.before value rest f.value_clean (omega (arith, size, small));
        leaves =
            ap (λ i. substr body (size_add (find_sub body crlf i) 2) npos) index
            ∙ ap (λ s. substr s (size_add (find_sub s crlf (length f.before)) 2) npos) f.splits
            ∙ rest-line f.before value rest f.value_clean (omega (arith, size, small));
        later_values = f.left;
        later_clean = f.clean;
        shorter = omega (arith, size);
      }

  Read-first :
      (name : FieldName) (parts : Parts) (value : Bytes) (others : List Bytes)
      → all_no_cr parts ≡ true
      → length (form_text boundary parts) < 2 ^ 31
      → values name parts ≡ value ∷ others
      → Read name parts value others
  Read-first name parts value others clean small h =
      Found-Read name parts value others small
        (find_place boundary name clean_boundary parts 0 value others clean h)

  -- There are no more values than bytes.
  values-short :
      (name : FieldName) (parts : Parts)
      → length (values name parts) ≤ length (form_text boundary parts)
  values-short name [] = omega arith
  values-short name ((m, u) ∷ parts) = elim (Bool-cases (same_name m name)) [
    | inl e ↦ rw e (
        omega (
          arith,
          values-short name parts,
          length-part_text boundary name clean_boundary m u (form_text boundary parts),
        ))
    | inr e ↦ rw e (
        omega (
          arith,
          values-short name parts,
          length-part_text boundary name clean_boundary m u (form_text boundary parts),
        ))
  ]

  images_loop-uploads :
      (uploads : List Bytes) (parts : Parts) (images more : List Bytes)
      → all_no_cr parts ≡ true
      → length (form_text boundary parts) < 2 ^ 31
      → values file_upload parts ≡ uploads ++ more
      → images_loop (length uploads) (form_text boundary parts) images ≡ returns (images ++ uploads)
  unfolding images_loop
  images_loop-uploads [] parts images more clean small h = ap returns (sym (append-nil images))
  images_loop-uploads (image ∷ uploads) parts images more clean small h =
      let r = Read-first file_upload parts image (uploads ++ more) clean small h in
      let body = form_text boundary parts in
      let index = value_index body (target file_upload) in
      let take_rest = substr body (size_add (find_sub body crlf index) 2) npos in
      let loop = λ (i s : Bytes). images_loop (length uploads) s (images ++ i ∷ []) in
      ap
        (λ t. and_then (value_at body (value_index body t)) (λ i.
          and_then (substr body (size_add (find_sub body crlf (value_index body t)) 2) npos)
            (loop i)))
        target-file_upload
      ∙ ap (λ o. and_then o (λ i. and_then take_rest (loop i))) r.reads
      ∙ ap (λ o. and_then o (loop image)) r.leaves
      ∙ images_loop-uploads uploads r.later (images ++ image ∷ []) more r.later_clean
          (omega (arith, r.shorter, small)) r.later_values
      ∙ ap returns (append_assoc images (image ∷ []) uploads)

  -- A form as the page sends it, whatever the order of its fields: when no value has a carriage return
  -- in it and the whole is shorter than 2 ^ 31 bytes, get_relevant_information gives the first value of
  -- relevant-info, and get_images, where the first value of number-of-images is the decimal number of
  -- the first images, gives these images, whole and in order.
  pub form-read :
      (parts : Parts) (info : Bytes) (infos uploads more numbers : List Bytes)
      → all_no_cr parts ≡ true
      → length (form_text boundary parts) < 2 ^ 31
      → values relevant_info parts ≡ info ∷ infos
      → values number_of_images parts ≡ to_string (length uploads) ∷ numbers
      → values file_upload parts ≡ uploads ++ more
      → (get_relevant_information (form_text boundary parts) ≡ returns info)
        × (get_images (form_text boundary parts) ≡ returns uploads)
  unfolding get_relevant_information get_images number_of rounds_of
  form-read parts info infos uploads more numbers clean small h k l =
      let i = Read-first relevant_info parts info infos clean small h in
      let n =
        Read-first number_of_images parts (to_string (length uploads)) numbers clean small k in
      let body = form_text boundary parts in
      let loop : ℤ → Outcome (List Bytes) = λ z. images_loop (rounds_of z) body [] in
      let few : length uploads < 2 ^ 31 =
        omega
          (arith, values-short file_upload parts, ap length l, length-append uploads more, small) in
      (
        ap (λ t. value_at body (value_index body t)) target-relevant_info ∙ i.reads,
        ap
              (λ t.
                and_then (value_at body (value_index body t))
                  (λ s. and_then (number_of (stoi s)) loop))
              target-number_of_images
            ∙ ap (λ o. and_then o (λ s. and_then (number_of (stoi s)) loop)) n.reads
            ∙ ap (λ z. and_then (number_of z) loop) (stoi-to_string (length uploads) few)
            ∙ images_loop-uploads uploads parts [] more clean small l,
      )
