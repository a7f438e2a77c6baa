-- ===== src/App/Form/Values.antt =====
-- The value of a field and what stands behind it, at a place in a text.
use dinner_is_servered.Prelude.{
  ℕ, zero, suc, ◌+◌, ◌<◌, ◌≤◌, ◌^◌, ◌≡◌, refl, ap, ◌∙◌, true, [], ◌∷◌, ◌++◌, append_assoc, Bytes,
  text, arith, length, length-append, take, take-append,
}
use dinner_is_servered.Runtime.{returns}
use dinner_is_servered.Runtime.Search.{
  npos, find_at, find_sub, substr, size_add, size_sub, size_of_int, find_sub-start, find_sub-append,
  substr-append, size_add-small, size_sub-small, int_of_size-small,
}
use dinner_is_servered.Runtime.Numbers.{int_of_size}
use dinner_is_servered.App.Form.{
  relevant_info_target, number_of_images_target, file_upload_target, crlf, value_index, value_at,
}
use dinner_is_servered.App.Form.Lines.{no_cr, find_at-crlf}
use dinner_is_servered.App.Form.Parts.{relevant_info, number_of_images, file_upload}
use dinner_is_servered.App.Form.Headers.{target}

-- A place in a string of less than 2 ^ 31 bytes is an `int`.
pub value_index-small :
    (body t : Bytes) (n : ℕ) → find_at 0 body t + length t ≡ n → n < 2 ^ 31 → value_index body t ≡ n
unfolding value_index
value_index-small body t n e h =
    ap (λ k. size_of_int (int_of_size (size_add k (length t)))) (find_sub-start body t)
    ∙ ap (λ k. size_of_int (int_of_size k)) (size_add-small _ _ (omega (arith, e, h)) ∙ e)
    ∙ int_of_size-small n h

find_sub-crlf :
    (before value rest : Bytes)
    → no_cr value ≡ true
    → find_sub (before ++ (value ++ (crlf ++ rest))) crlf (length before)
      ≡ length before + length value
find_sub-crlf before value rest h =
    find_sub-append before (value ++ (crlf ++ rest)) crlf
    ∙ find_at-crlf value rest (length before) h

pub value_at-line :
    (before value rest : Bytes)
    → no_cr value ≡ true
    → length before + length value < 2 ^ 64
    → value_at (before ++ (value ++ (crlf ++ rest))) (length before) ≡ returns value
unfolding value_at
value_at-line before value rest h k =
    let body = before ++ (value ++ (crlf ++ rest)) in
    ap (λ n. substr body (length before) (size_sub n (length before)))
      (find_sub-crlf before value rest h)
    ∙ ap (substr body (length before)) (size_sub-small (length before) (length value) k)
    ∙ substr-append before (value ++ (crlf ++ rest)) (length value)
    ∙ ap returns (take-append value (crlf ++ rest))

take_all : (n : ℕ) (s : Bytes) → length s ≤ n → take n s ≡ s
take_all zero [] h = refl
take_all zero (c ∷ s) h = absurd (omega (arith, h))
take_all (suc n) [] h = refl
take_all (suc n) (c ∷ s) h = ap (◌∷◌ c) (take_all n s (omega (arith, h)))

-- The body behind the line of a value.
pub rest-line :
    (before value rest : Bytes)
    → no_cr value ≡ true
    → length before + length value + 2 + length rest < 2 ^ 64
    → substr
        (before ++ (value ++ (crlf ++ rest)))
        (size_add (find_sub (before ++ (value ++ (crlf ++ rest))) crlf (length before)) 2)
        npos
      ≡ returns rest
rest-line before value rest h k =
    let front = before ++ (value ++ crlf) in
    let body = before ++ (value ++ (crlf ++ rest)) in
    let split : body ≡ front ++ rest = simp append_assoc in
    let place : size_add (find_sub body crlf (length before)) 2 ≡ length front =
      ap (λ n. size_add n 2) (find_sub-crlf before value rest h)
      ∙ size_add-small _ 2 (omega (arith, k))
      ∙ omega (arith, length-append before (value ++ crlf), length-append value crlf) in
    ap (λ n. substr body n npos) place
    ∙ ap (λ s. substr s (length front) npos) split
    ∙ substr-append front rest npos
    ∙ ap returns (take_all npos rest (omega (arith, k)))

pub zero_plus : (n : ℕ) → 0 + n ≡ n
zero_plus n = omega arith

pub length-line :
    (before value rest : Bytes)
    → length (before ++ (value ++ (crlf ++ rest))) ≡ length before + length value + 2 + length rest
length-line before value rest =
    omega
      (arith, length-append before (value ++ (crlf ++ rest)), length-append value (crlf ++ rest))

pub target-relevant_info : relevant_info_target ≡ target relevant_info
unfolding text
target-relevant_info = refl

pub target-number_of_images : number_of_images_target ≡ target number_of_images
unfolding text
target-number_of_images = refl

pub target-file_upload : file_upload_target ≡ target file_upload
unfolding text
target-file_upload = refl
