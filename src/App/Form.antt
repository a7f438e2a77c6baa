-- ===== src/App/Form.antt =====
-- get_relevant_information and get_images: the fields of the form in the body of a request.
pub mod Lines
pub mod Parts
pub mod Headers
pub mod Places
pub mod Values
pub mod Reads
pub mod Throws
use dinner_is_servered.Prelude.{ℕ, zero, suc, List, [], ◌∷◌, ◌++◌, Bytes, text, length}
use dinner_is_servered.Runtime.{Outcome, returns, throws, invalid_argument, out_of_range, and_then}
use dinner_is_servered.Runtime.Numbers.{
  ℤ, pos, negsuc, Parsed, parsed, invalid, too_large, stoi, int_of_size,
}
use dinner_is_servered.Runtime.Search.{npos, find_sub, substr, size_add, size_sub, size_of_int}

abbrev pub crlf : Bytes
crlf = b'\r' ∷ b'\n' ∷ []

-- The three targets that the code looks for.
abbrev pub relevant_info_target : Bytes
relevant_info_target = text "Content-Disposition: form-data; name=\"relevant-info\"\r\n\r\n"

abbrev pub number_of_images_target : Bytes
number_of_images_target = text "Content-Disposition: form-data; name=\"number-of-images\"\r\n\r\n"

abbrev pub file_upload_target : Bytes
file_upload_target = text "Content-Disposition: form-data; name=\"file-upload\"\r\n\r\n"

-- `int index = body.find(target) + target.length()`, used as a `size_t`
unfoldable pub value_index : Bytes → Bytes → ℕ
value_index body target =
    size_of_int (int_of_size (size_add (find_sub body target 0) (length target)))

-- `body.substr(index, body.find("\r\n", index) - index)`
unfoldable pub value_at : Bytes → ℕ → Outcome Bytes
value_at body index = substr body index (size_sub (find_sub body crlf index) index)

unfoldable pub get_relevant_information : Bytes → Outcome Bytes
get_relevant_information body = value_at body (value_index body relevant_info_target)

-- what std::stoi throws
unfoldable pub number_of : Parsed → Outcome ℤ
number_of (parsed n) = returns n
number_of invalid = throws invalid_argument
number_of too_large = throws out_of_range

-- the rounds that are left, the body and the images so far
unfoldable pub images_loop : ℕ → Bytes → List Bytes → Outcome (List Bytes)
images_loop zero body images = returns images
images_loop (suc rounds) body images =
    let index = value_index body file_upload_target in
    and_then (value_at body index) (λ image.
      and_then (substr body (size_add (find_sub body crlf index) 2) npos)
        (λ rest. images_loop rounds rest (images ++ image ∷ [])))

-- `for (int i=0; i<number_of_images; i++)`
unfoldable pub rounds_of : ℤ → ℕ
rounds_of (pos n) = n
rounds_of (negsuc n) = 0

unfoldable pub get_images : Bytes → Outcome (List Bytes)
get_images body =
    and_then (value_at body (value_index body number_of_images_target))
      (λ s. and_then (number_of (stoi s)) (λ n. images_loop (rounds_of n) body []))
