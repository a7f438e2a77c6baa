-- ===== src/Tests/Forms.antt =====
-- Runs of the app handler on forms.
use dinner_is_servered.Prelude.{
  ℕ, zero, suc, ◌<◌, ◌^◌, ◌≡◌, ◌≢◌, refl, [], ◌∷◌, Bytes, List, text, length, arith, true, ◌++◌,
  begins_with,
}
use dinner_is_servered.Runtime.{◌>>=◌, returns, throws, invalid_argument}
use dinner_is_servered.Runtime.Numbers.{
  ℤ, pos, negsuc, to_string, digits, int_of_size, stoi, unblank, with_sign, signed, leading_digits,
  digits_from,
}
use dinner_is_servered.Runtime.Search.{find_at, find_sub, substr, size_add, size_sub, size_of_int}
use dinner_is_servered.Runtime.Quiet.{OnlyLogs}
use dinner_is_servered.Dispatch.Request.{Request}
use dinner_is_servered.App.Services.{
  Services, failed, received, content, write_callback, read_buffer, Transfer,
}
use dinner_is_servered.App.Form.{
  value_index, value_at, get_relevant_information, number_of, get_images,
}
use dinner_is_servered.App.Form.Parts.{
  Parts, all_no_cr, relevant_info, number_of_images, file_upload, form_text,
}
use dinner_is_servered.App.Form.Reads.{form-read}
use dinner_is_servered.App.Scores.{
  less_int, only_digits, take_score, score_answer, score_transfer, score_loop, score_all,
  get_best_image_index,
}
use dinner_is_servered.App.Scores.Verdicts.{Chosen}
use dinner_is_servered.App.Scores.Chosen.{verdicts, get_best_image_index-chooses}
use dinner_is_servered.App.Answer
use dinner_is_servered.App.Answer.Handled.{IsHandled, handle_request-IsHandled}
use dinner_is_servered.Tests.Dispatch.{world}
use dinner_is_servered.Tests.Handlers.{folder, library, laws, posted}

-- Two images around their number.
abbrev parts : Parts
parts =
    (file_upload, b'a' ∷ [])
    ∷ (number_of_images, to_string 2)
    ∷ (file_upload, b'b' ∷ [])
    ∷ (relevant_info, b'i' ∷ [])
    ∷ []

abbrev images : List Bytes
images = (b'a' ∷ []) ∷ (b'b' ∷ []) ∷ []

small_form : length (form_text (b'B' ∷ []) parts) < 2 ^ 31
unfolding text to_string digits
small_form = omega arith

clean_number : all_no_cr parts ≡ true
unfolding to_string digits
clean_number = refl

form-read_example :
    (get_relevant_information (form_text (b'B' ∷ []) parts) ≡ returns (b'i' ∷ []))
    × (get_images (form_text (b'B' ∷ []) parts) ≡ returns images)
form-read_example =
    form-read (b'B' ∷ []) refl parts (b'i' ∷ []) [] images [] [] clean_number small_form refl refl
      refl

-- The score of the image `i` is 7 - i; the image 2 cannot be asked for.
abbrev answer_of : ℕ → Transfer
answer_of zero = received ((b'7' ∷ []) ∷ (b'\n' ∷ []) ∷ [])
answer_of (suc zero) = received ((b'6' ∷ []) ∷ [])
answer_of _ = failed []

abbrev online : Services
online = record { perform = λ i request. answer_of i; read_content = λ answer. content answer }

two-ne-one : length images ≢ 1
two-ne-one e = absurd cc

get_best_image_index-chooses_example :
    (index : ℤ) × OnlyLogs (get_best_image_index online images) world (returns index)
    × Chosen (verdicts online world 0 images) index
get_best_image_index-chooses_example = get_best_image_index-chooses online images world two-ne-one

-- The first of the two is the better one.
first_best : (get_best_image_index online images world).0 ≡ returns (pos 0)
unfolding get_best_image_index score_all score_loop score_transfer score_answer take_score less_int
    only_digits read_buffer write_callback stoi unblank with_sign signed leading_digits digits_from
    ◌>>=◌
first_best = refl

-- The failure of the third hides it.
hidden_best : (get_best_image_index online (images ++ [] ∷ []) world).0 ≡ returns (negsuc 1)
unfolding get_best_image_index score_all score_loop score_transfer score_answer take_score less_int
    only_digits read_buffer write_callback stoi unblank with_sign signed leading_digits digits_from
    ◌>>=◌
hidden_best = refl

-- Without a form, std::stoi is called on a text that is no number.
no_form :
    get_images (text "form-data; name=\"number-of-images\", Content-Disposition missing")
    ≡ throws invalid_argument
unfolding get_images value_index value_at find_sub find_at substr size_add size_sub size_of_int
    int_of_size number_of stoi unblank with_sign signed leading_digits digits_from text begins_with
no_form = refl

abbrev form_request : Request
form_request = record posted { body = form_text (b'B' ∷ []) parts }

handle_request-IsHandled_example :
    IsHandled library laws folder online form_request.method
      (Answer.handle_request library folder online form_request)
      world
      world
      form_request
handle_request-IsHandled_example =
    handle_request-IsHandled library laws folder online form_request world
