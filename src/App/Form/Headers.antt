-- ===== src/App/Form/Headers.antt =====
-- The headers of the form that app_pages/landing_page.js sends.
use dinner_is_servered.Prelude.{
  ◌≡◌, refl, true, false, [], ◌∷◌, ◌++◌, Bytes, text, equal, begins_with,
}
use dinner_is_servered.App.Form.{crlf}
use dinner_is_servered.App.Form.Lines.{no_cr, no_suffix}
use dinner_is_servered.App.Form.Parts.{
  FieldName, relevant_info, number_of_images, file_upload, same_name, header_tail, Parts, delimiter,
  form_text,
}

pub header-no_cr : (name : FieldName) → no_cr (header_tail name) ≡ true
unfolding text
header-no_cr relevant_info = refl
header-no_cr number_of_images = refl
header-no_cr file_upload = refl

abbrev pub header_of : FieldName → Bytes
header_of name = b'C' ∷ header_tail name

pub headers-no_suffix :
    (n name : FieldName)
    → same_name n name ≡ false
    → no_suffix (header_of name) (header_of n) ≡ true
unfolding text equal
headers-no_suffix relevant_info relevant_info h = absurd cc
headers-no_suffix relevant_info number_of_images h = refl
headers-no_suffix relevant_info file_upload h = refl
headers-no_suffix number_of_images relevant_info h = refl
headers-no_suffix number_of_images number_of_images h = absurd cc
headers-no_suffix number_of_images file_upload h = refl
headers-no_suffix file_upload relevant_info h = refl
headers-no_suffix file_upload number_of_images h = refl
headers-no_suffix file_upload file_upload h = absurd cc

-- No header is the empty line, and no line that is not empty begins with a line end.
delimiter-begins : (boundary rest : Bytes) → begins_with (delimiter boundary ++ rest) crlf ≡ false
unfolding begins_with
delimiter-begins boundary rest = refl

pub form-begins :
    (boundary : Bytes) (parts : Parts) → begins_with (form_text boundary parts) crlf ≡ false
unfolding begins_with
form-begins boundary [] = refl
form-begins boundary (p ∷ parts) = refl

pub same_name-same : (n name : FieldName) → same_name n name ≡ true → n ≡ name
same_name-same relevant_info relevant_info h = refl
same_name-same relevant_info number_of_images h = absurd cc
same_name-same relevant_info file_upload h = absurd cc
same_name-same number_of_images relevant_info h = absurd cc
same_name-same number_of_images number_of_images h = refl
same_name-same number_of_images file_upload h = absurd cc
same_name-same file_upload relevant_info h = absurd cc
same_name-same file_upload number_of_images h = absurd cc
same_name-same file_upload file_upload h = refl

abbrev pub target : FieldName → Bytes
target name = header_of name ++ (crlf ++ crlf)
