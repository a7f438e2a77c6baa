-- ===== src/App/Form/Parts.antt =====
-- The form that app_pages/landing_page.js sends, in the format of multipart/form-data.
use dinner_is_servered.Prelude.{
  Bool, true, false, ◌&&◌, List, [], ◌∷◌, ◌++◌, Bytes, text, if◌then◌else◌,
}
use dinner_is_servered.App.Form.{crlf}
use dinner_is_servered.App.Form.Lines.{no_cr}

pub data FieldName : Type 0 where
  relevant_info number_of_images file_upload : FieldName

abbrev pub same_name : FieldName → FieldName → Bool
same_name relevant_info relevant_info = true
same_name number_of_images number_of_images = true
same_name file_upload file_upload = true
same_name _ _ = false

-- The header behind its first byte.
abbrev pub header_tail : FieldName → Bytes
header_tail relevant_info = text "ontent-Disposition: form-data; name=\"relevant-info\""
header_tail number_of_images = text "ontent-Disposition: form-data; name=\"number-of-images\""
header_tail file_upload = text "ontent-Disposition: form-data; name=\"file-upload\""

-- name and value of each part, in order
abbrev pub Parts : Type 0
Parts = List (FieldName × Bytes)

-- the line between two parts
abbrev pub delimiter : Bytes → Bytes
delimiter boundary = b'-' ∷ b'-' ∷ boundary

abbrev pub form_text : Bytes → Parts → Bytes
form_text boundary [] = delimiter boundary ++ (b'-' ∷ b'-' ∷ crlf)
form_text boundary ((name, value) ∷ parts) =
    delimiter boundary
    ++ (crlf
        ++ ((b'C' ∷ header_tail name)
            ++ (crlf ++ (crlf ++ (value ++ (crlf ++ form_text boundary parts))))))

-- the values of the fields with this name, in order
abbrev pub values : FieldName → Parts → List Bytes
values name [] = []
values name ((n, v) ∷ parts) =
    let rest = values name parts in if same_name n name then v ∷ rest else rest

-- No value has a carriage return in it.
abbrev pub all_no_cr : Parts → Bool
all_no_cr [] = true
all_no_cr ((n, v) ∷ parts) = no_cr v && all_no_cr parts
