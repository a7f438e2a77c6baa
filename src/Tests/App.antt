-- ===== src/Tests/App.antt =====
-- Runs of the app handler.
use dinner_is_servered.Prelude.{◌≡◌, refl, false, none, [], ◌∷◌, ◌++◌, some, Bytes, text, equal}
use dinner_is_servered.Runtime.{Outcome}
use dinner_is_servered.Runtime.Quiet.{OnlyLogs}
use dinner_is_servered.Dispatch.Request.{Request}
use dinner_is_servered.App.Landing.{
  generate_landing_page, page_of, IsPage, generate_landing_page-IsPage,
}
use dinner_is_servered.Tests.Handlers.{folder, Reply, library, laws, posted}
use dinner_is_servered.Tests.Dispatch.{world}
use dinner_is_servered.App.Caption.{escape_loop, escaped_byte, read_string}

-- A caption with a quote, a backslash and a line feed.
abbrev caption : Bytes
caption = b'a' ∷ b'"' ∷ b'\n' ∷ b'\\' ∷ []

escaped_caption : escape_loop [] caption ≡ b'a' ∷ b'\\' ∷ b'"' ∷ b'\\' ∷ b'\\' ∷ []
unfolding escape_loop escaped_byte
escaped_caption = refl

-- A backspace in the caption is left as it is, and the text is no JSON string.
backspace : read_string false (escape_loop [] (8 ∷ []) ++ b'"' ∷ []) ≡ none
unfolding read_string escape_loop escaped_byte
backspace = refl

abbrev app_request : Request
app_request = record posted { target = text "/app" }

generate_landing_page-IsPage_example :
    (answer : Outcome Reply) × OnlyLogs
      (generate_landing_page library folder app_request)
      world
      answer
    × IsPage library folder world.files app_request.target answer
generate_landing_page-IsPage_example =
    generate_landing_page-IsPage library folder laws app_request world

app_page : page_of app_request.target ≡ some (text "../app_pages/index.html", text "text/html")
unfolding page_of text equal
app_page = refl
