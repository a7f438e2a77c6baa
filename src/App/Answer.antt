-- ===== src/App/Answer.antt =====
-- handle_request, process_post and generate_caption.
pub mod Steps
pub mod Posted
pub mod Handled
use dinner_is_servered.Handlers.Static.{DirectoryEnd}
use dinner_is_servered.Prelude.{
  ℕ, zero, suc, Bool, true, false, ◌||◌, not, List, [], ◌∷◌, ◌++◌, Option, none, some, Bytes, text,
  ltb, if◌then◌else◌, length,
}
use dinner_is_servered.Logging.{info, error}
use dinner_is_servered.Runtime.{World, M, returns, ◌>>=◌, ◌>>◌, pure, crash, gets, log, lift}
use dinner_is_servered.Runtime.Numbers.{ℤ, pos, negsuc, to_string_int}
use dinner_is_servered.Runtime.Search.{size_of_int}
use dinner_is_servered.Dispatch.Request.{Request, Verb, get, post}
use dinner_is_servered.Http.{Http, ok, bad_request}
use dinner_is_servered.Handlers.{prepared}
use dinner_is_servered.App.Services.{
  Services, Transfer, no_handle, failed, received, Content, content, unreadable, read_buffer,
}
use dinner_is_servered.App.Prompts.{caption_json}
use dinner_is_servered.App.Caption.{escape_loop}
use dinner_is_servered.App.Form.{get_relevant_information, get_images}
use dinner_is_servered.App.Scores.{less_int, request_of, get_best_image_index}
use dinner_is_servered.App.Landing.{generate_landing_page}

-- `image_data[index]`; out of range it is undefined
unfoldable pub image_at : List Bytes → ℕ → M Bytes
image_at [] n = crash
image_at (image ∷ images) zero = pure image
image_at (image ∷ images) (suc n) = image_at images n

-- The test compares `best_image_index` with a `size_t`.
unfoldable pub is_no_index : ℤ → List Bytes → Bool
is_no_index index image_data =
    less_int index (pos 0) || not (ltb (size_of_int index) (length image_data))

unfoldable pub caption_answer : Content → M Bytes
caption_answer (content caption) = do log info (text "Caption received: " ++ caption); pure caption
caption_answer (unreadable what) = do
  log error (text "Error parsing JSON response: " ++ what)
  pure (text "An error occurred while generating a caption")

unfoldable pub error_json : ℤ → Bytes
error_json index =
    text "{\"caption\":\"An error occured while selecting an image\",\"best_image_index\":"
    ++ (to_string_int index ++ text "}")

unfoldable pub caption_response : Bytes → ℤ → Bytes
caption_response caption index =
    text "{\"caption\":\""
    ++ (escape_loop [] caption
        ++ (text "\", \"best_image_index\":" ++ (to_string_int index ++ text "}")))

module _ (services : Services) where
  unfoldable pub caption_transfer : Transfer → M Bytes
  caption_transfer no_handle = pure []
  caption_transfer (failed reason) = do
    log error (text "CURL error: " ++ reason)
    pure (text "An error occurred when generating a caption")
  caption_transfer (received chunks) =
      caption_answer (services.read_content (read_buffer chunks []))

  -- `n` is the number of the transfer.
  unfoldable pub generate_caption : ℕ → Bytes → Bytes → M Bytes
  generate_caption n image relevant_info = do
    log info (text "Generating caption for image")
    request ← gets (request_of (caption_json relevant_info image))
    caption_transfer (services.perform n request)

  -- The flag is whether the index is none of an image.
  unfoldable pub choose_json : Bool → ℤ → List Bytes → Bytes → M Bytes
  choose_json true index image_data relevant_info = do
    log error (text "Error selecting best image index")
    pure (error_json index)
  choose_json false index image_data relevant_info = do
    image ← image_at image_data (size_of_int index)
    caption ← generate_caption (length image_data) image relevant_info
    log info (text "Caption generated successfully: " ++ caption)
    pure (caption_response caption index)

  unfoldable pub post_json : Bytes → M Bytes
  post_json body = do
    relevant_info ← lift (get_relevant_information body)
    image_data ← lift (get_images body)
    best_image_index ← get_best_image_index services image_data
    choose_json (is_no_index best_image_index image_data) best_image_index image_data relevant_info

module _ (http : Http) (directory_end : DirectoryEnd) (services : Services) where
  unfoldable pub process_post : Request → M http.Response
  process_post req = do
    log info (text "Processing POST request")
    json ← post_json services req.body
    pure (prepared http ok (text "application/json") json)

  unfoldable pub by_method : Verb → Request → M http.Response
  by_method post req = process_post req
  by_method get req = generate_landing_page http directory_end req
  by_method _ req = do
    log error (text "Bad request method: " ++ req.method_string)
    pure (http.prepare_payload (http.response bad_request 11 []))

  -- The handler is made for the request: the constructor logs first.
  unfoldable pub handle_request : Request → M http.Response
  handle_request req = do
    log info (text "Configuration loaded for AppHandler: API Key and ChatGPT URL")
    log info (text "Handling request: " ++ req.target)
    by_method req.method req
