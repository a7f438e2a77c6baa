-- ===== src/App/Services.antt =====
-- What the app handler uses of libcurl and of nlohmann::json: the transfers that one request of a
-- client makes, and the text that is read from an answer.
use dinner_is_servered.Prelude.{ℕ, List, [], ◌∷◌, ◌++◌, Bytes, text, ◌==◌, if◌then◌else◌}

-- the options of a transfer
pub record CurlRequest : Type 0 where
  pub url : Bytes
  pub headers : List Bytes
  pub post_fields : Bytes

-- What comes of a transfer: `curl_easy_init` gives null, `curl_easy_perform` fails with the text of
-- its error, or the answer comes in chunks.
pub data Transfer : Type 0 where
  no_handle : Transfer
  failed : Bytes → Transfer
  received : List Bytes → Transfer

-- What `parse(readBuffer)["choices"][0]["message"]["content"]`, as a string, gives: the text, or the
-- message of the exception.
pub data Content : Type 0 where
  content : Bytes → Content
  unreadable : Bytes → Content

-- In a call of process_post, the transfer `i` is that for the score of the image `i`, and the one
-- behind those of all images is that for the caption.
pub record Services : Type 0 where
  pub perform : ℕ → CurlRequest → Transfer
  pub read_content : Bytes → Content

-- `s.c_str()`, as what takes it reads it: up to the first null byte.
unfoldable pub c_str : Bytes → Bytes
c_str [] = []
c_str (c ∷ s) = let rest = c_str s in if c == 0 then [] else c ∷ rest

-- WriteCallback, and its calls, one for each chunk
unfoldable pub write_callback : Bytes → Bytes → Bytes
write_callback contents userp = userp ++ contents

unfoldable pub read_buffer : List Bytes → Bytes → Bytes
read_buffer [] buffer = buffer
read_buffer (chunk ∷ chunks) buffer = read_buffer chunks (write_callback chunk buffer)

-- the transfer that both functions set up, with the URL and the key of the configuration
unfoldable pub chatgpt_request : Bytes → Bytes → Bytes → CurlRequest
chatgpt_request url key json_data = record {
  url = c_str url;
  headers =
      text "Content-Type: application/json" ∷ c_str (text "Authorization: Bearer " ++ key) ∷ [];
  post_fields = c_str json_data;
}
