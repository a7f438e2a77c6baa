-- ===== src/App/Scores.antt =====
-- get_best_image_index: each image is sent with the question for a score, and the index of the best
-- is kept. Where std::stoi throws, what() is its name.
pub mod Verdicts
pub mod Chosen
use dinner_is_servered.Prelude.{
  ℕ, zero, suc, ◌+◌, Bool, true, false, List, [], ◌∷◌, ◌++◌, Bytes, text, ltb, ◌==◌, if◌then◌else◌,
  length,
}
use dinner_is_servered.Logging.{info, error}
use dinner_is_servered.Runtime.{World, M, returns, ◌>>=◌, ◌>>◌, pure, gets, log}
use dinner_is_servered.Runtime.Numbers.{
  ℤ, pos, negsuc, Parsed, parsed, invalid, too_large, stoi, is_digit, to_string_int,
}
use dinner_is_servered.App.Services.{
  Services, Transfer, no_handle, failed, received, Content, content, unreadable, CurlRequest,
  chatgpt_request, read_buffer,
}
use dinner_is_servered.App.Prompts.{score_json}

-- `a < b`, of two `int`s
unfoldable pub less_int : ℤ → ℤ → Bool
less_int (pos a) (pos b) = ltb a b
less_int (pos a) (negsuc b) = false
less_int (negsuc a) (pos b) = true
less_int (negsuc a) (negsuc b) = ltb b a

-- `index` and `max_score`
pub record Best : Type 0 where
  pub index : ℤ
  pub max_score : ℤ

unfoldable pub only_digits : Bytes → Bytes
only_digits [] = []
only_digits (c ∷ s) = let rest = only_digits s in if is_digit c then c ∷ rest else rest

-- the `catch`, with `index` at -3
unfoldable pub fail_answer : Bytes → Best → M Best
fail_answer what best = do
  log error (text "Error parsing JSON response: " ++ what)
  pure (record best { index = negsuc 2 })

unfoldable pub take_score : ℕ → Parsed → Best → M Best
take_score i (parsed score) best =
    pure
      (if less_int best.max_score score then record { index = pos i; max_score = score } else best)
take_score i invalid best = fail_answer (text "stoi") best
take_score i too_large best = fail_answer (text "stoi") best

unfoldable pub score_answer : ℕ → Content → Best → M Best
score_answer i (content score_str) best = take_score i (stoi (only_digits score_str)) best
score_answer i (unreadable what) best = fail_answer what best

unfoldable pub request_of : Bytes → World → CurlRequest
request_of json_data w = chatgpt_request w.chatgpt_url w.api_key json_data

module _ (services : Services) where
  unfoldable pub score_transfer : ℕ → Transfer → Best → M Best
  score_transfer i no_handle best = pure best
  score_transfer i (failed reason) best = do
    log error (text "CURL error: " ++ reason)
    pure (record best { index = negsuc 1 })
  score_transfer i (received chunks) best =
      score_answer i (services.read_content (read_buffer chunks [])) best

  -- the rounds from the image `i`
  unfoldable pub score_loop : ℕ → List Bytes → Best → M Best
  score_loop i [] best = pure best
  score_loop i (image ∷ images) best = do
    request ← gets (request_of (score_json image))
    next ← score_transfer i (services.perform i request) best
    score_loop (suc i) images next

  unfoldable pub score_all : List Bytes → M ℤ
  score_all image_data = do
    best ← score_loop 0 image_data (record { index = negsuc 0; max_score = pos 0 })
    log info (text "Best image index selected: " ++ to_string_int best.index)
    pure best.index

  unfoldable pub get_best_image_index : List Bytes → M ℤ
  get_best_image_index image_data = do
    log info (text "Selecting best image index from provided images")
    if length image_data == 1 then pure (pos 0) else score_all image_data
