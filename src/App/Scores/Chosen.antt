-- ===== src/App/Scores/Chosen.antt =====
-- get_best_image_index chooses by the verdicts on the images.
use dinner_is_servered.Prelude.{
  ℕ, suc, ◌≡◌, ◌≢◌, refl, ap, ap₂, Bool, true, false, List, [], ◌∷◌, Bytes, ltb, ◌==◌,
  if◌then◌else◌, length, arith,
}
use dinner_is_servered.Logging.{info, error}
use dinner_is_servered.Runtime.{World, returns, gets}
use dinner_is_servered.Runtime.Numbers.{ℤ, pos, negsuc, Parsed, parsed, invalid, too_large, stoi}
use dinner_is_servered.Runtime.Quiet.{
  Quiet, Quiet-trans, OnlyLogs, OnlyLogs-pure, OnlyLogs-gets, OnlyLogs-log_then, OnlyLogs-bind,
  OnlyLogs-cast,
}
use dinner_is_servered.App.Services.{
  Services, Transfer, no_handle, failed, received, Content, content, unreadable, chatgpt_request,
  read_buffer,
}
use dinner_is_servered.App.Prompts.{score_json}
use dinner_is_servered.App.Scores.{
  less_int, Best, only_digits, fail_answer, take_score, score_answer, request_of, score_transfer,
  score_loop, score_all, get_best_image_index,
}
use dinner_is_servered.App.Scores.Verdicts.{
  Verdict, skipped, unreachable, unread, scored, after, after_all, Chosen, after_all-Chosen,
}

-- A score is read from digits alone, so a minus sign is no part of it.
abbrev number_verdict : Parsed → Verdict
number_verdict (parsed (pos n)) = scored n
number_verdict (parsed (negsuc n)) = skipped
number_verdict invalid = unread
number_verdict too_large = unread

abbrev content_verdict : Content → Verdict
content_verdict (content score_str) = number_verdict (stoi (only_digits score_str))
content_verdict (unreadable what) = unread

abbrev best_of : ℤ × ℕ → Best
best_of best = record { index = best.0; max_score = pos best.1 }

module _ (services : Services) where
  abbrev transfer_verdict : Transfer → Verdict
  transfer_verdict no_handle = skipped
  transfer_verdict (failed reason) = unreachable
  transfer_verdict (received chunks) =
      content_verdict (services.read_content (read_buffer chunks []))

  -- the verdicts on the images from the image `i` on
  abbrev pub verdicts : World → ℕ → List Bytes → List Verdict
  verdicts w i [] = []
  verdicts w i (image ∷ images) =
      transfer_verdict (services.perform i (request_of (score_json image) w))
      ∷ verdicts w (suc i) images

not_one : (n : ℕ) → n ≢ 1 → (n == 1) ≡ false
not_one n h = ground (arith, h)

OnlyLogs-fail_answer :
    (what : Bytes) (best : ℤ × ℕ) (w : World)
    → OnlyLogs (fail_answer what (best_of best)) w (returns (best_of (negsuc 2, best.1)))
unfolding fail_answer
OnlyLogs-fail_answer what best w = OnlyLogs-log_then error _ _ w _ (λ w' q. OnlyLogs-pure w' _)

best_of_if :
    (b : Bool) (i n : ℕ) (best : ℤ × ℕ)
    → (if b then record { index = pos i; max_score = pos n } else best_of best)
      ≡ best_of (if b then (pos i, n) else best)
best_of_if true i n best = refl
best_of_if false i n best = refl

pub request_of-Quiet :
    (json : Bytes) (v w : World) → Quiet v w → request_of json w ≡ request_of json v
unfolding request_of
request_of-Quiet json v w q = ap₂ (λ u k. chatgpt_request u k json) q.chatgpt_url q.api_key

OnlyLogs-take_score :
    (i : ℕ) (p : Parsed) (best : ℤ × ℕ) (w : World)
    → OnlyLogs
        (take_score i p (best_of best))
        w
        (returns (best_of (after i (number_verdict p) best)))
unfolding take_score less_int
OnlyLogs-take_score i (parsed (pos n)) best w =
    OnlyLogs-cast _ w _ _ (ap returns (best_of_if (ltb best.1 n) i n best)) (OnlyLogs-pure w _)
OnlyLogs-take_score i (parsed (negsuc n)) best w = OnlyLogs-pure w _
OnlyLogs-take_score i invalid best w = OnlyLogs-fail_answer _ best w
OnlyLogs-take_score i too_large best w = OnlyLogs-fail_answer _ best w

OnlyLogs-score_answer :
    (i : ℕ) (c : Content) (best : ℤ × ℕ) (w : World)
    → OnlyLogs
        (score_answer i c (best_of best))
        w
        (returns (best_of (after i (content_verdict c) best)))
unfolding score_answer
OnlyLogs-score_answer i (content s) best w = OnlyLogs-take_score i (stoi (only_digits s)) best w
OnlyLogs-score_answer i (unreadable what) best w = OnlyLogs-fail_answer what best w

module _ (services : Services) where
  OnlyLogs-score_transfer :
      (i : ℕ) (t : Transfer) (best : ℤ × ℕ) (w : World)
      → OnlyLogs
          (score_transfer services i t (best_of best))
          w
          (returns (best_of (after i (transfer_verdict services t) best)))
  unfolding score_transfer
  OnlyLogs-score_transfer i no_handle best w = OnlyLogs-pure w _
  OnlyLogs-score_transfer i (failed reason) best w =
      OnlyLogs-log_then error _ _ w _ (λ w' q. OnlyLogs-pure w' _)
  OnlyLogs-score_transfer i (received chunks) best w =
      OnlyLogs-score_answer i (services.read_content (read_buffer chunks [])) best w

  OnlyLogs-score_loop :
      (i : ℕ) (images : List Bytes) (best : ℤ × ℕ) (w v : World)
      → Quiet v w
      → OnlyLogs
          (score_loop services i images (best_of best))
          w
          (returns (best_of (after_all i (verdicts services v i images) best)))
  unfolding score_loop
  OnlyLogs-score_loop i [] best w v q = OnlyLogs-pure w _
  OnlyLogs-score_loop i (image ∷ images) best w v q =
      let request = request_of (score_json image) v in
      let t = services.perform i request in
      OnlyLogs-bind (gets (request_of (score_json image))) _ w request _
        (OnlyLogs-cast _ w _ _ (ap returns (request_of-Quiet (score_json image) v w q))
          (OnlyLogs-gets w _))
        (λ w₁ q₁.
          OnlyLogs-bind (score_transfer services i t (best_of best)) _ w₁
            (best_of (after i (transfer_verdict services t) best)) _
            (OnlyLogs-score_transfer i t best w₁)
            (λ w₂ q₂.
              OnlyLogs-score_loop (suc i) images (after i (transfer_verdict services t) best) w₂ v
                (Quiet-trans q (Quiet-trans q₁ q₂))))

  pub verdicts-Quiet :
      (v w : World) (i : ℕ) (images : List Bytes)
      → Quiet v w
      → verdicts services w i images ≡ verdicts services v i images
  verdicts-Quiet v w i [] q = refl
  verdicts-Quiet v w i (image ∷ images) q =
      ap₂ ◌∷◌
        (ap (λ r. transfer_verdict services (services.perform i r))
          (request_of-Quiet (score_json image) v w q))
        (verdicts-Quiet v w (suc i) images q)

  -- Of several images, or none, the index is decided by the verdicts on them: -1 where no image has a
  -- score above 0 and no transfer or answer failed; else the last verdict that sets the index
  -- decides, a failure by its code, -2 or -3, and a score higher than all before it by its place. So
  -- a failure behind the best image hides it. Nothing but the log changes.
  pub get_best_image_index-chooses :
      (images : List Bytes) (w : World)
      → length images ≢ 1
      → (index : ℤ) × OnlyLogs (get_best_image_index services images) w (returns index)
        × Chosen (verdicts services w 0 images) index
  unfolding get_best_image_index score_all
  get_best_image_index-chooses images w h =
      let none_yet : ℤ × ℕ = (negsuc 0, 0) in
      let best = after_all 0 (verdicts services w 0 images) none_yet in
      (
        best.0,
        OnlyLogs-log_then info _ _ w _ (λ w₁ q₁. rw (not_one (length images) h) (
            OnlyLogs-bind (score_loop services 0 images (best_of none_yet)) _ w₁ (best_of best) _
              (OnlyLogs-score_loop 0 images none_yet w₁ w q₁)
              (λ w₂ q₂. OnlyLogs-log_then info _ _ w₂ _ (λ w₃ q₃. OnlyLogs-pure w₃ _)))),
        after_all-Chosen (verdicts services w 0 images),
      )
