-- ===== src/App/Answer/Posted.antt =====
-- What process_post answers, over any body and whatever the transfers give.
use dinner_is_servered.Prelude.{
  ◌≡◌, ◌⊎◌, inl, inr, refl, subst, Bool-cases, List, Bytes, ◌==◌, length, arith,
}
use dinner_is_servered.Logging.{info, error}
use dinner_is_servered.Runtime.{World, Exception, Outcome, returns, throws, ◌>>=◌, lift}
use dinner_is_servered.Runtime.Numbers.{ℤ, pos, negsuc}
use dinner_is_servered.Runtime.Search.{size_of_int}
use dinner_is_servered.Runtime.Quiet.{
  Quiet, Quiet-trans, OnlyLogs, OnlyLogs-pure, OnlyLogs-log_then, OnlyLogs-bind, OnlyLogs-cast,
  OnlyLogs-lift, OnlyLogs-bind_throws, OnlyLogs-bind_some,
}
use dinner_is_servered.App.Services.{Services}
use dinner_is_servered.App.Form.{get_relevant_information, get_images}
use dinner_is_servered.App.Form.Throws.{OfNumber, Ends-get_relevant_information, Ends-get_images}
use dinner_is_servered.App.Scores.{get_best_image_index}
use dinner_is_servered.App.Scores.Verdicts.{Chosen}
use dinner_is_servered.App.Scores.Chosen.{verdicts, get_best_image_index-chooses, verdicts-Quiet}
use dinner_is_servered.App.Answer.{
  image_at, is_no_index, error_json, caption_response, generate_caption, choose_json, post_json,
}
use dinner_is_servered.App.Answer.Steps.{
  InRange, Chosen-range, length-verdicts, At, OnlyLogs-image_at, no_index-negative, no_index-place,
  caption_for, OnlyLogs-generate_caption,
}

module _ (services : Services) where
  -- One image is the best, unasked.
  abbrev pub IsBest : World → List Bytes → ℤ → Type 0
  IsBest w images index =
      (length images ≡ 1) × (index ≡ pos 0) ⊎ Chosen (verdicts services w 0 images) index

  get_best_image_index-IsBest :
      (images : List Bytes) (v w : World)
      → Quiet v w
      → (index : ℤ) × OnlyLogs (get_best_image_index services images) w (returns index)
        × InRange images index
        × IsBest v images index
  unfolding get_best_image_index
  get_best_image_index-IsBest images v w q = elim (Bool-cases (length images == 1)) [
    | inl e ↦ (
      pos 0,
      OnlyLogs-log_then info _ _ w _ (λ w' q'. rw e (OnlyLogs-pure w' _)),
      ground (arith, e),
      inl (ground (arith, e), refl),
    )
    | inr e ↦
        let (index, o, c) = get_best_image_index-chooses services images w (ground (arith, e)) in
        (
          index,
          o,
          Chosen-range _ index images c (length-verdicts services w 0 images),
          inr (subst (λ vs. Chosen vs index) (verdicts-Quiet services v w 0 images q) c),
        )
  ]

  -- The text of the answer for an index: the error, or the caption of the image at the index.
  abbrev pub AnswerJson : World → Bytes → List Bytes → ℤ → Bytes → Type 0
  AnswerJson w relevant_info images (negsuc k) json = json ≡ error_json (negsuc k)
  AnswerJson w relevant_info images (pos n) json =
      (image : Bytes) × At images n image
      × (json
          ≡ caption_response (caption_for services w (length images) image relevant_info) (pos n))

  pub record IsPosted (w : World) (body json : Bytes) : Type 0 where
    pub relevant_info : Bytes
    pub images : List Bytes
    pub index : ℤ
    pub info_is : get_relevant_information body ≡ returns relevant_info
    pub images_are : get_images body ≡ returns images
    pub best : IsBest w images index
    pub in_range : InRange images index
    pub json_is : AnswerJson w relevant_info images index json

  -- The form cannot be read, and the exception is that of std::stoi or of std::string::substr.
  pub record IsThrown (body : Bytes) (e : Exception) : Type 0 where
    pub thrown : (get_relevant_information body ≡ throws e) ⊎ (get_images body ≡ throws e)
    pub of_number : OfNumber e

  choose_json-AnswerJson :
      (index : ℤ) (images : List Bytes) (relevant_info : Bytes) (v w : World)
      → Quiet v w
      → InRange images index
      → (json : Bytes) × OnlyLogs
          (choose_json services (is_no_index index images) index images relevant_info)
          w
          (returns json)
        × AnswerJson v relevant_info images index json
  unfolding choose_json size_of_int
  choose_json-AnswerJson (negsuc k) images relevant_info v w q r = (
    error_json (negsuc k),
    rw (no_index-negative k images) (OnlyLogs-log_then error _ _ w _ (λ w' q'. OnlyLogs-pure w' _)),
    refl,
  )
  choose_json-AnswerJson (pos n) images relevant_info v w q r =
      let (image, o, a) = OnlyLogs-image_at images n w r in
      let caption = caption_for services v (length images) image relevant_info in
      (
        caption_response caption (pos n),
        rw (no_index-place n images r) (
            OnlyLogs-bind (image_at images n) _ w image _ o (λ w₁ q₁.
              OnlyLogs-bind (generate_caption services (length images) image relevant_info) _ w₁
                caption _
                (OnlyLogs-generate_caption services (length images) image relevant_info v w₁
                  (Quiet-trans q q₁))
                (λ w₂ q₂. OnlyLogs-log_then info _ _ w₂ _ (λ w₃ q₃. OnlyLogs-pure w₃ _)))),
        (image, a, refl),
      )

  -- post_json in the world `w`, where all but the log is as in `v`
  abbrev pub Posted : World → World → Bytes → Type 0
  Posted v w body =
      ((e : Exception) × OnlyLogs (post_json services body) w (throws e) × IsThrown body e)
      ⊎ ((json : Bytes) × OnlyLogs (post_json services body) w (returns json)
          × IsPosted v body json)

  OnlyLogs-lifted : {A : Type 0} (o o' : Outcome A) (w : World) → o ≡ o' → OnlyLogs (lift o) w o'
  OnlyLogs-lifted o o' w e = OnlyLogs-cast (lift o) w o o' e (OnlyLogs-lift o w)

  IsPosted-images :
      (body relevant_info : Bytes) (images : List Bytes) (v w : World)
      → Quiet v w
      → get_relevant_information body ≡ returns relevant_info
      → get_images body ≡ returns images
      → (json : Bytes) × OnlyLogs (post_json services body) w (returns json) × IsPosted v body json
  unfolding post_json
  IsPosted-images body relevant_info images v w q i e =
      OnlyLogs-bind_some (lift (get_relevant_information body)) _ w (IsPosted v body) relevant_info
        (OnlyLogs-lifted _ _ w i)
        (λ w₁ q₁.
          OnlyLogs-bind_some (lift (get_images body)) _ w₁ (IsPosted v body) images
            (OnlyLogs-lifted _ _ w₁ e)
            (λ w₂ q₂. chosen_json w₂ (Quiet-trans q (Quiet-trans q₁ q₂))))
    where
      chosen_json :
          (w : World)
          → Quiet v w
          → (json : Bytes) × OnlyLogs
              (get_best_image_index services images >>= λ index.
                choose_json services (is_no_index index images) index images relevant_info)
              w
              (returns json)
            × IsPosted v body json
      chosen_json w q =
          let (index, o, r, b) = get_best_image_index-IsBest images v w q in
          OnlyLogs-bind_some (get_best_image_index services images) _ w (IsPosted v body) index o
            (λ w' q'.
              let (json, p, a) =
                choose_json-AnswerJson index images relevant_info v w' (Quiet-trans q q') r in
              (
                json,
                p,
                record {
                  relevant_info = relevant_info;
                  images = images;
                  index = index;
                  info_is = i;
                  images_are = e;
                  best = b;
                  in_range = r;
                  json_is = a;
                },
              ))

  pub post_json-Posted : (body : Bytes) (v w : World) → Quiet v w → Posted v w body
  unfolding post_json
  post_json-Posted body v w q = elim (Ends-get_relevant_information body).ending [
    | inr (e, thrown, n) ↦ inl (
      e,
      OnlyLogs-bind_throws (lift (get_relevant_information body)) _ w e
          (OnlyLogs-lifted _ _ w thrown),
      record { thrown = inl thrown; of_number = n },
    )
    | inl (relevant_info, i) ↦ elim (Ends-get_images body).ending [
      | inr (e, thrown, n) ↦ inl (
        e,
        OnlyLogs-bind (lift (get_relevant_information body)) _ w relevant_info _
            (OnlyLogs-lifted _ _ w i)
            (λ w' q'.
              OnlyLogs-bind_throws (lift (get_images body)) _ w' e (OnlyLogs-lifted _ _ w' thrown)),
        record { thrown = inr thrown; of_number = n },
      )
      | inl (images, k) ↦ inr (IsPosted-images body relevant_info images v w q i k)
    ]
  ]
