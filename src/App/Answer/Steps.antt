-- ===== src/App/Answer/Steps.antt =====
-- The steps of process_post: an image of an index in range, and the caption.
use dinner_is_servered.Prelude.{
  ℕ, zero, suc, ◌<◌, ◌≡◌, inl, inr, refl, sym, ap, ◌∙◌, subst, true, false, List, [], ◌∷◌, ◌++◌,
  Bytes, text, length, length-append, arith,
}
use dinner_is_servered.Logging.{info, error}
use dinner_is_servered.Runtime.{World, returns, gets}
use dinner_is_servered.Runtime.Numbers.{ℤ, pos, negsuc}
use dinner_is_servered.Runtime.Search.{size_of_int}
use dinner_is_servered.Runtime.Quiet.{
  Quiet, Quiet-trans, OnlyLogs, OnlyLogs-pure, OnlyLogs-gets, OnlyLogs-log_then, OnlyLogs-bind,
  OnlyLogs-cast,
}
use dinner_is_servered.App.Services.{
  Services, Transfer, no_handle, failed, received, Content, content, unreadable, read_buffer,
}
use dinner_is_servered.App.Prompts.{caption_json}
use dinner_is_servered.App.Scores.{less_int, request_of}
use dinner_is_servered.App.Scores.Verdicts.{
  Verdict, skipped, unreachable, unread, scored, Decides, Chosen,
}
use dinner_is_servered.App.Scores.Chosen.{verdicts, request_of-Quiet}
use dinner_is_servered.App.Answer.{
  image_at, is_no_index, caption_answer, caption_transfer, generate_caption,
}

-- An index is negative, or one of an image.
abbrev pub InRange : List Bytes → ℤ → Type 0
InRange images (negsuc k) = Unit
InRange images (pos n) = n < length images

Decides-range :
    (before behind : List Verdict) (v : Verdict) (index : ℤ) (images : List Bytes)
    → Decides before v index
    → length images ≡ length (before ++ v ∷ behind)
    → InRange images index
Decides-range before behind skipped index images d e = absurd d
Decides-range before behind unreachable index images d e = subst (InRange images) (sym d) tt
Decides-range before behind unread index images d e = subst (InRange images) (sym d) tt
Decides-range before behind (scored s) index images d e =
    subst (InRange images) (sym d.0) (omega (arith, e, length-append before (scored s ∷ behind)))

pub Chosen-range :
    (vs : List Verdict) (index : ℤ) (images : List Bytes)
    → Chosen vs index
    → length images ≡ length vs
    → InRange images index
Chosen-range vs index images (inl (e, a)) l = subst (InRange images) (sym e) tt
Chosen-range vs index images (inr d) l =
    Decides-range d.before d.behind d.verdict index images d.decides (l ∙ ap length d.splits)

pub length-verdicts :
    (services : Services) (w : World) (i : ℕ) (images : List Bytes)
    → length images ≡ length (verdicts services w i images)
length-verdicts services w i [] = refl
length-verdicts services w i (image ∷ images) = ap suc (length-verdicts services w (suc i) images)

-- An image of an index in range.
pub record At (images : List Bytes) (n : ℕ) (image : Bytes) : Type 0 where
  before : List Bytes
  behind : List Bytes
  splits : images ≡ before ++ image ∷ behind
  place : n ≡ length before

pub OnlyLogs-image_at :
    (images : List Bytes) (n : ℕ) (w : World)
    → n < length images
    → (image : Bytes) × OnlyLogs (image_at images n) w (returns image) × At images n image
unfolding image_at
OnlyLogs-image_at [] n w h = absurd (omega (arith, h))
OnlyLogs-image_at (image ∷ images) zero w h = (
  image,
  OnlyLogs-pure w image,
  record { before = []; behind = images; splits = refl; place = refl },
)
OnlyLogs-image_at (image ∷ images) (suc n) w h =
    let (i, o, a) = OnlyLogs-image_at images n w (omega (arith, h)) in
    (
      i,
      o,
      record {
        before = image ∷ a.before;
        behind = a.behind;
        splits = ap (◌∷◌ image) a.splits;
        place = ap suc a.place;
      },
    )

pub no_index-negative : (k : ℕ) (images : List Bytes) → is_no_index (negsuc k) images ≡ true
unfolding is_no_index less_int
no_index-negative k images = refl

pub no_index-place :
    (n : ℕ) (images : List Bytes) → n < length images → is_no_index (pos n) images ≡ false
unfolding is_no_index less_int size_of_int
no_index-place n images h = ground (arith, h)

module _ (services : Services) where
  abbrev content_caption : Content → Bytes
  content_caption (content caption) = caption
  content_caption (unreadable what) = text "An error occurred while generating a caption"

  -- The caption, empty where no transfer could be set up.
  abbrev pub caption_of : Transfer → Bytes
  caption_of no_handle = []
  caption_of (failed reason) = text "An error occurred when generating a caption"
  caption_of (received chunks) = content_caption (services.read_content (read_buffer chunks []))

  OnlyLogs-caption_answer :
      (c : Content) (w : World) → OnlyLogs (caption_answer c) w (returns (content_caption c))
  unfolding caption_answer
  OnlyLogs-caption_answer (content caption) w =
      OnlyLogs-log_then info _ _ w _ (λ w' q. OnlyLogs-pure w' _)
  OnlyLogs-caption_answer (unreadable what) w =
      OnlyLogs-log_then error _ _ w _ (λ w' q. OnlyLogs-pure w' _)

  OnlyLogs-caption_transfer :
      (t : Transfer) (w : World) → OnlyLogs (caption_transfer services t) w (returns (caption_of t))
  unfolding caption_transfer
  OnlyLogs-caption_transfer no_handle w = OnlyLogs-pure w _
  OnlyLogs-caption_transfer (failed reason) w =
      OnlyLogs-log_then error _ _ w _ (λ w' q. OnlyLogs-pure w' _)
  OnlyLogs-caption_transfer (received chunks) w = OnlyLogs-caption_answer _ w

  abbrev pub caption_for : World → ℕ → Bytes → Bytes → Bytes
  caption_for w n image relevant_info =
      caption_of (services.perform n (request_of (caption_json relevant_info image) w))

  pub OnlyLogs-generate_caption :
      (n : ℕ) (image relevant_info : Bytes) (v w : World)
      → Quiet v w
      → OnlyLogs
          (generate_caption services n image relevant_info)
          w
          (returns (caption_for v n image relevant_info))
  unfolding generate_caption
  OnlyLogs-generate_caption n image relevant_info v w q =
      let json = caption_json relevant_info image in
      OnlyLogs-log_then info _ _ w _ (λ w₁ q₁.
        OnlyLogs-bind (gets (request_of json)) _ w₁ (request_of json v) _
          (OnlyLogs-cast _ w₁ _ _ (ap returns (request_of-Quiet json v w₁ (Quiet-trans q q₁)))
            (OnlyLogs-gets w₁ _))
          (λ w₂ q₂. OnlyLogs-caption_transfer _ w₂))
