-- ===== src/Crud/Ids/Fresh.antt =====
-- generateEntityId behind writeEntityId, over the files.
use dinner_is_servered.Prelude.{
  some-injective, ℕ, suc, ◌%◌, ◌^◌, ◌<◌, Bool, true, false, ◌≡◌, ◌≢◌, sym, ap, ◌∙◌, subst, inl, inr,
  ◌⊎◌, List, ◌∷◌, ◌++◌, Option, none, some, Bytes, arith,
}
use dinner_is_servered.Logging.{info, error}
use dinner_is_servered.Runtime.{World, Outcome, returns, M, ◌>>=◌, ◌>>◌, pure, gets, log, update}
use dinner_is_servered.Runtime.Files.{Node, regular, FilePath, parts_of, entry, exists, open_in}
use dinner_is_servered.Runtime.Disk.{write, remove, open_out, exists_of_open}
use dinner_is_servered.Runtime.Contents.{content_at-written}
use dinner_is_servered.Runtime.Numbers.{to_string}
use dinner_is_servered.Runtime.Words.{words, parsed, stoull}
use dinner_is_servered.Runtime.Decimal.{stoull-to_string}
use dinner_is_servered.Runtime.Inversion.{leaves-bind}
use dinner_is_servered.Runtime.Keeps.{Keeps-pure}
use dinner_is_servered.Dispatch.Routes.{CrudPath}
use dinner_is_servered.Crud.Ids.{
  ensure_directory, max_entity_ids_file, entity_directory, next_id, touch, ensure_file, id_from,
  readable, generate_entity_id, append_id, temp_file, copy_to, removed, replace_in_file, write_id,
  write_entity_id, content_of, replace_ids,
}
use dinner_is_servered.Crud.Ids.Replace.{NoBlank, HasLine, id_line, next_id-replace_ids}
use dinner_is_servered.Crud.Ids.Words.{HasNoLine, next_id-appended}
use dinner_is_servered.Runtime.Quiet.{bind_returns}
use dinner_is_servered.Crud.Ids.Frame.{
  content, ensure_directory-Keeps, Keeps-files_then, content_at-removed,
}
use dinner_is_servered.Crud.Ids.Ends.{
  open_in-entry, text_of-regular, copy_to-content, files_then-content, open_out-cases,
  ensure_directory-returns,
}

-- The lines of the ids file, as writeEntityId and generateEntityId want them: one for the name where
-- the directory of the entity exists, and none where it does not.
abbrev pub IsKept : Bytes → Bool → List Bytes → Type 0
IsKept name true lines = HasLine name lines
IsKept name false lines = HasNoLine name lines

module _ (path : CrudPath)
    (apart_temp : parts_of (max_entity_ids_file path) ≢ parts_of temp_file) where
  abbrev ids_file : Bytes
  ids_file = max_entity_ids_file path

  abbrev place : FilePath
  place = parts_of ids_file

  replace_in_file-content :
      (max_id : ℕ) (node : Node) (o : Option Bytes) (w : World)
      → (replace_in_file path max_id (some node) o w).0 ≡ returns true
      → content place (replace_in_file path max_id (some node) o w).1
        ≡ some (replace_ids path.entity_name max_id (words (content_of node)))
  unfolding replace_in_file pure
  replace_in_file-content max_id node none w e = absurd cc
  replace_in_file-content max_id node (some opened) w e =
      let text = replace_ids path.entity_name max_id (words (content_of node)) in
      leaves-bind (update (λ w. record w { files = write temp_file text w.files })) _
        (λ w. content place w ≡ some text) true
        (λ _ w.
          files_then-content place (λ fs. copy_to ids_file text (open_in fs ids_file) fs) _ text w
            (λ fs fs'. copy_to-content ids_file text (open_in fs ids_file) fs fs')
            (Keeps-files_then place (λ fs. removed (remove temp_file fs)) _
              (λ fs fs'. content_at-removed place temp_file fs fs' apart_temp)
              (Keeps-pure (content place) true)))
        w e

  -- How the file reads behind write_id.
  abbrev ids_text : Bool → ℕ → Bytes → Bytes
  ids_text true max_id c = replace_ids path.entity_name max_id (words c)
  ids_text false max_id c = c ++ b'\n' ∷ id_line path.entity_name max_id

  append_id-content :
      (max_id : ℕ) (c : Bytes) (o : Option Bytes) (w : World)
      → (o ≡ none) ⊎ (o ≡ some c)
      → (append_id path max_id o w).0 ≡ returns true
      → content place (append_id path max_id o w).1 ≡ some (ids_text false max_id c)
  unfolding append_id log update pure ◌>>=◌
  append_id-content max_id c none w h e = absurd cc
  append_id-content max_id c (some d) w (inl n) e = absurd cc
  append_id-content max_id c (some d) w (inr n) e =
      content_at-written ids_file _ w.files
      ∙ ap (λ x. some (ids_text false max_id x)) (some-injective d c n)

  write_id-content :
      (max_id : ℕ) (c : Bytes) (b : Bool) (w : World)
      → open_in w.files ids_file ≡ some (regular c)
      → (write_id path max_id b w).0 ≡ returns true
      → content place (write_id path max_id b w).1 ≡ some (ids_text b max_id c)
  unfolding write_id gets ◌>>=◌ content_of
  write_id-content max_id c false w h e =
      append_id-content max_id c (open_out w.files ids_file) w (open_out-cases w.files ids_file c h)
        e
  write_id-content max_id c true w h e =
      let out = open_out w.files temp_file in
      let k : (o : Option Node) (w : World)
          → o ≡ some (regular c)
          → (replace_in_file path max_id o out w).0 ≡ returns true
          → content place (replace_in_file path max_id o out w).1 ≡ some (ids_text true max_id c) =
        λ o w n.
          subst
            (λ o.
              (replace_in_file path max_id o out w).0 ≡ returns true
              → content place (replace_in_file path max_id o out w).1
                ≡ some (ids_text true max_id c))
            (sym n) (replace_in_file-content max_id (regular c) out w) in
      leaves-bind (touch temp_file out)
        (λ _. replace_in_file path max_id (open_in w.files ids_file) out)
        (λ w. content place w ≡ some (ids_text true max_id c)) true
        (λ _ w'. k (open_in w.files ids_file) w' h) w e

  write_entity_id-content :
      (max_id : ℕ) (c : Bytes) (w : World)
      → exists w.files path.data_path ≡ true
      → open_in w.files ids_file ≡ some (regular c)
      → (write_entity_id path max_id w).0 ≡ returns true
      → content place (write_entity_id path max_id w).1
        ≡ some (ids_text (exists w.files (entity_directory path)) max_id c)
  unfolding write_entity_id ensure_directory pure gets ◌>>=◌
  write_entity_id-content max_id c w d h e =
      let there = exists w.files (entity_directory path) in
      let K : Bool → Outcome Bool × World = λ b.
        (ensure_directory error path.data_path b
            >> (gets (λ w. exists w.files (entity_directory path)) >>= write_id path max_id))
          w in
      subst (λ b. (K b).0 ≡ returns true → content place (K b).1 ≡ some (ids_text there max_id c))
        (sym d) (write_id-content max_id c there w h) e

  -- the steps of generateEntityId behind the directory
  abbrev last_steps : M Bytes
  last_steps = gets (λ w. exists w.files ids_file) >>= λ file_there.
      ensure_file ids_file file_there
      >> (gets (λ w. readable (open_in w.files ids_file)) >>= id_from path)

  -- generateEntityId where the file reads `text`.
  generate_entity_id-reads :
      (c text : Bytes) (id : Bytes) (v w : World)
      → open_in v.files ids_file ≡ some (regular c)
      → content place w ≡ some text
      → ((w : World) → (next_id path.entity_name (words text) w).0 ≡ returns id)
      → (generate_entity_id path w).0 ≡ returns id
  unfolding generate_entity_id ensure_file id_from readable pure gets ◌>>=◌
  generate_entity_id-reads c text id v w h r next =
      let ensured = ensure_directory info path.data_path (exists w.files path.data_path) in
      let w₁ = (ensured w).1 in
      let opened : open_in w₁.files ids_file ≡ some (regular text) =
        open_in-entry v.files ids_file c h w₁.files
        ∙ text_of-regular (entry place w₁.files) text (
            (ensure_directory-Keeps place info path.data_path (exists w.files path.data_path)).keeps
              w
            ∙ r) in
      ap (λ x. x.0)
        (bind_returns ensured (λ _. last_steps) w tt
          (ensure_directory-returns info path.data_path (exists w.files path.data_path) w))
      ∙ ap
          (λ b.
            ((ensure_file ids_file b
                >> (gets (λ w. readable (open_in w.files ids_file)) >>= id_from path))
              w₁).0)
          (exists_of_open w₁.files ids_file (regular text) opened)
      ∙ ap (λ o. (id_from path (readable o) w₁).0) opened
      ∙ next w₁

  next_id-IsKept :
      (b : Bool) (max_id : ℕ) (c : Bytes) (w : World)
      → NoBlank path.entity_name
      → suc max_id < 2 ^ 64
      → IsKept path.entity_name b (words c)
      → (next_id path.entity_name (words (ids_text b max_id c)) w).0
        ≡ returns (to_string (suc max_id % 2 ^ 64))
  next_id-IsKept false max_id c w n h k =
      ap (λ x. x.0) (next_id-appended path.entity_name c max_id w n (omega (arith, h)) k)
  next_id-IsKept true max_id c w n h k =
      ap (λ x. x.0) (next_id-replace_ids path.entity_name c max_id w n (omega (arith, h)) k)

  -- Behind a call of writeEntityId that returns true, generateEntityId gives the next id, whether the
  -- line of the entity was there and is rewritten, or is new: where the data directory and the ids
  -- file are there, the file has a line for the name exactly where the directory of the entity
  -- exists, the name holds no blank, and the id is below the last of 64 bits.
  pub generate_entity_id-written :
      (max_id : ℕ) (c : Bytes) (w : World)
      → NoBlank path.entity_name
      → suc max_id < 2 ^ 64
      → exists w.files path.data_path ≡ true
      → open_in w.files (max_entity_ids_file path) ≡ some (regular c)
      → IsKept path.entity_name (exists w.files (entity_directory path)) (words c)
      → (write_entity_id path max_id w).0 ≡ returns true
      → (id : Bytes) × ((generate_entity_id path (write_entity_id path max_id w).1).0 ≡ returns id)
        × (stoull id ≡ parsed (suc max_id))
  generate_entity_id-written max_id c w n h d o k e = (
    to_string (suc max_id % 2 ^ 64),
    generate_entity_id-reads c _ _ w _ o (write_entity_id-content max_id c w d o e)
        (λ w'. next_id-IsKept (exists w.files (entity_directory path)) max_id c w' n h k),
    ap (λ m. stoull (to_string m)) (omega (arith, h)) ∙ stoull-to_string (suc max_id) h,
  )
