-- ===== src/Crud/Ids/Frame.antt =====
-- What generateEntityId and writeEntityId leave of the files: all but maxEntityIds and the temporary
-- file.
use dinner_is_servered.Prelude.{
  some-injective, ℕ, Bool, true, false, Bool-cases, Option-cases, inl, inr, ◌≡◌, ◌≢◌, refl, sym, ap,
  ◌∙◌, List, [], ◌∷◌, Option, none, some, Bytes, text, if◌then◌else◌,
}
use dinner_is_servered.Logging.{LogSeverity, info, error}
use dinner_is_servered.Runtime.{
  World, Exception, invalid_argument, out_of_range, length_error, bad_alloc, filesystem_error,
  runtime_error, M, ◌>>=◌, ◌>>◌, log, gets, update, raise,
}
use dinner_is_servered.Runtime.Files.{
  Node, directory, regular, FilePath, FileSystem, parts_of, open_in,
}
use dinner_is_servered.Runtime.Disk.{write, create_directories, remove}
use dinner_is_servered.Runtime.Contents.{
  content_at, content_at-write, content_at-create_directories, content_at-remove, cleared,
  distinct_paths,
}
use dinner_is_servered.Runtime.Words.{words}
use dinner_is_servered.Runtime.Inversion.{Outcome-cases}
use dinner_is_servered.Runtime.Keeps.{
  Keeps, bind-Keeps, Keeps-bind, Keeps-pure, Keeps-raise, Keeps-update, Keeps-lift_bind,
  Keeps-gets_bind,
}
use dinner_is_servered.Dispatch.Routes.{CrudPath}
use dinner_is_servered.Crud.Ids.{
  caught, catch_filesystem, set_files, or_filesystem_error, make_directory, ensure_directory,
  max_entity_ids_file, is_line_of, next_id, touch, ensure_file, id_from, generate_entity_id,
  append_id, temp_file, copy_to, removed, replace_in_file, write_id, write_entity_id, content_of,
  replace_ids,
}

module _ (q : FilePath) where
  abbrev pub content : World → Option Bytes
  content w = content_at q w.files

  pub Keeps-log_then :
      {A : Type 0} (severity : LogSeverity) (message : Bytes) (m : M A)
      → Keeps content m
      → Keeps content (log severity message >> m)
  unfolding log ◌>>=◌
  Keeps-log_then severity message m h = record { keeps = λ w. h.keeps (log severity message w).1 }

  pub Keeps-log : (severity : LogSeverity) (message : Bytes) → Keeps content (log severity message)
  unfolding log
  Keeps-log severity message = record { keeps = λ w. refl }

  Keeps-caught :
      (e : Exception) (handler : M (Unit {0}))
      → Keeps content handler
      → Keeps content (caught e handler)
  unfolding caught
  Keeps-caught filesystem_error handler h = h
  Keeps-caught invalid_argument handler h = Keeps-raise content _ _
  Keeps-caught out_of_range handler h = Keeps-raise content _ _
  Keeps-caught (runtime_error what) handler h = Keeps-raise content _ _
  Keeps-caught length_error handler h = Keeps-raise content _ _
  Keeps-caught bad_alloc handler h = Keeps-raise content _ _

  pub Keeps-catch_filesystem :
      (body handler : M (Unit {0}))
      → Keeps content body
      → Keeps content handler
      → Keeps content (catch_filesystem body handler)
  unfolding catch_filesystem
  Keeps-catch_filesystem body handler h k = record {
    keeps = λ w. elim (Outcome-cases (body w).0) [
      | inl (a, e) ↦ rw (e, catch_filesystem) (h.keeps w)
      | inr (inl (x, e)) ↦
          rw (e, catch_filesystem) ((Keeps-caught x handler k).keeps (body w).1 ∙ h.keeps w)
      | inr (inr e) ↦ rw (e, catch_filesystem) (h.keeps w)
    ];
  }

  -- A change of the files that may throw.
  or_filesystem_error-keeps :
      (o : Option FileSystem) (w : World)
      → ((fs : FileSystem) → o ≡ some fs → content_at q fs ≡ content w)
      → content (or_filesystem_error o w).1 ≡ content w
  unfolding or_filesystem_error set_files update raise
  or_filesystem_error-keeps none w h = refl
  or_filesystem_error-keeps (some fs) w h = h fs refl

  abbrev pub KeepsContent : (FileSystem → Option FileSystem) → Type 0
  KeepsContent f = (fs fs' : FileSystem) → f fs ≡ some fs' → content_at q fs' ≡ content_at q fs

  pub Keeps-files_then :
      {A : Type 0} (f : FileSystem → Option FileSystem) (k : M A)
      → KeepsContent f
      → Keeps content k
      → Keeps content (gets (λ w. w.files) >>= λ fs. or_filesystem_error (f fs) >> k)
  unfolding gets ◌>>=◌
  Keeps-files_then f k h r = record {
    keeps = λ w.
        bind-Keeps content (or_filesystem_error (f w.files)) (λ _. k) w
          (or_filesystem_error-keeps (f w.files) w (λ fs. h w.files fs)) (λ _. r);
  }

  pub make_directory-Keeps : (path : Bytes) → Keeps content (make_directory path)
  unfolding make_directory gets ◌>>=◌
  make_directory-Keeps path = record {
    keeps = λ w.
        or_filesystem_error-keeps (create_directories path w.files) w
          (λ fs. content_at-create_directories q path w.files fs);
  }

  pub ensure_directory-Keeps :
      (severity : LogSeverity) (path : Bytes) (b : Bool)
      → Keeps content (ensure_directory severity path b)
  unfolding ensure_directory
  ensure_directory-Keeps severity path true = Keeps-pure content tt
  ensure_directory-Keeps severity path false =
      Keeps-catch_filesystem _ _ (Keeps-log_then _ _ _ (make_directory-Keeps path)) (Keeps-log _ _)

  next_id-Keeps : (name : Bytes) (lines : List Bytes) → Keeps content (next_id name lines)
  unfolding next_id
  next_id-Keeps name [] = Keeps-pure content _
  next_id-Keeps name (line ∷ lines) = elim (Bool-cases (is_line_of name line)) [
    | inl e ↦ rw (e, next_id) (Keeps-lift_bind content _ _ (λ n. Keeps-pure content _))
    | inr e ↦ rw (e, next_id) (next_id-Keeps name lines)
  ]

  id_from-Keeps : (path : CrudPath) (o : Option Bytes) → Keeps content (id_from path o)
  unfolding id_from
  id_from-Keeps path none = Keeps-log_then _ _ _ (Keeps-pure content _)
  id_from-Keeps path (some c) = next_id-Keeps path.entity_name (words c)

  touch-Keeps : (path : Bytes) (o : Option Bytes) → q ≢ parts_of path → Keeps content (touch path o)
  unfolding touch
  touch-Keeps path none h = Keeps-pure content tt
  touch-Keeps path (some c) h = Keeps-update content _ (λ w. content_at-write q path [] w.files h)

  ensure_file-Keeps :
      (path : Bytes) (b : Bool) → q ≢ parts_of path → Keeps content (ensure_file path b)
  unfolding ensure_file
  ensure_file-Keeps path true h = Keeps-pure content tt
  ensure_file-Keeps path false h =
      Keeps-log_then _ _ _ (Keeps-gets_bind content _ (touch path) (λ o. touch-Keeps path o h))

  content_at-copy_to :
      (path text : Bytes) (o : Option Node) (fs fs' : FileSystem)
      → q ≢ parts_of path
      → copy_to path text o fs ≡ some fs'
      → content_at q fs' ≡ content_at q fs
  unfolding copy_to
  content_at-copy_to path text none fs fs' n h =
      ap (content_at q) (sym (some-injective _ _ h)) ∙ content_at-write q path text fs n
  content_at-copy_to path text (some (regular c)) fs fs' n h =
      ap (content_at q) (sym (some-injective _ _ h)) ∙ content_at-write q path text fs n
  content_at-copy_to path text (some directory) fs fs' n h = absurd cc

  pub content_at-removed :
      (path : Bytes) (fs fs' : FileSystem)
      → q ≢ parts_of path
      → removed (remove path fs) ≡ some fs'
      → content_at q fs' ≡ content_at q fs
  unfolding removed
  content_at-removed path fs fs' n h = elim (Option-cases (remove path fs)) [
    | inl e ↦ let z = rw (e, removed) at h in absurd cc
    | inr ((fs₁, b), e) ↦
        let same : fs₁ ≡ fs' = some-injective fs₁ fs' (rw (e, removed) at h) in
        ap (content_at q) (sym same)
        ∙ content_at-remove q path fs fs₁ b e
        ∙ not_cleared (parts_of path) n b
  ]
    where
      not_cleared :
          (p : FilePath)
          → q ≢ p
          → (b : Bool)
          → (if b then cleared p q (content_at q fs) else content_at q fs) ≡ content_at q fs
      not_cleared p n false = refl
      not_cleared p n true =
          ap (λ b. if b then none else content_at q fs) (distinct_paths q p (λ e. n (sym e)))

  module _ (path : CrudPath) (apart : q ≢ parts_of (max_entity_ids_file path))
      (apart_temp : q ≢ parts_of temp_file) where
    pub generate_entity_id-Keeps : Keeps content (generate_entity_id path)
    unfolding generate_entity_id
    generate_entity_id-Keeps = Keeps-gets_bind content _ _ (λ there.
        Keeps-bind content (ensure_directory info path.data_path there) _
          (ensure_directory-Keeps info path.data_path there)
          (λ _. Keeps-gets_bind content _ _ (λ file_there.
            Keeps-bind content (ensure_file (max_entity_ids_file path) file_there) _
              (ensure_file-Keeps (max_entity_ids_file path) file_there apart)
              (λ _. Keeps-gets_bind content _ (id_from path) (λ file. id_from-Keeps path file)))))

    append_id-Keeps : (max_id : ℕ) (o : Option Bytes) → Keeps content (append_id path max_id o)
    unfolding append_id
    append_id-Keeps max_id none = Keeps-log_then _ _ _ (Keeps-pure content false)
    append_id-Keeps max_id (some c) =
        Keeps-bind content (update _) _
          (Keeps-update content _ (λ w. content_at-write q _ _ w.files apart))
          (λ _. Keeps-pure content true)

    replace_in_file-Keeps :
        (max_id : ℕ) (o : Option Node) (p : Option Bytes)
        → Keeps content (replace_in_file path max_id o p)
    unfolding replace_in_file
    replace_in_file-Keeps max_id none p = Keeps-pure content false
    replace_in_file-Keeps max_id (some node) none = Keeps-pure content false
    replace_in_file-Keeps max_id (some node) (some opened) =
        let text = replace_ids path.entity_name max_id (words (content_of node)) in
        let file = max_entity_ids_file path in
        Keeps-bind content (update (λ w. record w { files = write temp_file text w.files })) _
          (Keeps-update content _ (λ w. content_at-write q temp_file text w.files apart_temp))
          (λ _.
            Keeps-files_then (λ fs. copy_to file text (open_in fs file) fs) _
              (λ fs fs'. content_at-copy_to file text (open_in fs file) fs fs' apart)
              (Keeps-files_then (λ fs. removed (remove temp_file fs)) _
                (λ fs fs'. content_at-removed temp_file fs fs' apart_temp)
                (Keeps-pure content true)))

    write_id-Keeps : (max_id : ℕ) (b : Bool) → Keeps content (write_id path max_id b)
    unfolding write_id
    write_id-Keeps max_id false =
        Keeps-gets_bind content _ (append_id path max_id) (λ o. append_id-Keeps max_id o)
    write_id-Keeps max_id true = Keeps-gets_bind content _ _ (λ filein.
        Keeps-gets_bind content _ _ (λ fileout.
          Keeps-bind content (touch temp_file fileout) _ (touch-Keeps temp_file fileout apart_temp)
            (λ _. replace_in_file-Keeps max_id filein fileout)))

    pub write_entity_id-Keeps : (max_id : ℕ) → Keeps content (write_entity_id path max_id)
    unfolding write_entity_id
    write_entity_id-Keeps max_id = Keeps-gets_bind content _ _ (λ there.
        Keeps-bind content (ensure_directory error path.data_path there) _
          (ensure_directory-Keeps error path.data_path there)
          (λ _. Keeps-gets_bind content _ (write_id path max_id) (λ b. write_id-Keeps max_id b)))
