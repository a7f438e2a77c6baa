-- ===== src/Crud/Manager/Store.antt =====
-- writeObject and deleteObject as changes of a map from paths to texts.
use dinner_is_servered.Prelude.{
  Bool, true, false, inl, inr, ◌≡◌, ◌≢◌, refl, sym, ap, ◌∙◌, subst, [], ◌∷◌, Option, none, some,
  Bytes, if◌then◌else◌,
}
use dinner_is_servered.Logging.{info, error}
use dinner_is_servered.Runtime.{World, Outcome, returns, M, ◌>>=◌, ◌>>◌, pure, gets, log, update}
use dinner_is_servered.Runtime.Files.{FilePath, FileSystem, parts_of, same_path, same_path_iff}
use dinner_is_servered.Runtime.Disk.{write, remove}
use dinner_is_servered.Runtime.Contents.{
  content_at, content_at-write, content_at-written, content_at-remove, cleared, distinct_paths,
  same_path-cases,
}
use dinner_is_servered.Runtime.Words.{stoull}
use dinner_is_servered.Runtime.Inversion.{Outcome-cases}
use dinner_is_servered.Runtime.Keeps.{Keeps, Keeps-bind, Keeps-pure, Keeps-lift_bind, Keeps-if}
use dinner_is_servered.Dispatch.Routes.{CrudPath}
use dinner_is_servered.Crud.Ids.{
  max_entity_ids_file, temp_file, size_of, set_files, entity_directory, generate_entity_id,
  write_entity_id,
}
use dinner_is_servered.Crud.Ids.Frame.{
  content, Keeps-log_then, Keeps-log, Keeps-catch_filesystem, make_directory-Keeps,
  generate_entity_id-Keeps, write_entity_id-Keeps,
}
use dinner_is_servered.Crud.Manager.{
  object_file, ensure_entity_directory, raise_max_id, note_id, write_opened, write_object,
  exists_object, removed_object, delete_existing, delete_object,
}

-- The one text where a call returns true, and the other where it does not.
abbrev pub by_outcome : Outcome Bool → Option Bytes → Option Bytes → Option Bytes
by_outcome (returns true) a b = a
by_outcome _ a b = b

-- A text at the path `p`, in place of what was at `q`.
abbrev pub placed : FilePath → FilePath → Bytes → Option Bytes → Option Bytes
placed p q json o = if same_path q p then some json else o

module _ (q : FilePath) where
  -- Where the call returns true, what is at `q` is changed by `f`; else it is kept.
  record Changes (f : Option Bytes → Option Bytes) (m : M Bool) : Type 0 where
    changes : (w : World) → content q (m w).1 ≡ by_outcome (m w).0 (f (content q w)) (content q w)

  Changes-bind :
      {A : Type 0} (f : Option Bytes → Option Bytes) (m : M A) (k : A → M Bool)
      → Keeps (content q) m
      → ((a : A) → Changes f (k a))
      → Changes f (m >>= k)
  unfolding ◌>>=◌
  Changes-bind f m k h r = record {
    changes = λ w. elim (Outcome-cases (m w).0) [
      | inl (a, e) ↦
          rw (e, ◌>>=◌)
            ((r a).changes (m w).1 ∙ ap (λ o. by_outcome (k a (m w).1).0 (f o) o) (h.keeps w))
      | inr (inl (x, e)) ↦ rw (e, ◌>>=◌) (h.keeps w)
      | inr (inr e) ↦ rw (e, ◌>>=◌) (h.keeps w)
    ];
  }

  Changes-gets_bind :
      {A : Type 0} (f : Option Bytes → Option Bytes) (g : World → A) (k : A → M Bool)
      → ((a : A) → Changes f (k a))
      → Changes f (gets g >>= k)
  unfolding gets ◌>>=◌
  Changes-gets_bind f g k h = record { changes = λ w. (h (g w)).changes w }

  Changes-false :
      (f : Option Bytes → Option Bytes) (message : Bytes)
      → Changes f (log error message >> pure false)
  unfolding log pure ◌>>=◌
  Changes-false f message = record { changes = λ w. refl }

  content-placed :
      (path json : Bytes) (fs : FileSystem)
      → content_at q (write path json fs) ≡ placed (parts_of path) q json (content_at q fs)
  content-placed path json fs = elim (same_path-cases (parts_of path) q) [
    | inl same ↦
        subst
          (λ r. content_at r (write path json fs) ≡ placed (parts_of path) r json (content_at r fs))
          same
          (content_at-written path json fs
            ∙ sym (
                ap (λ b. if b then some json else content_at (parts_of path) fs)
                  ((same_path_iff (parts_of path) (parts_of path)).1 refl)))
    | inr other ↦
        content_at-write q path json fs other
        ∙ sym (
            ap (λ b. if b then some json else content_at q fs)
              (distinct_paths q (parts_of path) (λ e. other (sym e))))
  ]

  write_opened-Changes :
      (path : CrudPath) (json : Bytes) (o : Option Bytes)
      → Changes (placed (parts_of (object_file path)) q json) (write_opened path json o)
  unfolding write_opened update log pure ◌>>=◌
  write_opened-Changes path json none = record { changes = λ w. refl }
  write_opened-Changes path json (some c) = record {
    changes = λ w. content-placed (object_file path) json w.files;
  }

  removed_object-changes :
      (path : CrudPath) (w : World) (o : Option (FileSystem × Bool))
      → remove (object_file path) w.files ≡ o
      → content q (removed_object o w).1
        ≡ by_outcome
            (removed_object o w).0
            (cleared (parts_of (object_file path)) q (content q w))
            (content q w)
  unfolding removed_object set_files update pure ◌>>=◌
  removed_object-changes path w none e = refl
  removed_object-changes path w (some (fs, false)) e =
      content_at-remove q (object_file path) w.files fs false e
  removed_object-changes path w (some (fs, true)) e =
      content_at-remove q (object_file path) w.files fs true e

  delete_existing-Changes :
      (path : CrudPath) (b : Bool)
      → Changes (cleared (parts_of (object_file path)) q) (delete_existing path b)
  unfolding delete_existing gets ◌>>=◌
  delete_existing-Changes path false = Changes-false _ _
  delete_existing-Changes path true = record {
    changes = λ w. removed_object-changes path w (remove (object_file path) w.files) refl;
  }

  delete_object-Changes :
      (path : CrudPath) → Changes (cleared (parts_of (object_file path)) q) (delete_object path)
  unfolding delete_object exists_object
  delete_object-Changes path =
      Changes-gets_bind _ _ (delete_existing path) (λ b. delete_existing-Changes path b)

  module _ (path : CrudPath) (apart : q ≢ parts_of (max_entity_ids_file path))
      (apart_temp : q ≢ parts_of temp_file) where
    ensure_entity_directory-Keeps : (b : Bool) → Keeps (content q) (ensure_entity_directory path b)
    unfolding ensure_entity_directory
    ensure_entity_directory-Keeps true = Keeps-pure (content q) tt
    ensure_entity_directory-Keeps false =
        Keeps-catch_filesystem q _ _
          (Keeps-log_then q _ _ _ (
            Keeps-bind (content q) (write_entity_id path 1) _
              (write_entity_id-Keeps q path apart apart_temp 1)
              (λ _. make_directory-Keeps q (entity_directory path))))
          (Keeps-log q _ _)

    note_id-Keeps : (id : Bytes) → Keeps (content q) (note_id path id)
    unfolding note_id raise_max_id
    note_id-Keeps [] = Keeps-pure (content q) tt
    note_id-Keeps (c ∷ cs) = Keeps-lift_bind (content q) (size_of (stoull (c ∷ cs))) _ (λ id.
        Keeps-bind (content q) (generate_entity_id path) _
          (generate_entity_id-Keeps q path apart apart_temp)
          (λ generated. Keeps-lift_bind (content q) (size_of (stoull generated)) _ (λ next.
            Keeps-if (content q) _ _ _
              (Keeps-bind (content q) (write_entity_id path id) _
                (write_entity_id-Keeps q path apart apart_temp id) (λ _. Keeps-pure (content q) tt))
              (Keeps-pure (content q) tt))))

    write_object-Changes :
        (json : Bytes)
        → Changes (placed (parts_of (object_file path)) q json) (write_object path json)
    unfolding write_object
    write_object-Changes json = Changes-gets_bind _ _ _ (λ there.
        Changes-bind _ (ensure_entity_directory path there) _ (ensure_entity_directory-Keeps there)
          (λ _. Changes-bind _ (log info _) _ (Keeps-log q _ _) (λ _.
            Changes-bind _ (note_id path path.entity_id) _ (note_id-Keeps path.entity_id) (λ _.
              Changes-gets_bind _ _ (write_opened path json)
                (λ o. write_opened-Changes path json o)))))

    -- The object files as a map from paths to texts, whatever path is looked at besides those of
    -- maxEntityIds and of the temporary file. Where writeObject returns true, it places the text
    -- at the path of the object and keeps all else, and where deleteObject returns true, it clears the
    -- path of the object and keeps all else. Where they return false or throw, or are undefined, all
    -- is kept.
    pub manager_refines :
        (json : Bytes) (w : World)
        → (content_at q (write_object path json w).1.files
            ≡ by_outcome
                (write_object path json w).0
                (placed (parts_of (object_file path)) q json (content_at q w.files))
                (content_at q w.files))
          × (content_at q (delete_object path w).1.files
              ≡ by_outcome
                  (delete_object path w).0
                  (cleared (parts_of (object_file path)) q (content_at q w.files))
                  (content_at q w.files))
    manager_refines json w =
        ((write_object-Changes json).changes w, (delete_object-Changes path).changes w)
