-- ===== src/Persistence/Crash.antt =====
-- What a crash during `save` of src/persistence.rs leaves on the disk.
use helius.Common.{
  ℕ, String, Bool, true, false, Option, none, some, List, [], ◌∷◌, ◌++◌, ◌≡◌, ◌⊎◌, refl, ap, ◌∙◌,
  if◌then◌else◌, ◌==◌, ==_refl, string_eq, inl, inr,
}
use helius.Common.Text
use helius.Persistence.Snapshot.{
  Snapshot, ReadResult, bytes, not_found, Loaded, snapshot, unreadable, load,
}
use helius.Persistence.Save.{
  Disk, Effect, create_dir_all, write, rename, put, perform, perform_all, make_parent, write_out,
  save, read_from,
}

-- A write that was cut off leaves any bytes in its file; the other calls happen at once.
abbrev pub IsTorn : Effect → (before after : Disk) → Type 0
IsTorn (create_dir_all path) before after = ⊥
IsTorn (write path b) before after = (part : List ℕ) × (after ≡ put path (some part) before)
IsTorn (rename from to) before after = ⊥

-- The disks that a run of calls may leave, where the process dies or a call fails before, during or after
-- any of them.
abbrev pub Leaves : List Effect → (before after : Disk) → Type 0
Leaves [] before after = after ≡ before
Leaves (e ∷ es) before after =
    (after ≡ before) ⊎ (IsTorn e before after ⊎ Leaves es (perform e before) after)

-- The file at a path is as it was, or it is whole and new.
abbrev IsOldOrNew : String → Option (List ℕ) → (before after : Disk) → Type 0
IsOldOrNew path file before after =
    (after path ≡ before path) ⊎ ((b : List ℕ) × (file ≡ some b) × (after path ≡ some b))

module _ (tmp path : String) (apart : (path == tmp) ≡ false) where
  put_other : (file : Option (List ℕ)) (disk : Disk) → put tmp file disk path ≡ disk path
  put_other file disk = rw apart refl

  renamed :
      (b : List ℕ) (disk : Disk)
      → perform_all (write tmp b ∷ rename tmp path ∷ []) disk path ≡ some b
  renamed b disk =
      let written = put tmp (some b) disk in
      let there : written tmp ≡ some b = rw (==_refl tmp) refl in
      let whole : put path (some b) (put tmp none written) path ≡ some b = rw (==_refl path) refl in
      ap
        (λ (o : Option (List ℕ)).
          (elim o as (λ x. Disk) [
            | some c ↦ put path (some c) (put tmp none written)
            | none ↦ written
          ])
            path)
        there
      ∙ whole

  write_out-Leaves :
      (file : Option (List ℕ)) (before after : Disk)
      → Leaves (write_out tmp path file) before after
      → IsOldOrNew path file before after
  unfolding write_out
  write_out-Leaves none before after e = inl (ap (λ d. d path) e)
  write_out-Leaves (some b) before after (inl e) = inl (ap (λ d. d path) e)
  write_out-Leaves (some b) before after (inr (inl (part, e))) =
      inl (ap (λ d. d path) e ∙ put_other (some part) before)
  write_out-Leaves (some b) before after (inr (inr (inl e))) =
      inl (ap (λ d. d path) e ∙ put_other (some b) before)
  write_out-Leaves (some b) before after (inr (inr (inr (inl e)))) = absurd e
  write_out-Leaves (some b) before after (inr (inr (inr (inr e)))) =
      inr (b, refl, ap (λ d. d path) e ∙ renamed b before)

  -- Creating the directory changes no file.
  save-Leaves :
      (to_vec : Snapshot → Option (List ℕ)) (parent : Option String) (snap : Snapshot)
      (before after : Disk)
      → Leaves (save to_vec parent tmp path snap) before after
      → IsOldOrNew path (to_vec snap) before after
  unfolding save make_parent
  save-Leaves to_vec none snap before after h = write_out-Leaves (to_vec snap) before after h
  save-Leaves to_vec (some dir) snap before after h = made dir (Text.is_empty dir) h
    where
      made :
          (dir : String) (no_dir : Bool)
          → Leaves
              ((if no_dir then [] else create_dir_all dir ∷ []) ++ write_out tmp path (to_vec snap))
              before
              after
          → IsOldOrNew path (to_vec snap) before after
      made dir true h = write_out-Leaves (to_vec snap) before after h
      made dir false (inl e) = inl (ap (λ d. d path) e)
      made dir false (inr (inl e)) = absurd e
      made dir false (inr (inr h)) = write_out-Leaves (to_vec snap) before after h

  -- Whatever happens during a save, a boot afterwards loads what it would have loaded before the save, or
  -- the new snapshot; so an interrupted save makes no snapshot unreadable that was readable. The temporary
  -- file has another path, a rename replaces its target at once, and the decoder reads what the encoder
  -- wrote.
  pub load-save :
      (from_slice : List ℕ → Option Snapshot) (to_vec : Snapshot → Option (List ℕ))
      (parent : Option String) (snap : Snapshot) (before after : Disk)
      → ((b : List ℕ) → to_vec snap ≡ some b → from_slice b ≡ some snap)
      → Leaves (save to_vec parent tmp path snap) before after
      → (load from_slice (read_from after path) ≡ load from_slice (read_from before path))
        ⊎ (load from_slice (read_from after path) ≡ snapshot snap)
  unfolding load
  load-save from_slice to_vec parent snap before after decodes h =
      let loaded : Option (List ℕ) → Loaded = λ file.
        load from_slice (elim file as (λ x. ReadResult) [ some b ↦ bytes b | none ↦ not_found ]) in
      elim (save-Leaves to_vec parent snap before after h) [
        | inl same ↦ inl (ap loaded same)
        | inr (b, encoded, written) ↦ inr (
            ap loaded written
            ∙ ap (λ o. elim o as (λ x. Loaded) [ some s ↦ snapshot s | none ↦ unreadable ])
                (decodes b encoded))
      ]

  made_parent :
      (parent : Option String) (es : List Effect) (disk : Disk)
      → perform_all (make_parent parent ++ es) disk ≡ perform_all es disk
  unfolding make_parent
  made_parent none es disk = refl
  made_parent (some dir) es disk = made (Text.is_empty dir)
    where
      made :
          (no_dir : Bool)
          → perform_all ((if no_dir then [] else create_dir_all dir ∷ []) ++ es) disk
            ≡ perform_all es disk
      made true = refl
      made false = refl

  -- After a save whose calls all succeed, a boot loads its snapshot, where the encoder gives bytes that the
  -- decoder reads back and the temporary file has another path.
  pub load-save_done :
      (from_slice : List ℕ → Option Snapshot) (to_vec : Snapshot → Option (List ℕ))
      (parent : Option String) (snap : Snapshot) (b : List ℕ) (disk : Disk)
      → to_vec snap ≡ some b
      → from_slice b ≡ some snap
      → load from_slice (read_from (perform_all (save to_vec parent tmp path snap) disk) path)
        ≡ snapshot snap
  unfolding load save write_out
  load-save_done from_slice to_vec parent snap b disk encoded decoded =
      let loaded : Option (List ℕ) → Loaded = λ file.
        load from_slice (elim file as (λ x. ReadResult) [ some c ↦ bytes c | none ↦ not_found ]) in
      ap loaded (
        ap (λ d. d path)
          (ap (λ o. perform_all (make_parent parent ++ write_out tmp path o) disk) encoded
            ∙ made_parent parent (write_out tmp path (some b)) disk)
        ∙ renamed b disk)
      ∙ ap (λ o. elim o as (λ x. Loaded) [ some s ↦ snapshot s | none ↦ unreadable ]) decoded
