-- ===== src/Persistence/Save.antt =====
-- `save` of src/persistence.rs as the file-system calls that it makes, in their order.
use helius.Common.{
  ℕ, String, Option, none, some, List, [], ◌∷◌, ◌++◌, if◌then◌else◌, ◌==◌, string_eq,
}
use helius.Common.Text
use helius.Persistence.Snapshot.{Snapshot, ReadResult, bytes, not_found}

-- The files by path, as far as their bytes.
abbrev pub Disk : Type 0
Disk = String → Option (List ℕ)

pub data Effect : Type 0 where
  create_dir_all : (path : String) → Effect
  write : (path : String) → List ℕ → Effect
  rename : (from to : String) → Effect

abbrev pub put : String → Option (List ℕ) → Disk → Disk
put path file disk = λ q. if q == path then file else disk q

-- A call that succeeds. A rename replaces its target at once; one without a source changes nothing.
abbrev pub perform : Effect → Disk → Disk
perform (create_dir_all path) disk = disk
perform (write path b) disk = put path (some b) disk
perform (rename from to) disk = elim (disk from) [
  | some b ↦ put to (some b) (put from none disk)
  | none ↦ disk
]

abbrev pub perform_all : List Effect → Disk → Disk
perform_all [] disk = disk
perform_all (e ∷ es) disk = perform_all es (perform e disk)

unfoldable pub make_parent : (parent : Option String) → List Effect
make_parent none = []
make_parent (some path) = if Text.is_empty path then [] else create_dir_all path ∷ []

-- `serde_json::to_vec_pretty` is a parameter; `tmp` is `path.with_extension("json.tmp")`.
unfoldable pub write_out : (tmp path : String) → Option (List ℕ) → List Effect
write_out tmp path none = []
write_out tmp path (some b) = write tmp b ∷ rename tmp path ∷ []

unfoldable pub save :
    (Snapshot → Option (List ℕ))
    → (parent : Option String) → (tmp path : String) → Snapshot
    → List Effect
save to_vec parent tmp path snap = make_parent parent ++ write_out tmp path (to_vec snap)

-- `std::fs::read` of a disk that can be read.
abbrev pub read_from : Disk → String → ReadResult
read_from disk path = elim (disk path) [ some b ↦ bytes b | none ↦ not_found ]
