-- ===== src/Publication.antt =====
-- services/control-plane/internal/artifacts/publisher.go: Prepare, on the object store in memory. The
-- lock of a publication is taken before and given back after all of this.
pub mod Undone
use harness_forge.Base.{
  ℕ, ◌+◌, String, Bool, true, false, not, ◌&&◌, ◌||◌, Option, none, some, List, [], ◌∷◌, ◌++◌,
  if◌then◌else◌, ◌==◌,
}
use harness_forge.Base.Text.{concat}
use harness_forge.Schema.{Artifact}
use harness_forge.Contracts.{ArtifactCandidate}
use harness_forge.Artifacts.Outputs.{OutputFile, ValidatedManifest}
use harness_forge.Artifacts.Media.{content_type}
use harness_forge.Objects.{Object, Memory, put_object, try_delete_prefix, Deletion}

-- What becomes of a step: it works; it fails, as when the context has ended; or the object is there and
-- the answer is an error.
pub data Fate : Type 0 where
  works fails unanswered : Fate

-- What is outside: the text of a UUID, the identifiers that uuid.New gives one after the other, the
-- time of a step, what becomes of it, and what becomes of the clean-up's DeletePrefix of a prefix.
pub record Surroundings : Type 0 where
  pub uuid_text : ℕ → String
  pub new_id : ℕ → ℕ
  pub clock : ℕ → ℕ
  pub fate : ℕ → Fate
  pub deletion : String → Deletion

-- the variables of Prepare, with the number of steps so far
pub record Upload : Type 0 where
  pub step : ℕ
  pub records : List Artifact
  pub store : Memory
  pub failed : Bool

abbrev pub artifact_prefix : Surroundings → ℕ → ℕ → String
artifact_prefix env project id =
    concat "projects/"
      (concat (env.uuid_text project) (concat "/artifacts/" (concat (env.uuid_text id) "/")))

abbrev pub stored_file : Surroundings → String → OutputFile → Upload → Upload
stored_file env prefix f u = record u {
  store =
      put_object (concat prefix f.path)
        (record {
          data' = f.contents;
          content_type = content_type f.path;
          last_modified = env.clock u.step;
        })
        u.store;
}

abbrev pub next_step : Upload → Upload
next_step u = record u { step = u.step + 1 }

abbrev pub broken : Upload → Upload
broken u = record u { failed = true }

-- one Put
unfoldable pub put_file : Surroundings → Fate → String → OutputFile → Upload → Upload
put_file env works prefix f u = next_step (stored_file env prefix f u)
put_file env fails prefix f u = broken u
put_file env unanswered prefix f u = broken (stored_file env prefix f u)

-- the files of one artifact
unfoldable pub put_files : Surroundings → String → List OutputFile → Upload → Upload
unfolding put_file
put_files env prefix [] u = u
put_files env prefix (f ∷ rest) u =
    let u' = put_file env (env.fate u.step) prefix f u in
    let final = put_files env prefix rest u' in if u'.failed then u' else final

abbrev pub new_record : Surroundings → ℕ → ℕ → ArtifactCandidate → ℕ → Artifact
new_record env project run c id = record {
  id = id;
  run_id = run;
  title = c.title;
  kind = c.kind;
  entry_path = c.entry;
  object_prefix = artifact_prefix env project id;
  is_primary = c.primary;
  manifest_version = 1;
  created_at = 0;
}

abbrev pub add_record : Artifact → Upload → Upload
add_record a u = record u { records = u.records ++ a ∷ [] }

-- one artifact, when its turn has come
unfoldable pub upload_one :
    Surroundings → ℕ → ℕ → List OutputFile → ArtifactCandidate → Fate → Upload → Upload
unfolding put_files
upload_one env project run files c works u =
    let id = env.new_id u.step in
    put_files env (artifact_prefix env project id) files
      (add_record (new_record env project run c id) (next_step u))
upload_one env project run files c _ u = broken u

unfoldable pub upload_all :
    Surroundings → ℕ → ℕ → List OutputFile → List ArtifactCandidate → Upload → Upload
unfolding upload_one
upload_all env project run files [] u = u
upload_all env project run files (c ∷ rest) u =
    let u' = upload_one env project run files c (env.fate u.step) u in
    let final = upload_all env project run files rest u' in if u'.failed then u' else final

-- the deferred clean-up: DeletePrefix for each record, whatever it answers
unfoldable pub undo : Surroundings → List Artifact → Memory → Memory
undo env [] s = s
undo env (a ∷ rest) s =
    undo env rest (try_delete_prefix (env.deletion a.object_prefix) a.object_prefix s).1

abbrev pub first_upload : Memory → Upload
first_upload s = record { step = 0; records = []; store = s; failed = false }

-- the answer of Prepare, and the store after it
abbrev pub outcome : Surroundings → Upload → Option (List Artifact) × Memory
outcome env u = if u.failed then (none, undo env u.records u.store) else (some u.records, u.store)

-- Prepare; `validated` is the answer of ValidateManifest
unfoldable pub prepare :
    Surroundings → ℕ → ℕ → Option ValidatedManifest → Memory → Option (List Artifact) × Memory
unfolding upload_all undo
prepare env project run none s = (none, s)
prepare env project run (some v) s =
    if project == 0 || run == 0
    then (none, s)
    else outcome env (upload_all env project run v.files v.artifacts (first_upload s))
