-- ===== src/Artifacts/Outputs.antt =====
-- services/control-plane/internal/artifacts/manifest.go: ValidateManifest. The file system is given by
-- what a walk of the output directory meets.
use harness_forge.Base.{
  ◌^◌, leb, min_of, ℕ, ◌+◌, ◌-◌, String, Bool, true, false, not, ◌&&◌, ◌||◌, Option, none, some,
  List, [], ◌∷◌, ◌++◌, if◌then◌else◌, same_text, ltb, ◌==◌, ℤ, pos, negsuc, same_int,
}
use harness_forge.Base.Tables.{exists}
use harness_forge.Base.Maybe.{◌>>=◌, ◌>>◌, ensure}
use harness_forge.Base.Json.{RawMessage}
use harness_forge.Contracts.{ArtifactCandidate}
use harness_forge.Contracts.Manifest.{parse_manifest}
use harness_forge.Artifacts.Paths.{valid_relative_path}

pub record ArtifactPolicy : Type 0 where
  pub manifest_schema_version : ℤ
  pub allowed_types : List String
  pub max_file_bytes : ℤ
  pub max_total_bytes : ℤ

-- The bytes of a file: how many there are, and what JSON text they are.
pub record Contents : Type 0 where
  pub length : ℕ
  pub parsed : RawMessage

pub record OutputFile : Type 0 where
  pub path : String
  pub contents : Contents

-- What the walk meets: an error of the file system, a directory, or an entry with whether it is a
-- regular file, the size that Stat gives, and the bytes that are there when it is read.
pub data Visit : Type 0 where
  broken directory : Visit
  entry : String → Bool → ℕ → Contents → Visit

-- a limit of the policy that is positive
abbrev pub positive : ℤ → Option ℕ
positive (pos n) = if n == 0 then none else some n
positive (negsuc n) = none

pub record Walk : Type 0 where
  pub total : ℕ
  pub manifest : Option RawMessage
  pub files : List OutputFile

-- io.ReadAll(io.LimitReader(file, limit + 1)): at the largest int64 the sum wraps around to a negative
-- number, and nothing is read
abbrev pub read_length : ℕ → Contents → ℕ
read_length limit c = if leb (2 ^ 63 - 1) limit then 0 else min_of c.length (limit + 1)

abbrev pub keep : String → Contents → ℕ → Walk → Walk
keep name c n w =
    if same_text name "artifact-manifest.json"
    then record w { total = w.total + n; manifest = some c.parsed }
    else record w {
      total = w.total + n;
      files = w.files ++ record { path = name; contents = record c { length = n } } ∷ [];
    }

-- the function of WalkDir; `max_file` and `max_total` are the limits
unfoldable pub visit : ℕ → ℕ → Visit → Walk → Option Walk
visit max_file max_total broken w = none
visit max_file max_total directory w = some w
visit max_file max_total (entry name regular size c) w =
    let n = read_length (min_of max_file (max_total - w.total)) c in
    if not (valid_relative_path name)
      || not regular
      || ltb max_file size
      || ltb (max_total - w.total) size
      || ltb max_file n
      || ltb (max_total - w.total) n
    then none
    else some (keep name c n w)

unfoldable pub walk : ℕ → ℕ → List Visit → Walk → Option Walk
unfolding visit
walk max_file max_total [] w = some w
walk max_file max_total (v ∷ rest) w = visit max_file max_total v w >>= walk max_file max_total rest

pub record ValidatedManifest : Type 0 where
  pub artifacts : List ArtifactCandidate
  pub files : List OutputFile

abbrev pub has_path : String → List OutputFile → Bool
has_path path files = exists (λ (f : OutputFile). same_text f.path path) files

abbrev pub candidate_allowed : ArtifactPolicy → List OutputFile → ArtifactCandidate → Bool
candidate_allowed policy files a =
    exists (same_text a.kind) policy.allowed_types
    && valid_relative_path a.entry
    && has_path a.entry files

unfoldable pub all_allowed : ArtifactPolicy → List OutputFile → List ArtifactCandidate → Bool
all_allowed policy files [] = true
all_allowed policy files (a ∷ rest) =
    candidate_allowed policy files a && all_allowed policy files rest

abbrev pub is_empty_list : List OutputFile → Bool
is_empty_list [] = true
is_empty_list (_ ∷ _) = false

-- after the walk
unfoldable pub conclude : ArtifactPolicy → Walk → Option ValidatedManifest
unfolding all_allowed
conclude policy w = elim w.manifest [
  | none ↦ if is_empty_list w.files then some (record { artifacts = []; files = [] }) else none
  | some raw ↦ do
    l ← parse_manifest raw
    ensure (all_allowed policy w.files l)
    some (record { artifacts = l; files = w.files })
]

abbrev pub empty_walk : Walk
empty_walk = record { total = 0; manifest = none; files = [] }

-- ValidateManifest; `is_root` says that the output root can be opened and is a directory
unfoldable pub validate_manifest : ArtifactPolicy → Bool → List Visit → Option ValidatedManifest
validate_manifest policy is_root visits = do
  ensure (same_int policy.manifest_schema_version (pos 1))
  max_file ← positive policy.max_file_bytes
  max_total ← positive policy.max_total_bytes
  ensure is_root
  w ← walk max_file max_total visits empty_walk
  conclude policy w
