-- ===== src/Artifacts/Limits.antt =====
-- ValidateManifest of services/control-plane/internal/artifacts/manifest.go: lemmas on sizes and paths.
use harness_forge.Base.{
  min_of, ℕ, ◌+◌, ◌-◌, ◌≤◌, ◌≡◌, inl, inr, Bool, true, some, List, [], ◌∷◌, ◌++◌, same_text, ℤ, pos,
  negsuc, same_int, arith, Bool-cases, Option-cases,
}
use harness_forge.Base.Keys.{All, All-append}
use harness_forge.Base.Maybe.{ensure}
use harness_forge.Contracts.{ArtifactCandidate}
use harness_forge.Contracts.Valid.{Option-chain, ensured}
use harness_forge.Contracts.Manifest.{parse_manifest, IsManifest}
use harness_forge.Contracts.Accepted.{parse_manifest-IsManifest}
use harness_forge.Artifacts.Paths.{valid_relative_path}
use harness_forge.Artifacts.Outputs.{
  ArtifactPolicy, OutputFile, Visit, broken, directory, entry, Walk, visit, walk, keep, read_length,
  positive, ValidatedManifest, candidate_allowed, all_allowed, conclude, empty_walk,
  validate_manifest,
}

abbrev pub total_length : List OutputFile → ℕ
total_length [] = 0
total_length (f ∷ rest) = f.contents.length + total_length rest

-- a file within the limit, at a safe path
pub record IsBounded (max_file : ℕ) (f : OutputFile) : Type 0 where
  pub small : f.contents.length ≤ max_file
  pub safe : valid_relative_path f.path ≡ true

-- the invariant of the walk
pub record IsWithin (max_file max_total : ℕ) (w : Walk) : Type 0 where
  pub files : All (IsBounded max_file) w.files
  pub counted : total_length w.files ≤ w.total
  pub total : w.total ≤ max_total

total_length-append :
    (fs : List OutputFile) (f : OutputFile)
    → total_length (fs ++ f ∷ []) ≡ total_length fs + f.contents.length
total_length-append [] f = omega arith
total_length-append (g ∷ fs) f = omega (arith, total_length-append fs f)

visit-IsWithin :
    (max_file max_total : ℕ) (v : Visit) (w w' : Walk)
    → visit max_file max_total v w ≡ some w'
    → IsWithin max_file max_total w
    → IsWithin max_file max_total w'
unfolding visit
visit-IsWithin max_file max_total broken w w' h i = absurd (cc)
visit-IsWithin max_file max_total directory w w' h i = let e : w' ≡ w = ground (arith, h) in rw e i
visit-IsWithin max_file max_total (entry name regular size c) w w' h i =
    let n : ℕ = read_length (min_of max_file (max_total - w.total)) c in
    let e : w' ≡ keep name c n w = ground arith in
    let safe : valid_relative_path name ≡ true = ground arith in
    let small : n ≤ max_file = ground arith in
    let fits : n ≤ max_total - w.total = ground arith in rw e (kept n safe small fits)
  where
    kept :
        (n : ℕ)
        → valid_relative_path name ≡ true
        → n ≤ max_file
        → n ≤ max_total - w.total
        → IsWithin max_file max_total (keep name c n w)
    kept n safe small fits = elim (Bool-cases (same_text name "artifact-manifest.json")) [
      | inl t ↦ rw t (record {
        files = i.files;
        counted = omega (arith, i.counted);
        total = omega (arith, i.total);
      })
      | inr f ↦ rw f (record {
        files = All-append _ w.files _ i.files (record { small = small; safe = safe });
        counted = omega (
          arith,
          i.counted,
          total_length-append w.files (record { path = name; contents = record c { length = n } }),
        );
        total = omega (arith, i.total);
      })
    ]

walk-IsWithin :
    (max_file max_total : ℕ) (visits : List Visit) (w w' : Walk)
    → walk max_file max_total visits w ≡ some w'
    → IsWithin max_file max_total w
    → IsWithin max_file max_total w'
unfolding walk
walk-IsWithin max_file max_total [] w w' h i = let e : w' ≡ w = ground (arith, h) in rw e i
walk-IsWithin max_file max_total (v ∷ rest) w w' h i =
    let (mid, met, h') = Option-chain (visit max_file max_total v w) _ h in
    walk-IsWithin max_file max_total rest mid w' h'
      (visit-IsWithin max_file max_total v w mid met i)

all_allowed-All :
    (policy : ArtifactPolicy) (files : List OutputFile) (l : List ArtifactCandidate)
    → all_allowed policy files l ≡ true
    → All (λ (a : ArtifactCandidate). candidate_allowed policy files a ≡ true) l
unfolding all_allowed
all_allowed-All policy files [] h = tt
all_allowed-All policy files (a ∷ rest) h =
    (ground arith, all_allowed-All policy files rest (ground arith))

-- The products that a policy with the limits allows.
pub record IsPublishable (policy : ArtifactPolicy) (max_file max_total : ℕ) (v : ValidatedManifest)
    : Type 0 where
  pub files : All (IsBounded max_file) v.files
  pub total : total_length v.files ≤ max_total
  pub manifest : IsManifest v.artifacts
  pub allowed :
      All (λ (a : ArtifactCandidate). candidate_allowed policy v.files a ≡ true) v.artifacts

positive_pos : (z : ℤ) (n : ℕ) → positive z ≡ some n → z ≡ pos n
positive_pos (pos m) n h = ground arith
positive_pos (negsuc m) n h = absurd (cc)

conclude-IsPublishable :
    (policy : ArtifactPolicy) (max_file max_total : ℕ) (w : Walk) (v : ValidatedManifest)
    → IsWithin max_file max_total w
    → conclude policy w ≡ some v
    → IsPublishable policy max_file max_total v
unfolding conclude
conclude-IsPublishable policy max_file max_total w v i h = elim (Option-cases w.manifest) [
  | inl none' ↦
      let e : v ≡ record { artifacts = []; files = [] } = ground arith in
      rw e (record { files = tt; total = omega arith; manifest = nothing; allowed = tt })
  | inr (raw, given) ↦
      let (l, parsed, h₁) = Option-chain (parse_manifest raw) _ (rw given at h) in
      let (_, allowed, h₂) = Option-chain (ensure (all_allowed policy w.files l)) _ h₁ in
      let e : v ≡ record { artifacts = l; files = w.files } = ground (arith, h₂) in
      rw e (record {
        files = i.files;
        total = omega (arith, i.counted, i.total);
        manifest = parse_manifest-IsManifest raw l parsed;
        allowed = all_allowed-All policy w.files l (ensured _ allowed);
      })
]
  where
    nothing : IsManifest []
    nothing = record { valid = tt; distinct = tt; primary = tt }

-- Whatever the walk meets, when ValidateManifest accepts it both limits of the policy are positive,
-- every file has a safe path and is within the limit of a file, all files together are within the
-- total limit, the manifest satisfies its contract, and each of its artifacts has an allowed type and
-- an entry among the files.
pub validate_manifest-IsPublishable :
    (policy : ArtifactPolicy) (is_root : Bool) (visits : List Visit) (v : ValidatedManifest)
    → validate_manifest policy is_root visits ≡ some v
    → (max_file : ℕ) × (max_total : ℕ) × (policy.max_file_bytes ≡ pos max_file)
      × (policy.max_total_bytes ≡ pos max_total)
      × IsPublishable policy max_file max_total v
unfolding validate_manifest
validate_manifest-IsPublishable policy is_root visits v h =
    let (_, _, h₁) = Option-chain (ensure (same_int policy.manifest_schema_version (pos 1))) _ h in
    let (max_file, file, h₂) = Option-chain (positive policy.max_file_bytes) _ h₁ in
    let (max_total, total, h₃) = Option-chain (positive policy.max_total_bytes) _ h₂ in
    let (_, _, h₄) = Option-chain (ensure is_root) _ h₃ in
    let (w, walked, h₅) = Option-chain (walk max_file max_total visits empty_walk) _ h₄ in
    (
      max_file,
      max_total,
      positive_pos policy.max_file_bytes max_file file,
      positive_pos policy.max_total_bytes max_total total,
      conclude-IsPublishable policy max_file max_total w v
          (walk-IsWithin max_file max_total visits empty_walk w walked
            (record { files = tt; counted = omega arith; total = omega arith }))
          h₅,
    )
