-- ===== src/Contracts/Manifest.antt =====
-- services/control-plane/internal/contracts/contracts.go: ParseArtifactManifest.
use harness_forge.Base.{
  ◌⊎◌, ◌≢◌, ℕ, ◌+◌, ◌^◌, ◌≡◌, String, Bool, true, false, not, ◌&&◌, Option, none, some, List, [],
  ◌∷◌, if◌then◌else◌, same_text, leb, ℤ, pos, negsuc, same_int, ◌-◌, ◌==◌,
}
use harness_forge.Base.Tables.{exists}
use harness_forge.Base.Keys.{All}
use harness_forge.Base.Text.{is_blank, is_absolute, split_path, parse_uint, cut_prefix}
use harness_forge.Base.Maybe.{◌>>=◌, ◌>>◌, ensure}
use harness_forge.Base.Json.{Json, null, number, same_key, RawMessage, malformed, document}
use harness_forge.Contracts.{ArtifactCandidate}
use harness_forge.Contracts.Decode.{candidates_into, decode_struct}
use harness_forge.Contracts.Parse.{artifacts_valid}

pub record ArtifactManifest : Type 0 where
  pub schema_version : ℤ
  pub artifacts : Option (List ArtifactCandidate)

abbrev within : ℕ → (ℕ → ℤ) → Option ℕ → Option ℤ
within limit sign none = none
within limit sign (some n) = if leb n limit then some (sign n) else none

abbrev negated : ℕ → ℤ
negated n = if n == 0 then pos 0 else negsuc (n - 1)

-- strconv.ParseInt(s, 10, 64) on a JSON number, which has no plus sign
unfoldable pub parse_int : String → Option ℤ
parse_int s = elim (cut_prefix "-" s) [
  | none ↦ within (2 ^ 63 - 1) pos (parse_uint s)
  | some digits ↦ within (2 ^ 63) negated (parse_uint digits)
]

abbrev int_into : Json → ℤ → Option ℤ
int_into null old = some old
int_into (number n) old = parse_int n
int_into _ old = none

abbrev manifest_step : String → Json → ArtifactManifest → Option ArtifactManifest
manifest_step k v a =
    if same_key k "schema_version"
    then (do n ← int_into v a.schema_version; some (record a { schema_version = n }))
    else if same_key k "artifacts"
    then (do l ← candidates_into v; some (record a { artifacts = l }))
    else none

abbrev pub has_name : String → List ArtifactCandidate → Bool
has_name name l = exists (λ (a : ArtifactCandidate). same_text name a.name) l

-- the loop over the names; `seen` are the artifacts before
unfoldable pub names_unique : List ArtifactCandidate → List ArtifactCandidate → Bool
names_unique seen [] = true
names_unique seen (a ∷ rest) = not (has_name a.name seen) && names_unique (a ∷ seen) rest

unfoldable pub count_primary : List ArtifactCandidate → ℕ
count_primary [] = 0
count_primary (a ∷ rest) = let n = count_primary rest in if a.primary then n + 1 else n

-- the checks on a decoded manifest
unfoldable pub check_manifest : ArtifactManifest → Option (List ArtifactCandidate)
check_manifest m = do
  ensure (same_int m.schema_version (pos 1))
  l ← m.artifacts
  ensure (artifacts_valid l)
  ensure (names_unique [] l)
  ensure (leb (count_primary l) 1)
  some l

-- ParseArtifactManifest; the schema version of the answer is 1
unfoldable pub parse_manifest : RawMessage → Option (List ArtifactCandidate)
unfolding check_manifest
parse_manifest malformed = none
parse_manifest (document v) =
    decode_struct manifest_step v (record { schema_version = pos 0; artifacts = none })
    >>= check_manifest

-- an entry that stays inside the outputs
pub record IsSafeEntry (entry : String) : Type 0 where
  pub nonempty : entry ≢ ""
  pub below : entry ≢ "."
  pub relative : is_absolute entry ≡ false
  pub inside : All (λ (segment : String). segment ≢ "..") (split_path entry)

-- an artifact that the contract allows
pub record IsArtifact (a : ArtifactCandidate) : Type 0 where
  pub named : is_blank a.name ≡ false
  pub titled : is_blank a.title ≡ false
  pub typed : (a.kind ≡ "html") ⊎ (a.kind ≡ "markdown") ⊎ (a.kind ≡ "image") ⊎ (a.kind ≡ "data")
  pub entered : IsSafeEntry a.entry

-- no two artifacts of the list have the same name
abbrev pub HasDistinctNames : List ArtifactCandidate → Type 0
HasDistinctNames [] = Unit
HasDistinctNames (a ∷ rest) =
    All (λ (b : ArtifactCandidate). a.name ≢ b.name) rest × HasDistinctNames rest

-- no two artifacts of the list are primary
abbrev pub HasOnePrimary : List ArtifactCandidate → Type 0
HasOnePrimary [] = Unit
HasOnePrimary (a ∷ rest) =
    (a.primary ≡ true → All (λ (b : ArtifactCandidate). b.primary ≡ false) rest)
    × HasOnePrimary rest

-- What a manifest that is accepted says.
pub record IsManifest (l : List ArtifactCandidate) : Type 0 where
  pub valid : All IsArtifact l
  pub distinct : HasDistinctNames l
  pub primary : HasOnePrimary l
