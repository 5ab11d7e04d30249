-- ===== src/Contracts/Exact.antt =====
-- ParseArtifactManifest of services/control-plane/internal/contracts/contracts.go: a description of the
-- manifests that does not use the code's own tests, and lemmas that relate it to them.
use harness_forge.Base.{
  ◌≢◌, ◌≤◌, ◌⊎◌, inl, inr, String, same_text, sym, Bool-cases, ◌≡◌, ◌↔◌, refl, true, false, some,
  List, [], ◌∷◌, leb, pos, same_int, arith, eq_iff,
}
use harness_forge.Base.Tables.{exists}
use harness_forge.Base.Text.{split_path}
use harness_forge.Base.Keys.{All}
use harness_forge.Base.Maybe.{ensure}
use harness_forge.Contracts.{ArtifactCandidate}
use harness_forge.Contracts.Parse.{is_safe_path, is_artifact_type, artifact_valid, artifacts_valid}
use harness_forge.Contracts.Valid.{Option-chain, ensured}
use harness_forge.Contracts.Manifest.{
  ArtifactManifest, has_name, names_unique, count_primary, check_manifest, HasDistinctNames,
  IsManifest, IsArtifact, IsSafeEntry, HasOnePrimary,
}
use harness_forge.Contracts.Accepted.{check_manifest-IsManifest}

different : (x y : String) → x ≢ y → same_text x y ≡ false
different x y h = elim (Bool-cases (same_text x y)) [
  | inl e ↦ absurd (h ((eq_iff x y).0 e))
  | inr e ↦ e
]

all_inside :
    (segments : List String)
    → All (λ (s : String). s ≢ "..") segments
    → exists (same_text "..") segments ≡ false
unfolding exists
all_inside [] h = refl
all_inside (s ∷ rest) h = rw (different ".." s (λ e. h.0 (sym e)), all_inside rest h.1) refl

IsSafeEntry-is_safe_path : (entry : String) → IsSafeEntry entry → is_safe_path entry ≡ true
unfolding is_safe_path
IsSafeEntry-is_safe_path entry i =
    rw
      (
        different entry "" i.nonempty,
        different entry "." i.below,
        i.relative,
        all_inside (split_path entry) i.inside,
      )
      refl

allowed_type :
    (t : String)
    → (t ≡ "html") ⊎ (t ≡ "markdown") ⊎ (t ≡ "image") ⊎ (t ≡ "data")
    → is_artifact_type t ≡ true
allowed_type t h =
    ground (arith, h, eq_iff t "html", eq_iff t "markdown", eq_iff t "image", eq_iff t "data")

IsArtifact-artifact_valid : (a : ArtifactCandidate) → IsArtifact a → artifact_valid a ≡ true
IsArtifact-artifact_valid a i =
    rw (i.named, i.titled, allowed_type a.kind i.typed, IsSafeEntry-is_safe_path a.entry i.entered)
      refl

IsArtifact-artifacts_valid :
    (l : List ArtifactCandidate) → All IsArtifact l → artifacts_valid l ≡ true
unfolding artifacts_valid
IsArtifact-artifacts_valid [] h = refl
IsArtifact-artifacts_valid (a ∷ rest) h =
    rw (IsArtifact-artifact_valid a h.0, IsArtifact-artifacts_valid rest h.1) refl

-- the artifacts that stay apart from those before, when one more comes before them
apart_more :
    (a : ArtifactCandidate) (seen l : List ArtifactCandidate)
    → All (λ (b : ArtifactCandidate). a.name ≢ b.name) l
    → All (λ (b : ArtifactCandidate). has_name b.name seen ≡ false) l
    → All (λ (b : ArtifactCandidate). has_name b.name (a ∷ seen) ≡ false) l
unfolding exists
apart_more a seen [] h apart = tt
apart_more a seen (b ∷ rest) h apart = (
  rw (different b.name a.name (λ e. h.0 (sym e)), apart.0) refl,
  apart_more a seen rest h.1 apart.1,
)

HasDistinctNames-names_unique :
    (seen l : List ArtifactCandidate)
    → All (λ (b : ArtifactCandidate). has_name b.name seen ≡ false) l
    → HasDistinctNames l
    → names_unique seen l ≡ true
unfolding names_unique
HasDistinctNames-names_unique seen [] apart d = refl
HasDistinctNames-names_unique seen (a ∷ rest) apart d =
    rw
      (
        apart.0,
        HasDistinctNames-names_unique (a ∷ seen) rest (apart_more a seen rest d.0 apart.1) d.1,
      )
      refl

nothing_seen :
    (l : List ArtifactCandidate) → All (λ (b : ArtifactCandidate). has_name b.name [] ≡ false) l
unfolding exists
nothing_seen [] = tt
nothing_seen (a ∷ rest) = (refl, nothing_seen rest)

count_none :
    (l : List ArtifactCandidate)
    → All (λ (b : ArtifactCandidate). b.primary ≡ false) l
    → count_primary l ≡ 0
unfolding count_primary
count_none [] h = refl
count_none (a ∷ rest) h = rw (h.0, count_none rest h.1) refl

HasOnePrimary-count_primary : (l : List ArtifactCandidate) → HasOnePrimary l → count_primary l ≤ 1
unfolding count_primary
HasOnePrimary-count_primary [] h = omega arith
HasOnePrimary-count_primary (a ∷ rest) h = elim (Bool-cases a.primary) [
  | inl first ↦ ground (arith, first, count_none rest (h.0 first))
  | inr other ↦ ground (arith, other, HasOnePrimary-count_primary rest h.1)
]

accepted :
    (m : ArtifactManifest) (l : List ArtifactCandidate)
    → same_int m.schema_version (pos 1) ≡ true
    → m.artifacts ≡ some l
    → IsManifest l
    → check_manifest m ≡ some l
unfolding check_manifest
accepted m l version given i =
    let few : leb (count_primary l) 1 ≡ true =
      ground (arith, HasOnePrimary-count_primary l i.primary) in
    rw (version, given)
      (rw
        (
          IsArtifact-artifacts_valid l i.valid,
          HasDistinctNames-names_unique [] l (nothing_seen l) i.distinct,
          few,
        )
        refl)

read_artifacts :
    (m : ArtifactManifest) (l : List ArtifactCandidate)
    → check_manifest m ≡ some l
    → (same_int m.schema_version (pos 1) ≡ true) × (m.artifacts ≡ some l)
unfolding check_manifest
read_artifacts m l h =
    let (_, version, h₁) = Option-chain (ensure (same_int m.schema_version (pos 1))) _ h in
    let (a, given, h₂) = Option-chain m.artifacts _ h₁ in
    let (_, _, h₃) = Option-chain (ensure (artifacts_valid a)) _ h₂ in
    let (_, _, h₄) = Option-chain (ensure (names_unique [] a)) _ h₃ in
    let (_, _, h₅) = Option-chain (ensure (leb (count_primary a) 1)) _ h₄ in
    let made : a ≡ l = ground (arith, h₅) in (ensured _ version, rw made at given)

-- The checks on a decoded manifest accept a list of artifacts just when the schema version is 1, this
-- list is there, each of its artifacts has a name and a title that are not blank, one of the four types
-- and a relative entry without a parent segment that is neither empty nor a dot, no two have the same
-- name, and no two are primary.
pub check_manifest_iff :
    (m : ArtifactManifest) (l : List ArtifactCandidate)
    → (check_manifest m ≡ some l)
      ↔ ((same_int m.schema_version (pos 1) ≡ true) × (m.artifacts ≡ some l) × IsManifest l)
check_manifest_iff m l = (
  λ h. let read = read_artifacts m l h in (read.0, read.1, check_manifest-IsManifest m l h),
  λ e. accepted m l e.0 e.1 e.2,
)
