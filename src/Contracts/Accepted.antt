-- ===== src/Contracts/Accepted.antt =====
-- ParseArtifactManifest of services/control-plane/internal/contracts/contracts.go: lemmas on its checks.
use harness_forge.Base.{
  ◌≢◌, ◌≤◌, String, same_text, sym, ap, not, ◌&&◌, ◌≡◌, true, false, some, List, [], ◌∷◌, leb, pos,
  same_int, arith, eq_iff, eq_refl,
}
use harness_forge.Base.Tables.{exists}
use harness_forge.Base.Text.{split_path}
use harness_forge.Base.Keys.{All}
use harness_forge.Base.Maybe.{ensure}
use harness_forge.Base.Json.{RawMessage, malformed, document}
use harness_forge.Contracts.{ArtifactCandidate}
use harness_forge.Contracts.Decode.{decode_struct}
use harness_forge.Contracts.Parse.{is_safe_path, artifact_valid, artifacts_valid}
use harness_forge.Contracts.Valid.{Option-chain, ensured}
use harness_forge.Contracts.Manifest.{
  ArtifactManifest, has_name, names_unique, count_primary, check_manifest, parse_manifest,
  HasDistinctNames, IsManifest, IsArtifact, IsSafeEntry, HasOnePrimary,
}

not-same : (x y : String) → same_text x y ≡ false → x ≢ y
not-same x y h e = absurd (cc (h, (eq_iff x y).1 e))

no_parents :
    (segments : List String)
    → exists (same_text "..") segments ≡ false
    → All (λ (s : String). s ≢ "..") segments
unfolding exists
no_parents [] h = tt
no_parents (s ∷ rest) h =
    (λ e. not-same ".." s (ground (arith, h)) (sym e), no_parents rest (ground (arith, h)))

is_safe_path-IsSafeEntry : (entry : String) → is_safe_path entry ≡ true → IsSafeEntry entry
unfolding is_safe_path
is_safe_path-IsSafeEntry entry h = record {
  nonempty = not-same entry "" (ground (arith, h));
  below = not-same entry "." (ground (arith, h));
  relative = ground (arith, h);
  inside = no_parents (split_path entry) (ground (arith, h));
}

artifact_valid-IsArtifact : (a : ArtifactCandidate) → artifact_valid a ≡ true → IsArtifact a
artifact_valid-IsArtifact a h = record {
  named = ground (arith, h);
  titled = ground (arith, h);
  typed = ground (
    arith,
    h,
    eq_iff a.kind "html",
    eq_iff a.kind "markdown",
    eq_iff a.kind "image",
    eq_iff a.kind "data",
  );
  entered = is_safe_path-IsSafeEntry a.entry (ground (arith, h));
}

artifacts_valid-IsArtifact :
    (l : List ArtifactCandidate) → artifacts_valid l ≡ true → All IsArtifact l
unfolding artifacts_valid
artifacts_valid-IsArtifact [] h = tt
artifacts_valid-IsArtifact (a ∷ rest) h =
    (artifact_valid-IsArtifact a (ground arith), artifacts_valid-IsArtifact rest (ground arith))

-- an artifact that was seen is none of the others
names_unique_apart :
    (a : ArtifactCandidate) (seen l : List ArtifactCandidate)
    → has_name a.name seen ≡ true
    → names_unique seen l ≡ true
    → All (λ (b : ArtifactCandidate). a.name ≢ b.name) l
unfolding names_unique exists
names_unique_apart a seen [] h u = tt
names_unique_apart a seen (b ∷ rest) h u = (
  λ same. absurd (cc (ap (λ (n : String). has_name n seen) same, h, unseen u)),
  names_unique_apart a (b ∷ seen) rest (ground (arith, h)) (ground (arith, u)),
)
  where
    unseen :
        (not (has_name b.name seen) && names_unique (b ∷ seen) rest) ≡ true
        → has_name b.name seen ≡ false
    unseen u' = ground (arith, u')

names_unique-HasDistinctNames :
    (seen l : List ArtifactCandidate) → names_unique seen l ≡ true → HasDistinctNames l
unfolding names_unique
names_unique-HasDistinctNames seen [] u = tt
names_unique-HasDistinctNames seen (a ∷ rest) u =
    let later : names_unique (a ∷ seen) rest ≡ true = ground arith in
    (
      names_unique_apart a (a ∷ seen) rest (unfold exists in ground (arith, eq_refl a.name)) later,
      names_unique-HasDistinctNames (a ∷ seen) rest later,
    )

none_primary :
    (l : List ArtifactCandidate)
    → count_primary l ≤ 0
    → All (λ (b : ArtifactCandidate). b.primary ≡ false) l
unfolding count_primary
none_primary [] h = tt
none_primary (a ∷ rest) h = (ground (arith, h), none_primary rest (ground (arith, h)))

count_primary-HasOnePrimary : (l : List ArtifactCandidate) → count_primary l ≤ 1 → HasOnePrimary l
unfolding count_primary
count_primary-HasOnePrimary [] h = tt
count_primary-HasOnePrimary (a ∷ rest) h = (
  λ first. none_primary rest (ground (arith, h, first)),
  count_primary-HasOnePrimary rest (ground (arith, h)),
)

pub check_manifest-IsManifest :
    (m : ArtifactManifest) (l : List ArtifactCandidate) → check_manifest m ≡ some l → IsManifest l
unfolding check_manifest
check_manifest-IsManifest m l h =
    let (_, _, h₁) = Option-chain (ensure (same_int m.schema_version (pos 1))) _ h in
    let (a, _, h₂) = Option-chain m.artifacts _ h₁ in
    let (_, valid, h₃) = Option-chain (ensure (artifacts_valid a)) _ h₂ in
    let (_, unique, h₄) = Option-chain (ensure (names_unique [] a)) _ h₃ in
    let (_, primary, h₅) = Option-chain (ensure (leb (count_primary a) 1)) _ h₄ in
    let made : l ≡ a = ground (arith, h₅) in
    let few = ensured _ primary in
    rw made (record {
      valid = artifacts_valid-IsArtifact a (ensured _ valid);
      distinct = names_unique-HasDistinctNames [] a (ensured _ unique);
      primary = count_primary-HasOnePrimary a (ground (arith, few));
    })

-- the manifest that ParseArtifactManifest accepts
pub parse_manifest-IsManifest :
    (raw : RawMessage) (l : List ArtifactCandidate) → parse_manifest raw ≡ some l → IsManifest l
unfolding parse_manifest
parse_manifest-IsManifest malformed l h = absurd (cc)
parse_manifest-IsManifest (document v) l h =
    let (m, _, checked) = Option-chain (decode_struct _ v _) check_manifest h in
    check_manifest-IsManifest m l checked
