-- ===== src/Artifacts/Safe.antt =====
-- ValidRelativePath of services/control-plane/internal/artifacts/manifest.go and isSafeRelativePath of
-- contracts/contracts.go: lemmas on segments of paths.
use Prim.Native.Char.{Char, code}
use harness_forge.Base.{
  ap, ◌==◌, String, ◌≡◌, inl, inr, refl, true, false, List, [], ◌∷◌, arith, same_text, eq_iff,
  Bool-cases,
}
use harness_forge.Base.Tables.{exists}
use harness_forge.Base.Text.{split_path, is_absolute, split_from, empty_text}
use harness_forge.Contracts.Parse.{is_safe_path}
use harness_forge.Artifacts.Paths.{valid_relative_path, is_valid_path, bad_segment}

no_parent :
    (segments : List String)
    → exists bad_segment segments ≡ false
    → exists (same_text "..") segments ≡ false
unfolding exists
no_parent [] h = refl
no_parent (s ∷ rest) h = ground (arith, no_parent rest, eq_iff ".." s, eq_iff s "..")

empty_is_bad : bad_segment "" ≡ true
empty_is_bad = refl

not_empty : (c : Char) (s : String) → same_text (String.◌∷◌ c s) "" ≡ false
not_empty c s = elim (Bool-cases (same_text (String.◌∷◌ c s) "")) [
  | inl e ↦ absurd (cc (ap empty_text ((eq_iff (String.◌∷◌ c s) "").0 e)))
  | inr e ↦ e
]

-- a path without empty segments is not empty, and does not begin with a slash
relative :
    (s : String)
    → exists bad_segment (split_path s) ≡ false
    → (is_absolute s ≡ false) × (same_text s "" ≡ false)
unfolding exists split_path split_from
relative String.[] h = absurd (cc)
relative (String.◌∷◌ c s) h = elim (Bool-cases (code c == b'/')) [
  | inl slash ↦ absurd (cc (rw slash at h))
  | inr other ↦ (other, not_empty c s)
]

-- A path that ValidRelativePath accepts is one that isSafeRelativePath accepts, the test of the
-- contract on an entry.
pub valid_relative_path-is_safe_path :
    (s : String) → valid_relative_path s ≡ true → is_safe_path s ≡ true
unfolding valid_relative_path is_valid_path is_safe_path
valid_relative_path-is_safe_path s h = elim (Bool-cases (exists bad_segment (split_path s))) [
  | inl bad ↦ absurd (ground arith)
  | inr good ↦ ground (arith, relative s good, no_parent (split_path s) good)
]
