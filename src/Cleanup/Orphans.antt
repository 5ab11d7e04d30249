-- ===== src/Cleanup/Orphans.antt =====
-- services/control-plane/internal/cleanup/orphans.go: the scan for objects of artifacts without a row,
-- on the object store in memory. The scan holds the lock of publications, so the rows stay the same.
use harness_forge.Base.{
  ℕ, String, Bool, true, false, not, ◌&&◌, ◌||◌, Option, none, some, List, [], ◌∷◌, ◌++◌,
  if◌then◌else◌, same_text, ◌==◌, is_some,
}
use harness_forge.Base.Tables.{exists}
use harness_forge.Base.Text.{cut_prefix, concat}
use harness_forge.Schema.{Artifact, Database}
use harness_forge.Objects.{Memory, Deletion, trim_slash, list_prefixes, try_delete_prefix}

-- What is outside: Parse of github.com/google/uuid, which accepts what Validate does; and, for each
-- prefix, whether ListPrefixes and the query for its row answer, and what becomes of its DeletePrefix.
pub record Survey : Type 0 where
  pub parse : String → Option ℕ
  pub lists : String → Bool
  pub answers : String → Bool
  pub deletion : String → Deletion

pub record Summary : Type 0 where
  pub orphans : List String
  pub deleted : List String
  pub invalid : List String

pub record Scan : Type 0 where
  pub summary : Summary
  pub store : Memory
  pub failed : Bool

-- strings.TrimSuffix(strings.TrimPrefix(s, base), "/")
abbrev without_prefix : String → String → String
without_prefix base s = elim (cut_prefix base s) [ none ↦ s | some rest ↦ rest ]

abbrev without_slash : String → String
without_slash s = elim (trim_slash s) [ none ↦ s | some t ↦ t ]

unfoldable pub segment_of : String → String → String
unfolding trim_slash
segment_of base s = without_slash (without_prefix base s)

abbrev pub has_metadata : ℕ → String → Database → Bool
has_metadata id prefix db =
    exists (λ (a : Artifact). a.id == id && same_text a.object_prefix prefix) db.artifacts

abbrev pub add_invalid : String → Scan → Scan
add_invalid prefix scan = record scan {
  summary = record scan.summary { invalid = scan.summary.invalid ++ prefix ∷ [] };
}

abbrev pub add_orphan : String → Scan → Scan
add_orphan prefix scan = record scan {
  summary = record scan.summary { orphans = scan.summary.orphans ++ prefix ∷ [] };
}

abbrev pub add_deleted : String → Scan → Scan
add_deleted prefix scan = record scan {
  summary = record scan.summary { deleted = scan.summary.deleted ++ prefix ∷ [] };
}

-- after DeletePrefix: an error ends the scan before the prefix is noted as deleted
abbrev pub removed : String → Scan → Bool × Memory → Scan
removed prefix scan (true, s) = add_deleted prefix (record scan { store = s })
removed prefix scan (false, s) = record scan { store = s; failed = true }

-- a prefix without a row
unfoldable pub take_orphan : Survey → Bool → String → Scan → Scan
take_orphan env true prefix scan =
    removed prefix (add_orphan prefix scan)
      (try_delete_prefix (env.deletion prefix) prefix scan.store)
take_orphan env false prefix scan = add_orphan prefix scan

-- a prefix, with what uuid.Parse makes of its segment
abbrev pub place_prefix : Survey → Database → Bool → String → String → Option ℕ → Scan → Scan
place_prefix env db apply exact prefix none scan = add_invalid prefix scan
place_prefix env db apply exact prefix (some id) scan =
    if not (same_text prefix exact)
    then add_invalid prefix scan
    else if not (env.answers prefix)
    then record scan { failed = true }
    else if has_metadata id prefix db
    then scan
    else take_orphan env apply prefix scan

-- one prefix of the loop of scanArtifacts
unfoldable pub scan_artifact : Survey → Database → Bool → String → String → Scan → Scan
unfolding take_orphan
scan_artifact env db apply base prefix scan =
    let segment = segment_of base prefix in
    place_prefix env db apply (concat base (concat segment "/")) prefix (env.parse segment) scan

-- ListPrefixes, which may fail
abbrev pub listed : Survey → String → Memory → Option (List String)
listed env prefix s = if env.lists prefix then list_prefixes prefix s else none

-- a loop that an error ends
unfoldable pub each : (String → Scan → Scan) → List String → Scan → Scan
each step [] scan = scan
each step (x ∷ rest) scan =
    let scan' = step x scan in
    let final = each step rest scan' in if scan'.failed then scan' else final

abbrev pub each_of : (String → Scan → Scan) → Option (List String) → Scan → Scan
each_of step none scan = record scan { failed = true }
each_of step (some prefixes) scan = each step prefixes scan

-- scanArtifacts
unfoldable pub scan_artifacts : Survey → Database → Bool → String → Scan → Scan
unfolding scan_artifact each
scan_artifacts env db apply base scan =
    each_of (scan_artifact env db apply base) (listed env base scan.store) scan

-- one child of a project
unfoldable pub scan_child : Survey → Database → Bool → String → String → Scan → Scan
unfolding scan_artifacts
scan_child env db apply project child scan =
    if same_text child (concat project "artifacts/")
    then scan_artifacts env db apply (concat project "artifacts/") scan
    else if same_text child (concat project "inputs/")
    then scan
    else add_invalid child scan

-- one project
unfoldable pub scan_project : Survey → Database → Bool → String → Scan → Scan
unfolding scan_child
scan_project env db apply prefix scan =
    if not (is_some (env.parse (segment_of "projects/" prefix)))
      || not (same_text prefix (concat "projects/" (concat (segment_of "projects/" prefix) "/")))
    then add_invalid prefix scan
    else each_of (scan_child env db apply prefix) (listed env prefix scan.store) scan

abbrev pub first_scan : Memory → Scan
first_scan s = record {
  summary = record { orphans = []; deleted = []; invalid = [] };
  store = s;
  failed = false;
}

-- Scan
unfoldable pub scan_all : Survey → Database → Bool → Memory → Scan
unfolding scan_project
scan_all env db apply s =
    each_of (scan_project env db apply) (listed env "projects/" s) (first_scan s)
