-- ===== src/Cleanup/Spared.antt =====
-- The scan of services/control-plane/internal/cleanup/orphans.go: lemmas on the objects that it changes.
use harness_forge.Base.{
  ◌++◌, ap, ℕ, ◌≡◌, refl, ◌∙◌, String, Bool, true, false, not, ◌||◌, Option, none, some, List, [],
  ◌∷◌, if◌then◌else◌, same_text, arith, eq_iff, is_some,
}
use harness_forge.Base.Tables.{exists}
use harness_forge.Base.Keys.{All, All-append}
use harness_forge.Base.Text.{concat}
use harness_forge.Schema.{Database}
use harness_forge.Objects.{Memory, Deletion, lookup, has_prefix, try_delete_prefix}
use harness_forge.Objects.Lookup.{try_delete_prefix_outside}
use harness_forge.Cleanup.Orphans.{
  listed, Survey, Scan, segment_of, has_metadata, add_invalid, add_orphan, removed, take_orphan,
  place_prefix, scan_artifact, each, each_of, scan_artifacts, scan_child, scan_project, first_scan,
  scan_all,
}

-- a prefix that ends in an identifier for which there is no row with this prefix
abbrev pub IsOrphan : Survey → Database → String → Type 0
IsOrphan env db prefix =
    (base : String) × (segment : String) × (id : ℕ) × (env.parse segment ≡ some id)
    × (prefix ≡ concat base (concat segment "/"))
    × (has_metadata id prefix db ≡ false)

abbrev pub is_below : List String → String → Bool
is_below prefixes key = exists (λ (p : String). has_prefix p key) prefixes

-- What a scan did to a store.
pub record IsSpared (env : Survey) (db : Database) (apply : Bool) (s : Memory) (scan : Scan)
    : Type 0 where
  pub orphans : All (IsOrphan env db) scan.summary.orphans
  pub others :
      (key : String)
      → is_below scan.summary.orphans key ≡ false
      → lookup key scan.store ≡ lookup key s
  pub dry : apply ≡ false → (scan.store ≡ s) × (scan.summary.deleted ≡ [])
  pub reported : apply ≡ true → scan.failed ≡ false → scan.summary.deleted ≡ scan.summary.orphans

is_below-append :
    (prefixes : List String) (p key : String)
    → is_below (prefixes ++ p ∷ []) key ≡ (is_below prefixes key || has_prefix p key)
unfolding exists
is_below-append [] p key = ground arith
is_below-append (q ∷ rest) p key = ground (arith, is_below-append rest p key)

module _ (env : Survey) (db : Database) (apply : Bool) (s : Memory) where
  -- what DeletePrefix of one more orphan leaves of the other keys
  still_others :
      (d : Deletion) (prefix : String) (scan : Scan)
      → IsSpared env db apply s scan
      → (key : String) → is_below (scan.summary.orphans ++ prefix ∷ []) key ≡ false
      → lookup key (try_delete_prefix d prefix scan.store).1 ≡ lookup key s
  still_others d prefix scan i key clear =
      let split = is_below-append scan.summary.orphans prefix key in
      try_delete_prefix_outside d prefix key scan.store (ground (arith, split, clear))
      ∙ i.others key (ground (arith, split, clear))

  removed-IsSpared :
      (prefix : String) (scan : Scan) (r : Bool × Memory)
      → apply ≡ true
      → IsOrphan env db prefix
      → IsSpared env db apply s scan
      → ((key : String)
          → is_below (scan.summary.orphans ++ prefix ∷ []) key ≡ false
          → lookup key r.1 ≡ lookup key s)
      → IsSpared env db apply s (removed prefix (add_orphan prefix scan) r)
  removed-IsSpared prefix scan (true, s') wet orphan i others = record {
    orphans = All-append (IsOrphan env db) scan.summary.orphans prefix i.orphans orphan;
    others = others;
    dry = λ off. absurd (cc (wet, off));
    reported = λ _ fine. ap (λ (l : List String). l ++ prefix ∷ []) (i.reported wet fine);
  }
  removed-IsSpared prefix scan (false, s') wet orphan i others = record {
    orphans = All-append (IsOrphan env db) scan.summary.orphans prefix i.orphans orphan;
    others = others;
    dry = λ off. absurd (cc (wet, off));
    reported = λ _ fine. absurd (cc (fine));
  }

  take_orphan-IsSpared :
      (b : Bool) (prefix : String) (scan : Scan)
      → apply ≡ b
      → IsOrphan env db prefix
      → IsSpared env db apply s scan
      → IsSpared env db apply s (take_orphan env b prefix scan)
  unfolding take_orphan
  take_orphan-IsSpared true prefix scan wet orphan i =
      removed-IsSpared prefix scan (try_delete_prefix (env.deletion prefix) prefix scan.store) wet
        orphan i (still_others (env.deletion prefix) prefix scan i)
  take_orphan-IsSpared false prefix scan off orphan i = record {
    orphans = All-append (IsOrphan env db) scan.summary.orphans prefix i.orphans orphan;
    others = λ key clear.
        i.others key (ground (arith, is_below-append scan.summary.orphans prefix key, clear));
    dry = i.dry;
    reported = λ wet. absurd (cc (wet, off));
  }

  -- a scan that changes nothing but what is invalid
  invalid-IsSpared :
      (prefix : String) (scan : Scan)
      → IsSpared env db apply s scan
      → IsSpared env db apply s (add_invalid prefix scan)
  invalid-IsSpared prefix scan i = record {
    orphans = i.orphans;
    others = i.others;
    dry = i.dry;
    reported = i.reported;
  }

  failed-IsSpared :
      (scan : Scan)
      → IsSpared env db apply s scan
      → IsSpared env db apply s (record scan { failed = true })
  failed-IsSpared scan i = record {
    orphans = i.orphans;
    others = i.others;
    dry = i.dry;
    reported = λ _ fine. absurd (cc (fine));
  }

  either-IsSpared :
      (b : Bool) (x y : Scan)
      → (b ≡ true → IsSpared env db apply s x)
      → (b ≡ false → IsSpared env db apply s y)
      → IsSpared env db apply s (if b then x else y)
  either-IsSpared true x y first second = first refl
  either-IsSpared false x y first second = second refl

  place_prefix-IsSpared :
      (base segment prefix : String) (parsed : Option ℕ) (scan : Scan)
      → env.parse segment ≡ parsed
      → IsSpared env db apply s scan
      → IsSpared env db apply s
          (place_prefix env db apply (concat base (concat segment "/")) prefix parsed scan)
  place_prefix-IsSpared base segment prefix none scan made i = invalid-IsSpared prefix scan i
  place_prefix-IsSpared base segment prefix (some id) scan made i =
      let whole = concat base (concat segment "/") in
      either-IsSpared (not (same_text prefix whole)) _ _ (λ _. invalid-IsSpared prefix scan i)
        (λ exact.
          either-IsSpared (not (env.answers prefix)) _ _ (λ _. failed-IsSpared scan i)
            (λ _.
              either-IsSpared (has_metadata id prefix db) _ _ (λ _. i)
                (λ unowned.
                  take_orphan-IsSpared apply prefix scan refl
                    (
                      base,
                      segment,
                      id,
                      made,
                      (eq_iff prefix whole).0 (ground (arith, exact)),
                      unowned,
                    )
                    i)))

  scan_artifact-IsSpared :
      (base prefix : String) (scan : Scan)
      → IsSpared env db apply s scan
      → IsSpared env db apply s (scan_artifact env db apply base prefix scan)
  unfolding scan_artifact
  scan_artifact-IsSpared base prefix scan i =
      place_prefix-IsSpared base (segment_of base prefix) prefix
        (env.parse (segment_of base prefix)) scan refl i

  each-IsSpared :
      (step : String → Scan → Scan)
      → ((x : String) (scan : Scan)
          → IsSpared env db apply s scan
          → IsSpared env db apply s (step x scan))
      → (l : List String) (scan : Scan) → IsSpared env db apply s scan
      → IsSpared env db apply s (each step l scan)
  unfolding each
  each-IsSpared step keeps [] scan i = i
  each-IsSpared step keeps (x ∷ rest) scan i =
      either-IsSpared (step x scan).failed (step x scan) _ (λ _. keeps x scan i)
        (λ _. each-IsSpared step keeps rest (step x scan) (keeps x scan i))

  each_of-IsSpared :
      (step : String → Scan → Scan)
      → ((x : String) (scan : Scan)
          → IsSpared env db apply s scan
          → IsSpared env db apply s (step x scan))
      → (l : Option (List String)) (scan : Scan) → IsSpared env db apply s scan
      → IsSpared env db apply s (each_of step l scan)
  each_of-IsSpared step keeps none scan i = failed-IsSpared scan i
  each_of-IsSpared step keeps (some l) scan i = each-IsSpared step keeps l scan i

  scan_artifacts-IsSpared :
      (base : String) (scan : Scan)
      → IsSpared env db apply s scan
      → IsSpared env db apply s (scan_artifacts env db apply base scan)
  unfolding scan_artifacts
  scan_artifacts-IsSpared base scan i =
      each_of-IsSpared (scan_artifact env db apply base) (scan_artifact-IsSpared base)
        (listed env base scan.store) scan i

  scan_child-IsSpared :
      (project child : String) (scan : Scan)
      → IsSpared env db apply s scan
      → IsSpared env db apply s (scan_child env db apply project child scan)
  unfolding scan_child
  scan_child-IsSpared project child scan i =
      either-IsSpared (same_text child (concat project "artifacts/")) _ _
        (λ _. scan_artifacts-IsSpared (concat project "artifacts/") scan i)
        (λ _.
          either-IsSpared (same_text child (concat project "inputs/")) _ _ (λ _. i)
            (λ _. invalid-IsSpared child scan i))

  scan_project-IsSpared :
      (prefix : String) (scan : Scan)
      → IsSpared env db apply s scan
      → IsSpared env db apply s (scan_project env db apply prefix scan)
  unfolding scan_project
  scan_project-IsSpared prefix scan i =
      either-IsSpared
        (not (is_some (env.parse (segment_of "projects/" prefix)))
          || not
              (same_text prefix (concat "projects/" (concat (segment_of "projects/" prefix) "/"))))
        (add_invalid prefix scan) _ (λ _. invalid-IsSpared prefix scan i)
        (λ _.
          each_of-IsSpared (scan_child env db apply prefix) (scan_child-IsSpared prefix)
            (listed env prefix scan.store) scan i)

-- Whatever the store holds, and whichever listing, query or deletion fails, a scan for orphans changes
-- only objects under the prefixes that it reports as orphans; each of these ends in an identifier for
-- which no artifact has a row with this prefix; a scan that is not to apply leaves the store as it is and
-- reports nothing as deleted; and one that is to apply and does not fail reports all orphans as deleted.
pub scan_all-IsSpared :
    (env : Survey) (db : Database) (apply : Bool) (s : Memory)
    → IsSpared env db apply s (scan_all env db apply s)
unfolding scan_all
scan_all-IsSpared env db apply s =
    each_of-IsSpared env db apply s (scan_project env db apply)
      (scan_project-IsSpared env db apply s) (listed env "projects/" s) (first_scan s)
      (record {
        orphans = tt;
        others = λ key clear. refl;
        dry = λ off. (refl, refl);
        reported = λ wet fine. refl;
      })
