-- ===== src/Examples/ObjectExamples.antt =====
-- Witnesses for the theorems on the object store and on publication.
use harness_forge.Base.{
  String, ℕ, ◌≡◌, refl, inl, inr, sym, true, false, none, some, [], ◌∷◌, if◌then◌else◌, ◌==◌,
  Bool-cases, same_text, eq_iff,
}
use harness_forge.Base.Json.{malformed}
use harness_forge.Artifacts.Media.{content_type, lowers_to, path_ext}
use harness_forge.Objects.{
  Object, Memory, Deletion, deletes, stops, try_delete_prefix, lookup, put_object, has_prefix,
  list_prefixes, delete_prefix, valid_prefix,
}
use harness_forge.Publication.{works, unanswered, Surroundings, prepare}
use harness_forge.Publication.Undone.{IsFresh, IsRestored, lookup-prepare}
use harness_forge.Schema.{empty_database}
use harness_forge.Cleanup.Orphans.{Survey, scan_all, segment_of}
use harness_forge.Cleanup.Spared.{IsSpared, scan_all-IsSpared}
use harness_forge.Examples.ContractExamples.{products}
use harness_forge.Artifacts.Paths.{is_valid_path, contains_text}
use harness_forge.Base.Tables.{exists, where_rows}
use harness_forge.Base.Text.{split_path, cut_prefix, concat}

abbrev six_bytes : Object
six_bytes = record {
  data' = record { length = 6; parsed = malformed };
  content_type = "text/css; charset=utf-8";
  last_modified = 3;
}

abbrev store : Memory
store = record { key = "x"; object = six_bytes } ∷ []

style_type : content_type "a.b/main.CSS" ≡ "text/css; charset=utf-8"
unfolding content_type lowers_to path_ext
style_type = refl

no_extension : content_type "a.css/main" ≡ "application/octet-stream"
unfolding content_type lowers_to path_ext
no_extension = refl

listed_children : list_prefixes "a/" (put_object "a/b/c" six_bytes store) ≡ some ("a/b/" ∷ [])
unfolding list_prefixes valid_prefix is_valid_path exists split_path contains_text cut_prefix
    put_object where_rows concat
listed_children = refl

-- a prefix has to end in a slash
refused_prefix : delete_prefix "a" store ≡ none
unfolding delete_prefix
refused_prefix = refl

-- the second step, which puts the first file, is stored, and its answer is an error
abbrev unlucky : Surroundings
unlucky = record {
  uuid_text = λ (n : ℕ). if n == 4 then "p" else "i";
  new_id = λ (n : ℕ). 9;
  clock = λ (n : ℕ). n;
  fate = λ (n : ℕ). if n == 1 then unanswered else works;
  deletion = λ (prefix : String). deletes;
}

unlucky_fails : prepare unlucky 4 7 (some products) store ≡ (none, store)
unfolding prepare try_delete_prefix delete_prefix concat is_valid_path exists split_path
    contains_text cut_prefix where_rows put_object
unlucky_fails = refl

unlucky_answer :
    prepare unlucky 4 7 (some products) store
    ≡ (none, (prepare unlucky 4 7 (some products) store).1)
unfolding prepare try_delete_prefix delete_prefix concat is_valid_path exists split_path
    contains_text cut_prefix where_rows put_object
unlucky_answer = refl

unlucky_valid : valid_prefix "projects/p/artifacts/i/" ≡ true
unfolding valid_prefix is_valid_path exists split_path contains_text cut_prefix
unlucky_valid = refl

other_key : has_prefix "projects/p/artifacts/i/" "x" ≡ false
unfolding cut_prefix
other_key = refl

unlucky-IsFresh : IsFresh unlucky 4 store
unfolding concat lookup
unlucky-IsFresh = record {
  valid = λ n. unlucky_valid;
  unused = λ n key h. elim (Bool-cases (same_text "x" key)) [
    | inl same ↦ absurd (cc (other_key, rw (sym ((eq_iff "x" key).0 same)) at h))
    | inr apart ↦ rw apart refl
  ];
}

lookup-prepare_example :
    IsRestored unlucky 4 "x" store (prepare unlucky 4 7 (some products) store).1
lookup-prepare_example =
    lookup-prepare unlucky 4 7 (some products) store (prepare unlucky 4 7 (some products) store).1
      unlucky-IsFresh unlucky_answer "x"

abbrev survey_with : Deletion → Survey
survey_with deletion = record {
  parse = λ (text : String). if same_text text "i" then some 9 else none;
  lists = λ (prefix : String). true;
  answers = λ (prefix : String). true;
  deletion = λ (prefix : String). deletion;
}

abbrev littered : Memory
littered = record { key = "projects/i/artifacts/i/x"; object = six_bytes } ∷ store

-- the object is under a prefix without a row, so it is deleted
littered_scan : scan_all (survey_with deletes) empty_database true littered ≡ record {
  summary = record {
    orphans = "projects/i/artifacts/i/" ∷ [];
    deleted = "projects/i/artifacts/i/" ∷ [];
    invalid = [];
  };
  store = store;
  failed = false;
}
unfolding scan_all list_prefixes valid_prefix is_valid_path exists split_path contains_text
    cut_prefix segment_of concat try_delete_prefix delete_prefix where_rows
littered_scan = refl

-- a deletion that stops with an error is not noted, though the object may be gone
stopped_scan :
    scan_all (survey_with (stops (λ (key : String). false))) empty_database true littered ≡ record {
      summary = record { orphans = "projects/i/artifacts/i/" ∷ []; deleted = []; invalid = [] };
      store = littered;
      failed = true;
    }
unfolding scan_all list_prefixes valid_prefix is_valid_path exists split_path contains_text
    cut_prefix segment_of concat try_delete_prefix delete_prefix where_rows
stopped_scan = refl

scan_all-IsSpared_example :
    IsSpared
      (survey_with deletes)
      empty_database
      true
      littered
      (scan_all (survey_with deletes) empty_database true littered)
scan_all-IsSpared_example = scan_all-IsSpared (survey_with deletes) empty_database true littered
