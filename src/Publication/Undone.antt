-- ===== src/Publication/Undone.antt =====
-- Prepare of services/control-plane/internal/artifacts/publisher.go: lemmas on the store after a failure.
use Prim.Native.String.append
use harness_forge.Base.{
  ◌⊎◌, ℕ, ◌≡◌, refl, inl, inr, sym, ◌∙◌, ap, String, Bool, true, false, ◌||◌, Option, none, some,
  List, [], ◌∷◌, ◌++◌, if◌then◌else◌, same_text, ◌==◌, is_some, arith, Bool-cases, eq_iff,
}
use harness_forge.Base.Tables.{exists}
use harness_forge.Base.Keys.{All, All-append}
use harness_forge.Base.Text.{cut_prefix, concat}
use harness_forge.Schema.{Artifact}
use harness_forge.Contracts.{ArtifactCandidate}
use harness_forge.Artifacts.Outputs.{OutputFile, ValidatedManifest}
use harness_forge.Objects.{
  Deletion, deletes, stops, is_complete, try_delete_prefix, Object, Memory, lookup, put_object,
  has_prefix, valid_prefix,
}
use harness_forge.Objects.Lookup.{try_delete_prefix_outside, try_delete_prefix_inside, lookup-IsMap}
use harness_forge.Publication.{
  Fate, works, fails, unanswered, Surroundings, Upload, artifact_prefix, put_file, put_files,
  new_record, upload_one, upload_all, undo, first_upload, outcome, prepare,
}

has_prefix-concat : (p s : String) → has_prefix p (concat p s) ≡ true
unfolding cut_prefix concat
has_prefix-concat String.[] s = refl
has_prefix-concat (String.◌∷◌ c p) s =
    rw (append.cons c p s) (ground (arith, has_prefix-concat p s))

-- a key of one of the records
abbrev is_under : List Artifact → String → Bool
is_under records key = exists (λ (a : Artifact). has_prefix a.object_prefix key) records

is_under-append :
    (records : List Artifact) (a : Artifact) (key : String)
    → is_under (records ++ a ∷ []) key ≡ (is_under records key || has_prefix a.object_prefix key)
unfolding exists
is_under-append [] a key = ground arith
is_under-append (b ∷ rest) a key = ground (arith, is_under-append rest a key)

-- what an upload changed is under its records, and these have prefixes of the project
record IsTraced (env : Surroundings) (project : ℕ) (before : Memory) (u : Upload) : Type 0 where
  outside : (key : String) → is_under u.records key ≡ false → lookup key u.store ≡ lookup key before
  owned :
      All
        (λ (a : Artifact). (n : ℕ) × (a.object_prefix ≡ artifact_prefix env project (env.new_id n)))
        u.records

module _ (env : Surroundings) (project run : ℕ) (before : Memory) where
  put_object_outside :
      (prefix path : String) (o : Object) (u : Upload)
      → ((key : String) → has_prefix prefix key ≡ true → is_under u.records key ≡ true)
      → IsTraced env project before u
      → (key : String) → is_under u.records key ≡ false
      → lookup key (put_object (concat prefix path) o u.store) ≡ lookup key before
  put_object_outside prefix path o u among i key clear =
      elim (Bool-cases (same_text (concat prefix path) key)) [
        | inl same ↦
            let here : has_prefix prefix key ≡ true =
              rw (sym ((eq_iff (concat prefix path) key).0 same)) (has_prefix-concat prefix path) in
            absurd (ground (arith, among key here))
        | inr apart ↦
            (lookup-IsMap key u.store).after_put (concat prefix path) o
            ∙ rw apart (i.outside key clear)
      ]

  put_file-IsTraced :
      (fate : Fate) (prefix : String) (f : OutputFile) (u : Upload)
      → ((key : String) → has_prefix prefix key ≡ true → is_under u.records key ≡ true)
      → IsTraced env project before u
      → IsTraced env project before (put_file env fate prefix f u)
        × ((put_file env fate prefix f u).records ≡ u.records)
  unfolding put_file
  put_file-IsTraced works prefix f u among i =
      (record { outside = put_object_outside prefix f.path _ u among i; owned = i.owned }, refl)
  put_file-IsTraced fails prefix f u among i =
      (record { outside = i.outside; owned = i.owned }, refl)
  put_file-IsTraced unanswered prefix f u among i =
      (record { outside = put_object_outside prefix f.path _ u among i; owned = i.owned }, refl)

  put_files-IsTraced :
      (prefix : String) (files : List OutputFile) (u : Upload)
      → ((key : String) → has_prefix prefix key ≡ true → is_under u.records key ≡ true)
      → IsTraced env project before u
      → IsTraced env project before (put_files env prefix files u)
  unfolding put_files
  put_files-IsTraced prefix [] u among i = i
  put_files-IsTraced prefix (f ∷ rest) u among i =
      let next = put_file-IsTraced (env.fate u.step) prefix f u among i in
      elim (Bool-cases (put_file env (env.fate u.step) prefix f u).failed) [
        | inl over ↦ rw over next.0
        | inr onward ↦
            rw onward (put_files-IsTraced prefix rest _ (λ key h. rw next.1 (among key h)) next.0)
      ]

  upload_one-IsTraced :
      (files : List OutputFile) (c : ArtifactCandidate) (fate : Fate) (u : Upload)
      → IsTraced env project before u
      → IsTraced env project before (upload_one env project run files c fate u)
  unfolding upload_one
  upload_one-IsTraced files c works u i =
      let a = new_record env project run c (env.new_id u.step) in
      put_files-IsTraced a.object_prefix files _
        (λ key h. ground (arith, h, is_under-append u.records a key))
        (record {
          outside =
              λ key clear. i.outside key (ground (arith, clear, is_under-append u.records a key));
          owned = All-append _ u.records a i.owned (u.step, refl);
        })
  upload_one-IsTraced files c fails u i = record { outside = i.outside; owned = i.owned }
  upload_one-IsTraced files c unanswered u i = record { outside = i.outside; owned = i.owned }

  upload_all-IsTraced :
      (files : List OutputFile) (l : List ArtifactCandidate) (u : Upload)
      → IsTraced env project before u
      → IsTraced env project before (upload_all env project run files l u)
  unfolding upload_all
  upload_all-IsTraced files [] u i = i
  upload_all-IsTraced files (c ∷ rest) u i =
      let next = upload_one-IsTraced files c (env.fate u.step) u i in
      elim (Bool-cases (upload_one env project run files c (env.fate u.step) u).failed) [
        | inl over ↦ rw over next
        | inr onward ↦ rw onward (upload_all-IsTraced files rest _ next)
      ]

deleted_inside :
    (d : Deletion) (p key : String) (s : Memory)
    → is_complete d ≡ true
    → valid_prefix p ≡ true
    → has_prefix p key ≡ true
    → lookup key (try_delete_prefix d p s).1 ≡ none
deleted_inside deletes p key s worked valid under = try_delete_prefix_inside p key s valid under
deleted_inside (stops gone) p key s worked valid under = absurd (cc)

no_key : (b : Bool) → ◌≡◌ {A = Option Object} (if b then none else none) none
no_key true = refl
no_key false = refl

-- where the records are
abbrev AreOwned : Surroundings → ℕ → List Artifact → Type 0
AreOwned env project records =
    All (λ (a : Artifact). (n : ℕ) × (a.object_prefix ≡ artifact_prefix env project (env.new_id n)))
      records

-- the key is under the prefix of a new identifier, and the DeletePrefix of this prefix fails
abbrev pub IsStuck : Surroundings → ℕ → String → Type 0
IsStuck env project key =
    (n : ℕ) × (has_prefix (artifact_prefix env project (env.new_id n)) key ≡ true)
    × (is_complete (env.deletion (artifact_prefix env project (env.new_id n))) ≡ false)

lookup-undo :
    (env : Surroundings) (project : ℕ) (records : List Artifact) (s : Memory) (key : String)
    → All (λ (a : Artifact). valid_prefix a.object_prefix ≡ true) records
    → AreOwned env project records
    → (lookup key (undo env records s) ≡ (if is_under records key then none else lookup key s))
      ⊎ IsStuck env project key
unfolding undo exists
lookup-undo env project [] s key valid owned = inl refl
lookup-undo env project (a ∷ rest) s key valid owned =
    let d = env.deletion a.object_prefix in
    let s' = (try_delete_prefix d a.object_prefix s).1 in
    let later = lookup-undo env project rest s' key valid.1 owned.1 in
    elim (Bool-cases (has_prefix a.object_prefix key)) [
      | inr apart ↦
          let same = try_delete_prefix_outside d a.object_prefix key s apart in
          rw apart (rw same at later)
      | inl under ↦ elim (Bool-cases (is_complete d)) [
        | inr stopped ↦ inr (owned.0.0, rw (sym owned.0.1) under, rw (sym owned.0.1) stopped)
        | inl worked ↦
            let gone = deleted_inside d a.object_prefix key s worked valid.0 under in
            elim later [
              | inl left ↦ inl (left ∙ rw (under, gone) (no_key (is_under rest key)))
              | inr stuck ↦ inr stuck
            ]
      ]
    ]

-- What Prepare relies on, of the identifiers that uuid.New gives: their prefixes are valid ones, and the
-- store has no key under them.
pub record IsFresh (env : Surroundings) (project : ℕ) (s : Memory) : Type 0 where
  pub valid : (n : ℕ) → valid_prefix (artifact_prefix env project (env.new_id n)) ≡ true
  pub unused :
      (n : ℕ) (key : String)
      → has_prefix (artifact_prefix env project (env.new_id n)) key ≡ true
      → lookup key s ≡ none

owned_valid :
    (env : Surroundings) (project : ℕ) (s : Memory) (records : List Artifact)
    → IsFresh env project s
    → AreOwned env project records
    → All (λ (a : Artifact). valid_prefix a.object_prefix ≡ true) records
owned_valid env project s [] fresh owned = tt
owned_valid env project s (a ∷ rest) fresh owned =
    (rw owned.0.1 (fresh.valid owned.0.0), owned_valid env project s rest fresh owned.1)

owned_unused :
    (env : Surroundings) (project : ℕ) (s : Memory) (records : List Artifact) (key : String)
    → IsFresh env project s
    → AreOwned env project records
    → is_under records key ≡ true
    → lookup key s ≡ none
unfolding exists
owned_unused env project s [] key fresh owned h = absurd (cc)
owned_unused env project s (a ∷ rest) key fresh owned h =
    elim (Bool-cases (has_prefix a.object_prefix key)) [
      | inl here ↦ fresh.unused owned.0.0 key (rw (sym owned.0.1) here)
      | inr apart ↦ owned_unused env project s rest key fresh owned.1 (rw apart at h)
    ]

-- the store is the second part of an answer
same_store :
    {p q : Option (List Artifact) × Memory} (key : String) → p ≡ q → lookup key q.1 ≡ lookup key p.1
same_store key h = ap (λ (p : Option (List Artifact) × Memory). lookup key p.1) (sym h)

-- a key has what it had, or the deletion of the new prefix that it is under failed
abbrev pub IsRestored : Surroundings → ℕ → String → Memory → Memory → Type 0
IsRestored env project key s s' = (lookup key s' ≡ lookup key s) ⊎ IsStuck env project key

lookup-outcome :
    (env : Surroundings) (project : ℕ) (s s' : Memory) (u : Upload)
    → IsFresh env project s
    → IsTraced env project s u
    → outcome env u ≡ (none, s')
    → (key : String) → IsRestored env project key s s'
lookup-outcome env project s s' u fresh i h key = elim (Bool-cases u.failed) [
  | inr good' ↦
      absurd (cc (ap (λ (p : Option (List Artifact) × Memory). is_some p.0) (rw good' at h)))
  | inl broken' ↦
      let made =
        same_store {p = (none, undo env u.records u.store)} {q = (none, s')} key
          (rw broken' at h) in
      elim (lookup-undo env project u.records u.store key
        (owned_valid env project s u.records fresh i.owned) i.owned) [
          | inr stuck ↦ inr stuck
          | inl left ↦ inl (
              made ∙ left ∙ (elim (Bool-cases (is_under u.records key)) [
                | inl under ↦
                    rw under (sym (owned_unused env project s u.records key fresh i.owned under))
                | inr clear ↦ rw clear (i.outside key clear)
              ]))
        ]
]

-- When Prepare fails, whichever step failed, and also when an object was stored whose answer was an
-- error, each key of the store has what it had before, or it is under the prefix of a new identifier
-- for which the DeletePrefix of the clean-up fails; provided that the new identifiers give valid prefixes under
-- which the store has no key.
pub lookup-prepare :
    (env : Surroundings) (project run : ℕ) (validated : Option ValidatedManifest) (s s' : Memory)
    → IsFresh env project s
    → prepare env project run validated s ≡ (none, s')
    → (key : String) → IsRestored env project key s s'
unfolding prepare
lookup-prepare env project run none s s' fresh h key =
    inl (same_store {p = (none, s)} {q = (none, s')} key h)
lookup-prepare env project run (some v) s s' fresh h key =
    elim (Bool-cases (project == 0 || run == 0)) [
      | inl missing ↦ inl (same_store {p = (none, s)} {q = (none, s')} key (rw missing at h))
      | inr there ↦
          lookup-outcome env project s s'
            (upload_all env project run v.files v.artifacts (first_upload s)) fresh
            (upload_all-IsTraced env project run s v.files v.artifacts (first_upload s)
              (record { outside = λ k clear. refl; owned = tt }))
            (rw there at h) key
    ]
