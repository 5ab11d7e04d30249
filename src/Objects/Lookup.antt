-- ===== src/Objects/Lookup.antt =====
-- The store of services/control-plane/internal/objectstore/memory.go: lemmas on looking up a key.
use harness_forge.Base.{
  ◌&&◌, Option-cases, ◌≡◌, refl, inl, inr, sym, String, Bool, true, false, not, none, some, [], ◌∷◌,
  if◌then◌else◌, same_text, arith, Bool-cases, ap, ◌∙◌, eq_iff, is_some,
}
use harness_forge.Base.Tables.{where_rows}
use harness_forge.Objects.{
  Deletion, deletes, stops, try_delete_prefix, Object, Entry, Memory, lookup, delete_object,
  put_object, has_prefix, valid_prefix, delete_prefix,
}

-- rows that are kept by a test on their keys
pub lookup-where_rows :
    (keeps : String → Bool) (key : String) (s : Memory)
    → lookup key (where_rows (λ (e : Entry). keeps e.key) s)
      ≡ (if keeps key then lookup key s else none)
unfolding lookup where_rows
lookup-where_rows keeps key [] = ground arith
lookup-where_rows keeps key (e ∷ rest) =
    let later = lookup-where_rows keeps key rest in
    elim (Bool-cases (keeps e.key)) [
      | inl kept ↦ rw kept (elim (Bool-cases (same_text e.key key)) [
        | inl same ↦
            let here : keeps key ≡ true = rw (sym (ap keeps ((eq_iff e.key key).0 same))) kept in
            rw (same, here) refl
        | inr apart ↦ rw apart later
      ])
      | inr gone ↦ rw gone (elim (Bool-cases (same_text e.key key)) [
        | inl same ↦
            let here : keeps key ≡ false = rw (sym (ap keeps ((eq_iff e.key key).0 same))) gone in
            rw here (later ∙ rw here refl)
        | inr apart ↦ rw apart later
      ])
    ]

-- What each operation does to one key.
pub record IsMap (key : String) (s : Memory) : Type 0 where
  pub after_put :
      (k : String) (o : Object)
      → lookup key (put_object k o s) ≡ (if same_text k key then some o else lookup key s)
  pub after_delete :
      (k : String)
      → lookup key (delete_object k s) ≡ (if same_text k key then none else lookup key s)
  pub after_delete_prefix :
      (p : String) (s' : Memory)
      → delete_prefix p s ≡ some s'
      → lookup key s' ≡ (if has_prefix p key then none else lookup key s)
  pub refused : (p : String) → is_some (delete_prefix p s) ≡ valid_prefix p

lookup-delete_object :
    (k key : String) (s : Memory)
    → lookup key (delete_object k s) ≡ (if same_text k key then none else lookup key s)
unfolding delete_object
lookup-delete_object k key s =
    lookup-where_rows (λ (x : String). not (same_text x k)) key s
    ∙ ground (arith, eq_iff key k, eq_iff k key)

lookup-put_object :
    (k : String) (o : Object) (key : String) (s : Memory)
    → lookup key (put_object k o s) ≡ (if same_text k key then some o else lookup key s)
unfolding put_object lookup
lookup-put_object k o key s = elim (Bool-cases (same_text k key)) [
  | inl same ↦ rw same refl
  | inr apart ↦ rw apart (lookup-delete_object k key s ∙ rw apart refl)
]

pub lookup-delete_prefix :
    (p : String) (key : String) (s s' : Memory)
    → delete_prefix p s ≡ some s'
    → lookup key s' ≡ (if has_prefix p key then none else lookup key s)
unfolding delete_prefix
lookup-delete_prefix p key s s' h = elim (Bool-cases (valid_prefix p)) [
  | inl valid ↦
      let made : s' ≡ where_rows (λ (e : Entry). not (has_prefix p e.key)) s =
        ground (arith, rw valid at h) in
      rw made (lookup-where_rows (λ (x : String). not (has_prefix p x)) key s ∙ ground arith)
  | inr invalid ↦ absurd (cc (rw invalid at h))
]

delete_prefix_refused : (p : String) (s : Memory) → is_some (delete_prefix p s) ≡ valid_prefix p
unfolding delete_prefix
delete_prefix_refused p s = ground arith

pub lookup-IsMap : (key : String) (s : Memory) → IsMap key s
lookup-IsMap key s = record {
  after_put = λ k o. lookup-put_object k o key s;
  after_delete = λ k. lookup-delete_object k key s;
  after_delete_prefix = λ p s' h. lookup-delete_prefix p key s s' h;
  refused = λ p. delete_prefix_refused p s;
}

-- a DeletePrefix changes no key that is not under the prefix
pub try_delete_prefix_outside :
    (d : Deletion) (p key : String) (s : Memory)
    → has_prefix p key ≡ false
    → lookup key (try_delete_prefix d p s).1 ≡ lookup key s
unfolding try_delete_prefix
try_delete_prefix_outside deletes p key s apart = elim (Option-cases (delete_prefix p s)) [
  | inl refused ↦ rw refused refl
  | inr (s', deleted) ↦ rw deleted (lookup-delete_prefix p key s s' deleted ∙ rw apart refl)
]
try_delete_prefix_outside (stops gone) p key s apart = elim (Bool-cases (valid_prefix p)) [
  | inl valid ↦
      rw valid
        (lookup-where_rows (λ (x : String). not (has_prefix p x && gone x)) key s ∙ rw apart refl)
  | inr invalid ↦ rw invalid refl
]

-- one that works leaves no key under a valid prefix
pub try_delete_prefix_inside :
    (p key : String) (s : Memory)
    → valid_prefix p ≡ true
    → has_prefix p key ≡ true
    → lookup key (try_delete_prefix deletes p s).1 ≡ none
unfolding try_delete_prefix
try_delete_prefix_inside p key s valid under = elim (Option-cases (delete_prefix p s)) [
  | inl refused ↦ absurd (ground (arith, delete_prefix_refused p s, valid))
  | inr (s', deleted) ↦ rw deleted (lookup-delete_prefix p key s s' deleted ∙ rw under refl)
]
