-- ===== src/Base/Keys.antt =====
-- Primary keys, and predicates on the rows of a table.
use Prim.Native.Nat.{ℕ}
use mathlib.Core.Path.{◌≡◌, refl, subst}
use mathlib.Core.Logic.{inl, inr}
use mathlib.Core.Bool.{Bool, true, false}
use mathlib.Core.Option.{none, some}
use mathlib.Core.List.{List, [], ◌∷◌, ◌++◌, head?}
use native.Mathlib.Omega.{arith}
use harness_forge.Base.Tests.{◌==◌, if◌then◌else◌, Bool-cases, ==-refl}
use harness_forge.Base.Tables.{
  find, update, where_rows, insert_sorted, order_by, find-update, find-append,
}

abbrev pub All {ℓ κ} : {A : Type ℓ} → (A → Type κ) → List A → Type κ
All P [] = Unit
All P (x ∷ xs) = P x × All P xs

pub All-append {ℓ κ} :
    {A : Type ℓ} (P : A → Type κ) (xs : List A) (x : A) → All P xs → P x → All P (xs ++ x ∷ [])
All-append P [] x h p = (p, tt)
All-append P (y ∷ ys) x h p = (h.0, All-append P ys x h.1 p)

module _ {ℓ κ} {A : Type ℓ} (P : A → Type κ) (test : A → Bool) where
  pub All-where_rows : (rows : List A) → All P rows → All P (where_rows test rows)
  unfolding where_rows
  All-where_rows [] h = h
  All-where_rows (x ∷ xs) h = elim (Bool-cases (test x)) [
    | inl e ↦ rw e (h.0, All-where_rows xs h.1)
    | inr e ↦ rw e (All-where_rows xs h.1)
  ]

module _ {ℓ} {A : Type ℓ} (test : A → Bool) where
  pub All-test-where_rows : (rows : List A) → All (λ x. test x ≡ true) (where_rows test rows)
  unfolding where_rows
  All-test-where_rows [] = tt
  All-test-where_rows (x ∷ xs) = elim (Bool-cases (test x)) [
    | inl e ↦ rw e (e, All-test-where_rows xs)
    | inr e ↦ rw e (All-test-where_rows xs)
  ]

module _ {ℓ κ} {A : Type ℓ} (P : A → Type κ) (before : A → A → Bool) where
  All-insert_sorted :
      (x : A) (rows : List A) → P x → All P rows → All P (insert_sorted before x rows)
  unfolding insert_sorted
  All-insert_sorted x [] p h = (p, h)
  All-insert_sorted x (y ∷ ys) p h = elim (Bool-cases (before x y)) [
    | inl e ↦ rw e (p, h)
    | inr e ↦ rw e (h.0, All-insert_sorted x ys p h.1)
  ]

  pub All-order_by : (rows : List A) → All P rows → All P (order_by before rows)
  unfolding order_by
  All-order_by [] h = h
  All-order_by (x ∷ xs) h = All-insert_sorted x (order_by before xs) h.0 (All-order_by xs h.1)

first_eq {ℓ} : {A : Type ℓ} (x : A) (xs : List A) (a : A) → head? (x ∷ xs) ≡ some a → x ≡ a
first_eq x xs a e = ground arith

pub All-map {ℓ κ} :
    {A : Type ℓ} (P Q : A → Type κ) (rows : List A)
    → ((a : A) → P a → Q a)
    → All P rows
    → All Q rows
All-map P Q [] f h = h
All-map P Q (x ∷ xs) f h = (f x h.0, All-map P Q xs f h.1)

pub All-head? {ℓ κ} :
    {A : Type ℓ} (P : A → Type κ) (rows : List A) (a : A) → All P rows → head? rows ≡ some a → P a
All-head? P [] a h e = cc
All-head? P (x ∷ xs) a h e = subst P (first_eq x xs a e) h.0

-- no two rows have the same key
module _ {ℓ} {A : Type ℓ} (key : A → ℕ) where
  abbrev pub Keyed : List A → Type ℓ
  Keyed [] = Unit
  Keyed (x ∷ xs) = (find key (key x) xs ≡ none) × Keyed xs

  pub Keyed-update :
      (k : ℕ) (f : A → A) (rows : List A)
      → ((x : A) → key (f x) ≡ key x)
      → Keyed rows
      → Keyed (update key k f rows)
  unfolding update
  Keyed-update k f [] keeps h = h
  Keyed-update k f (x ∷ xs) keeps h = (missing, Keyed-update k f xs keeps h.1)
    where
      gone : (j : ℕ) → find key j xs ≡ none → find key j (update key k f xs) ≡ none
      gone j e = ground (arith, find-update key k j f xs keeps)

      missing : find key (key (if key x == k then f x else x)) (update key k f xs) ≡ none
      missing = elim (Bool-cases (key x == k)) [
        | inl e ↦ rw (e, keeps x) (gone (key x) h.0)
        | inr e ↦ rw e (gone (key x) h.0)
      ]

  pub Keyed-append :
      (rows : List A) (a : A) → find key (key a) rows ≡ none → Keyed rows → Keyed (rows ++ a ∷ [])
  unfolding find
  Keyed-append [] a fresh h = (refl, h)
  Keyed-append (x ∷ xs) a fresh h = (
    ground (arith, find-append key (key x) xs (a ∷ []), h.0),
    Keyed-append xs a (ground arith) h.1,
  )

  -- each row is the one that its key finds
  pub All-find : (rows : List A) → Keyed rows → All (λ a. find key (key a) rows ≡ some a) rows
  unfolding find
  All-find [] h = tt
  All-find (x ∷ xs) h = (
    ground (arith, ==-refl (key x)),
    All-map _ _ xs (λ a e. ground (arith, h.0)) (All-find xs h.1),
  )

-- the head of a sorted table comes before every row
module _ {ℓ} {A : Type ℓ} (before : A → A → Bool) (reflexive : (a : A) → before a a ≡ true)
    (transitive : (a b c : A) → before a b ≡ true → before b c ≡ true → before a c ≡ true)
    (total : (a b : A) → before a b ≡ false → before b a ≡ true) where
  order_by-nil :
      (rows : List A) → order_by before rows ≡ [] → All (λ x. before x x ≡ true) rows × (rows ≡ [])
  order_by-nil [] h = (tt, refl)
  order_by-nil (x ∷ xs) h = absurd (insert_ne (order_by before xs) (unfold order_by in h))
    where
      insert_ne : (ys : List A) → insert_sorted before x ys ≡ [] → ⊥
      insert_ne [] e = unfold insert_sorted in cc
      insert_ne (y ∷ ys) e = unfold insert_sorted in ground arith

  least_cons :
      (x m : A) (xs sorted : List A)
      → order_by before xs ≡ sorted
      → ((y : A) → head? sorted ≡ some y → All (λ z. before y z ≡ true) xs)
      → head? (insert_sorted before x sorted) ≡ some m
      → All (λ z. before m z ≡ true) (x ∷ xs)
  unfolding insert_sorted
  least_cons x m xs [] e ih h =
      rw ((order_by-nil xs e).1)
        (subst (λ y. before y x ≡ true) (first_eq x [] m h) (reflexive x), tt)
  least_cons x m xs (y ∷ ys) e ih h = elim (Bool-cases (before x y)) [
    | inl t ↦
        let same : x ≡ m = ground arith in
        subst (λ k. All (λ z. before k z ≡ true) (x ∷ xs)) same
          (reflexive x, All-map _ _ xs (λ z q. transitive x y z t q) (ih y refl))
    | inr f ↦
        let same : y ≡ m = ground arith in
        subst (λ k. All (λ z. before k z ≡ true) (x ∷ xs)) same (total x y f, ih y refl)
  ]

  pub head?-order_by :
      (rows : List A) (m : A)
      → head? (order_by before rows) ≡ some m
      → All (λ z. before m z ≡ true) rows
  head?-order_by [] m h = tt
  head?-order_by (x ∷ xs) m h =
      least_cons x m xs (order_by before xs) refl (λ y q. head?-order_by xs y q)
        (unfold order_by in h)

-- what holds of the rows that pass a test
pub All-where_rows_test {ℓ κ} :
    {A : Type ℓ} (P : A → Type κ) (test : A → Bool) (rows : List A)
    → All P (where_rows test rows)
    → All (λ a. test a ≡ true → P a) rows
unfolding where_rows
All-where_rows_test P test [] h = tt
All-where_rows_test P test (x ∷ xs) h = elim (Bool-cases (test x)) [
  | inl e ↦ let h' = (rw e at h) in (λ _. h'.0, All-where_rows_test P test xs h'.1)
  | inr e ↦ (λ t. cc, All-where_rows_test P test xs (rw e at h))
]
