-- ===== src/Base/Tables.antt =====
-- Database tables as lists of rows with a numeric key, and the SQL statements on one table.
use Prim.Native.Nat.{ℕ}
use mathlib.Core.Path.{◌≡◌}
use mathlib.Core.Bool.{Bool, true, false, ◌||◌}
use mathlib.Core.Option
use mathlib.Core.Option.{Option, none, some}
use mathlib.Core.List.{List, [], ◌∷◌, ◌++◌}
use native.Mathlib.Omega.{arith}
use harness_forge.Base.Tests.{◌==◌, if◌then◌else◌, is_some}

module _ {ℓ} {A : Type ℓ} (key : A → ℕ) where
  -- SELECT ... WHERE id=$1
  unfoldable pub find : ℕ → List A → Option A
  find k [] = none
  find k (x ∷ xs) = if key x == k then some x else find k xs

  -- UPDATE ... SET ... WHERE id=$1
  unfoldable pub update : ℕ → (A → A) → List A → List A
  update k f [] = []
  update k f (x ∷ xs) = (if key x == k then f x else x) ∷ update k f xs

  pub find-update :
      (k j : ℕ) (f : A → A) (rows : List A)
      → ((x : A) → key (f x) ≡ key x)
      → find j (update k f rows) ≡ (if k == j then Option.map f (find j rows) else find j rows)
  unfolding find update
  find-update k j f [] keeps = ground arith
  find-update k j f (x ∷ xs) keeps = ground (arith, keeps x, find-update k j f xs keeps)

  pub find-append :
      (j : ℕ) (rows more : List A)
      → find j (rows ++ more) ≡ (if is_some (find j rows) then find j rows else find j more)
  unfolding find
  find-append j [] more = ground arith
  find-append j (x ∷ xs) more = ground (arith, find-append j xs more)

  -- the row that is found has the key
  pub key-find : (k : ℕ) (rows : List A) (a : A) → find k rows ≡ some a → key a ≡ k
  unfolding find
  key-find k [] a h = cc
  key-find k (x ∷ xs) a h = ground (arith, key-find k xs a)

module _ {ℓ} {A : Type ℓ} (test : A → Bool) where
  -- SELECT EXISTS(SELECT 1 ... WHERE test)
  unfoldable pub exists : List A → Bool
  exists [] = false
  exists (x ∷ xs) = test x || exists xs

  -- SELECT ... WHERE test
  unfoldable pub where_rows : List A → List A
  where_rows [] = []
  where_rows (x ∷ xs) = let rest = where_rows xs in if test x then x ∷ rest else rest

  -- the first row that passes
  unfoldable pub first : List A → Option A
  first [] = none
  first (x ∷ xs) = if test x then some x else first xs

  -- UPDATE ... SET ... WHERE test
  unfoldable pub update_where : (A → A) → List A → List A
  update_where f [] = []
  update_where f (x ∷ xs) = (if test x then f x else x) ∷ update_where f xs

  pub first-append :
      (rows more : List A)
      → first (rows ++ more) ≡ (if is_some (first rows) then first rows else first more)
  unfolding first
  first-append [] more = ground arith
  first-append (x ∷ xs) more = ground (arith, first-append xs more)

  test-first : (rows : List A) (a : A) → first rows ≡ some a → test a ≡ true
  unfolding first
  test-first [] a h = cc
  test-first (x ∷ xs) a h = ground (arith, test-first xs a)

module _ {ℓ} {A : Type ℓ} (key : A → ℕ) (test : A → Bool) where
  pub exists-find :
      (rows : List A) (k : ℕ) (a : A)
      → exists test rows ≡ false
      → find key k rows ≡ some a
      → test a ≡ false
  unfolding exists find
  exists-find [] k a e h = cc
  exists-find (x ∷ xs) k a e h = ground (arith, exists-find xs k a)

module _ {ℓ} {A : Type ℓ} (before : A → A → Bool) where
  unfoldable pub insert_sorted : A → List A → List A
  insert_sorted x [] = x ∷ []
  insert_sorted x (y ∷ ys) = if before x y then x ∷ y ∷ ys else y ∷ insert_sorted x ys

  -- ORDER BY: rows that tie keep the order of the table
  unfoldable pub order_by : List A → List A
  unfolding insert_sorted
  order_by [] = []
  order_by (x ∷ xs) = insert_sorted x (order_by xs)

module _ {ℓ} {A : Type ℓ} (test : A → Bool) where
  pub where_rows-append :
      (rows more : List A)
      → where_rows test (rows ++ more) ≡ where_rows test rows ++ where_rows test more
  unfolding where_rows
  where_rows-append [] more = ground arith
  where_rows-append (x ∷ xs) more = ground (arith, where_rows-append xs more)
