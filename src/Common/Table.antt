-- ===== src/Common/Table.antt =====
-- backend/repositories/__init__.py: what a `DBRepositoryImpl` does to the rows of its table. A
-- table is the list of its rows; `test` is a `where` clause and `change` a `values` clause.
pub mod Laws
pub mod Members
pub mod Order
pub mod Distinct
use knowledgebase_storage.Common.Tests.{if◌then◌else◌}
use knowledgebase_storage.Common.Lists.{keep}
use Prim.Native.Nat.{ℕ, suc}
use mathlib.Core.Bool.{Bool, not}
use mathlib.Core.Option.{Option, none, some}
use mathlib.Core.List.{List, [], ◌∷◌}

module _ {ℓ} {A : Type ℓ} where
  -- `(await session.exec(select(M).where(test))).first()`
  unfoldable pub first : (A → Bool) → List A → Option A
  first test [] = none
  first test (x ∷ xs) = let rest = first test xs in if test x then some x else rest

  -- `bulk_update`, less the number of rows
  unfoldable pub update_where : (A → Bool) → (A → A) → List A → List A
  update_where test change [] = []
  update_where test change (x ∷ xs) = (if test x then change x else x) ∷ update_where test change xs

  -- the number of rows that `bulk_update` and `delete` report
  unfoldable pub count_where : (A → Bool) → List A → ℕ
  count_where test [] = 0
  count_where test (x ∷ xs) = let n = count_where test xs in if test x then suc n else n

  -- `delete(M).where(test)`
  unfoldable pub delete_where : (A → Bool) → List A → List A
  unfolding keep
  delete_where test xs = keep (λ x. not (test x)) xs

  -- `session.add(row)` and `commit`: the row of that identity is replaced, or a row is inserted.
  unfoldable pub put : (A → A → Bool) → A → List A → List A
  put same x [] = x ∷ []
  put same x (y ∷ ys) = let rest = put same x ys in if same x y then x ∷ ys else y ∷ rest

  -- `order_by`: a stable insertion by `before`, which is the strict order of two rows. The database
  -- leaves the order of rows that compare equal open; here they keep the order of the table.
  unfoldable pub insert_by : (A → A → Bool) → A → List A → List A
  insert_by before x [] = x ∷ []
  insert_by before x (y ∷ ys) =
      let rest = insert_by before x ys in if before y x then y ∷ rest else x ∷ y ∷ ys

  unfoldable pub order_by : (A → A → Bool) → List A → List A
  unfolding insert_by
  order_by before [] = []
  order_by before (x ∷ xs) = insert_by before x (order_by before xs)

  -- `select(M).where(test).order_by(before)`
  unfoldable pub select : (A → Bool) → (A → A → Bool) → List A → List A
  unfolding order_by keep
  select test before xs = order_by before (keep test xs)
