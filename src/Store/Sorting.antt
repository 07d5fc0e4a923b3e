-- ===== src/Store/Sorting.antt =====
-- `ORDER BY` of a statement: `precedes x y` where x comes before y.
-- Rows that tie keep their order, which SQL leaves open.
use ucrashreport_server.Base.{Bool, List, [], if◌then◌else◌, ◌∷◌}

module _ {A : Type 0} (precedes : A → A → Bool) where
  unfoldable pub insert_row : A → List A → List A
  insert_row x [] = x ∷ []
  insert_row x (y ∷ ys) =
      let rest = insert_row x ys in if precedes y x then y ∷ rest else x ∷ y ∷ ys

  unfoldable pub order_by : List A → List A
  unfolding insert_row
  order_by [] = []
  order_by (x ∷ xs) = insert_row x (order_by xs)
