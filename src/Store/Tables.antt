-- ===== src/Store/Tables.antt =====
-- SQL statements over one table: `SELECT .. WHERE` for at most one row, `UPDATE .. WHERE`,
-- `DELETE .. WHERE`, and `INSERT` with the uniqueness of a column.
use ucrashreport_server.Base.{
  Bool, List, Option, [], false, if◌then◌else◌, keep, map, none, not, some, true, ◌∷◌,
}
use ucrashreport_server.Text.{Text, text_eq}

module _ {A : Type 0} where
  -- The first row that the clause selects.
  abbrev pub select_row : (A → Bool) → List A → Option A
  select_row p [] = none
  select_row p (x ∷ xs) = if p x then some x else select_row p xs

  abbrev pub update_rows : (A → Bool) → (A → A) → List A → List A
  update_rows p f = map (λ x. if p x then f x else x)

  -- The rows that the clause does not select.
  abbrev pub delete_rows : (A → Bool) → List A → List A
  delete_rows p = keep (λ x. not (p x))

-- Equal columns of texts that may be null, as Rust compares `Option<String>`.
abbrev pub option_eq : Option Text → Option Text → Bool
option_eq none none = true
option_eq (some a) (some b) = text_eq a b
option_eq _ _ = false
