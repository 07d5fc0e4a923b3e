-- ===== src/Store/Lookup.antt =====
-- Laws of the statements over one table.
use ucrashreport_server.Base.{
  Bool, Bool-cases, List, Member, Option, [], ap, arith, false, if◌then◌else◌, inl, inr, none, refl,
  some, some-eq, subst, true, ◌++◌, ◌∷◌, ◌≡◌,
}
use ucrashreport_server.Store.Tables.{delete_rows, option_eq, select_row, update_rows}
use ucrashreport_server.Text.{Text, text_eq_iff}
use mathlib.Core.Option

module _ {A : Type 0} where
  pub select_row-append :
      (p : A → Bool) (xs ys : List A)
      → select_row p xs ≡ none
      → select_row p (xs ++ ys) ≡ select_row p ys
  select_row-append p [] ys h = refl
  select_row-append p (x ∷ xs) ys h = ground (arith, select_row-append p xs ys)

  -- An update that does not change which rows a clause selects.
  pub select_row-update :
      (p q : A → Bool) (f : A → A) (xs : List A)
      → ((x : A) → p (f x) ≡ p x)
      → select_row p (update_rows q f xs)
        ≡ Option.map (λ x. if q x then f x else x) (select_row p xs)
  select_row-update p q f [] h = refl
  select_row-update p q f (x ∷ xs) h = ground (arith, h x, select_row-update p q f xs h)

  -- A row that is selected satisfies the clause, and stands in the table.
  pub select_row-eq-some :
      (p : A → Bool) (xs : List A) (x : A) → select_row p xs ≡ some x → (p x ≡ true) × Member x xs
  select_row-eq-some p [] x h = cc
  select_row-eq-some p (y ∷ xs) x h = elim (Bool-cases (p y)) [
    | inl e ↦
        let same : y ≡ x = some-eq y x (rw e at h) in (subst (λ z. p z ≡ true) same e, inl same)
    | inr e ↦ let (selected, there) = select_row-eq-some p xs x (rw e at h) in (selected, inr there)
  ]

  -- Deleting rows that a clause does not select changes no answer of the clause.
  pub select_row-delete :
      (p q : A → Bool) (xs : List A)
      → ((x : A) → p x ≡ true → q x ≡ false)
      → select_row p (delete_rows q xs) ≡ select_row p xs
  select_row-delete p q [] h = refl
  select_row-delete p q (x ∷ xs) h = elim (Bool-cases (p x)) [
    | inl e ↦ rw (e, h x e) (rw e)
    | inr e ↦ rw e (ground (arith, select_row-delete p q xs h))
  ]

pub option_eq-eq : (a b : Option Text) → option_eq a b ≡ true → a ≡ b
option_eq-eq none none h = refl
option_eq-eq (some a) (some b) h = ap some ((text_eq_iff a b).0 h)
option_eq-eq none (some b) h = cc
option_eq-eq (some a) none h = cc
