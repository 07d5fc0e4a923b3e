-- ===== src/Web/Ranking.antt =====
-- The ranking of groups in crates/ucrs-server/src/web.rs.
use ucrashreport_server.Base.{
  All, All-Member, Bool, Bool-cases, List, Member, Option, [], ap, arith, false, inl, inr, is_empty,
  keep, length, length-map, map, refl, suc, take, true, zero, ℕ, ◌∙◌, ◌∷◌, ◌≡◌, ◌≤◌, ◌⊎◌,
}
use ucrashreport_server.Store.{CrashGroup, Db, Report, insert_row, order_by}
use ucrashreport_server.Text.{Text}
use ucrashreport_server.Web.Groups.{
  Joined, group_row, is_counted, joined_groups, outranks, query_groups, top_rows,
}

module _ {A : Type 0} (precedes : A → A → Bool) where
  -- No row comes before one that stands above it.
  abbrev IsOrdered : List A → Type 0
  IsOrdered [] = Unit
  IsOrdered (x ∷ xs) = All (λ y. precedes y x ≡ false) xs × IsOrdered xs

  insert_row-All :
      (P : A → Type 0) (x : A) (ys : List A) → P x → All P ys → All P (insert_row precedes x ys)
  unfolding insert_row
  insert_row-All P x [] p ps = (p, tt)
  insert_row-All P x (y ∷ ys) p (here, there) = elim (Bool-cases (precedes y x)) [
    | inl e ↦ rw e (here, insert_row-All P x ys p there)
    | inr e ↦ rw e (p, (here, there))
  ]

  insert_row-Member :
      (z x : A) (ys : List A) → Member z (x ∷ ys) → Member z (insert_row precedes x ys)
  unfolding insert_row
  insert_row-Member z x [] m = m
  insert_row-Member z x (y ∷ ys) m =
      let kept = insert_row-Member z x ys in
      elim (Bool-cases (precedes y x)) [
        | inr e ↦ rw e m
        | inl e ↦ rw e (elim m [
          | inl is_x ↦ inr (kept (inl is_x))
          | inr (inl is_y) ↦ inl is_y
          | inr (inr n) ↦ inr (kept (inr n))
        ])
      ]

  order_by-Member : (z : A) (xs : List A) → Member z xs → Member z (order_by precedes xs)
  unfolding order_by
  order_by-Member z [] m = m
  order_by-Member z (x ∷ xs) (inl e) = insert_row-Member z x (order_by precedes xs) (inl e)
  order_by-Member z (x ∷ xs) (inr m) =
      insert_row-Member z x (order_by precedes xs) (inr (order_by-Member z xs m))

  module _ (asym : (x y : A) → precedes x y ≡ true → precedes y x ≡ false)
      (trans : (x y z : A)
        → precedes y x ≡ false
        → precedes z y ≡ false
        → precedes z x ≡ false) where
    later-All :
        (x y : A) (ys : List A)
        → precedes y x ≡ false
        → All (λ z. precedes z y ≡ false) ys
        → All (λ z. precedes z x ≡ false) ys
    later-All x y [] e ps = tt
    later-All x y (z ∷ ys) e (p, ps) = (trans x y z e p, later-All x y ys e ps)

    insert_row-IsOrdered :
        (x : A) (ys : List A) → IsOrdered ys → IsOrdered (insert_row precedes x ys)
    unfolding insert_row
    insert_row-IsOrdered x [] order = (tt, tt)
    insert_row-IsOrdered x (y ∷ ys) (first, order) = elim (Bool-cases (precedes y x)) [
      | inl e ↦ rw e (
        insert_row-All (λ z. precedes z y ≡ false) x ys (asym y x e) first,
        insert_row-IsOrdered x ys order,
      )
      | inr e ↦ rw e ((e, later-All x y ys e first), (first, order))
    ]

    order_by-IsOrdered : (xs : List A) → IsOrdered (order_by precedes xs)
    unfolding order_by
    order_by-IsOrdered [] = tt
    order_by-IsOrdered (x ∷ xs) =
        insert_row-IsOrdered x (order_by precedes xs) (order_by-IsOrdered xs)

  -- A row is among the first, or the first are as many as were asked for and it precedes none.
  take-Member :
      (x : A) (n : ℕ) (ys : List A)
      → IsOrdered ys
      → Member x ys
      → Member x (take n ys)
        ⊎ (All (λ y. precedes x y ≡ false) (take n ys) × (length (take n ys) ≡ n))
  take-Member x zero ys order m = inr (tt, refl)
  take-Member x (suc n) [] order m = elim m [ ]
  take-Member x (suc n) (y ∷ ys) order (inl e) = inl (inl e)
  take-Member x (suc n) (y ∷ ys) (first, order) (inr m) = elim (take-Member x n ys order m) [
    | inl k ↦ inl (inr k)
    | inr (all_rows, many) ↦
        inr ((All-Member (λ z. precedes z y ≡ false) ys x first m, all_rows), ap suc many)
  ]

outranks_asym : (x y : Joined) → outranks x y ≡ true → outranks y x ≡ false
unfolding outranks
outranks_asym (g, rs) (h, qs) e = ground arith

outranks_trans :
    (x y z : Joined) → outranks y x ≡ false → outranks z y ≡ false → outranks z x ≡ false
unfolding outranks
outranks_trans (g, rs) (h, qs) (k, ps) e f = ground arith

outranks-le :
    (g h : CrashGroup) (rs qs : List Report)
    → outranks (g, rs) (h, qs) ≡ false
    → length rs ≤ length qs
unfolding outranks
outranks-le g h rs qs e = ground arith

joined_groups-Member :
    (counted : CrashGroup → Report → Bool) (g : CrashGroup) (groups : List CrashGroup)
    (reports : List Report)
    → is_empty (keep (counted g) reports) ≡ false
    → Member g groups
    → Member (g, keep (counted g) reports) (joined_groups counted groups reports)
unfolding joined_groups
joined_groups-Member counted g [] reports some_rows m = elim m [ ]
joined_groups-Member counted g (h ∷ groups) reports some_rows (inl e) =
    let rows : is_empty (keep (counted h) reports) ≡ false =
      ap (λ k. is_empty (keep (counted k) reports)) e ∙ some_rows in
    rw rows (inl (ap (λ k. (k, keep (counted k) reports)) e))
joined_groups-Member counted g (h ∷ groups) reports some_rows (inr n) =
    let rest = joined_groups-Member counted g groups reports some_rows n in
    elim (Bool-cases (is_empty (keep (counted h) reports))) [
      | inl t ↦ rw t rest
      | inr t ↦ rw t (inr rest)
    ]

Member-map :
    {A B : Type 0} (f : A → B) (x : A) (xs : List A) → Member x xs → Member (f x) (map f xs)
Member-map f x [] m = elim m [ ]
Member-map f x (y ∷ xs) (inl e) = inl (ap f e)
Member-map f x (y ∷ xs) (inr m) = inr (Member-map f x xs m)

All-map :
    {A B : Type 0} (P : A → Type 0) (Q : B → Type 0) (f : A → B) (xs : List A)
    → ((x : A) → P x → Q (f x))
    → All P xs
    → All Q (map f xs)
All-map P Q f [] h ps = tt
All-map P Q f (x ∷ xs) h (p, ps) = (h x p, All-map P Q f xs h ps)

-- A group with reports that the query counts has a row in its answer, with their number; or the
-- answer has its full hundred rows, and each of them has at least as many reports.
pub query_groups-Member :
    (format : ℕ → Option Text) (now : ℕ) (window kind version target : Text) (db : Db)
    (g : CrashGroup)
    → Member g db.groups
    → is_empty (keep (is_counted now window kind version target g) db.reports) ≡ false
    → Member
        (group_row format (g, keep (is_counted now window kind version target g) db.reports))
        (query_groups format now window kind version target db)
      ⊎ (All
            (λ row.
              length (keep (is_counted now window kind version target g) db.reports) ≤ row.count)
            (query_groups format now window kind version target db)
          × (length (query_groups format now window kind version target db) ≡ 100))
unfolding query_groups group_row
query_groups-Member format now window kind version target db g there some_rows =
    let counted = is_counted now window kind version target in
    let rs : List Report = keep (counted g) db.reports in
    let rows : List Joined = joined_groups counted db.groups db.reports in
    elim (take-Member outranks (g, rs) 100 (order_by outranks rows)
      (order_by-IsOrdered outranks outranks_asym outranks_trans rows)
      (order_by-Member outranks (g, rs) rows
        (joined_groups-Member counted g db.groups db.reports some_rows there))) [
          | inl m ↦ inl (Member-map (group_row format) (g, rs) (top_rows 100 rows) m)
          | inr (lower, full) ↦ inr (
            All-map (λ y. outranks (g, rs) y ≡ false) (λ row. length rs ≤ row.count)
                (group_row format) (top_rows 100 rows) (λ (h, qs) e. outranks-le g h rs qs e) lower,
            length-map (top_rows 100 rows) (group_row format) ∙ full,
          )
        ]
