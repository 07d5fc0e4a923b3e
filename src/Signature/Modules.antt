-- ===== src/Signature/Modules.antt =====
-- The module list of `compute` in crates/ucrs-common/src/signature.rs: appending what is new gives
-- the names without repetitions.
use ucrashreport_server.Base.{
  Bool, Bool-cases, List, [], any, ap, append-nil, append_assoc, arith, false, inl, inr, keep, not,
  refl, some, sym, true, ◌&&◌, ◌++◌, ◌∙◌, ◌∷◌, ◌≡◌,
}
use ucrashreport_server.Signature.Compute.{add_module}
use ucrashreport_server.Text.{Text, text_eq, text_eq_iff, text_eq_refl}

-- The names without repetitions, each at its first place.
abbrev pub distinct : List Text → List Text
distinct [] = []
distinct (m ∷ ms) = m ∷ keep (λ n. not (text_eq n m)) (distinct ms)

abbrev is_new : List Text → Text → Bool
is_new acc n = not (any (λ m. text_eq m n) acc)

unfoldable pub add_modules : List Text → List Text → List Text
add_modules acc [] = acc
add_modules acc (m ∷ ms) = add_modules (add_module acc (some m)) ms

text_eq_comm : (a b : Text) → text_eq a b ≡ text_eq b a
text_eq_comm a b = ground (arith, text_eq_iff a b, text_eq_iff b a)

keep-keep :
    (p q r : Text → Bool) (xs : List Text)
    → ((x : Text) → (q x && p x) ≡ r x)
    → keep p (keep q xs) ≡ keep r xs
keep-keep p q r [] h = refl
keep-keep p q r (x ∷ xs) h = ground (arith, h x, keep-keep p q r xs h)

keep_all : (p : Text → Bool) (xs : List Text) → ((x : Text) → p x ≡ true) → keep p xs ≡ xs
keep_all p [] h = refl
keep_all p (x ∷ xs) h = ground (arith, h x, keep_all p xs h)

-- A name that is listed is one of the names that the new ones differ from.
is_new-known :
    (acc : List Text) (m n : Text)
    → is_new acc m ≡ false
    → (not (text_eq n m) && is_new acc n) ≡ is_new acc n
is_new-known [] m n h = cc
is_new-known (a ∷ acc) m n h =
    ground (
      arith,
      text_eq_iff a m,
      text_eq_iff a n,
      text_eq_iff n m,
      text_eq_refl n,
      is_new-known acc m n,
    )

is_new-concat :
    (acc : List Text) (m n : Text) → (not (text_eq n m) && is_new acc n) ≡ is_new (acc ++ m ∷ []) n
is_new-concat [] m n = ground (arith, text_eq_comm n m)
is_new-concat (a ∷ acc) m n = ground (arith, is_new-concat acc m n)

add_modules-distinct :
    (ms acc : List Text) → add_modules acc ms ≡ acc ++ keep (is_new acc) (distinct ms)
unfolding add_modules add_module
add_modules-distinct [] acc = rw append-nil
add_modules-distinct (m ∷ ms) acc = elim (Bool-cases (any (λ n. text_eq n m) acc)) [
  | inl known ↦ rw known (
      add_modules-distinct ms acc
      ∙ ap (◌++◌ acc) (
          sym (
            keep-keep (is_new acc) _ (is_new acc) (distinct ms)
              (λ n. is_new-known acc m n (rw known)))))
  | inr fresh ↦ rw fresh (
      add_modules-distinct ms (acc ++ m ∷ [])
      ∙ append_assoc acc (m ∷ []) _
      ∙ ap (λ l. acc ++ m ∷ l)
          (sym (keep-keep (is_new acc) _ _ (distinct ms) (λ n. is_new-concat acc m n))))
]

pub add_modules-nil : (ms : List Text) → add_modules [] ms ≡ distinct ms
add_modules-nil ms = add_modules-distinct ms [] ∙ keep_all (is_new []) (distinct ms) (λ x. refl)

-- No name of `distinct` stands there twice.
abbrev pub NoRepeats : List Text → Type 0
NoRepeats [] = Unit
NoRepeats (m ∷ ms) = (any (λ n. text_eq n m) ms ≡ false) × NoRepeats ms
