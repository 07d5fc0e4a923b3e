-- ===== src/Text/Entries.antt =====
-- Maps with texts as keys, as lists of entries: a key's entry is the first one.
use ucrashreport_server.Base.{
  List, Option, [], arith, false, if◌then◌else◌, keep, none, not, refl, some, ◌∷◌, ◌≡◌,
}
use ucrashreport_server.Text.Chars.{Text, text_eq, text_eq_iff, text_eq_refl}

module _ {A : Type 0} where
  abbrev pub get_entry : Text → List (Text × A) → Option A
  get_entry k [] = none
  get_entry k ((j, a) ∷ m) = if text_eq j k then some a else get_entry k m

  abbrev pub remove_entry : Text → List (Text × A) → List (Text × A)
  remove_entry k m = keep (λ (j, a). not (text_eq j k)) m

  abbrev pub set_entry : Text → A → List (Text × A) → List (Text × A)
  set_entry k a m = (k, a) ∷ remove_entry k m

  pub get_entry-remove : (k : Text) (m : List (Text × A)) → get_entry k (remove_entry k m) ≡ none
  get_entry-remove k [] = refl
  get_entry-remove k ((j, a) ∷ m) = ground (arith, get_entry-remove k m)

  pub get_entry-remove_other :
      (j k : Text) (m : List (Text × A))
      → text_eq k j ≡ false
      → get_entry j (remove_entry k m) ≡ get_entry j m
  get_entry-remove_other j k [] h = refl
  get_entry-remove_other j k ((i, a) ∷ m) h = ground (
    arith,
    get_entry-remove_other j k m,
    text_eq_iff i j,
    text_eq_iff i k,
    text_eq_iff k j,
    text_eq_refl k,
  )

pub get_entry-set :
    {A : Type 0} (k : Text) (a : A) (m : List (Text × A)) → get_entry k (set_entry k a m) ≡ some a
get_entry-set k a m = rw (text_eq_refl k)
