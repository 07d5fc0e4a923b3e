-- ===== src/BuildId/Joins.antt =====
-- Laws of `path_join`, for the relative paths of crates/ucrs-common/src/buildid.rs.
use mathlib.Core.List.{reverse-append}
use ucrashreport_server.Base.{
  Bool-cases, [], ap, append_assoc, false, inl, inr, is_empty, refl, sym, ℕ, ◌++◌, ◌==◌, ◌||◌, ◌∙◌,
  ◌∷◌, ◌≡◌,
}
use ucrashreport_server.BuildId.FilePath.{path_join}
use ucrashreport_server.Text.{Text, codes, ends_with, starts_with}

-- Nothing of a path that ends in another character than "/" is lost or merged.
ends_with-slash :
    (t : Text) (c : ℕ) → (c == b'/') ≡ false → ends_with (t ++ c ∷ []) (codes "/") ≡ false
unfolding ends_with starts_with
ends_with-slash t c h = rw (reverse-append t (c ∷ [])) (rw h)

is_empty-concat : (t : Text) (c : ℕ) → is_empty (t ++ c ∷ []) ≡ false
is_empty-concat [] c = refl
is_empty-concat (d ∷ t) c = refl

-- The directory ends in a character that is not "/".
pub record IsClosed (dir : Text) : Type 0 where
  pub front : Text
  pub last : ℕ
  pub parts : dir ≡ front ++ last ∷ []
  pub last_not_slash : (last == b'/') ≡ false

abbrev pub IsRelative : Text → Type 0
IsRelative p = starts_with p (codes "/") ≡ false

-- A relative path is put under a closed directory with one "/".
pub path_join-IsClosed :
    (dir p : Text) → IsClosed dir → IsRelative p → path_join dir p ≡ dir ++ (b'/' ∷ p)
unfolding path_join
path_join-IsClosed dir p c rel =
    let not_empty : is_empty dir ≡ false = rw c.parts (is_empty-concat c.front c.last) in
    let not_slash : ends_with dir (codes "/") ≡ false =
      rw c.parts (ends_with-slash c.front c.last c.last_not_slash) in
    rw (rel, not_empty, not_slash)

append-IsClosed : (u t : Text) → IsClosed t → IsClosed (u ++ t)
append-IsClosed u t c = record {
  front = u ++ c.front;
  last = c.last;
  parts = ap (◌++◌ u) c.parts ∙ sym (append_assoc u c.front (c.last ∷ []));
  last_not_slash = c.last_not_slash;
}

-- Joined below any directory, a closed relative path is closed.
pub join-IsClosed : (dir p : Text) → IsClosed p → IsRelative p → IsClosed (path_join dir p)
unfolding path_join
join-IsClosed dir p c rel = rw rel (elim (Bool-cases (is_empty dir || ends_with dir (codes "/"))) [
  | inl e ↦ rw e (append-IsClosed dir p c)
  | inr e ↦ rw e (rw (← append_assoc dir (b'/' ∷ []) p) (append-IsClosed (dir ++ b'/' ∷ []) p c))
])
