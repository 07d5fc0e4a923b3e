-- ===== src/Signature/Suffixes.antt =====
-- The suffixes of the compiler that `normalize_symbol` of crates/ucrs-common/src/signature.rs is
-- there to strip, as docs/protocol.md lists them.
use ucrashreport_server.Base.{
  All, Bool, Bool-cases, List, Member, [], all, ap, append-nil, append_assoc, arith, false, inl,
  inr, not, refl, sym, true, ℕ, ◌&&◌, ◌++◌, ◌==◌, ◌||◌, ◌∙◌, ◌∷◌, ◌≡◌,
}
use ucrashreport_server.Signature.Cut.{
  is_lead, normalize_symbol-offset, symbol_marks, symbol_marks-IsMark,
}
use ucrashreport_server.Signature.Symbol.{normalize_symbol}
use ucrashreport_server.Text.{Text, codes, is_ascii_digit, is_whitespace, starts_with, trim_start}
use ucrashreport_server.Text.Before.{any_starts, any_starts-lead, before, before-until}

abbrev kinds : List Text
kinds = codes "constprop" ∷ codes "isra" ∷ codes "part" ∷ codes "cold" ∷ codes "lto" ∷ []

-- A suffix: a dot, one of the kinds, perhaps a dot, and digits.
pub data IsSuffix : Text → Type 0 where
  plain_suffix :
      (kind digits : Text)
      → Member kind kinds
      → all is_ascii_digit digits ≡ true
      → IsSuffix (b'.' ∷ (kind ++ digits))
  dotted_suffix :
      (kind digits : Text)
      → Member kind kinds
      → all is_ascii_digit digits ≡ true
      → IsSuffix (b'.' ∷ (kind ++ b'.' ∷ digits))

-- A character of a function's name: not a blank, and none of the characters that lead a suffix or an offset.
abbrev pub is_name_char : ℕ → Bool
is_name_char c = not (is_whitespace c || (c == b'+' || c == b'.'))

abbrev pub flatten : List Text → Text
flatten [] = []
flatten (s ∷ ss) = s ++ flatten ss

-- A suffix at the head is a match.
any_starts-kind :
    (kind v : Text) → Member kind kinds → any_starts symbol_marks (b'.' ∷ (kind ++ v)) ≡ true
unfolding starts_with
any_starts-kind kind v (inl e) = rw (sym e) refl
any_starts-kind kind v (inr (inl e)) = rw (sym e) refl
any_starts-kind kind v (inr (inr (inl e))) = rw (sym e) refl
any_starts-kind kind v (inr (inr (inr (inl e)))) = rw (sym e) refl
any_starts-kind kind v (inr (inr (inr (inr (inl e))))) = rw (sym e) refl
any_starts-kind kind v (inr (inr (inr (inr (inr x))))) = elim x [ ]

suffix-starts :
    (s v : Text)
    → IsSuffix s
    → (w : Text) × (s ++ v ≡ b'.' ∷ w) × (any_starts symbol_marks (b'.' ∷ w) ≡ true)
suffix-starts s v (plain_suffix kind digits m _) =
    (kind ++ (digits ++ v), rw append_assoc refl, any_starts-kind kind _ m)
suffix-starts s v (dotted_suffix kind digits m _) =
    (kind ++ b'.' ∷ (digits ++ v), rw append_assoc refl, any_starts-kind kind _ m)

trim_start-name :
    (base v : Text)
    → all is_name_char base ≡ true
    → trim_start (base ++ b'.' ∷ v) ≡ base ++ b'.' ∷ v
unfolding is_whitespace trim_start
trim_start-name [] v h = refl
trim_start-name (c ∷ base) v h = ground arith

trim_start-bare : (base : Text) → all is_name_char base ≡ true → trim_start base ≡ base
unfolding trim_start
trim_start-bare [] h = refl
trim_start-bare (c ∷ base) h = ground arith

not_lead : (c : ℕ) (b : Bool) → (is_name_char c && b) ≡ true → is_lead c ≡ false
not_lead c b h = ground arith

before-name : (base : Text) → all is_name_char base ≡ true → before symbol_marks base ≡ base
unfolding before
before-name [] h = refl
before-name (c ∷ base) h = elim (Bool-cases (any_starts symbol_marks (c ∷ base))) [
  | inl cut ↦
      cc (not_lead c _ h, any_starts-lead is_lead c base symbol_marks symbol_marks-IsMark cut)
  | inr whole ↦ rw (whole, before-name base (ground arith)) refl
]

cut-name :
    (base : Text) (ss : List Text)
    → all is_name_char base ≡ true
    → All IsSuffix ss
    → before symbol_marks (trim_start (base ++ flatten ss)) ≡ base
cut-name base [] h hs = rw (append-nil, trim_start-bare base h) (before-name base h)
cut-name base (s ∷ ss) h (hs, _) =
    let (w, is, starts) = suffix-starts s (flatten ss) hs in
    rw (is, trim_start-name base w h)
      (before-until is_lead symbol_marks base b'.' w refl symbol_marks-IsMark starts
        ∙ before-name base h)

-- The name of a function with any suffixes of the compiler, one after the other, and an offset
-- normalises to the name, which has no blank, no dot and no plus sign.
pub normalize_symbol-suffixes :
    (base : Text) (ss : List Text) (offset : Text)
    → all is_name_char base ≡ true
    → All IsSuffix ss
    → normalize_symbol (base ++ (flatten ss ++ (codes "+0x" ++ offset))) ≡ base
normalize_symbol-suffixes base ss offset h hs =
    ap normalize_symbol (sym (append_assoc base (flatten ss) (codes "+0x" ++ offset)))
    ∙ normalize_symbol-offset (base ++ flatten ss) offset
    ∙ cut-name base ss h hs
