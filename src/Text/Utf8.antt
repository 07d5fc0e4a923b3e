-- ===== src/Text/Utf8.antt =====
-- UTF-8 in Rust's standard library: `String::from_utf8_lossy`, and reading a file as a text.
use ucrashreport_server.Base.{
  All, Bool-cases, List, Option, [], ap, arith, if◌then◌else◌, inl, inr, ltb, map, none, refl, some,
  suc, zero, ℕ, ◌%◌, ◌*◌, ◌++◌, ◌+◌, ◌-◌, ◌/◌, ◌<◌, ◌==◌, ◌∙◌, ◌∷◌, ◌≡◌, ◌≤◌, ◌⊎◌,
}
use ucrashreport_server.Text.Chars.{Text, within}
use mathlib.Core.Option

-- What the next byte may be: the first of a character, or between two bounds with the bits so far
-- and a number of bytes that follow it.
pub data Wanted : Type 0 where
  start_of_char : Wanted
  inside_char : ℕ → ℕ → ℕ → ℕ → Wanted

-- `none` stands for a sequence that is not valid.
abbrev pub Decoded : Type 0
Decoded = List (Option ℕ)

-- A byte that starts a character. The bounds of the second byte shut out overlong forms,
-- surrogates, and numbers above 0x10ffff.
unfoldable pub first_byte : ℕ → Decoded × Wanted
first_byte b =
    if ltb b 0x80
    then (some b ∷ [], start_of_char)
    else if ltb b 0xc2
    then (none ∷ [], start_of_char)
    else if ltb b 0xe0
    then ([], inside_char 0x80 0xbf (b - 0xc0) 0)
    else if ltb b 0xf0
    then (
      [],
      inside_char (if b == 0xe0 then 0xa0 else 0x80) (if b == 0xed then 0x9f else 0xbf) (b - 0xe0)
          1,
    )
    else if ltb b 0xf5
    then (
      [],
      inside_char (if b == 0xf0 then 0x90 else 0x80) (if b == 0xf4 then 0x8f else 0xbf) (b - 0xf0)
          2,
    )
    else (none ∷ [], start_of_char)

-- A byte that continues a character.
unfoldable pub more_bytes : ℕ → ℕ → Decoded × Wanted
more_bytes bits zero = (some bits ∷ [], start_of_char)
more_bytes bits (suc n) = ([], inside_char 0x80 0xbf bits n)

-- A byte that does not continue a character ends it as invalid, and starts the next one.
unfoldable pub take_byte : Wanted → ℕ → Decoded × Wanted
unfolding first_byte more_bytes
take_byte start_of_char b = first_byte b
take_byte (inside_char lo hi bits n) b =
    if within lo hi b
    then more_bytes (bits * 64 + (b - 0x80)) n
    else (let (out, w) = first_byte b in (none ∷ out, w))

unfoldable pub at_end : Wanted → Decoded
at_end start_of_char = []
at_end (inside_char _ _ _ _) = none ∷ []

unfoldable pub utf8_loop : Wanted → List ℕ → Decoded
unfolding take_byte at_end
utf8_loop w [] = at_end w
utf8_loop w (b ∷ bs) = let (out, w') = take_byte w b in out ++ utf8_loop w' bs

-- U+FFFD for what is not valid.
abbrev pub or_replacement : Option ℕ → ℕ
or_replacement none = 0xfffd
or_replacement (some c) = c

unfoldable pub from_utf8_lossy : List ℕ → Text
unfolding utf8_loop
from_utf8_lossy bytes = map or_replacement (utf8_loop start_of_char bytes)

abbrev pub all_valid : Decoded → Option Text
all_valid [] = some []
all_valid (none ∷ _) = none
all_valid (some c ∷ cs) = Option.map (λ t. c ∷ t) (all_valid cs)

-- `read_to_string`, of the bytes of a file
unfoldable pub from_utf8 : List ℕ → Option Text
unfolding utf8_loop
from_utf8 bytes = all_valid (utf8_loop start_of_char bytes)

-- `str::as_bytes`
unfoldable pub encode_char : ℕ → List ℕ
encode_char c =
    if ltb c 0x80
    then c ∷ []
    else if ltb c 0x800
    then (0xc0 + c / 64) ∷ (0x80 + c % 64) ∷ []
    else if ltb c 0x10000
    then (0xe0 + c / 4096) ∷ (0x80 + c / 64 % 64) ∷ (0x80 + c % 64) ∷ []
    else (0xf0 + c / 262144) ∷ (0x80 + c / 4096 % 64) ∷ (0x80 + c / 64 % 64) ∷ (0x80 + c % 64) ∷ []

unfoldable pub as_bytes : Text → List ℕ
unfolding encode_char
as_bytes [] = []
as_bytes (c ∷ t) = encode_char c ++ as_bytes t

-- A Unicode scalar value, as every `char` is.
abbrev pub IsChar : ℕ → Type 0
IsChar c = (c < 0x110000) × ((c < 0xd800) ⊎ (0xdfff < c))

-- One byte of the loop: the first of two, three or four, one in the middle, the last.
module _ (b : ℕ) (bs : List ℕ) where
  lead_two :
      0xc2 ≤ b
      → b < 0xe0
      → utf8_loop start_of_char (b ∷ bs) ≡ utf8_loop (inside_char 0x80 0xbf (b - 0xc0) 0) bs
  unfolding utf8_loop take_byte first_byte
  lead_two lo hi = ground arith

  lead_three :
      0xe0 ≤ b
      → b < 0xf0
      → utf8_loop start_of_char (b ∷ bs)
        ≡ utf8_loop
            (inside_char
              (if b == 0xe0 then 0xa0 else 0x80)
              (if b == 0xed then 0x9f else 0xbf)
              (b - 0xe0)
              1)
            bs
  unfolding utf8_loop take_byte first_byte
  lead_three lo hi = ground arith

  lead_four :
      0xf0 ≤ b
      → b < 0xf5
      → utf8_loop start_of_char (b ∷ bs)
        ≡ utf8_loop
            (inside_char
              (if b == 0xf0 then 0x90 else 0x80)
              (if b == 0xf4 then 0x8f else 0xbf)
              (b - 0xf0)
              2)
            bs
  unfolding utf8_loop take_byte first_byte
  lead_four lo hi = ground arith

  middle :
      (lo hi bits n : ℕ)
      → lo ≤ b
      → b ≤ hi
      → utf8_loop (inside_char lo hi bits (suc n)) (b ∷ bs)
        ≡ utf8_loop (inside_char 0x80 0xbf (bits * 64 + (b - 0x80)) n) bs
  unfolding utf8_loop take_byte more_bytes
  middle lo hi bits n h k = ground arith

  last_of :
      (lo hi bits c : ℕ)
      → lo ≤ b
      → b ≤ hi
      → bits * 64 + (b - 0x80) ≡ c
      → utf8_loop (inside_char lo hi bits 0) (b ∷ bs) ≡ some c ∷ utf8_loop start_of_char bs
  unfolding utf8_loop take_byte more_bytes
  last_of lo hi bits c h k e = ground arith

module _ (c : ℕ) (bs : List ℕ) (h : IsChar c) where
  two_bytes :
      0x80 ≤ c
      → c < 0x800
      → utf8_loop start_of_char ((0xc0 + c / 64) ∷ (0x80 + c % 64) ∷ bs)
        ≡ some c ∷ utf8_loop start_of_char bs
  two_bytes lo hi =
      lead_two (0xc0 + c / 64) _ (omega arith) (omega arith)
      ∙ last_of (0x80 + c % 64) bs 0x80 0xbf _ c (omega arith) (omega arith) (omega arith)

  three_bytes :
      0x800 ≤ c
      → c < 0x10000
      → utf8_loop start_of_char ((0xe0 + c / 4096) ∷ (0x80 + c / 64 % 64) ∷ (0x80 + c % 64) ∷ bs)
        ≡ some c ∷ utf8_loop start_of_char bs
  three_bytes lo hi =
      lead_three (0xe0 + c / 4096) _ (omega arith) (omega arith)
      ∙ middle (0x80 + c / 64 % 64) _ _ _ _ 0 (ground arith) (ground (arith, h.1))
      ∙ last_of (0x80 + c % 64) bs 0x80 0xbf _ c (omega arith) (omega arith) (omega arith)

  four_bytes :
      0x10000 ≤ c
      → utf8_loop start_of_char (
          (0xf0 + c / 262144)
          ∷ (0x80 + c / 4096 % 64)
          ∷ (0x80 + c / 64 % 64)
          ∷ (0x80 + c % 64)
          ∷ bs)
        ≡ some c ∷ utf8_loop start_of_char bs
  four_bytes lo =
      lead_four (0xf0 + c / 262144) _ (omega arith) (omega (arith, h.0))
      ∙ middle (0x80 + c / 4096 % 64) _ _ _ _ 1 (ground arith) (ground (arith, h.0))
      ∙ middle (0x80 + c / 64 % 64) _ 0x80 0xbf _ 0 (omega arith) (omega arith)
      ∙ last_of (0x80 + c % 64) bs 0x80 0xbf _ c (omega arith) (omega arith) (omega arith)

  utf8_loop-encode_char :
      utf8_loop start_of_char (encode_char c ++ bs) ≡ some c ∷ utf8_loop start_of_char bs
  unfolding utf8_loop encode_char take_byte first_byte
  utf8_loop-encode_char = elim (Bool-cases (ltb c 0x80)) [
    | inl e ↦ rw (e, e) refl
    | inr e ↦ elim (Bool-cases (ltb c 0x800)) [
      | inl f ↦ rw (e, f) (two_bytes (ground arith) (ground arith))
      | inr f ↦ elim (Bool-cases (ltb c 0x10000)) [
        | inl g ↦ rw (e, f, g) (three_bytes (ground arith) (ground arith))
        | inr g ↦ rw (e, f, g) (four_bytes (ground arith))
      ]
    ]
  ]

utf8_loop-as_bytes : (t : Text) → All IsChar t → utf8_loop start_of_char (as_bytes t) ≡ map some t
unfolding as_bytes utf8_loop at_end
utf8_loop-as_bytes [] h = refl
utf8_loop-as_bytes (c ∷ t) (here, there) =
    utf8_loop-encode_char c (as_bytes t) here ∙ ap (λ r. some c ∷ r) (utf8_loop-as_bytes t there)

all_valid-some : (t : Text) → all_valid (map some t) ≡ some t
all_valid-some [] = refl
all_valid-some (c ∷ t) = ap (Option.map (λ r. c ∷ r)) (all_valid-some t)

replace-some : (t : Text) → map or_replacement (map some t) ≡ t
replace-some [] = refl
replace-some (c ∷ t) = ap (λ r. c ∷ r) (replace-some t)

pub from_utf8_lossy-as_bytes : (t : Text) → All IsChar t → from_utf8_lossy (as_bytes t) ≡ t
unfolding from_utf8_lossy
from_utf8_lossy-as_bytes t h = ap (map or_replacement) (utf8_loop-as_bytes t h) ∙ replace-some t

pub from_utf8-as_bytes : (t : Text) → All IsChar t → from_utf8 (as_bytes t) ≡ some t
unfolding from_utf8
from_utf8-as_bytes t h = ap all_valid (utf8_loop-as_bytes t h) ∙ all_valid-some t
