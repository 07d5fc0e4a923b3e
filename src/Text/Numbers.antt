-- ===== src/Text/Numbers.antt =====
-- Numbers as texts, and `str::replace`, in Rust's standard library.
use ucrashreport_server.Base.{
  Bool, Option, [], false, if◌then◌else◌, length, ltb, none, refl, reverse, some, suc, true, zero,
  ℕ, ◌%◌, ◌*◌, ◌++◌, ◌+◌, ◌-◌, ◌/◌, ◌==◌, ◌∷◌, ◌≡◌,
}
use ucrashreport_server.Text.Chars.{Text, codes, within}
use ucrashreport_server.Text.Run.{text_runs}
use ucrashreport_server.Text.Search.{starts_with}

-- `u64::to_string`: the digits, the last one first; the fuel bounds their number.
unfoldable pub digits_rev : ℕ → ℕ → Text
digits_rev zero n = []
digits_rev (suc fuel) n =
    let rest = digits_rev fuel (n / 10) in (b'0' + n % 10) ∷ (if ltb n 10 then [] else rest)

unfoldable pub show_nat : ℕ → Text
unfolding digits_rev
show_nat n = reverse (digits_rev (suc n) n)

-- The value of digits in a base, `none` where one is not a digit.
unfoldable pub digit_value : ℕ → ℕ → Option ℕ
digit_value base c =
    let v : ℕ =
      if within b'0' b'9' c
      then c - b'0'
      else if within b'a' b'z' c
      then c - b'a' + 10
      else if within b'A' b'Z' c
      then c - b'A' + 10
      else 36 in
    if ltb v base then some v else none

unfoldable pub digits_value : ℕ → ℕ → Text → Option ℕ
unfolding digit_value
digits_value base acc [] = some acc
digits_value base acc (c ∷ t) = elim (digit_value base c) [
  | none ↦ none
  | some v ↦ digits_value base (acc * base + v) t
]

-- An optional sign, then at least one digit; `true` is the sign "-".
unfoldable pub split_sign : Text → Bool × Text
split_sign [] = (false, [])
split_sign (c ∷ t) =
    if c == b'-' then (true, t) else if c == b'+' then (false, t) else (false, c ∷ t)

unfoldable pub magnitude : ℕ → Text → Option ℕ
unfolding digits_value
magnitude base [] = none
magnitude base (c ∷ t) = digits_value base 0 (c ∷ t)

-- A value within the bound, or an error.
abbrev pub below_limit : ℕ → Option ℕ → Option ℕ
below_limit limit none = none
below_limit limit (some n) = if ltb n limit then some n else none

-- `u64::from_str_radix`
unfoldable pub parse_u64 : ℕ → Text → Option ℕ
unfolding split_sign magnitude
parse_u64 base t =
    let (negative, digits) = split_sign t in
    if negative then none else below_limit 0x1_0000_0000_0000_0000 (magnitude base digits)

-- `str::replace`: after a match the loop skips the rest of it.
abbrev pub replace_step : Text → Text → Text → ℕ → ℕ → Text × ℕ
replace_step p r t c zero = if starts_with t p then (r, length p - 1) else (c ∷ [], 0)
replace_step p r t c (suc skip) = ([], skip)

unfoldable pub replace_loop : Text → Text → ℕ → Text → Text
replace_loop p r skip [] = []
replace_loop p r skip (c ∷ t) =
    let (out, skip') = replace_step p r (c ∷ t) c skip in out ++ replace_loop p r skip' t

unfoldable pub replace : Text → Text → Text → Text
unfolding replace_loop
replace t p r = replace_loop p r 0 t

runs :
    (show_nat 1705 ≡ codes "1705")
    × (parse_u64 16 (codes "1e8") ≡ some 488)
    × (parse_u64 16 (codes "10000000000000000") ≡ none)
    × (replace (codes "a/{v}/{v}") (codes "{v}") (codes "9.1") ≡ codes "a/9.1/9.1")
unfolding show_nat parse_u64 replace text_runs
runs = (refl, refl, refl, refl)
