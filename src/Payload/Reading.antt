-- ===== src/Payload/Reading.antt =====
-- What a capped read gives, crates/ucrs-decoder/src/payload.rs.
use ucrashreport_server.Base.{
  Bool-cases, Option, Option-cases, [], ap, arith, inl, inr, length, ltb, none, refl, some, some-eq,
  subst, suc, zero, ℕ, ◌<◌, ◌↔◌, ◌∙◌, ◌∷◌, ◌≡◌, ◌≤◌,
}
use ucrashreport_server.Base.Results.{ok}
use ucrashreport_server.Payload.Capped.{
  ByteStream, broken_stream, byte, end_of_stream, read_capped, read_take, stream_of, within_cap,
}
use ucrashreport_server.Usign.{Bytes}
use mathlib.Core.Option

read_take-stream_of :
    (limit : ℕ) (buf : Bytes) → length buf < limit → read_take limit (stream_of buf) ≡ some buf
unfolding read_take stream_of
read_take-stream_of zero buf h = elim (impossible h) [ ]
  where
    impossible : length buf < 0 → ⊥
    impossible e = omega arith
read_take-stream_of (suc limit) [] h = refl
read_take-stream_of (suc limit) (b ∷ buf) h =
    ap (Option.map (λ bs. b ∷ bs)) (read_take-stream_of limit buf (omega arith))

-- A read that stops before its limit has read the whole stream.
read_take-short :
    (limit : ℕ) (s : ByteStream) (buf : Bytes)
    → read_take limit s ≡ some buf
    → length buf < limit
    → s ≡ stream_of buf
unfolding read_take stream_of
read_take-short zero s buf h short = let no : ⊥ = omega arith in elim no [ ]
read_take-short (suc limit) end_of_stream buf h short = ap stream_of (some-eq [] buf h)
read_take-short (suc limit) broken_stream buf h short = cc
read_take-short (suc limit) (byte b s) buf h short = elim (Option-cases (read_take limit s)) [
  | inl e ↦ cc (rw e at h)
  | inr (rest, e) ↦
      let same : (b ∷ rest) ≡ buf = some-eq (b ∷ rest) buf (rw e at h) in
      let rest_short : length rest < limit =
        subst (λ c. length c < suc limit → length rest < limit) same (λ k. omega arith) short in
      ap (byte b) (read_take-short limit s rest e rest_short) ∙ ap stream_of same
]

within_cap-eq-ok :
    (cap : ℕ) (got buf : Bytes)
    → within_cap cap (some got) ≡ ok buf
    → (got ≡ buf) × (length got ≤ cap)
unfolding within_cap
within_cap-eq-ok cap got buf h = elim (Bool-cases (ltb cap (length got))) [
  | inl e ↦ cc (rw e at h)
  | inr e ↦ (ground (arith, rw e at h), ground (arith, e))
]

capped-whole :
    (cap : ℕ) (s : ByteStream) (buf : Bytes) (o : Option Bytes)
    → read_take (suc cap) s ≡ o
    → within_cap cap o ≡ ok buf
    → (s ≡ stream_of buf) × (length buf ≤ cap)
unfolding within_cap
capped-whole cap s buf none e h = cc
capped-whole cap s buf (some got) e h =
    let (same, small) = within_cap-eq-ok cap got buf h in
    (
      read_take-short (suc cap) s got e (omega arith) ∙ ap stream_of same,
      subst (λ c. length c ≤ cap) same small,
    )

within_cap-fits : (cap : ℕ) (buf : Bytes) → length buf ≤ cap → within_cap cap (some buf) ≡ ok buf
unfolding within_cap
within_cap-fits cap buf h = ground (arith, h)

-- A capped read succeeds exactly on the streams that end without an error after at most so many
-- bytes, and gives all their bytes.
pub read_capped-eq-ok :
    (cap : ℕ) (s : ByteStream) (buf : Bytes)
    → (read_capped cap s ≡ ok buf) ↔ ((s ≡ stream_of buf) × (length buf ≤ cap))
unfolding read_capped
read_capped-eq-ok cap s buf = (
  capped-whole cap s buf (read_take (suc cap) s) refl,
  λ (same, small).
      ap (read_capped cap) same
      ∙ ap (within_cap cap) (read_take-stream_of (suc cap) buf (omega arith))
      ∙ within_cap-fits cap buf small,
)
