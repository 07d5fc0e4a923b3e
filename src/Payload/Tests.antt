-- ===== src/Payload/Tests.antt =====
-- Runs of the capped read of crates/ucrs-decoder/src/payload.rs, with a witness.
use ucrashreport_server.Base.{[], length, refl, ℕ, ◌↔◌, ◌∷◌, ◌≡◌, ◌≤◌}
use ucrashreport_server.Base.Results.{err, ok}
use ucrashreport_server.Payload.Capped.{
  broken_stream, byte, decompressing, end_of_stream, read_capped, read_take, stream_of, too_large,
  within_cap,
}
use ucrashreport_server.Payload.Reading.{read_capped-eq-ok}

small_cap :
    (read_capped 2 (stream_of (7 ∷ 8 ∷ [])) ≡ ok (7 ∷ 8 ∷ []))
    × (read_capped 2 (stream_of (7 ∷ 8 ∷ 9 ∷ [])) ≡ err too_large)
    × (read_capped 2 (byte 7 broken_stream) ≡ err decompressing)
unfolding read_capped read_take within_cap stream_of
small_cap = (refl, refl, refl)

read_capped-eq-ok_example :
    (read_capped 2 (byte 7 end_of_stream) ≡ ok (7 ∷ []))
    ↔ ((byte 7 end_of_stream ≡ stream_of (7 ∷ [])) × (length {A = ℕ} (7 ∷ []) ≤ 2))
read_capped-eq-ok_example = read_capped-eq-ok 2 (byte 7 end_of_stream) (7 ∷ [])
