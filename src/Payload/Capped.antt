-- ===== src/Payload/Capped.antt =====
-- `read_capped` and the choice of the decoder in `decode` of crates/ucrs-decoder/src/payload.rs. What
-- a decoder reads is a stream, which may break off with an error.
use ucrashreport_server.Base.{
  Option, [], if◌then◌else◌, length, ltb, none, some, suc, zero, ℕ, ◌*◌, ◌∷◌,
}
use ucrashreport_server.Base.Results.{Result, err, ok, ◌>>=◌}
use ucrashreport_server.Text.{Text}
use ucrashreport_server.Text.Utf8.{from_utf8_lossy}
use ucrashreport_server.Types.{PayloadEncoding, gzip, plain, zlib, zstd}
use ucrashreport_server.Usign.{Bytes}
use mathlib.Core.Option

pub data ByteStream : Type 0 where
  end_of_stream broken_stream : ByteStream
  byte : ℕ → ByteStream → ByteStream

-- The crates `flate2` and `zstd`, on a raw payload; `zstd`'s decoder may fail to start.
pub record Decompressors : Type 0 where
  pub gzip_stream : Bytes → ByteStream
  pub zlib_stream : Bytes → ByteStream
  pub zstd_stream : Bytes → Option ByteStream

pub data PayloadError : Type 0 where
  decompressing too_large : PayloadError

abbrev pub max_decoded_size : ℕ
max_decoded_size = 4 * 1024 * 1024

-- A slice as a stream.
unfoldable pub stream_of : Bytes → ByteStream
stream_of [] = end_of_stream
stream_of (b ∷ bs) = byte b (stream_of bs)

-- `take(limit)` and `read_to_end`; `none` is an error.
unfoldable pub read_take : ℕ → ByteStream → Option Bytes
read_take zero s = some []
read_take (suc limit) end_of_stream = some []
read_take (suc limit) broken_stream = none
read_take (suc limit) (byte b s) = Option.map (λ bs. b ∷ bs) (read_take limit s)

unfoldable pub within_cap : ℕ → Option Bytes → Result PayloadError Bytes
within_cap cap none = err decompressing
within_cap cap (some buf) = if ltb cap (length buf) then err too_large else ok buf

unfoldable pub read_capped : ℕ → ByteStream → Result PayloadError Bytes
unfolding within_cap read_take
read_capped cap s = within_cap cap (read_take (suc cap) s)

module _ (crates : Decompressors) where
  unfoldable pub zstd_data : Option ByteStream → Result PayloadError Bytes
  unfolding read_capped
  zstd_data none = err decompressing
  zstd_data (some s) = read_capped max_decoded_size s

  -- `decode` before `from_utf8_lossy`.
  unfoldable pub decode_data : Bytes → PayloadEncoding → Result PayloadError Bytes
  unfolding read_capped stream_of zstd_data
  decode_data raw plain = read_capped max_decoded_size (stream_of raw)
  decode_data raw gzip = read_capped max_decoded_size (crates.gzip_stream raw)
  decode_data raw zlib = read_capped max_decoded_size (crates.zlib_stream raw)
  decode_data raw zstd = zstd_data (crates.zstd_stream raw)

  -- `decode`
  unfoldable pub payload_decode : Bytes → PayloadEncoding → Result PayloadError Text
  unfolding decode_data
  payload_decode raw encoding = do bytes ← decode_data raw encoding; ok (from_utf8_lossy bytes)
