-- ===== src/Server/Samples.antt =====
-- A concrete instance of what crates/ucrs-server/src/api.rs takes from other crates, a request, and
-- the states around it.
use ucrashreport_server.Base.{[], if◌then◌else◌, is_empty, none, not, some, suc, zero, ℕ, ◌++◌, ◌∷◌}
use ucrashreport_server.Base.Results.{ok}
use ucrashreport_server.Server.Crates.{Headers, Libs, end_of_body, field}
use ucrashreport_server.Server.Devices.{with_devices}
use ucrashreport_server.Server.Ingest.{Draws, new_device}
use ucrashreport_server.Server.Monad.{World}
use ucrashreport_server.Server.Upload.{with_report}
use ucrashreport_server.Text.{codes, text_eq}
use ucrashreport_server.Types.{ReportMetadata, kernel_oops, plain, pos}
use ucrashreport_server.Usign.{Bytes, Crypto, PublicKey, pkalg}

abbrev pub zeros : ℕ → Bytes
zeros zero = []
zeros (suc n) = 0 ∷ zeros n

-- "k" decodes to a key and "s" to a signature of it, which is good for every message but the empty
-- one.
abbrev pub sample_crypto : Crypto (Unit {0})
sample_crypto = record {
  b64_decode = λ t.
      if text_eq t (codes "k")
      then some (pkalg ++ zeros 40)
      else if text_eq t (codes "s")
      then some (pkalg ++ zeros 72)
      else none;
  key_from_bytes = λ b. some tt;
  verify_strict = λ key msg sig. not (is_empty msg);
}

abbrev pub sample_key : PublicKey (Unit {0})
sample_key = record { keynum = zeros 8; key = tt }

abbrev pub sample_meta : ReportMetadata
sample_meta = record {
  format = 1;
  kind = kernel_oops;
  uuid = codes "r";
  captured_at = pos 5;
  openwrt = record {
    version = codes "24.10";
    revision = codes "r1";
    target = codes "x86/64";
    arch = codes "x86_64";
  };
  board = codes "pc";
  kernel = codes "6.6~ab-r1";
  kernel_buildid = none;
  payload_sha256 = codes "m";
  payload_encoding = plain;
}

-- A body is its own payload and digest; its metadata is the sample.
abbrev pub samples : Libs (Unit {0})
samples = record {
  crypto = sample_crypto;
  secrets = record {
    token_digest = λ t. t;
    argon2_hash = λ salt password. some password;
    argon2_verify = λ password hash. text_eq password hash;
  };
  base_url = codes "u";
  hex_sha256 = λ b. b;
  to_lowercase = λ t. t;
  is_uuid = λ t. not (is_empty t);
  parse_boundary = λ t. some t;
  multipart = λ boundary body.
      field (some (codes "metadata")) (some (codes "j")) none
        (field (some (codes "payload")) none (some body) end_of_body);
  parse_metadata = λ t. ok sample_meta;
  b64_encode = λ b. b;
}

abbrev pub empty_world : World
empty_world = record {
  db = record {
    devices = [];
    reports = [];
    jobs = [];
    groups = [];
    users = [];
    device_tokens = [];
    dev_sessions = [];
  };
  raw_files = [];
  decoded_files = [];
  nonces = [];
}

abbrev pub sample_headers : Headers
sample_headers =
    (codes "x-ucr-pubkey", codes "k")
    ∷ (codes "x-ucr-signature", codes "s")
    ∷ (codes "content-type", codes "b")
    ∷ []

abbrev pub draws1 : Draws
draws1 = record {
  auth_time = 1;
  device_id = codes "d";
  report_id = codes "f";
  insert_time = 2;
  job_id = codes "j";
}

abbrev pub draws2 : Draws
draws2 = record {
  auth_time = 3;
  device_id = codes "e";
  report_id = codes "g";
  insert_time = 4;
  job_id = codes "k";
}

abbrev pub known_world : World
known_world = with_devices empty_world (new_device draws1 (codes "k") ∷ [])

abbrev pub posted_world : World
posted_world =
    with_report samples draws1 (some (codes "d")) sample_meta (codes "m") (codes "r") known_world
