-- ===== src/Decoder/ReportSamples.antt =====
-- Concrete crates, reports and states for runs of `decode_report` of
-- crates/ucrs-decoder/src/decode.rs.
use ucrashreport_server.Base.{[], false, none, ◌∷◌}
use ucrashreport_server.Config.{
  Config, default_data_dir, default_database_url, default_instance_name, default_listen,
  default_raw_failed_retention_days, default_symbols,
}
use ucrashreport_server.Decoder.Queue.{Shared}
use ucrashreport_server.Decoder.Report.{DecodeLibs, Moment}
use ucrashreport_server.Payload.{broken_stream}
use ucrashreport_server.Pool.{no_entry, rooted}
use ucrashreport_server.Scrub.{between}
use ucrashreport_server.Store.{CrashGroup, DecodeJob, Report, pending, private_report, received}
use ucrashreport_server.Text.{Text, codes}
use ucrashreport_server.Types.{pos}

-- No server for symbols, and no masks.
abbrev pub plain_libs : DecodeLibs
plain_libs = record {
  crates = record {
    gzip_stream = λ raw. broken_stream;
    zlib_stream = λ raw. broken_stream;
    zstd_stream = λ raw. none;
  };
  pool_libs = record {
    http_get = λ url. none;
    http_text = λ url. none;
    hex_sha256 = λ bytes. bytes;
    hex_encode = λ bytes. bytes;
    to_lowercase = λ t. t;
    elf_build_id = λ bytes. none;
    tar_entries = λ bytes. no_entry;
    unpack_in = λ dest e files. none;
  };
  symbol_libs = record { elf_symbols = λ bytes. none; new_loader = λ bytes. none };
  regex = λ pattern t. between t ∷ [];
  hex_digest = λ t. t;
}

abbrev pub toy_config : Config
toy_config = record {
  instance_name = default_instance_name;
  listen = default_listen;
  base_url = codes "http://h";
  data_dir = default_data_dir;
  database_url = default_database_url;
  raw_failed_retention_days = default_raw_failed_retention_days;
  symbols = default_symbols;
}

abbrev pub no_faults : Moment
no_faults = record {
  stamp_time = 10;
  ts = 11;
  new_uuid = codes "g";
  write_fails = false;
  upsert_fails = false;
  update_fails = false;
  remove_fails = false;
}

abbrev pub new_report : Report
new_report = record {
  id = codes "r";
  device_id = none;
  kind = codes "pstore";
  received_at = 5;
  captured_at = pos 5;
  version = codes "9";
  revision = [];
  target = codes "ath/gen";
  arch = [];
  board_name = [];
  kernel = [];
  kernel_buildid = none;
  payload_encoding = codes "none";
  state = received;
  visibility = private_report;
  group_id = none;
  publish_slug = none;
  raw_deleted_at = none;
}

abbrev pub new_job : DecodeJob
new_job = record {
  id = codes "j";
  report_id = codes "r";
  state = pending;
  attempts = 0;
  last_error = none;
}

abbrev pub oops_text : Text
oops_text = codes "Oops: 1\nCall Trace:\nath_tx+0x8/0x20 [ath]"

abbrev pub uploaded_state : Shared
uploaded_state = record {
  db = record {
    devices = [];
    reports = new_report ∷ [];
    jobs = new_job ∷ [];
    groups = [];
    users = [];
    device_tokens = [];
    dev_sessions = [];
  };
  raw_files = (codes "r", oops_text) ∷ [];
  decoded_files = [];
  pool_files = rooted [];
}

abbrev pub new_row : CrashGroup
new_row = record {
  id = codes "g";
  signature = codes "pstore|Oops: 1|ath_tx";
  kind = codes "pstore";
  title = codes "ath_tx";
  modules = codes "ath";
  first_seen = 11;
  last_seen = 11;
  first_seen_version = codes "9";
}
