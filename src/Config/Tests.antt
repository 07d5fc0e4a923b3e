-- ===== src/Config/Tests.antt =====
-- A configuration with one field, crates/ucrs-common/src/config.rs.
use ucrashreport_server.Base.{none, refl, some, ◌≡◌}
use ucrashreport_server.BuildId.{path_join}
use ucrashreport_server.Config.{ConfigFile, config_of, raw_dir}
use ucrashreport_server.Text.{codes, text_runs}
use mathlib.Core.Option

abbrev minimal : ConfigFile
minimal = record {
  instance_name = none;
  listen = none;
  base_url = some (codes "https://c");
  data_dir = none;
  database_url = none;
  raw_failed_retention_days = none;
  symbols = none;
}

directories : Option.map raw_dir (config_of minimal) ≡ some (codes "data/raw")
unfolding raw_dir config_of path_join text_runs
directories = refl

no_url : config_of (record minimal { base_url = none }) ≡ none
unfolding config_of
no_url = refl
