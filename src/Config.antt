-- ===== src/Config.antt =====
-- The configuration, crates/ucrs-common/src/config.rs, with the defaults of its fields and the
-- directories that it leads to.
mod Tests
use ucrashreport_server.Base.{Option, none, some, ℕ}
use ucrashreport_server.BuildId.{path_join}
use ucrashreport_server.Text.{Text, codes}
use mathlib.Core.Option

pub record Symbols : Type 0 where
  pub kernel_release : Text
  pub kernel_snapshot : Text
  pub retention_weeks : ℕ

pub record Config : Type 0 where
  pub instance_name : Text
  pub listen : Text
  pub base_url : Text
  pub data_dir : Text
  pub database_url : Text
  pub raw_failed_retention_days : ℕ
  pub symbols : Symbols

abbrev pub default_instance_name : Text
default_instance_name = codes "ucrashreport"

abbrev pub default_listen : Text
default_listen = codes "127.0.0.1:8087"

abbrev pub default_data_dir : Text
default_data_dir = codes "data"

abbrev pub default_database_url : Text
default_database_url = codes "sqlite://data/ucrashreport.db"

abbrev pub default_kernel_release_url : Text
default_kernel_release_url =
    codes "https://downloads.openwrt.org/releases/{version}/targets/{target}/kernel-debug.tar.zst"

abbrev pub default_kernel_snapshot_url : Text
default_kernel_snapshot_url =
    codes "https://downloads.openwrt.org/snapshots/targets/{target}/kernel-debug.tar.zst"

abbrev pub default_retention_weeks : ℕ
default_retention_weeks = 4

abbrev pub default_raw_failed_retention_days : ℕ
default_raw_failed_retention_days = 14

-- `Symbols::default`
abbrev pub default_symbols : Symbols
default_symbols = record {
  kernel_release = default_kernel_release_url;
  kernel_snapshot = default_kernel_snapshot_url;
  retention_weeks = default_retention_weeks;
}

-- What a configuration file gives: `serde` takes the default of a field that it leaves out.
pub record SymbolsFile : Type 0 where
  pub kernel_release : Option Text
  pub kernel_snapshot : Option Text
  pub retention_weeks : Option ℕ

pub record ConfigFile : Type 0 where
  pub instance_name : Option Text
  pub listen : Option Text
  pub base_url : Option Text
  pub data_dir : Option Text
  pub database_url : Option Text
  pub raw_failed_retention_days : Option ℕ
  pub symbols : Option SymbolsFile

abbrev pub or_default {ℓ} : {A : Type ℓ} → Option A → A → A
or_default none d = d
or_default (some a) d = a

unfoldable pub symbols_of : Option SymbolsFile → Symbols
symbols_of none = default_symbols
symbols_of (some f) = record {
  kernel_release = or_default f.kernel_release default_kernel_release_url;
  kernel_snapshot = or_default f.kernel_snapshot default_kernel_snapshot_url;
  retention_weeks = or_default f.retention_weeks default_retention_weeks;
}

-- The one field without a default is `base_url`: `none` is an error.
unfoldable pub config_of : ConfigFile → Option Config
unfolding symbols_of
config_of f =
    Option.map
      (λ url. record {
        instance_name = or_default f.instance_name default_instance_name;
        listen = or_default f.listen default_listen;
        base_url = url;
        data_dir = or_default f.data_dir default_data_dir;
        database_url = or_default f.database_url default_database_url;
        raw_failed_retention_days =
            or_default f.raw_failed_retention_days default_raw_failed_retention_days;
        symbols = symbols_of f.symbols;
      })
      f.base_url

unfoldable pub raw_dir : Config → Text
raw_dir cfg = path_join cfg.data_dir (codes "raw")

unfoldable pub decoded_dir : Config → Text
decoded_dir cfg = path_join cfg.data_dir (codes "decoded")

unfoldable pub symbols_dir : Config → Text
symbols_dir cfg = path_join cfg.data_dir (codes "symbols")
