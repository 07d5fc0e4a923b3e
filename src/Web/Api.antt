-- ===== src/Web/Api.antt =====
-- The handlers of crates/ucrs-server/src/api.rs that use the queries of web.rs or the symbol pool.
use ucrashreport_server.Base.{List, Option, map, none, some, ℕ}
use ucrashreport_server.BuildId.{resolve}
use ucrashreport_server.Config.{Config, symbols_dir}
use ucrashreport_server.Pool.{Files, path_exists, read_file}
use ucrashreport_server.Store.{Db}
use ucrashreport_server.Text.{Text, codes}
use ucrashreport_server.Usign.{Bytes}
use ucrashreport_server.Web.Groups.{GroupRow, query_groups}
use ucrashreport_server.Web.Templates.{GroupsQuery, or_empty}

pub record GroupJson : Type 0 where
  pub group_id : Text
  pub title : Text
  pub kind : Text
  pub modules : Text
  pub reports : ℕ
  pub devices : ℕ
  pub first_seen_version : Text
  pub last_report : Text
  pub state : Text

unfoldable pub group_json : GroupRow → GroupJson
group_json g = record {
  group_id = g.id;
  title = g.title;
  kind = g.kind;
  modules = g.modules;
  reports = g.count;
  devices = g.devices;
  first_seen_version = g.first_version;
  last_report = g.last_report;
  state = g.state;
}

-- `groups_json`, for a developer
unfoldable pub groups_json : (ℕ → Option Text) → ℕ → GroupsQuery → Db → List GroupJson
unfolding query_groups group_json
groups_json format now q db = map group_json (
    query_groups format now (elim q.window [ none ↦ codes "7d" | some t ↦ t ]) (or_empty q.kind)
      (or_empty q.version) (or_empty q.target) db)

-- The bytes of a file, or the status 404 with a text.
pub data DebugAnswer : Type 0 where
  octets : Bytes → DebugAnswer
  missing_file : Text → DebugAnswer

abbrev pub unknown_build_id : DebugAnswer
unknown_build_id = missing_file (codes "unknown build-id")

-- `debuginfod_debuginfo`
unfoldable pub debuginfod_debuginfo : Config → Files → Text → DebugAnswer
unfolding resolve path_exists read_file
debuginfod_debuginfo cfg files buildid =
    elim (resolve (λ p. path_exists p files) (symbols_dir cfg) buildid) [
      | none ↦ unknown_build_id
      | some path ↦ elim (read_file path files) [
        | none ↦ unknown_build_id
        | some bytes ↦ octets bytes
      ]
    ]

abbrev pub debuginfod_executable : DebugAnswer
debuginfod_executable = missing_file (codes "only debuginfo available")

abbrev pub healthz : Text
healthz = codes "ok"
