-- ===== src/Web/Groups.antt =====
-- The statements of `query_groups` and `breakdown` of crates/ucrs-server/src/web.rs.
use ucrashreport_server.Base.{
  Bool, List, Option, [], if◌then◌else◌, is_empty, keep, leb, length, ltb, map, none, some, take,
  true, ℕ, ◌&&◌, ◌*◌, ◌+◌, ◌==◌, ◌||◌, ◌∷◌,
}
use ucrashreport_server.Pool.{once, somes}
use ucrashreport_server.Store.{CrashGroup, Db, Report, option_eq, order_by}
use ucrashreport_server.Text.{Text, codes, show_nat, text_eq}

pub record GroupRow : Type 0 where
  pub id : Text
  pub title : Text
  pub kind : Text
  pub modules : Text
  pub count : ℕ
  pub devices : ℕ
  pub first_version : Text
  pub last_report : Text
  pub state : Text

pub record KeyCount : Type 0 where
  pub key : Text
  pub count : ℕ

-- The seconds of a window, `none` where its cutoff is 0.
unfoldable pub window_secs : Text → Option ℕ
window_secs window =
    if text_eq window (codes "24h")
    then some (24 * 3600)
    else if text_eq window (codes "30d")
    then some (30 * 24 * 3600)
    else if text_eq window (codes "all")
    then none
    else some (7 * 24 * 3600)

-- `received_at >= window_cutoff(window)`, where the cutoff may lie before the epoch
unfoldable pub in_window : ℕ → Option ℕ → ℕ → Bool
in_window now none received_at = true
in_window now (some secs) received_at = leb now (received_at + secs)

-- `? = '' OR column = ?`
abbrev pub is_wanted : Text → Text → Bool
is_wanted filter column = is_empty filter || text_eq column filter

abbrev pub in_group : Text → Report → Bool
in_group id r = option_eq r.group_id (some id)

-- A row of the join that the clauses select
unfoldable pub is_counted : ℕ → Text → Text → Text → Text → CrashGroup → Report → Bool
unfolding window_secs in_window
is_counted now window kind version target g r =
    in_group g.id r
    && (in_window now (window_secs window) r.received_at
        && (is_wanted kind g.kind && (is_wanted version r.version && is_wanted target r.target)))

-- `COUNT(DISTINCT r.device_id)`, which leaves out null
abbrev pub distinct_devices : List Report → ℕ
distinct_devices rs = length (once (somes (map (λ r. r.device_id) rs)))

-- `MAX(r.received_at)`
abbrev pub last_received : List Report → ℕ
last_received [] = 0
last_received (r ∷ rs) =
    let m = last_received rs in if ltb m r.received_at then r.received_at else m

-- A group with the reports that are counted for it.
abbrev pub Joined : Type 0
Joined = CrashGroup × List Report

-- `JOIN .. GROUP BY g.id`: only groups with a row.
unfoldable pub joined_groups :
    (CrashGroup → Report → Bool) → List CrashGroup → List Report → List Joined
joined_groups counted [] reports = []
joined_groups counted (g ∷ gs) reports =
    let rest = joined_groups counted gs reports in
    let rs = keep (counted g) reports in if is_empty rs then rest else (g, rs) ∷ rest

-- `ORDER BY cnt DESC, last_report DESC`
unfoldable pub outranks : Joined → Joined → Bool
outranks (g, rs) (h, qs) =
    ltb (length qs) (length rs)
    || ((length qs == length rs) && ltb (last_received qs) (last_received rs))

-- The first rows of the order.
abbrev pub top_rows : ℕ → List Joined → List Joined
top_rows limit rows = take limit (order_by outranks rows)

-- `fmt_ts`, with what the crate `chrono` gives for a time in its range.
unfoldable pub fmt_ts : (ℕ → Option Text) → ℕ → Text
unfolding show_nat
fmt_ts format ts = elim (format ts) [ none ↦ show_nat ts | some t ↦ t ]

unfoldable pub group_row : (ℕ → Option Text) → Joined → GroupRow
unfolding fmt_ts
group_row format (g, rs) = record {
  id = g.id;
  title = g.title;
  kind = g.kind;
  modules = g.modules;
  count = length rs;
  devices = distinct_devices rs;
  first_version = g.first_seen_version;
  last_report = fmt_ts format (last_received rs);
  state = codes "new";
}

unfoldable pub query_groups : (ℕ → Option Text) → ℕ → Text → Text → Text → Text → Db → List GroupRow
unfolding is_counted joined_groups order_by outranks group_row
query_groups format now window kind version target db =
    map (group_row format) (
      top_rows 100 (joined_groups (is_counted now window kind version target) db.groups db.reports))

-- `GROUP BY {column}`, with the number of the rows
unfoldable pub key_counts : (Report → Text) → List Text → List Report → List KeyCount
key_counts column keys rs =
    map (λ k. record { key = k; count = length (keep (λ r. text_eq (column r) k) rs) }) keys

abbrev pub more_rows : KeyCount → KeyCount → Bool
more_rows a b = ltb b.count a.count

unfoldable pub breakdown : (Report → Text) → Text → List Report → List KeyCount
unfolding key_counts order_by
breakdown column group_id reports =
    let rs = keep (in_group group_id) reports in
    take 20 (order_by more_rows (key_counts column (once (map column rs)) rs))
