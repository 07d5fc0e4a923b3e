-- ===== src/Scrub.antt =====
-- `scrub` of crates/ucrs-decoder/src/scrub.rs. The crate `regex` is a parameter: what a pattern finds in
-- a text.
mod Tests
-- A text as a `Regex` cuts it: what lies between the matches, and the matches, each with the whole
-- match and its groups, which may be absent.
use ucrashreport_server.Base.{List, Option, [], if◌then◌else◌, none, some, ◌++◌, ◌||◌, ◌∷◌}
use ucrashreport_server.Text.{Text, codes, starts_with, text_eq}

pub data Segment : Type 0 where
  between : Text → Segment
  matched : Text → List (Option Text) → Segment

abbrev pub Regex : Type 0
Regex = Text → Text → List Segment

abbrev pub segment_text : Segment → Text
segment_text (between t) = t
segment_text (matched t _) = t

-- The text that the segments were cut from.
abbrev pub segments_text : List Segment → Text
segments_text [] = []
segments_text (s ∷ ss) = segment_text s ++ segments_text ss

-- `replace_all`
unfoldable pub replace_segments : (Text → List (Option Text) → Text) → List Segment → Text
replace_segments f [] = []
replace_segments f (between t ∷ ss) = t ++ replace_segments f ss
replace_segments f (matched t groups ∷ ss) = f t groups ++ replace_segments f ss

-- `$1`, which is empty where the group is absent
abbrev pub group_one : List (Option Text) → Text
group_one [] = []
group_one (none ∷ _) = []
group_one (some t ∷ _) = t

abbrev pub mac_re : Text
mac_re =
    codes
      "\\b([0-9A-Fa-f]{2}:[0-9A-Fa-f]{2}:[0-9A-Fa-f]{2}):[0-9A-Fa-f]{2}:[0-9A-Fa-f]{2}:[0-9A-Fa-f]{2}\\b"

abbrev pub ipv4_re : Text
ipv4_re =
    codes
      "\\b(25[0-5]|2[0-4]\\d|1?\\d?\\d)\\.(25[0-5]|2[0-4]\\d|1?\\d?\\d)\\.(25[0-5]|2[0-4]\\d|1?\\d?\\d)\\.(25[0-5]|2[0-4]\\d|1?\\d?\\d)\\b"

abbrev pub ipv6_re : Text
ipv6_re =
    codes
      "\\b(?:[0-9A-Fa-f]{1,4}:){5,7}[0-9A-Fa-f]{1,4}\\b|\\b[0-9A-Fa-f]{1,4}:(?:[0-9A-Fa-f]{1,4}:)*:(?:[0-9A-Fa-f]{1,4}(?::[0-9A-Fa-f]{1,4})*)?\\b"

unfoldable pub mask_mac : Text → List (Option Text) → Text
mask_mac whole groups = group_one groups ++ codes ":xx:xx:xx"

unfoldable pub mask_ipv4 : Text → List (Option Text) → Text
mask_ipv4 ip groups =
    if text_eq ip (codes "0.0.0.0")
      || starts_with ip (codes "127.")
      || text_eq ip (codes "255.255.255.255")
    then ip
    else codes "x.x.x.x"

unfoldable pub mask_ipv6 : Text → List (Option Text) → Text
mask_ipv6 ip groups =
    if text_eq ip (codes "::") || text_eq ip (codes "::1") then ip else codes "x:x::x"

unfoldable pub scrub : Regex → Text → Text
unfolding replace_segments mask_mac mask_ipv4 mask_ipv6
scrub regex text =
    let out1 = replace_segments mask_mac (regex mac_re text) in
    let out2 = replace_segments mask_ipv4 (regex ipv4_re out1) in
    replace_segments mask_ipv6 (regex ipv6_re out2)
