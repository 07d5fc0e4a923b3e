-- ===== src/Scrub/Tests.antt =====
-- Runs of `scrub` of crates/ucrs-decoder/src/scrub.rs on a text that is one match.
use ucrashreport_server.Base.{[], if◌then◌else◌, refl, some, ◌∷◌, ◌≡◌}
use ucrashreport_server.Scrub.{Regex, between, ipv4_re, ipv6_re, mac_re, matched, scrub}
use ucrashreport_server.Text.{Text, codes, text_eq, text_runs}

abbrev one_match : Text → Text → Regex
one_match pattern group p t =
    if text_eq p pattern then matched t (some group ∷ []) ∷ [] else between t ∷ []

masks :
    (scrub (one_match mac_re (codes "94:83:c4")) (codes "94:83:c4:12:34:56")
      ≡ codes "94:83:c4:xx:xx:xx")
    × (scrub (one_match ipv4_re (codes "192")) (codes "192.168.1.42") ≡ codes "x.x.x.x")
    × (scrub (one_match ipv4_re (codes "127")) (codes "127.0.0.1") ≡ codes "127.0.0.1")
    × (scrub (one_match ipv6_re []) (codes "fe80::1a2b:3c4d") ≡ codes "x:x::x")
unfolding scrub text_runs
masks = (refl, refl, refl, refl)
