-- ===== src/Decoder/Groups.antt =====
-- The groups of crates/ucrs-decoder/src/decode.rs, as a map from signatures.
use ucrashreport_server.Base.{
  Bool-cases, List, Option, Option-cases, [], ap, false, if◌then◌else◌, inl, inr, none, refl, some,
  some-eq, sym, true, ◌∙◌, ◌∷◌, ◌≡◌,
}
use ucrashreport_server.Decoder.Report.{has_signature, upsert_group, upsert_group_row}
use ucrashreport_server.Store.{CrashGroup, select_row, update_rows}
use ucrashreport_server.Text.{Text, text_eq, text_eq_iff}

unfoldable pub group_of : Text → List CrashGroup → Option CrashGroup
group_of sig groups = select_row (has_signature sig) groups

-- The group of a report that comes in: an old one is seen again.
abbrev pub seen_group : Option CrashGroup → CrashGroup → CrashGroup
seen_group none new = new
seen_group (some g) new = record g { last_seen = new.last_seen }

-- The update of the groups with a signature.
abbrev touch_groups : CrashGroup → List CrashGroup → List CrashGroup
touch_groups new groups =
    update_rows (has_signature new.signature) (λ h. record h { last_seen = new.last_seen }) groups

group_of-touch_other :
    (sig : Text) (new : CrashGroup) (groups : List CrashGroup)
    → text_eq new.signature sig ≡ false
    → group_of sig (touch_groups new groups) ≡ group_of sig groups
unfolding group_of
group_of-touch_other sig new [] n = refl
group_of-touch_other sig new (h ∷ groups) n =
    let rest = group_of-touch_other sig new groups n in
    elim (Bool-cases (text_eq h.signature new.signature)) [
      | inl t ↦
          let other : text_eq h.signature sig ≡ false =
            ap (λ k. text_eq k sig) ((text_eq_iff h.signature new.signature).0 t) ∙ n in
          rw (t, other) rest
      | inr t ↦ rw t (ap (λ o. if text_eq h.signature sig then some h else o) rest)
    ]

group_of-touch :
    (sig : Text) (new : CrashGroup) (groups : List CrashGroup) (g : CrashGroup)
    → group_of new.signature groups ≡ some g
    → text_eq new.signature sig ≡ true
    → group_of sig (touch_groups new groups) ≡ some (seen_group (some g) new)
unfolding group_of
group_of-touch sig new [] g e same = cc
group_of-touch sig new (h ∷ groups) g e same =
    elim (Bool-cases (text_eq h.signature new.signature)) [
      | inl t ↦
          let found : text_eq h.signature sig ≡ true =
            ap (λ k. text_eq k sig) ((text_eq_iff h.signature new.signature).0 t) ∙ same in
          rw (t, found) (ap (λ k. some (seen_group (some k) new)) (some-eq h g (rw t at e)))
      | inr t ↦
          let missed : text_eq h.signature sig ≡ false =
            ap (text_eq h.signature) (sym ((text_eq_iff new.signature sig).0 same)) ∙ t in
          rw (t, missed) (group_of-touch sig new groups g (rw t at e) same)
    ]

-- The group of a signature is found by it afterwards: one that was there keeps all but the time
-- when it was last seen, and otherwise it is the new one. The id that is given is that group's,
-- and the groups of the other signatures stay.
pub upsert_group-group_of :
    (new : CrashGroup) (groups : List CrashGroup)
    → ((upsert_group new groups).0 ≡ (seen_group (group_of new.signature groups) new).id)
      × ((sig : Text)
          → group_of sig (upsert_group new groups).1 ≡ (
              if text_eq new.signature sig
              then some (seen_group (group_of new.signature groups) new)
              else group_of sig groups))
unfolding upsert_group upsert_group_row group_of
upsert_group-group_of new groups = elim (Option-cases (group_of new.signature groups)) [
  | inl e ↦ rw e (refl, λ sig. refl)
  | inr (g, e) ↦ rw e (
    refl,
    λ sig. elim (Bool-cases (text_eq new.signature sig)) [
      | inl t ↦ rw t (group_of-touch sig new groups g e t)
      | inr t ↦ rw t (group_of-touch_other sig new groups t)
    ],
  )
]
