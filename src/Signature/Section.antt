-- ===== src/Signature/Section.antt =====
-- Where the answer of `parse_oops` of crates/ucrs-common/src/signature.rs stands in the text.
use ucrashreport_server.Base.{
  All, All-append, Bool, Bool-cases, List, Member, Member-append_left, Member-append_right, Option,
  [], ap, append-nil, append_assoc, arith, false, if◌then◌else◌, inl, inr, none, not, refl, some,
  some-eq, subst, sym, true, ◌++◌, ◌∙◌, ◌∷◌, ◌≡◌, ◌⊎◌,
}
use ucrashreport_server.Signature.Data.{Frame}
use ucrashreport_server.Signature.Line.{IsMarked, noted, oops_step-noted, trace_line-exception}
use ucrashreport_server.Signature.Oops.{
  Scan, add_frame, ends_trace, frame_of, has_marker, no_scan, note_exception, oops_loop, oops_step,
  parse_oops, scan_result, starts_trace, trace_line,
}
use ucrashreport_server.Signature.Prefix.{strip_printk_prefix}
use ucrashreport_server.Text.{Text, lines}

-- The frame is that of one of the lines.
abbrev pub FrameIn : List Text → Frame → Type 0
FrameIn ls f = (raw : Text) × Member raw ls × (frame_of (strip_printk_prefix raw) ≡ some f)

-- The lines split at a marked line that gives the exception; every frame is of that line or a later
-- one.
pub record InSection (ls : List Text) (e : Text) (fs : List Frame) : Type 0 where
  pub earlier : List Text
  pub marked : Text
  pub later : List Text
  pub splits : ls ≡ earlier ++ marked ∷ later
  pub is_marked : IsMarked marked
  pub gives : strip_printk_prefix marked ≡ e
  pub frames_in : All (FrameIn (marked ∷ later)) fs

All-FrameIn-append :
    (ls ms : List Text) (fs : List Frame) → All (FrameIn ls) fs → All (FrameIn (ls ++ ms)) fs
All-FrameIn-append ls ms [] h = tt
All-FrameIn-append ls ms (f ∷ fs) ((raw, m, e), t) =
    ((raw, Member-append_left raw ls ms m, e), All-FrameIn-append ls ms fs t)

-- One more line, which may give one more frame.
abbrev FramesAdded : Option Frame → List Frame → List Frame → Type 0
FramesAdded o fs gs = (gs ≡ fs) ⊎ ((f : Frame) × (o ≡ some f) × (gs ≡ fs ++ f ∷ []))

-- The tests of `trace_line`, by their values.
tests-FramesAdded :
    (start inside end : Bool) (o : Option Frame) (s : Scan)
    → FramesAdded o s.frames
        (if start
          then record s { in_trace = true }
          else if not inside
          then s
          else if end
          then record s { in_trace = false }
          else add_frame s o).frames
tests-FramesAdded true inside end o s = inl refl
tests-FramesAdded false false end o s = inl refl
tests-FramesAdded false true true o s = inl refl
tests-FramesAdded false true false none s = inl refl
tests-FramesAdded false true false (some f) s = inr (f, refl, refl)

trace_line-frames :
    (line : Text) (s : Scan) → FramesAdded (frame_of line) s.frames (trace_line line s).frames
unfolding trace_line
trace_line-frames line s =
    tests-FramesAdded (starts_trace line) s.in_trace (ends_trace line) (frame_of line) s

module _ (ls : List Text) (raw e : Text) (fs : List Frame) where
  frames_in-added :
      (ms : List Text) (gs : List Frame)
      → Member raw ms
      → All (FrameIn ms) fs
      → FramesAdded (frame_of (strip_printk_prefix raw)) fs gs
      → All (FrameIn ms) gs
  frames_in-added ms gs m h (inl same) = rw same h
  frames_in-added ms gs m h (inr (f, e, more)) =
      rw more (All-append (FrameIn ms) fs (f ∷ []) h ((raw, m, e), tt))

  InSection-next :
      (gs : List Frame)
      → InSection ls e fs
      → FramesAdded (frame_of (strip_printk_prefix raw)) fs gs
      → InSection (ls ++ raw ∷ []) e gs
  InSection-next gs r added = record {
    earlier = r.earlier;
    marked = r.marked;
    later = r.later ++ raw ∷ [];
    splits =
        ap (λ l. l ++ raw ∷ []) r.splits ∙ append_assoc r.earlier (r.marked ∷ r.later) (raw ∷ []);
    is_marked = r.is_marked;
    gives = r.gives;
    frames_in =
        frames_in-added (r.marked ∷ (r.later ++ raw ∷ [])) _
          (Member-append_right raw (r.marked ∷ r.later) (raw ∷ []) (inl refl))
          (All-FrameIn-append (r.marked ∷ r.later) (raw ∷ []) fs r.frames_in) added;
  }

InSection-fresh :
    (ls : List Text) (raw : Text) (gs : List Frame)
    → IsMarked raw
    → FramesAdded (frame_of (strip_printk_prefix raw)) [] gs
    → InSection (ls ++ raw ∷ []) (strip_printk_prefix raw) gs
InSection-fresh ls raw gs m added = record {
  earlier = ls;
  marked = raw;
  later = [];
  splits = refl;
  is_marked = m;
  gives = refl;
  frames_in = frames_in-added [] raw (strip_printk_prefix raw) [] (raw ∷ []) _ (inl refl) tt added;
}

-- What is known after the lines `ls`.
abbrev Scanned : List Text → Scan → Type 0
Scanned ls s = (e : Text) → s.exception ≡ some e → InSection ls e s.frames

noted-marked :
    (line : Text) (s : Scan)
    → has_marker line ≡ true
    → ((noted line s).exception ≡ s.exception) × ((noted line s).frames ≡ s.frames)
      ⊎ ((noted line s).exception ≡ some line) × ((noted line s).frames ≡ [])
unfolding noted note_exception
noted-marked line s h = rw h (ground arith)

noted-unmarked : (line : Text) (s : Scan) → has_marker line ≡ false → noted line s ≡ s
unfolding noted
noted-unmarked line s h = rw h

module _ (ls : List Text) (s : Scan) (raw : Text) (scanned : Scanned ls s) where
  Scanned-kept :
      (t : Scan)
      → t.exception ≡ s.exception
      → t.frames ≡ s.frames
      → Scanned (ls ++ raw ∷ []) (trace_line (strip_printk_prefix raw) t)
  Scanned-kept t same frames e h =
      InSection-next ls raw e t.frames _
        (rw frames (scanned e (sym same ∙ sym (trace_line-exception _ t) ∙ h)))
        (trace_line-frames (strip_printk_prefix raw) t)

  Scanned-noted :
      (t : Scan)
      → IsMarked raw
      → (t.exception ≡ s.exception) × (t.frames ≡ s.frames)
        ⊎ (t.exception ≡ some (strip_printk_prefix raw)) × (t.frames ≡ [])
      → Scanned (ls ++ raw ∷ []) (trace_line (strip_printk_prefix raw) t)
  Scanned-noted t m (inl same) e h = Scanned-kept t same.0 same.1 e h
  Scanned-noted t m (inr fresh) e h =
      let is_line : strip_printk_prefix raw ≡ e =
        some-eq _ _ (sym fresh.0 ∙ sym (trace_line-exception _ t) ∙ h) in
      rw (← is_line) (
        InSection-fresh ls raw _ m (
          subst
            (λ fs.
              FramesAdded (frame_of (strip_printk_prefix raw)) fs
                (trace_line (strip_printk_prefix raw) t).frames)
            fresh.1 (trace_line-frames (strip_printk_prefix raw) t)))

  Scanned-step : Scanned (ls ++ raw ∷ []) (oops_step s raw)
  Scanned-step =
      rw (oops_step-noted s raw) (elim (Bool-cases (has_marker (strip_printk_prefix raw))) [
        | inl m ↦
            Scanned-noted (noted (strip_printk_prefix raw) s) m
              (noted-marked (strip_printk_prefix raw) s m)
        | inr u ↦ rw (noted-unmarked (strip_printk_prefix raw) s u) (Scanned-kept s refl refl)
      ])

Scanned-loop :
    (rest ls : List Text) (s : Scan) → Scanned ls s → Scanned (ls ++ rest) (oops_loop s rest)
unfolding oops_loop
Scanned-loop [] ls s h = rw append-nil h
Scanned-loop (raw ∷ rest) ls s h =
    rw (append_assoc ls (raw ∷ []) rest) at
      (Scanned-loop rest (ls ++ raw ∷ []) (oops_step s raw) (Scanned-step ls s raw h))

scan_result-eq-some :
    (s : Scan) (e : Text) (fs : List Frame)
    → scan_result s ≡ some (e, fs)
    → (s.exception ≡ some e) × (s.frames ≡ fs)
scan_result-eq-some s e fs h = ground arith

-- What the parser answers is one section of the text: the exception is a marked line, and every
-- frame is that of this line or a later one.
pub parse_oops-InSection :
    (text : Text) {e : Text} {fs : List Frame}
    → parse_oops text ≡ some (e, fs)
    → InSection (lines text) e fs
unfolding parse_oops
parse_oops-InSection text {e} {fs} h =
    let (found, frames) = scan_result-eq-some (oops_loop no_scan (lines text)) e fs h in
    rw (← frames) (Scanned-loop (lines text) [] no_scan (λ e' h'. cc) e found)
