-- ===== src/Signature/Trace.antt =====
-- `compute` of crates/ucrs-common/src/signature.rs against a description without a loop: which
-- frames make the signature, the title and the modules.
use ucrashreport_server.Base.{
  Bool, Bool-cases, List, Option, [], ap, append-nil, append_assoc, arith, drop_while, false, inl,
  inr, is_empty, keep, length, length-append, map, none, not, refl, some, suc, sym, take, true,
  zero, ℕ, ◌&&◌, ◌++◌, ◌+◌, ◌∙◌, ◌∷◌, ◌≡◌,
}
use ucrashreport_server.Signature.Compute.{
  Trace, add_module, compute, first_or, frame_step, push_frame, signature_input, trace_loop,
}
use ucrashreport_server.Signature.Data.{Frame, signature_frames}
use ucrashreport_server.Signature.Exception.{normalize_exception}
use ucrashreport_server.Signature.Modules.{add_modules, add_modules-nil, distinct}
use ucrashreport_server.Signature.Symbol.{is_machinery, normalize_symbol}
use ucrashreport_server.Text.{Text}

-- The frame counts: it is not questionable and has a name.
abbrev pub is_kept : Frame → Bool
is_kept f = not f.questionable && not (is_empty (normalize_symbol f.symbol))

abbrev pub frame_symbols : List Frame → List Text
frame_symbols fs = map (λ f. normalize_symbol f.symbol) (keep is_kept fs)

-- The first five frames below the report machinery.
abbrev pub crash_frames : List Frame → List Text
crash_frames fs = take signature_frames (drop_while is_machinery (frame_symbols fs))

abbrev pub module_names : List Frame → List Text
module_names [] = []
module_names (f ∷ fs) = elim f.module_name [ none ↦ module_names fs | some m ↦ m ∷ module_names fs ]

-- The body of the loop for a frame that counts, and the loop over such frames.
kept_step : Trace → Frame → Trace
kept_step s f =
    push_frame (normalize_symbol f.symbol)
      (record s { modules = add_module s.modules f.module_name })

kept_loop : Trace → List Frame → Trace
kept_loop s [] = s
kept_loop s (f ∷ fs) = kept_loop (kept_step s f) fs

frame_step-kept : (s : Trace) (f : Frame) → is_kept f ≡ true → frame_step s f ≡ kept_step s f
unfolding frame_step kept_step
frame_step-kept s f h = ground arith

frame_step-dropped : (s : Trace) (f : Frame) → is_kept f ≡ false → frame_step s f ≡ s
unfolding frame_step
frame_step-dropped s f h = ground arith

trace_loop-kept : (fs : List Frame) (s : Trace) → trace_loop s fs ≡ kept_loop s (keep is_kept fs)
unfolding trace_loop kept_loop
trace_loop-kept [] s = refl
trace_loop-kept (f ∷ fs) s = elim (Bool-cases (is_kept f)) [
  | inl kept ↦ rw (frame_step-kept s f kept, kept) (trace_loop-kept fs (kept_step s f))
  | inr dropped ↦ rw (frame_step-dropped s f dropped, dropped) (trace_loop-kept fs s)
]

abbrev names : List Frame → List Text
names ks = map (λ f. normalize_symbol f.symbol) ks

-- Past the machinery, frames are appended until there are five.
sig_frames-seen :
    (ks : List Frame) (s : Trace) (n : ℕ)
    → s.seen_real_frame ≡ true
    → length s.sig_frames + n ≡ signature_frames
    → (kept_loop s ks).sig_frames ≡ s.sig_frames ++ take n (names ks)
unfolding kept_loop kept_step push_frame
sig_frames-seen [] s zero seen room = rw append-nil
sig_frames-seen [] s (suc n) seen room = rw append-nil
sig_frames-seen (f ∷ ks) s zero seen room = ground (arith, sig_frames-seen ks (kept_step s f) zero)
sig_frames-seen (f ∷ ks) s (suc n) seen room = ground (
  arith,
  sig_frames-seen ks (kept_step s f) n,
  length-append s.sig_frames (normalize_symbol f.symbol ∷ []),
  append_assoc s.sig_frames (normalize_symbol f.symbol ∷ []) (take n (names ks)),
)

sig_frames-unseen :
    (ks : List Frame) (s : Trace)
    → s.seen_real_frame ≡ false
    → s.sig_frames ≡ []
    → (kept_loop s ks).sig_frames ≡ take signature_frames (drop_while is_machinery (names ks))
unfolding kept_loop kept_step push_frame
sig_frames-unseen [] s seen e = e
sig_frames-unseen (f ∷ ks) s seen e =
    ground (arith, sig_frames-unseen ks (kept_step s f), sig_frames-seen ks (kept_step s f) 4)

push_frame-modules : (sym : Text) (s : Trace) → (push_frame sym s).modules ≡ s.modules
unfolding push_frame
push_frame-modules sym s = ground arith

kept_step-modules :
    (s : Trace) (f : Frame) → (kept_step s f).modules ≡ add_module s.modules f.module_name
unfolding kept_step
kept_step-modules s f = push_frame-modules (normalize_symbol f.symbol) _

add_modules-add_module :
    (o : Option Text) (acc ms : List Text)
    → add_modules (add_module acc o) ms ≡ add_modules acc (elim o [ none ↦ ms | some m ↦ m ∷ ms ])
unfolding add_modules add_module
add_modules-add_module none acc ms = refl
add_modules-add_module (some m) acc ms = refl

kept_loop-modules :
    (ks : List Frame) (s : Trace)
    → (kept_loop s ks).modules ≡ add_modules s.modules (module_names ks)
unfolding kept_loop
kept_loop-modules [] s = unfold add_modules in refl
kept_loop-modules (f ∷ ks) s =
    kept_loop-modules ks (kept_step s f)
    ∙ ap (λ ms. add_modules ms (module_names ks)) (kept_step-modules s f)
    ∙ add_modules-add_module f.module_name s.modules (module_names ks)

-- The signature is the digest of the kind, the exception and the first five frames below the
-- report machinery, among the frames that are not questionable and have a name; the title is the
-- first of the five, or the exception where there is none; the modules are those of all the frames
-- that count, machinery included, each once and in order of appearance.
pub compute_lem :
    (hex_digest : Text → Text) (kind line : Text) (frames : List Frame)
    → compute hex_digest kind line frames ≡ record {
      signature =
          hex_digest (signature_input kind (normalize_exception line) (crash_frames frames));
      title = first_or (normalize_exception line) (crash_frames frames);
      modules = distinct (module_names (keep is_kept frames));
    }
unfolding compute
compute_lem hex_digest kind line frames =
    rw (trace_loop-kept, sig_frames-unseen, kept_loop-modules, add_modules-nil)
