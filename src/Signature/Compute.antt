-- ===== src/Signature/Compute.antt =====
-- `compute` of crates/ucrs-common/src/signature.rs. The crates `sha2` and `hex` are the argument
-- `hex_digest`, for `hex::encode(Sha256::digest(..))`.
use ucrashreport_server.Base.{
  Bool, List, Option, [], any, false, if◌then◌else◌, is_empty, length, ltb, none, not, some, sym,
  true, ◌&&◌, ◌++◌, ◌∷◌,
}
use ucrashreport_server.Signature.Data.{CrashSignature, Frame, signature_frames}
use ucrashreport_server.Signature.Exception.{normalize_exception}
use ucrashreport_server.Signature.Symbol.{is_machinery, normalize_symbol}
use ucrashreport_server.Text.{Text, codes, join, text_eq}

-- The variables of the loop.
pub record Trace : Type 0 where
  pub sig_frames : List Text
  pub modules : List Text
  pub seen_real_frame : Bool

abbrev pub no_trace : Trace
no_trace = record { sig_frames = []; modules = []; seen_real_frame = false }

-- `modules.push(m.clone())` if it is new.
unfoldable pub add_module : List Text → Option Text → List Text
add_module modules none = modules
add_module modules (some m) = if any (λ n. text_eq n m) modules then modules else modules ++ m ∷ []

-- The part of the body from the machinery test on.
unfoldable pub push_frame : Text → Trace → Trace
push_frame sym s = if not s.seen_real_frame && is_machinery sym then s else record s {
  seen_real_frame = true;
  sig_frames =
      if ltb (length s.sig_frames) signature_frames then s.sig_frames ++ sym ∷ [] else s.sig_frames;
}

-- The body of `for f in frames`.
unfoldable pub frame_step : Trace → Frame → Trace
unfolding push_frame add_module
frame_step s f =
    if f.questionable
    then s
    else let sym = normalize_symbol f.symbol in
      if is_empty sym
      then s
      else push_frame sym (record s { modules = add_module s.modules f.module_name })

unfoldable pub trace_loop : Trace → List Frame → Trace
trace_loop s [] = s
trace_loop s (f ∷ fs) = trace_loop (frame_step s f) fs

-- `sig_frames.first().cloned().unwrap_or_else(..)`
abbrev pub first_or : Text → List Text → Text
first_or d [] = d
first_or d (t ∷ _) = t

-- `format!("{kind}|{exception}|{}", sig_frames.join("|"))`
unfoldable pub signature_input : Text → Text → List Text → Text
signature_input kind exception frames =
    kind ++ (b'|' ∷ (exception ++ (b'|' ∷ join (codes "|") frames)))

unfoldable pub compute : (Text → Text) → Text → Text → List Frame → CrashSignature
unfolding trace_loop signature_input
compute hex_digest kind exception_line frames =
    let exception = normalize_exception exception_line in
    let s = trace_loop no_trace frames in
    record {
      signature = hex_digest (signature_input kind exception s.sig_frames);
      title = first_or exception s.sig_frames;
      modules = s.modules;
    }
