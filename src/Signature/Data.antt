-- ===== src/Signature/Data.antt =====
-- The data of crates/ucrs-common/src/signature.rs: trace frames and signatures.
use ucrashreport_server.Base.{Bool, List, Option, ℕ}
use ucrashreport_server.Text.{Text}

pub record Frame : Type 0 where
  pub symbol : Text
  pub module_name : Option Text
  pub questionable : Bool

pub record CrashSignature : Type 0 where
  pub signature : Text
  pub title : Text
  pub modules : List Text

abbrev pub signature_frames : ℕ
signature_frames = 5
