-- ===== src/Signature/Stability.antt =====
-- The same crash on another device: `compute` of crates/ucrs-common/src/signature.rs does not see
-- addresses in the exception line or offsets in the symbols.
use ucrashreport_server.Base.{
  Bool, List, Option, [], ap, false, is_empty, not, refl, sym, true, ◌++◌, ◌∙◌, ◌∷◌, ◌≡◌,
}
use ucrashreport_server.Signature.Compute.{Trace, compute, frame_step, no_trace, trace_loop}
use ucrashreport_server.Signature.Cut.{normalize_symbol-offset}
use ucrashreport_server.Signature.Data.{Frame}
use ucrashreport_server.Signature.Exception.{
  is_address, normalize_exception, normalize_tokens, token_step, token_text,
}
use ucrashreport_server.Signature.Symbol.{offset_mark}
use ucrashreport_server.Text.{Text, split_whitespace, trim}
use ucrashreport_server.Text.Words.{
  IsWord, split_whitespace-IsWord, split_whitespace-append_space, split_whitespace-trim,
}

is_empty-append_cons :
    (xs : List Text) (a : Text) (ys : List Text) → is_empty (xs ++ a ∷ ys) ≡ false
is_empty-append_cons [] a ys = refl
is_empty-append_cons (x ∷ xs) a ys = refl

token_step-address :
    (out t : Text) (has_next : Bool)
    → is_address t ≡ true
    → token_step out t has_next ≡ (false, out)
unfolding token_step
token_step-address out t has_next h = rw h

-- An address leaves no trace.
normalize_tokens-skip :
    (a : Text) (rest : List Text) (out : Text)
    → is_address (token_text a) ≡ true
    → normalize_tokens false out (a ∷ rest) ≡ normalize_tokens false out rest
unfolding normalize_tokens token_step
normalize_tokens-skip a rest out h =
    ap (λ (r : Bool × Text). normalize_tokens r.0 r.1 rest)
      (token_step-address out (token_text a) (not (is_empty rest)) h)

normalize_tokens-next :
    (x : Text) (rest : List Text) (out : Text)
    → is_empty rest ≡ false
    → normalize_tokens false out (x ∷ rest)
      ≡ (let (taken, out') = token_step out (token_text x) true in normalize_tokens taken out' rest)
unfolding normalize_tokens
normalize_tokens-next x rest out h =
    ap
      (λ e.
        let (taken, out') = token_step out (token_text x) (not e) in
        normalize_tokens taken out' rest)
      h

normalize_tokens-address :
    (xs ys : List Text) (a b : Text) (taken : Bool) (out : Text)
    → is_address (token_text a) ≡ true
    → is_address (token_text b) ≡ true
    → normalize_tokens taken out (xs ++ a ∷ ys) ≡ normalize_tokens taken out (xs ++ b ∷ ys)
unfolding normalize_tokens
normalize_tokens-address [] ys a b true out ha hb = refl
normalize_tokens-address [] ys a b false out ha hb =
    normalize_tokens-skip a ys out ha ∙ sym (normalize_tokens-skip b ys out hb)
normalize_tokens-address (x ∷ xs) ys a b true out ha hb =
    normalize_tokens-address xs ys a b false out ha hb
normalize_tokens-address (x ∷ xs) ys a b false out ha hb =
    normalize_tokens-next x (xs ++ a ∷ ys) out (is_empty-append_cons xs a ys)
    ∙ normalize_tokens-address xs ys a b _ _ ha hb
    ∙ sym (normalize_tokens-next x (xs ++ b ∷ ys) out (is_empty-append_cons xs b ys))

-- A word that, less its brackets and commas, is an address or a long hexadecimal id.
abbrev pub IsAddress : Text → Type 0
IsAddress a = IsWord a × (is_address (token_text a) ≡ true)

words_around :
    (p a q : Text)
    → IsAddress a
    → split_whitespace (trim (p ++ b' ' ∷ (a ++ b' ' ∷ q)))
      ≡ split_whitespace p ++ a ∷ split_whitespace q
words_around p a q h =
    split_whitespace-trim (p ++ b' ' ∷ (a ++ b' ' ∷ q))
    ∙ split_whitespace-append_space p (a ++ b' ' ∷ q)
    ∙ ap (◌++◌ (split_whitespace p)) (
        split_whitespace-append_space a q
        ∙ ap (λ l. l ++ split_whitespace q) (split_whitespace-IsWord a h.0))

-- Exception lines that differ in one address normalise to the same text, whatever stands around it.
pub normalize_exception-address :
    (p a b q : Text)
    → IsAddress a
    → IsAddress b
    → normalize_exception (p ++ b' ' ∷ (a ++ b' ' ∷ q))
      ≡ normalize_exception (p ++ b' ' ∷ (b ++ b' ' ∷ q))
unfolding normalize_exception
normalize_exception-address p a b q ha hb =
    ap (normalize_tokens false []) (words_around p a q ha)
    ∙ normalize_tokens-address (split_whitespace p) (split_whitespace q) a b false [] ha.1 hb.1
    ∙ ap (normalize_tokens false []) (sym (words_around p b q hb))

-- The frames are the same but for what follows "+0x" in the symbols.
pub data SameCode : List Frame → List Frame → Type 0 where
  nil : SameCode [] []
  cons :
      (s o o' : Text) {m : Option Text} {q : Bool} {fs gs : List Frame}
      → SameCode fs gs
      → SameCode
          (record { symbol = s ++ (offset_mark ++ o); module_name = m; questionable = q } ∷ fs)
          (record { symbol = s ++ (offset_mark ++ o'); module_name = m; questionable = q } ∷ gs)

trace_loop-SameCode :
    {fs gs : List Frame} → SameCode fs gs → (t : Trace) → trace_loop t fs ≡ trace_loop t gs
unfolding trace_loop frame_step
trace_loop-SameCode nil t = refl
trace_loop-SameCode (cons s o o' rest) t =
    rw (normalize_symbol-offset s o, normalize_symbol-offset s o') (trace_loop-SameCode rest _)

-- Two reports of one kind whose exception lines differ in one address and whose frames differ only
-- in offsets and sizes have the same signature, title and modules.
pub compute-SameCode :
    (hex_digest : Text → Text) (kind p a b q : Text) {fs gs : List Frame}
    → IsAddress a
    → IsAddress b
    → SameCode fs gs
    → compute hex_digest kind (p ++ b' ' ∷ (a ++ b' ' ∷ q)) fs
      ≡ compute hex_digest kind (p ++ b' ' ∷ (b ++ b' ' ∷ q)) gs
unfolding compute
compute-SameCode hex_digest kind p a b q ha hb same =
    rw (normalize_exception-address p a b q ha hb, trace_loop-SameCode same no_trace)
