-- ===== src/Signature/Exception.antt =====
-- `normalize_exception` of crates/ucrs-common/src/signature.rs.
use ucrashreport_server.Base.{
  Bool, List, [], all, any, false, if◌then◌else◌, is_empty, leb, not, true, ◌&&◌, ◌++◌, ◌==◌, ◌||◌,
  ◌∷◌,
}
use ucrashreport_server.Text.{
  Text, byte_len, codes, contains, is_ascii_digit, is_ascii_hexdigit, split_whitespace, starts_with,
  text_eq, trim, trim_matches,
}

-- `tok.trim_matches` with its closure
unfoldable pub token_text : Text → Text
token_text tok = trim_matches (λ c. c == b'[' || c == b']' || c == b',') tok

-- Hexadecimal addresses and long hexadecimal ids.
unfoldable pub is_address : Text → Bool
is_address t = starts_with t (codes "0x") || leb 4 (byte_len t) && all is_ascii_hexdigit t

-- The labels of `matches!`, less "at", which the loop keeps.
unfoldable pub is_noise_label : Text → Bool
is_noise_label t =
    any (λ label. text_eq t label)
      (codes "CPU:" ∷ codes "PID:" ∷ codes "Comm:" ∷ codes "Tainted:" ∷ [])

-- The die counter "[#1]" and timestamps.
unfoldable pub is_counter : Text → Bool
is_counter t =
    starts_with t (codes "#")
    || contains t (codes ".") && all (λ c. is_ascii_digit c || c == b'.') t

-- Appends a token, with a space if something stands there.
unfoldable pub push_token : Text → Text → Text
push_token out t = if is_empty out then t else out ++ (b' ' ∷ t)

-- One round of the loop: whether the next token is taken as well, and the text so far. The last
-- argument is `chars.peek().is_some()`.
unfoldable pub token_step : Text → Text → Bool → Bool × Text
unfolding push_token
token_step out t has_next =
    if is_address t
    then (false, out)
    else if is_noise_label t && has_next
    then (true, out)
    else if is_counter t
    then (false, out)
    else (false, push_token out t)

-- The loop over the tokens; the flag says that `chars.next()` of the round before takes this one.
unfoldable pub normalize_tokens : Bool → Text → List Text → Text
normalize_tokens taken out [] = out
normalize_tokens taken out (tok ∷ rest) =
    let (taken', out') =
      if taken then (false, out) else token_step out (token_text tok) (not (is_empty rest)) in
    normalize_tokens taken' out' rest

unfoldable pub normalize_exception : Text → Text
unfolding normalize_tokens
normalize_exception line = normalize_tokens false [] (split_whitespace (trim line))
