-- ===== src/BuildId/Layout.antt =====
-- What `resolve` of crates/ucrs-common/src/buildid.rs can answer: only links below `.build-id`, and
-- the same for both cases of the letters.
use ucrashreport_server.Base.{
  Bool, [], all, ap, append_assoc, ap₂, arith, false, length, length-map, refl, some, sym, true, ℕ,
  ◌++◌, ◌+◌, ◌||◌, ◌∙◌, ◌∷◌, ◌≡◌, ◌≤◌,
}
use ucrashreport_server.BuildId.FilePath.{path_join}
use ucrashreport_server.BuildId.Joins.{IsClosed, IsRelative, join-IsClosed, path_join-IsClosed}
use ucrashreport_server.BuildId.Resolve.{ascii_lowercase, build_id_link, resolve}
use ucrashreport_server.Text.{
  Text, byte_len, codes, is_ascii_hexdigit, len_utf8, starts_with, to_ascii_lowercase, within,
}

-- `0` to `9` and `a` to `f`
abbrev pub is_lower_hex : ℕ → Bool
is_lower_hex c = within b'0' b'9' c || within b'a' b'f' c

to_ascii_lowercase-hex :
    (c : ℕ) → is_ascii_hexdigit c ≡ true → is_lower_hex (to_ascii_lowercase c) ≡ true
unfolding is_ascii_hexdigit to_ascii_lowercase
to_ascii_lowercase-hex c h = ground arith

all-lowercase :
    (t : Text) → all is_ascii_hexdigit t ≡ true → all is_lower_hex (ascii_lowercase t) ≡ true
unfolding ascii_lowercase
all-lowercase [] h = refl
all-lowercase (c ∷ t) h = ground (arith, to_ascii_lowercase-hex c, all-lowercase t)

is_ascii_hexdigit-lowercase :
    (c : ℕ) → is_ascii_hexdigit (to_ascii_lowercase c) ≡ is_ascii_hexdigit c
unfolding is_ascii_hexdigit to_ascii_lowercase
is_ascii_hexdigit-lowercase c = ground arith

all_hex-lowercase : (t : Text) → all is_ascii_hexdigit (ascii_lowercase t) ≡ all is_ascii_hexdigit t
unfolding ascii_lowercase
all_hex-lowercase [] = refl
all_hex-lowercase (c ∷ t) = ground (arith, is_ascii_hexdigit-lowercase c, all_hex-lowercase t)

len_utf8-lowercase : (c : ℕ) → len_utf8 (to_ascii_lowercase c) ≡ len_utf8 c
unfolding to_ascii_lowercase
len_utf8-lowercase c = ground arith

byte_len-lowercase : (t : Text) → byte_len (ascii_lowercase t) ≡ byte_len t
unfolding ascii_lowercase byte_len
byte_len-lowercase [] = refl
byte_len-lowercase (c ∷ t) = ap₂ ◌+◌ (len_utf8-lowercase c) (byte_len-lowercase t)

-- Build-ids that differ in the case of their letters have one answer.
pub resolve-ascii_lowercase :
    (path_exists : Text → Bool) (pool_root a b : Text)
    → ascii_lowercase a ≡ ascii_lowercase b
    → resolve path_exists pool_root a ≡ resolve path_exists pool_root b
unfolding resolve
resolve-ascii_lowercase path_exists pool_root a b same =
    let size : byte_len a ≡ byte_len b =
      sym (byte_len-lowercase a) ∙ ap byte_len same ∙ byte_len-lowercase b in
    let hex : all is_ascii_hexdigit a ≡ all is_ascii_hexdigit b =
      sym (all_hex-lowercase a) ∙ ap (all is_ascii_hexdigit) same ∙ all_hex-lowercase b in
    rw (size, hex, same)

-- A link of the layout `<pool>/.build-id/xx/yyyy.debug`.
pub record IsLink (pool_root link : Text) : Type 0 where
  pub dir : Text
  pub file : Text
  pub shape :
      link
      ≡ path_join pool_root (codes ".build-id")
        ++ (b'/' ∷ (dir ++ (b'/' ∷ (file ++ codes ".debug"))))
  pub dir_length : length dir ≡ 2
  pub dir_hex : all is_lower_hex dir ≡ true
  pub file_length : 2 ≤ length file
  pub file_hex : all is_lower_hex file ≡ true

byte_len-hex : (t : Text) → all is_ascii_hexdigit t ≡ true → byte_len t ≡ length t
unfolding byte_len is_ascii_hexdigit
byte_len-hex [] h = refl
byte_len-hex (c ∷ t) h = ground (arith, byte_len-hex t)

hex-IsClosed : (a b : ℕ) → is_lower_hex b ≡ true → IsClosed (a ∷ b ∷ [])
hex-IsClosed a b h = record {
  front = a ∷ [];
  last = b;
  parts = refl;
  last_not_slash = ground arith;
}

hex_relative : (c : ℕ) (t : Text) → is_lower_hex c ≡ true → starts_with (c ∷ t) (codes "/") ≡ false
unfolding starts_with
hex_relative c t h = ground arith

build_id-IsClosed : IsClosed (codes ".build-id")
build_id-IsClosed = record {
  front = codes ".build-i";
  last = b'd';
  parts = refl;
  last_not_slash = refl;
}

-- Two joins under a closed directory.
join_twice :
    (root d f : Text)
    → IsClosed root
    → IsClosed d
    → IsRelative d
    → IsRelative f
    → path_join (path_join root d) f ≡ root ++ (b'/' ∷ (d ++ (b'/' ∷ f)))
join_twice root d f closed_root closed_d rel_d rel_f =
    path_join-IsClosed (path_join root d) f (join-IsClosed root d closed_d rel_d) rel_f
    ∙ ap (λ t. t ++ b'/' ∷ f) (path_join-IsClosed root d closed_root rel_d)
    ∙ append_assoc root (b'/' ∷ d) (b'/' ∷ f)

build_id_link-IsLink :
    (pool_root id : Text)
    → 4 ≤ length id
    → all is_lower_hex id ≡ true
    → IsLink pool_root (build_id_link pool_root id)
unfolding build_id_link
build_id_link-IsLink pool_root (a ∷ b ∷ c ∷ d ∷ id) long hex = record {
  dir = a ∷ b ∷ [];
  file = c ∷ d ∷ id;
  shape =
      join_twice (path_join pool_root (codes ".build-id")) (a ∷ b ∷ [])
        (c ∷ d ∷ (id ++ codes ".debug"))
        (join-IsClosed pool_root (codes ".build-id") build_id-IsClosed (unfold starts_with in refl))
        (hex-IsClosed a b (ground arith)) (hex_relative a (b ∷ []) (ground arith))
        (hex_relative c (d ∷ (id ++ codes ".debug")) (ground arith));
  dir_length = refl;
  dir_hex = ground arith;
  file_length = omega arith;
  file_hex = ground arith;
}
build_id_link-IsLink pool_root _ long hex = absurd (omega arith)

resolve-inverse :
    (path_exists : Text → Bool) (pool_root id link : Text)
    → resolve path_exists pool_root id ≡ some link
    → (4 ≤ byte_len id)
      × (all is_ascii_hexdigit id ≡ true)
      × (link ≡ build_id_link pool_root (ascii_lowercase id))
      × (path_exists link ≡ true)
unfolding resolve
resolve-inverse path_exists pool_root id link h = ground arith

length-ascii_lowercase : (t : Text) → length (ascii_lowercase t) ≡ length t
unfolding ascii_lowercase
length-ascii_lowercase t = length-map t to_ascii_lowercase

-- An answer is an existing link below `.build-id` of the pool, whatever text the id is: it has no
-- part from outside.
pub resolve-IsLink :
    (path_exists : Text → Bool) (pool_root build_id : Text) {link : Text}
    → resolve path_exists pool_root build_id ≡ some link
    → IsLink pool_root link × (path_exists link ≡ true)
resolve-IsLink path_exists pool_root build_id {link} h =
    let (long, hex, answer, there) = resolve-inverse path_exists pool_root build_id link h in
    let lower : length (ascii_lowercase build_id) ≡ length build_id =
      length-ascii_lowercase build_id in
    (
      rw answer (
          build_id_link-IsLink pool_root (ascii_lowercase build_id)
            (omega (arith, byte_len-hex build_id hex, lower, long)) (all-lowercase build_id hex)),
      there,
    )
