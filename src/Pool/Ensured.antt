-- ===== src/Pool/Ensured.antt =====
-- What `ensure_kernel` of crates/ucrs-decoder/src/symbols.rs has done when it gives a directory.
use ucrashreport_server.Base.{
  Bool, Bool-cases, Option, ap, arith, false, inl, inr, none, not, refl, some, some-eq, subst, sym,
  true, ℕ, ◌&&◌, ◌||◌, ◌∙◌, ◌≡◌, ◌⊎◌,
}
use ucrashreport_server.Base.Results.{Result, err, ok}
use ucrashreport_server.Base.Steps.{continue-ok}
use ucrashreport_server.BuildId.{ascii_lowercase}
use ucrashreport_server.Pool.Downloads.{download-le}
use ucrashreport_server.Pool.Fetch.{download, fetch_expected_sha256}
use ucrashreport_server.Pool.Index.{extract_tarball, file_build_id, index_build_ids}
use ucrashreport_server.Pool.Kernel.{
  checksum_ok, ensure_kernel, ensure_tree, eq_ignore_ascii_case, fetch_kernel, finish_extract,
  install_kernel, is_stale_build, kernel_dest, kernel_url, stamp_bytes, stamp_of, use_cached,
  vmlinux_of,
}
use ucrashreport_server.Pool.Libs.{PoolError, PoolLibs, SymbolPool}
use ucrashreport_server.Pool.Paths.{Files, path_exists, remove_dir_all, write_file}
use ucrashreport_server.Text.{Text, codes, contains, starts_with, text_eq_iff}
use ucrashreport_server.Usign.{Bytes}

module _ (libs : PoolLibs) (pool : SymbolPool) (now : ℕ) where
  -- The tarball of the URL, and the files after its extraction.
  pub record IsFetched (url dest : Text) (files files' : Files) : Type 0 where
    pub tarball : Bytes
    pub extracted : Files
    pub downloaded : download libs url files ≡ (ok tarball, files)
    pub verified :
        starts_with url (codes "file://") ≡ false
        → (sum : Text) → fetch_expected_sha256 libs url ≡ ok sum
        → libs.hex_sha256 tarball ≡ sum
    pub unpacked : extract_tarball libs tarball dest files ≡ (ok tt, extracted)
    pub complete : path_exists (vmlinux_of dest) extracted ≡ true
    pub stamped :
        files'
        ≡ write_file
            (stamp_of dest)
            (stamp_bytes now)
            (index_build_ids libs dest pool.dir extracted).1

  finish_extract-ok :
      (dest got : Text) (files files' : Files)
      → finish_extract libs pool now dest files ≡ (ok got, files')
      → (got ≡ dest)
        × (path_exists (vmlinux_of dest) files ≡ true)
        × (files'
            ≡ write_file
                (stamp_of dest)
                (stamp_bytes now)
                (index_build_ids libs dest pool.dir files).1)
  unfolding finish_extract
  finish_extract-ok dest got files files' h =
      elim (Bool-cases (path_exists (vmlinux_of dest) files)) [
        | inl e ↦ let h' = rw e at h in (ground (arith, h'), e, ap (λ p. p.1) (sym h'))
        | inr e ↦ cc (rw e at h)
      ]

  checksum_ok-eq :
      (r : Result PoolError Text) (got sum : Text)
      → checksum_ok r got ≡ true
      → r ≡ ok sum
      → got ≡ sum
  unfolding checksum_ok
  checksum_ok-eq (ok expected) got sum h e = (text_eq_iff got expected).0 h ∙ ground (arith, e)
  checksum_ok-eq (err _) got sum h e = cc

  install_kernel-IsFetched :
      (url dest got : Text) (tarball : Bytes) (files files' : Files)
      → download libs url files ≡ (ok tarball, files)
      → install_kernel libs pool now url dest tarball files ≡ (ok got, files')
      → (got ≡ dest) × IsFetched url dest files files'
  unfolding install_kernel
  install_kernel-IsFetched url dest got tarball files files' d h =
      elim (Bool-cases (
        not (starts_with url (codes "file://"))
        && not (checksum_ok (fetch_expected_sha256 libs url) (libs.hex_sha256 tarball)))) [
          | inl e ↦ cc (rw e at h)
          | inr e ↦
              let (_, extracted, unpacked, rest) =
                continue-ok (λ _. finish_extract libs pool now dest)
                  (extract_tarball libs tarball dest files) got files' (rw e at h) in
              let (is_dest, complete, stamped) = finish_extract-ok dest got extracted files' rest in
              (
                is_dest,
                record {
                  tarball = tarball;
                  extracted = extracted;
                  downloaded = d;
                  verified = λ remote sum published.
                      checksum_ok-eq (fetch_expected_sha256 libs url) (libs.hex_sha256 tarball) sum
                        (ground (arith, e, remote)) published;
                  unpacked = unpacked;
                  complete = complete;
                  stamped = stamped;
                },
              )
        ]

  fetch_kernel-IsFetched :
      (url dest got : Text) (files files' : Files)
      → fetch_kernel libs pool now url dest files ≡ (ok got, files')
      → (got ≡ dest) × IsFetched url dest files files'
  unfolding fetch_kernel
  fetch_kernel-IsFetched url dest got files files' h =
      let (tarball, files1, downloaded, rest) =
        continue-ok (install_kernel libs pool now url dest) (download libs url files) got files'
          h in
      let (_, same) = download-le libs url files files1 tarball downloaded in
      install_kernel-IsFetched url dest got tarball files files'
        (downloaded ∙ ap (λ fs. (ok tarball, fs)) same)
        (ap (install_kernel libs pool now url dest tarball) (sym same) ∙ rest)

  -- The tree of the build is there, and only the stamp is written.
  pub record IsCached (expected_buildid : Option Text) (dest : Text) (files files' : Files)
      : Type 0 where
    pub there : path_exists (vmlinux_of dest) files ≡ true
    pub of_build :
        (expected got : Text)
        → expected_buildid ≡ some expected
        → file_build_id libs (vmlinux_of dest) files ≡ some got
        → ascii_lowercase got ≡ ascii_lowercase expected
    pub stamped : files' ≡ write_file (stamp_of dest) (stamp_bytes now) files

  is_stale_build-false :
      (o b : Option Text) (expected got : Text)
      → is_stale_build o b ≡ false
      → o ≡ some expected
      → b ≡ some got
      → ascii_lowercase got ≡ ascii_lowercase expected
  unfolding is_stale_build eq_ignore_ascii_case
  is_stale_build-false none b expected got h e f = cc
  is_stale_build-false (some x) none expected got h e f = cc
  is_stale_build-false (some x) (some y) expected got h e f =
      ap ascii_lowercase (sym (some-eq y got f))
      ∙ (text_eq_iff (ascii_lowercase y) (ascii_lowercase x)).0 (ground (arith, h))
      ∙ ap ascii_lowercase (some-eq x expected e)

  -- How the directory came to be there.
  pub IsEnsured : Text → Option Text → Text → Files → Files → Type 0
  IsEnsured url expected_buildid dest files files' =
      IsCached expected_buildid dest files files'
      ⊎ (IsFetched url dest files files' ⊎ IsFetched url dest (remove_dir_all dest files) files')

  ensure_tree-IsEnsured :
      (there stale : Bool) (url : Text) (expected_buildid : Option Text) (dest got : Text)
      (files files' : Files)
      → path_exists (vmlinux_of dest) files ≡ there
      → is_stale_build expected_buildid (file_build_id libs (vmlinux_of dest) files) ≡ stale
      → ensure_tree libs pool now there stale url dest files ≡ (ok got, files')
      → (got ≡ dest) × IsEnsured url expected_buildid dest files files'
  unfolding ensure_tree use_cached IsEnsured
  ensure_tree-IsEnsured false stale url expected dest got files files' t b h =
      let (is_dest, fetched) = fetch_kernel-IsFetched url dest got files files' h in
      (is_dest, inr (inl fetched))
  ensure_tree-IsEnsured true true url expected dest got files files' t b h =
      let (is_dest, fetched) =
        fetch_kernel-IsFetched url dest got (remove_dir_all dest files) files' h in
      (is_dest, inr (inr fetched))
  ensure_tree-IsEnsured true false url expected dest got files files' t b h = (
    ground (arith, h),
    inl (record {
      there = t;
      of_build = λ x y e f.
          is_stale_build-false expected (file_build_id libs (vmlinux_of dest) files) x y b e f;
      stamped = ap (λ p. p.1) (sym h);
    }),
  )

  -- A directory that `ensure_kernel` gives is the one of the version and the target, which have no
  -- "..". Either its tree was there, with the build-id that was asked for if both are known, and
  -- only the stamp is new; or the tarball of the URL was extracted, with the published checksum if
  -- one was published and the URL is not a local file, and it holds a vmlinux.
  pub ensure_kernel-IsEnsured :
      (version target : Text) (expected_buildid : Option Text) (dest : Text) (files files' : Files)
      → ensure_kernel libs pool now version target expected_buildid files ≡ (ok dest, files')
      → (contains version (codes "..") ≡ false)
        × (contains target (codes "..") ≡ false)
        × (dest ≡ kernel_dest libs pool now version target)
        × IsEnsured (kernel_url libs pool now version target) expected_buildid dest files files'
  unfolding ensure_kernel IsEnsured
  ensure_kernel-IsEnsured version target expected dest files files' h =
      elim (Bool-cases (contains version (codes "..") || contains target (codes ".."))) [
        | inl e ↦ cc (rw e at h)
        | inr e ↦
            let (is_dest, ensured) =
              ensure_tree-IsEnsured _ _ (kernel_url libs pool now version target) expected
                (kernel_dest libs pool now version target) dest files files' refl refl
                (rw e at h) in
            (
              ground (arith, e),
              ground (arith, e),
              is_dest,
              subst
                  (λ d. IsEnsured (kernel_url libs pool now version target) expected d files files')
                  (sym is_dest) ensured,
            )
      ]
