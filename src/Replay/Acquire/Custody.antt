-- ===== src/Replay/Acquire/Custody.antt =====
-- What is in custody after an acquisition that passed.
use go2_local_navigation.Prelude.{
  ◌≡◌, ◌∙◌, refl, String, Bool, true, false, Option, none, some, Result, ok, err, if◌then◌else◌,
}
use go2_local_navigation.Prelude.Text.{str_eq}
use go2_local_navigation.Replay.Contract.{AcquisitionError, SourceSpec}
use go2_local_navigation.Replay.Files.{
  FileEntry, Files, unlink, replace, replace_entry, exists, verify_file,
}
use go2_local_navigation.Replay.Download.{download_attempts}
use go2_local_navigation.Replay.Download.Outcome.{
  str_eq_self, unlink-other, IsVerified, verify_file-IsVerified,
}
use go2_local_navigation.Replay.Acquire.{
  AcquisitionPaths, Outside, promoted_archive, promote_verified_archive, without_staged_archive,
  downloaded, obtain_archive,
}

abbrev pub Differ : String → String → Type 0
Differ p q = str_eq p q ≡ false

-- The staged paths are in temporary directories of their own.
pub record IsApart (paths : AcquisitionPaths) : Type 0 where
  pub archive : Differ paths.archive_path paths.staged_archive
  pub archive_extracted : Differ paths.archive_path paths.staged_extracted
  pub archive_partial : Differ paths.archive_path paths.staged_partial
  pub archive_final : Differ paths.archive_path paths.extracted_path

replaced_there :
    (entry : Option FileEntry) (source destination : String) (files : Files) {e : FileEntry}
    → entry ≡ some e
    → replace_entry entry source destination files destination ≡ some e
replaced_there none source destination files h = cc
replaced_there (some e) source destination files h = rw (str_eq_self destination) h

-- A replacement leaves the other paths.
pub replace-other :
    (entry : Option FileEntry) (source destination q : String) (files : Files)
    → Differ q source
    → Differ q destination
    → replace_entry entry source destination files q ≡ files q
replace-other none source destination q files s d = refl
replace-other (some e) source destination q files s d = rw d (rw s refl)

module _ (w : Outside) (spec : SourceSpec) (paths : AcquisitionPaths) (apart : IsApart paths) where
  abbrev Verified : Files → String → String → Type 0
  Verified files path digest =
      IsVerified w.sha256 files path spec.archive_size_bytes spec.archive_sha256 digest

  moved :
      (files : Files) (digest : String)
      → Verified files paths.staged_archive digest
      → Verified
          (unlink paths.staged_archive (replace paths.staged_archive paths.archive_path files))
          paths.archive_path
          digest
  moved files digest v = record {
    content = v.content;
    there =
        unlink-other paths.staged_archive paths.archive_path
          (replace paths.staged_archive paths.archive_path files) apart.archive
        ∙ replaced_there (files paths.staged_archive) paths.staged_archive paths.archive_path files
            v.there;
    exact_size = v.exact_size;
    same_hash = v.same_hash;
    reported = v.reported;
  }

  promoted-Verified :
      (files : Files) (r : Result AcquisitionError String) {digest : String}
      → ((d : String) → r ≡ ok d → Verified files paths.staged_archive d)
      → (without_staged_archive w spec paths (promoted_archive w spec paths (files, r))).1
        ≡ ok digest
      → Verified
          (without_staged_archive w spec paths (promoted_archive w spec paths (files, r))).0
          paths.archive_path
          digest
  promoted-Verified files (ok d) f h = moved files _ (f _ h)
  promoted-Verified files (err e) f h = cc

  pub obtain_archive-Verified :
      (files : Files) {digest : String}
      → (obtain_archive w spec paths files).1 ≡ ok digest
      → Verified (obtain_archive w spec paths files).0 paths.archive_path digest
  unfolding obtain_archive promote_verified_archive
  obtain_archive-Verified files h = go (exists paths.archive_path files) h
    where
      promote :
          (files : Files) {digest : String}
          → (without_staged_archive w spec paths (promote_verified_archive w spec paths files)).1
            ≡ ok digest
          → Verified
              (without_staged_archive w spec paths (promote_verified_archive w spec paths files)).0
              paths.archive_path
              digest
      promote files h =
          promoted-Verified files
            (verify_file w.sha256 files paths.staged_archive spec.archive_size_bytes
              spec.archive_sha256)
            (λ d e.
              verify_file-IsVerified w.sha256 files paths.staged_archive spec.archive_size_bytes
                spec.archive_sha256 d e)
            h

      fetch :
          (r : Files × Result AcquisitionError String) {digest : String}
          → (without_staged_archive w spec paths (downloaded w spec paths r)).1 ≡ ok digest
          → Verified
              (without_staged_archive w spec paths (downloaded w spec paths r)).0
              paths.archive_path
              digest
      fetch (files, ok d) h = promote files h
      fetch (files, err e) h = cc

      go :
          (there : Bool) {digest : String}
          → (if there
              then (
                files,
                verify_file w.sha256 files paths.archive_path spec.archive_size_bytes
                    spec.archive_sha256,
              )
              else without_staged_archive w spec paths (
                  downloaded w spec paths
                    (download_attempts w.sha256 w.curl spec paths.staged_archive files))).1
            ≡ ok digest
          → Verified
              (if there
                then (
                  files,
                  verify_file w.sha256 files paths.archive_path spec.archive_size_bytes
                      spec.archive_sha256,
                )
                else without_staged_archive w spec paths (
                    downloaded w spec paths
                      (download_attempts w.sha256 w.curl spec paths.staged_archive files))).0
              paths.archive_path
              digest
      go true h =
          verify_file-IsVerified w.sha256 files paths.archive_path spec.archive_size_bytes
            spec.archive_sha256 _ h
      go false h = fetch (download_attempts w.sha256 w.curl spec paths.staged_archive files) h
