-- ===== src/Replay/Acquire/Keeps.antt =====
-- What an acquisition that passed has in custody.
use go2_local_navigation.Prelude.{
  ◌≡◌, ◌∙◌, refl, ap, String, Bool, true, false, Option, none, some, Result, ok, err, ◌>>=◌,
  if◌then◌else◌,
}
use mathlib.Core.Path.{subst}
use go2_local_navigation.Prelude.Int.{pos_part}
use go2_local_navigation.Replay.Contract.{AcquisitionError, conflict, deferred, SourceSpec}
use go2_local_navigation.Replay.Files.{
  FileEntry, regular, special, Files, unlink, exists, verify_regular_size, file_sha256,
}
use go2_local_navigation.Replay.Files.Member.{extract_single_mcap}
use go2_local_navigation.Replay.Download.Outcome.{unlink-other, IsVerified}
use go2_local_navigation.Replay.Acquire.{
  AcquisitionPaths, AcquisitionResult, passed, Outside, failure_result, extracted_run,
  promote_entry, without_staged, members_of, obtain_archive, obtain_extracted, acquired_run,
  with_archive, with_space, space_for, acquire_external_replay,
}
use go2_local_navigation.Replay.Acquire.Custody.{IsApart, replace-other, obtain_archive-Verified}
use go2_local_navigation.Replay.Acquire.Leaves.{Keeps, extract-Keeps}

module _ (w : Outside) (spec : SourceSpec) (paths : AcquisitionPaths) (apart : IsApart paths) where
  abbrev Kept : Files → Option (Files × Result AcquisitionError String) → Type 0
  Kept before run = Keeps paths.archive_path before run

  promoted_entry-Keeps :
      (entry : Option FileEntry) (before files : Files) (digest : String)
      → files paths.archive_path ≡ before paths.archive_path
      → Kept before (some (promote_entry w spec paths entry files digest))
  promoted_entry-Keeps (some (regular bytes)) before files digest h =
      replace-other (files paths.staged_extracted) paths.staged_extracted paths.extracted_path
        paths.archive_path files apart.archive_extracted apart.archive_final
      ∙ h
  promoted_entry-Keeps (some special) before files digest h = h
  promoted_entry-Keeps none before files digest h = h

  without_staged-Keeps :
      (before : Files) (r : Files × Result AcquisitionError String)
      → Kept before (some r)
      → Kept before (some (without_staged w spec paths r))
  without_staged-Keeps before (files, r) h =
      unlink-other paths.staged_partial paths.archive_path (unlink paths.staged_extracted files)
        apart.archive_partial
      ∙ unlink-other paths.staged_extracted paths.archive_path files apart.archive_extracted
      ∙ h

  extracted_run-Keeps :
      (before : Files) (run : Option (Files × Result AcquisitionError String))
      → Kept before run
      → Kept before (extracted_run w spec paths run)
  extracted_run-Keeps before none h = tt
  extracted_run-Keeps before (some (files, ok digest)) h =
      without_staged-Keeps before
        (promote_entry w spec paths (files paths.staged_extracted) files digest)
        (promoted_entry-Keeps (files paths.staged_extracted) before files digest h)
  extracted_run-Keeps before (some (files, err e)) h = without_staged-Keeps before (files, err e) h

  obtain_extracted-Keeps : (files : Files) → Kept files (obtain_extracted w spec paths files)
  unfolding obtain_extracted
  obtain_extracted-Keeps files = go (exists paths.extracted_path files)
    where
      go :
          (there : Bool)
          → Kept files (
              if there
              then some (
                files,
                verify_regular_size files paths.extracted_path spec.extracted_size_bytes >>= λ _.
                    file_sha256 w.sha256 files paths.extracted_path,
              )
              else extracted_run w spec paths (
                  extract_single_mcap w.sha256 w.write_fails files
                    (members_of w (files paths.archive_path))
                    paths.staged_partial
                    paths.staged_extracted
                    (pos_part spec.extracted_size_bytes)))
      go true = refl
      go false =
          extracted_run-Keeps files
            (extract_single_mcap w.sha256 w.write_fails files
              (members_of w (files paths.archive_path)) paths.staged_partial paths.staged_extracted
              (pos_part spec.extracted_size_bytes))
            (extract-Keeps w.sha256 paths.archive_path files w.write_fails paths.staged_partial
              paths.staged_extracted (pos_part spec.extracted_size_bytes) apart.archive_partial
              apart.archive_extracted files (members_of w (files paths.archive_path)) refl)

  -- the archive is verified, and its hash is the one that is reported
  abbrev pub InCustody : Files → AcquisitionResult → Type 0
  InCustody after result =
      IsVerified w.sha256 after paths.archive_path spec.archive_size_bytes spec.archive_sha256
        spec.archive_sha256
      × (result.archive_sha256 ≡ some spec.archive_sha256)

  abbrev IsHonest : Option (Files × AcquisitionResult) → Type 0
  IsHonest none = Unit
  IsHonest (some (after, result)) = result.status ≡ passed → InCustody after result

  failure-IsHonest :
      (files : Files) (e : AcquisitionError)
      → IsHonest (some (files, failure_result spec.source_id e))
  unfolding failure_result
  failure-IsHonest files (deferred reason) h = cc
  failure-IsHonest files (conflict reason) h = cc

  acquired_run-IsHonest :
      (files : Files) (digest : String) (run : Option (Files × Result AcquisitionError String))
      → IsVerified w.sha256 files paths.archive_path spec.archive_size_bytes spec.archive_sha256
          digest
      → Kept files run
      → IsHonest (acquired_run w spec paths digest run)
  acquired_run-IsHonest files digest none v k = tt
  acquired_run-IsHonest files digest (some (after, ok found)) v k = λ h. (
    record {
      content = v.content;
      there = k ∙ v.there;
      exact_size = v.exact_size;
      same_hash = v.same_hash;
      reported = refl;
    },
    ap some v.reported,
  )
  acquired_run-IsHonest files digest (some (after, err e)) v k = failure-IsHonest after e

  with_archive-IsHonest :
      (r : Files × Result AcquisitionError String)
      → ((digest : String)
          → r.1 ≡ ok digest
          → IsVerified w.sha256 r.0 paths.archive_path spec.archive_size_bytes spec.archive_sha256
              digest)
      → IsHonest (with_archive w spec paths r)
  with_archive-IsHonest (files, ok digest) f =
      acquired_run-IsHonest files digest (obtain_extracted w spec paths files) (f digest refl)
        (obtain_extracted-Keeps files)
  with_archive-IsHonest (files, err e) f = failure-IsHonest files e

  with_space-IsHonest :
      (files : Files) (space : Result AcquisitionError (Unit {0}))
      → IsHonest (with_space w spec paths files space)
  with_space-IsHonest files (err e) = failure-IsHonest files e
  with_space-IsHonest files (ok u) =
      with_archive-IsHonest (obtain_archive w spec paths files)
        (λ digest h. obtain_archive-Verified w spec paths apart files h)

  acquire-IsHonest : (files : Files) → IsHonest (acquire_external_replay w spec paths files)
  unfolding acquire_external_replay
  acquire-IsHonest files = with_space-IsHonest files (space_for w spec paths files)

  -- After an acquisition that passed, the archive is a regular file with the size and the SHA-256 of
  -- the source, also where it was there before or a file was extracted from it, and that hash is the
  -- one in the result. The archive's path is none of the staged ones, nor that of the extracted file.
  pub acquire_external_replay-InCustody :
      (files after : Files) (result : AcquisitionResult)
      → acquire_external_replay w spec paths files ≡ some (after, result)
      → result.status ≡ passed
      → InCustody after result
  acquire_external_replay-InCustody files after result e = subst IsHonest e (acquire-IsHonest files)
