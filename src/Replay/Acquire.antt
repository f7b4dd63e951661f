-- ===== src/Replay/Acquire.antt =====
-- src/go2_validation/go2_validation/external_replay_acquisition_runner.py: obtaining the archive and
-- the file in it. The downloader is the one with curl; the temporary directories are the staged
-- paths, which are removed at the end. The members of an archive are a function of its content.
pub mod Custody
pub mod Leaves
pub mod Keeps
use go2_local_navigation.Prelude.{
  ℕ, String, Bool, true, false, not, ◌&&◌, ◌||◌, Option, none, some, List, Result, ok, err, ◌>>=◌,
  if◌then◌else◌,
}
use go2_local_navigation.Prelude.Int.{ℤ, pos, pos_part}
use go2_local_navigation.Replay.Contract.{AcquisitionError, conflict, deferred, SourceSpec}
use go2_local_navigation.Replay.Files.{
  FileEntry, regular, special, Files, unlink, replace, exists, ensure_initial_space,
  verify_regular_size, file_sha256, verify_file,
}
use go2_local_navigation.Replay.Files.Member.{Member, extract_single_mcap}
use go2_local_navigation.Replay.Download.{CurlAttempt, download_attempts}

pub record AcquisitionPaths : Type 0 where
  pub archive_path : String
  pub extracted_path : String
  -- in the temporary directories
  pub staged_archive : String
  pub staged_extracted : String
  pub staged_partial : String

pub data AcquisitionStatus : Type 0 where
  passed was_deferred was_conflict : AcquisitionStatus

pub record AcquisitionResult : Type 0 where
  pub status : AcquisitionStatus
  pub source_id : String
  pub reason_code : Option String
  pub artifact_absent : Bool
  pub archive_path : Option String
  pub archive_size_bytes : Option ℤ
  pub archive_sha256 : Option String
  pub extracted_path : Option String
  pub extracted_size_bytes : Option ℤ
  pub extracted_sha256 : Option String

abbrev failure : AcquisitionStatus → String → String → AcquisitionResult
failure status source_id reason = record {
  status = status;
  source_id = source_id;
  reason_code = some reason;
  artifact_absent = true;
  archive_path = none;
  archive_size_bytes = none;
  archive_sha256 = none;
  extracted_path = none;
  extracted_size_bytes = none;
  extracted_sha256 = none;
}

unfoldable pub failure_result : String → AcquisitionError → AcquisitionResult
failure_result source_id (deferred reason) = failure was_deferred source_id reason
failure_result source_id (conflict reason) = failure was_conflict source_id reason

-- What the run reads from outside: the free space, curl, which writes fail, and the archive's members.
pub record Outside : Type 0 where
  pub sha256 : List ℕ → String
  pub free_bytes : ℤ
  pub curl : ℕ → CurlAttempt
  pub write_fails : ℕ → Bool
  pub members : List ℕ → Option (List Member)

abbrev pub members_of : Outside → Option FileEntry → Option (List Member)
members_of w (some (regular bytes)) = w.members bytes
members_of w _ = none

module _ (w : Outside) (spec : SourceSpec) (paths : AcquisitionPaths) where
  -- `promote_verified_archive`
  abbrev pub promoted_archive :
      Files × Result AcquisitionError String → Files × Result AcquisitionError String
  promoted_archive (files, ok digest) =
      (replace paths.staged_archive paths.archive_path files, ok digest)
  promoted_archive (files, err e) = (files, err e)

  unfoldable pub promote_verified_archive : Files → Files × Result AcquisitionError String
  promote_verified_archive files = promoted_archive (
    files,
    verify_file w.sha256 files paths.staged_archive spec.archive_size_bytes spec.archive_sha256,
  )

  -- the temporary directory goes
  abbrev pub without_staged_archive :
      Files × Result AcquisitionError String → Files × Result AcquisitionError String
  without_staged_archive (files, r) = (unlink paths.staged_archive files, r)

  abbrev pub downloaded :
      Files × Result AcquisitionError String → Files × Result AcquisitionError String
  downloaded (files, ok digest) = promote_verified_archive files
  downloaded (files, err e) = (files, err e)

  -- the directory of the staged archive is the temporary one, so the download makes none
  unfoldable pub obtain_archive : Files → Files × Result AcquisitionError String
  unfolding verify_file download_attempts promote_verified_archive
  obtain_archive files =
      if exists paths.archive_path files
      then (
        files,
        verify_file w.sha256 files paths.archive_path spec.archive_size_bytes spec.archive_sha256,
      )
      else without_staged_archive
          (downloaded (download_attempts w.sha256 w.curl spec paths.staged_archive files))

  -- `promote_staged_file`
  abbrev pub promote_entry :
      Option FileEntry → Files → String → Files × Result AcquisitionError String
  promote_entry (some (regular bytes)) files digest =
      (replace paths.staged_extracted paths.extracted_path files, ok digest)
  promote_entry _ files digest = (files, err (conflict "staged_source_must_be_regular_file"))

  abbrev pub extracted :
      Files × Result AcquisitionError String → Files × Result AcquisitionError String
  extracted (files, ok digest) = promote_entry (files paths.staged_extracted) files digest
  extracted (files, err e) = (files, err e)

  abbrev pub without_staged :
      Files × Result AcquisitionError String → Files × Result AcquisitionError String
  without_staged (files, r) = (unlink paths.staged_partial (unlink paths.staged_extracted files), r)

  abbrev pub extracted_run :
      Option (Files × Result AcquisitionError String)
      → Option (Files × Result AcquisitionError String)
  extracted_run none = none
  extracted_run (some r) = some (without_staged (extracted r))

  unfoldable pub obtain_extracted : Files → Option (Files × Result AcquisitionError String)
  unfolding verify_regular_size file_sha256 extract_single_mcap
  obtain_extracted files =
      if exists paths.extracted_path files
      then some (
        files,
        verify_regular_size files paths.extracted_path spec.extracted_size_bytes >>= λ _.
            file_sha256 w.sha256 files paths.extracted_path,
      )
      else extracted_run (
          extract_single_mcap w.sha256 w.write_fails files (members_of w (files paths.archive_path))
            paths.staged_partial paths.staged_extracted (pos_part spec.extracted_size_bytes))

  abbrev success : String → String → AcquisitionResult
  success archive_digest extracted_digest = record {
    status = passed;
    source_id = spec.source_id;
    reason_code = none;
    artifact_absent = false;
    archive_path = some paths.archive_path;
    archive_size_bytes = some spec.archive_size_bytes;
    archive_sha256 = some archive_digest;
    extracted_path = some paths.extracted_path;
    extracted_size_bytes = some spec.extracted_size_bytes;
    extracted_sha256 = some extracted_digest;
  }

  abbrev pub acquired : String → Files × Result AcquisitionError String → Files × AcquisitionResult
  acquired archive_digest (files, ok extracted_digest) =
      (files, success archive_digest extracted_digest)
  acquired archive_digest (files, err e) = (files, failure_result spec.source_id e)

  abbrev pub acquired_run :
      String → Option (Files × Result AcquisitionError String) → Option (Files × AcquisitionResult)
  acquired_run digest none = none
  acquired_run digest (some r) = some (acquired digest r)

  abbrev pub with_archive :
      Files × Result AcquisitionError String → Option (Files × AcquisitionResult)
  with_archive (files, err e) = some (files, failure_result spec.source_id e)
  with_archive (files, ok digest) = acquired_run digest (obtain_extracted files)

  -- space is asked for only if something has to be obtained
  abbrev pub space_for : Files → Result AcquisitionError (Unit {0})
  space_for files =
      if not (exists paths.archive_path files) || not (exists paths.extracted_path files)
      then ensure_initial_space w.free_bytes spec.minimum_free_bytes
      else ok tt

  abbrev pub with_space :
      Files → Result AcquisitionError (Unit {0}) → Option (Files × AcquisitionResult)
  with_space files (err e) = some (files, failure_result spec.source_id e)
  with_space files (ok _) = with_archive (obtain_archive files)

  unfoldable pub acquire_external_replay : Files → Option (Files × AcquisitionResult)
  unfolding obtain_archive obtain_extracted failure_result ensure_initial_space
  acquire_external_replay files = with_space files (space_for files)
