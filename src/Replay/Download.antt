-- ===== src/Replay/Download.antt =====
-- src/go2_validation/go2_validation/external_replay_download.py: the attempts to fetch the archive.
-- `curl` gives the result of an attempt and what it left at the destination.
pub mod Outcome
use go2_local_navigation.Prelude.{
  ℕ, zero, suc, String, Bool, true, false, ◌||◌, Option, none, some, List, Result, ok, err, ◌>>=◌,
  ◌>>◌, if◌then◌else◌,
}
use go2_local_navigation.Prelude.Int.{ℤ, pos, negsuc, eqb_ℤ}
use go2_local_navigation.Replay.Contract.{AcquisitionError, conflict, deferred, SourceSpec}
use go2_local_navigation.Replay.Files.{
  FileEntry, Files, put, unlink, make_directories, below_regular, classify_http_status, verify_file,
}

pub record CurlAttempt : Type 0 where
  pub return_code : ℤ
  pub http_status : ℕ
  -- what stands at the destination after it
  pub left_behind : Option FileEntry

unfoldable pub is_network_exit : ℤ → Bool
is_network_exit code =
    eqb_ℤ code (pos 5)
    || eqb_ℤ code (pos 6)
    || eqb_ℤ code (pos 7)
    || eqb_ℤ code (pos 28)
    || eqb_ℤ code (pos 35)
    || eqb_ℤ code (pos 47)
    || eqb_ℤ code (pos 52)
    || eqb_ℤ code (pos 55)
    || eqb_ℤ code (pos 56)

unfoldable pub exit_conflict : ℤ → AcquisitionError
exit_conflict code =
    if eqb_ℤ code (pos 63)
    then conflict "download_byte_cap_exceeded"
    else if eqb_ℤ code (pos 23)
    then conflict "local_write_failure"
    else conflict "curl_download_failure"

abbrev pub place : String → Option FileEntry → Files → Files
place path none files = files
place path (some e) files = put path e files

-- How an attempt ends: with an archive, with an error, or with another attempt.
pub data AttemptEnd : Type 0 where
  fetched : String → AttemptEnd
  gave_up : AcquisitionError → AttemptEnd
  retry : AttemptEnd

abbrev pub transfer_end : Result AcquisitionError String → AttemptEnd
transfer_end (ok digest) = fetched digest
transfer_end (err (deferred reason)) = retry
transfer_end (err (conflict reason)) = gave_up (conflict reason)

-- what the round returns, or what the rounds after it do
abbrev pub ended :
    String
    → AttemptEnd
    → Files
    → Files × Result AcquisitionError String
    → Files × Result AcquisitionError String
ended destination (fetched digest) after rest = (after, ok digest)
ended destination (gave_up e) after rest = (unlink destination after, err e)
ended destination retry after rest = rest

module _ (sha256 : List ℕ → String) (curl : ℕ → CurlAttempt) (spec : SourceSpec)
    (destination : String) where
  -- the status first, then the file
  pub checked_transfer : Files → ℕ → Result AcquisitionError String
  unfolding classify_http_status verify_file
  checked_transfer files status =
      classify_http_status status
      >> verify_file sha256 files destination spec.archive_size_bytes spec.archive_sha256

  unfoldable pub attempt_end : Files → CurlAttempt → AttemptEnd
  unfolding checked_transfer is_network_exit exit_conflict
  attempt_end files a =
      if eqb_ℤ a.return_code (pos 0)
      then transfer_end (checked_transfer files a.http_status)
      else if is_network_exit a.return_code
      then retry
      else gave_up (exit_conflict a.return_code)

  -- the loop, from attempt `i` on; each round first removes what is there
  unfoldable pub attempts : ℕ → ℕ → Files → Files × Result AcquisitionError String
  unfolding attempt_end
  attempts zero i files = (unlink destination files, err (deferred "network_prerequisite_absent"))
  attempts (suc n) i files =
      let after = place destination (curl i).left_behind (unlink destination files) in
      let rest = attempts n (suc i) after in
      ended destination (attempt_end after (curl i)) after rest

  abbrev attempt_count : ℤ → ℕ
  attempt_count (pos n) = n
  attempt_count (negsuc n) = 0

  -- the whole loop, where the directory of the destination is there
  unfoldable pub download_attempts : Files → Files × Result AcquisitionError String
  unfolding attempts
  download_attempts files = attempts (attempt_count spec.max_attempts) 0 files

  -- `none`: the OSError of a `mkdir` below a regular file, which nothing here catches
  unfoldable pub download_archive_with_curl :
      List String → Files → Option (Files × Result AcquisitionError String)
  unfolding below_regular download_attempts
  download_archive_with_curl parents files =
      if below_regular parents files
      then none
      else some (download_attempts (make_directories parents files))
