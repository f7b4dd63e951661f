-- ===== src/Replay/Acquire/Leaves.antt =====
-- Which paths an extraction leaves alone.
use go2_local_navigation.Prelude.{
  ℕ, suc, ◌≡◌, ◌∙◌, refl, String, Bool, true, false, not, Option, none, some, List, [], ◌∷◌, length,
  Result, ok, err, ◌==◌, if◌then◌else◌,
}
use go2_local_navigation.Replay.Contract.{AcquisitionError, conflict}
use go2_local_navigation.Replay.Files.{
  FileEntry, regular, Files, put, unlink, exists, streamed_run, stream_bounded, stream_loop,
}
use go2_local_navigation.Replay.Files.Member.{
  Member, promoted_run, stream_member, extract_valid, extract_single_mcap, validate_member,
}
use go2_local_navigation.Replay.Download.Outcome.{unlink-other}
use go2_local_navigation.Replay.Acquire.Custody.{Differ, replace-other}

-- The path has what it had.
abbrev pub Keeps : String → Files → Option (Files × Result AcquisitionError String) → Type 0
Keeps q before none = Unit
Keeps q before (some (after, r)) = after q ≡ before q

put-other :
    (path q : String) (e : FileEntry) (files : Files) → Differ q path → put path e files q ≡ files q
put-other path q e files d = rw d refl

module _ (sha256 : List ℕ → String) (q : String) (before : Files) where
  streamed-Keeps :
      (files : Files) (destination : String) (run : Option (Result AcquisitionError (List ℕ)))
      → Differ q destination
      → files q ≡ before q
      → Keeps q before (streamed_run sha256 files destination run)
  streamed-Keeps files destination none d h = tt
  streamed-Keeps files destination (some (ok bytes)) d h =
      put-other destination q (regular bytes) files d ∙ h
  streamed-Keeps files destination (some (err e)) d h = unlink-other destination q files d ∙ h

  stream_bounded-Keeps :
      (write_fails : ℕ → Bool) (files : Files) (source : List ℕ) (destination : String) (cap : ℕ)
      → Differ q destination
      → files q ≡ before q
      → Keeps q before (stream_bounded sha256 write_fails files source destination cap)
  unfolding stream_bounded
  stream_bounded-Keeps write_fails files source destination cap d h = go (exists destination files)
    where
      go :
          (there : Bool)
          → Keeps q before (
              if there
              then some (unlink destination files, err (conflict "local_write_failure"))
              else streamed_run sha256 files destination
                  (stream_loop write_fails (suc (length source)) source 0 cap))
      go true = unlink-other destination q files d ∙ h
      go false =
          streamed-Keeps files destination
            (stream_loop write_fails (suc (length source)) source 0 cap) d h

  promoted-Keeps :
      (partial destination : String) (run : Option (Files × Result AcquisitionError String))
      → Differ q partial
      → Differ q destination
      → Keeps q before run
      → Keeps q before (promoted_run sha256 partial destination run)
  promoted-Keeps partial destination none p d h = tt
  promoted-Keeps partial destination (some (files, ok digest)) p d h =
      replace-other (files partial) partial destination q files p d ∙ h
  promoted-Keeps partial destination (some (files, err e)) p d h =
      unlink-other partial q files p ∙ h

  module _ (write_fails : ℕ → Bool) (partial destination : String) (size : ℕ) (p : Differ q partial)
      (d : Differ q destination) where
    member-Keeps :
        (files : Files) (content : Option (List ℕ))
        → files q ≡ before q
        → Keeps q before (stream_member sha256 write_fails files content partial destination size)
    member-Keeps files none h = h
    member-Keeps files (some content) h =
        promoted-Keeps partial destination
          (stream_bounded sha256 write_fails files content partial size) p d
          (stream_bounded-Keeps write_fails files content partial size p h)

    valid-Keeps :
        (files : Files) (m : Member) (checked : Result AcquisitionError (Unit {0}))
        → files q ≡ before q
        → Keeps q before (extract_valid sha256 write_fails files m partial destination size checked)
    valid-Keeps files m (err e) h = unlink-other partial q files p ∙ h
    valid-Keeps files m (ok u) h = go (m.size == size)
      where
        go :
            (same : Bool)
            → Keeps q before (
                if not same
                then some (unlink partial files, err (conflict "extracted_size_mismatch"))
                else stream_member sha256 write_fails files m.content partial destination size)
        go true = member-Keeps files m.content h
        go false = unlink-other partial q files p ∙ h

    pub extract-Keeps :
        (files : Files) (members : Option (List Member))
        → files q ≡ before q
        → Keeps q before
            (extract_single_mcap sha256 write_fails files members partial destination size)
    unfolding extract_single_mcap
    extract-Keeps files none h = unlink-other partial q files p ∙ h
    extract-Keeps files (some []) h = unlink-other partial q files p ∙ h
    extract-Keeps files (some (m ∷ [])) h =
        valid-Keeps (unlink partial files) m (validate_member m)
          (unlink-other partial q files p ∙ h)
    extract-Keeps files (some (m ∷ n ∷ ms)) h = unlink-other partial q files p ∙ h
