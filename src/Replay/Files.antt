-- ===== src/Replay/Files.antt =====
-- src/go2_validation/go2_validation/external_replay_acquisition.py: the local files of the acquisition.
-- A path is a text, and the files are a function of the path: what is no regular file is `special`.
-- The SHA-256 of a content and which writes fail are parameters.
pub mod Stream
pub mod Member
use go2_local_navigation.Prelude.{
  ℕ, zero, suc, ◌+◌, ◌-◌, String, Bool, true, false, not, ◌&&◌, ◌||◌, Option, none, some, List, [],
  ◌∷◌, ◌++◌, length, take, drop, is_empty, Result, ok, err, ◌>>=◌, ◌>>◌, ltb, leb, ◌==◌,
  if◌then◌else◌,
}
use go2_local_navigation.Prelude.Int.{ℤ, pos, eqb_ℤ, ltb_ℤ}
use go2_local_navigation.Prelude.Text.{codes, str_eq, elem_str, lower}
use go2_local_navigation.Replay.Contract.{AcquisitionError, conflict, deferred, SourceSpec}

pub data FileEntry : Type 0 where
  regular : List ℕ → FileEntry
  special : FileEntry

abbrev pub Files : Type 0
Files = String → Option FileEntry

abbrev pub put : String → FileEntry → Files → Files
put path e files q = if str_eq q path then some e else files q

-- `unlink(missing_ok=True)`
abbrev pub unlink : String → Files → Files
unlink path files q = if str_eq q path then none else files q

-- `mkdir(parents=True, exist_ok=True)`, of the directory and those above it, the outermost first. A
-- directory is `special`, as is a link to one; below a regular file none can be made.
abbrev made : Option FileEntry → Option FileEntry
made none = some special
made (some e) = some e

abbrev pub make_directories : List String → Files → Files
make_directories parents files q =
    let directory = made (files q) in if elem_str q parents then directory else files q

abbrev is_regular : Option FileEntry → Bool
is_regular (some (regular bytes)) = true
is_regular _ = false

unfoldable pub below_regular : List String → Files → Bool
below_regular [] files = false
below_regular (parent ∷ parents) files = is_regular (files parent) || below_regular parents files

abbrev pub exists : String → Files → Bool
exists path files = elim (files path) [ none ↦ false | some e ↦ true ]

abbrev pub replace_entry : Option FileEntry → String → String → Files → Files
replace_entry none source destination files = files
replace_entry (some e) source destination files = put destination e (unlink source files)

-- `os.replace`, of a file that is there
abbrev pub replace : String → String → Files → Files
replace source destination files = replace_entry (files source) source destination files

abbrev pub chunk_bytes : ℕ
chunk_bytes = 1048576

abbrev pub minimum : ℕ → ℕ → ℕ
minimum a b = if leb a b then a else b

-- The loop of `stream_bounded`, from what is left of the source and the number of bytes written, with
-- fuel: the bytes that it writes from here on. `none`: the fuel ran out.
unfoldable pub stream_loop :
    (ℕ → Bool) → ℕ → List ℕ → ℕ → ℕ → Option (Result AcquisitionError (List ℕ))
stream_loop write_fails zero source written byte_cap = none
stream_loop write_fails (suc fuel) source written byte_cap =
    let size = minimum chunk_bytes (byte_cap - written + 1) in
    let chunk = take size source in
    let total = written + length chunk in
    let rest = stream_loop write_fails fuel (drop size source) total byte_cap in
    if is_empty chunk
    then some (if write_fails written then err (conflict "local_write_failure") else ok [])
    else if ltb byte_cap total
    then some (err (conflict "download_byte_cap_exceeded"))
    else if write_fails written
    then some (err (conflict "local_write_failure"))
    else elim rest [ none ↦ none | some r ↦ some (r >>= λ more. ok (chunk ++ more)) ]

unfoldable pub ensure_initial_space : ℤ → ℤ → Result AcquisitionError (Unit {0})
ensure_initial_space available minimum_free_bytes =
    if ltb_ℤ available minimum_free_bytes
    then err (deferred "initial_space_prerequisite_absent")
    else ok tt

unfoldable pub classify_http_status : ℕ → Result AcquisitionError (Unit {0})
classify_http_status status_code =
    if status_code == 200
    then ok tt
    else if status_code == 403 || status_code == 404 || leb 500 status_code
    then err (deferred "http_prerequisite_absent")
    else err (conflict "unexpected_http_status")

abbrev pub entry_size : Option FileEntry → ℤ → Result AcquisitionError ℕ
entry_size (some (regular bytes)) expected_size =
    if eqb_ℤ (pos (length bytes)) expected_size
    then ok (length bytes)
    else err (conflict "source_size_mismatch")
entry_size _ expected_size = err (conflict "source_must_be_regular_file")

unfoldable pub verify_regular_size : Files → String → ℤ → Result AcquisitionError ℕ
verify_regular_size files path expected_size = entry_size (files path) expected_size

abbrev pub hash_checked : String → String → Result AcquisitionError String
hash_checked actual expected =
    if str_eq actual expected then ok actual else err (conflict "source_hash_mismatch")

module _ (sha256 : List ℕ → String) where
  abbrev pub entry_sha256 : Option FileEntry → Result AcquisitionError String
  entry_sha256 (some (regular bytes)) = ok (sha256 bytes)
  entry_sha256 _ = err (conflict "source_must_be_regular_file")

  unfoldable pub file_sha256 : Files → String → Result AcquisitionError String
  file_sha256 files path = entry_sha256 (files path)

  unfoldable pub verify_file : Files → String → ℤ → String → Result AcquisitionError String
  unfolding verify_regular_size file_sha256
  verify_file files path expected_size expected_sha256 =
      verify_regular_size files path expected_size >>= λ _.
      file_sha256 files path >>= λ actual. hash_checked actual expected_sha256

  abbrev pub streamed :
      Files → String → Result AcquisitionError (List ℕ) → Files × Result AcquisitionError String
  streamed files destination (ok bytes) = (put destination (regular bytes) files, ok (sha256 bytes))
  streamed files destination (err e) = (unlink destination files, err e)

  abbrev pub streamed_run :
      Files
      → String
      → Option (Result AcquisitionError (List ℕ))
      → Option (Files × Result AcquisitionError String)
  streamed_run files destination none = none
  streamed_run files destination (some r) = some (streamed files destination r)

  -- `open("xb")` fails on a file that is there, and the handler removes it
  unfoldable pub stream_bounded :
      (ℕ → Bool) → Files → List ℕ → String → ℕ → Option (Files × Result AcquisitionError String)
  unfolding stream_loop
  stream_bounded write_fails files source destination byte_cap =
      if exists destination files
      then some (unlink destination files, err (conflict "local_write_failure"))
      else streamed_run files destination
          (stream_loop write_fails (suc (length source)) source 0 byte_cap)
