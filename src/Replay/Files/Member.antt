-- ===== src/Replay/Files/Member.antt =====
-- src/go2_validation/go2_validation/external_replay_acquisition.py: the one member of an archive, and
-- its extraction. The members of an archive are a parameter.
use go2_local_navigation.Prelude.{
  ℕ, String, Bool, true, false, not, ◌&&◌, ◌||◌, Option, none, some, List, [], ◌∷◌, is_empty,
  Result, ok, err, ◌==◌, if◌then◌else◌,
}
use go2_local_navigation.Prelude.Text.{codes, lower}
use go2_local_navigation.Replay.Contract.{AcquisitionError, conflict}
use go2_local_navigation.Replay.Files.{Files, unlink, replace, stream_bounded}

-- Of a tar archive: a member's name, kind, size and content; `extractfile` may give none.
pub record Member : Type 0 where
  pub name : String
  pub is_regular : Bool
  pub size : ℕ
  pub content : Option (List ℕ)

-- The parts of a path, without those that are empty or a dot.
abbrev add_to_first : ℕ → List (List ℕ) → List (List ℕ)
add_to_first c [] = (c ∷ []) ∷ []
add_to_first c (part ∷ parts) = (c ∷ part) ∷ parts

unfoldable pub split_slash : List ℕ → List (List ℕ)
split_slash [] = [] ∷ []
split_slash (c ∷ cs) =
    let rest = split_slash cs in if c == 47 then [] ∷ rest else add_to_first c rest

abbrev is_blank : List ℕ → Bool
is_blank [] = true
is_blank (c ∷ []) = c == 46
is_blank _ = false

unfoldable pub drop_blank : List (List ℕ) → List (List ℕ)
drop_blank [] = []
drop_blank (part ∷ parts) =
    let rest = drop_blank parts in if is_blank part then rest else part ∷ rest

unfoldable pub path_parts : String → List (List ℕ)
unfolding split_slash drop_blank
path_parts name = drop_blank (split_slash (codes name))

abbrev is_parent : List ℕ → Bool
is_parent (a ∷ b ∷ []) = a == 46 && b == 46
is_parent _ = false

abbrev has_parent : List (List ℕ) → Bool
has_parent [] = false
has_parent (part ∷ parts) = is_parent part || has_parent parts

abbrev is_absolute : List ℕ → Bool
is_absolute [] = false
is_absolute (c ∷ cs) = c == 47

abbrev last_part : List (List ℕ) → List ℕ
last_part [] = []
last_part (part ∷ []) = part
last_part (part ∷ parts) = last_part parts

-- from the last dot on; a dot at either end starts no suffix
unfoldable pub suffix_from : List ℕ → List ℕ
suffix_from [] = []
suffix_from (c ∷ cs) =
    let rest = suffix_from cs in
    if not (is_empty rest) then rest else if c == 46 && not (is_empty cs) then c ∷ cs else []

unfoldable pub ends_with_dot : List ℕ → Bool
ends_with_dot [] = false
ends_with_dot (c ∷ []) = c == 46
ends_with_dot (c ∷ cs) = ends_with_dot cs

unfoldable pub suffix_of : List ℕ → List ℕ
unfolding suffix_from ends_with_dot
suffix_of [] = []
suffix_of (c ∷ cs) = if ends_with_dot cs then [] else suffix_from cs

abbrev codes_eq : List ℕ → List ℕ → Bool
codes_eq [] [] = true
codes_eq (a ∷ s) (b ∷ t) = a == b && codes_eq s t
codes_eq _ _ = false

unfoldable pub validate_member : Member → Result AcquisitionError (Unit {0})
unfolding path_parts suffix_of lower
validate_member m =
    if is_absolute (codes m.name) || has_parent (path_parts m.name) || is_empty (codes m.name)
    then err (conflict "unsafe_member_path")
    else if not m.is_regular
    then err (conflict "member_must_be_regular_file")
    else if not (codes_eq (lower (suffix_of (last_part (path_parts m.name)))) (codes ".mcap"))
    then err (conflict "member_must_be_mcap")
    else ok tt

module _ (sha256 : List ℕ → String) where
  -- the end of `extract_single_mcap`, and its handlers
  abbrev pub promoted :
      String
      → String
      → Files × Result AcquisitionError String
      → Files × Result AcquisitionError String
  promoted partial destination (files, ok digest) = (replace partial destination files, ok digest)
  promoted partial destination (files, err e) = (unlink partial files, err e)

  abbrev pub promoted_run :
      String
      → String
      → Option (Files × Result AcquisitionError String)
      → Option (Files × Result AcquisitionError String)
  promoted_run partial destination none = none
  promoted_run partial destination (some r) = some (promoted partial destination r)

  abbrev pub stream_member :
      (ℕ → Bool)
      → Files
      → Option (List ℕ)
      → String
      → String
      → ℕ
      → Option (Files × Result AcquisitionError String)
  stream_member write_fails files none partial destination expected_size =
      some (files, err (conflict "member_stream_unavailable"))
  stream_member write_fails files (some content) partial destination expected_size =
      promoted_run partial destination
        (stream_bounded sha256 write_fails files content partial expected_size)

  abbrev pub extract_valid :
      (ℕ → Bool)
      → Files
      → Member
      → String
      → String
      → ℕ
      → Result AcquisitionError (Unit {0})
      → Option (Files × Result AcquisitionError String)
  extract_valid write_fails files m partial destination expected_size (err e) =
      some (unlink partial files, err e)
  extract_valid write_fails files m partial destination expected_size (ok _) =
      if not (m.size == expected_size)
      then some (unlink partial files, err (conflict "extracted_size_mismatch"))
      else stream_member write_fails files m.content partial destination expected_size

  -- `getmembers`; `none` is an error of the archive
  unfoldable pub extract_single_mcap :
      (ℕ → Bool)
      → Files
      → Option (List Member)
      → String
      → String
      → ℕ
      → Option (Files × Result AcquisitionError String)
  unfolding stream_bounded validate_member
  extract_single_mcap write_fails files none partial destination expected_size =
      some (unlink partial files, err (conflict "archive_read_or_write_failure"))
  extract_single_mcap write_fails files (some (m ∷ [])) partial destination expected_size =
      extract_valid write_fails (unlink partial files) m partial destination expected_size
        (validate_member m)
  extract_single_mcap write_fails files (some _) partial destination expected_size =
      some (unlink partial files, err (conflict "member_count_mismatch"))
