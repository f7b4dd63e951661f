-- ===== src/Replay/Download/Outcome.antt =====
-- What a download leaves at its destination.
use go2_local_navigation.Prelude.{
  ℕ, ◌≡◌, ◌∙◌, ◌⊎◌, sym, refl, ap, ok-injective, String, Bool, true, false, Option, none, some,
  List, length, Result, ok, err, bind-returns, if◌then◌else◌, arith,
}
use go2_local_navigation.Prelude.Int.{ℤ, pos, eqb_ℤ, eq_of_parts}
use go2_local_navigation.Prelude.Text.{str_eq, str_eq_iff, elem_str}
use go2_local_navigation.Replay.Contract.{AcquisitionError, conflict, SourceSpec}
use go2_local_navigation.Replay.Files.{
  FileEntry, regular, special, Files, unlink, verify_file, verify_regular_size, entry_size,
  entry_sha256, hash_checked, file_sha256,
}

-- A regular file with the size and the hash.
pub record IsVerified (sha256 : List ℕ → String) (files : Files) (path : String) (size : ℤ)
    (hash digest : String) : Type 0 where
  pub content : List ℕ
  pub there : files path ≡ some (regular content)
  pub exact_size : pos (length content) ≡ size
  pub same_hash : sha256 content ≡ hash
  pub reported : digest ≡ hash

entry_size-exact :
    (entry : Option FileEntry) (size : ℤ) {n : ℕ}
    → entry_size entry size ≡ ok n
    → (content : List ℕ) × (entry ≡ some (regular content)) × (pos (length content) ≡ size)
entry_size-exact none size h = cc
entry_size-exact (some special) size h = cc
entry_size-exact (some (regular content)) size h =
    go (eqb_ℤ (pos (length content)) size)
      (λ e. ground (arith, e, eq_of_parts (pos (length content)) size)) h
  where
    go :
        (same : Bool) {n : ℕ}
        → (same ≡ true → pos (length content) ≡ size)
        → (if same then ok (length content) else err (conflict "source_size_mismatch")) ≡ ok n
        → (c : List ℕ) × (some (regular content) ≡ some (regular c)) × (pos (length c) ≡ size)
    go true f k = (content, refl, f refl)
    go false f k = cc

hash_checked-same :
    (actual expected : String) {digest : String}
    → hash_checked actual expected ≡ ok digest
    → (actual ≡ expected) × (digest ≡ expected)
hash_checked-same actual expected h = go (str_eq actual expected) ((str_eq_iff actual expected).0) h
  where
    go :
        (same : Bool) {digest : String}
        → (same ≡ true → actual ≡ expected)
        → (if same then ok actual else err (conflict "source_hash_mismatch")) ≡ ok digest
        → (actual ≡ expected) × (digest ≡ expected)
    go true f k = (f refl, sym (ok-injective k) ∙ f refl)
    go false f k = cc

same_content :
    (a b : List ℕ) → ◌≡◌ {A = Option FileEntry} (some (regular a)) (some (regular b)) → a ≡ b
same_content a b e = cc

entry_sha256-content :
    (sha256 : List ℕ → String) (content : List ℕ) (entry : Option FileEntry) {digest : String}
    → entry ≡ some (regular content)
    → entry_sha256 sha256 entry ≡ ok digest
    → digest ≡ sha256 content
entry_sha256-content sha256 content (some (regular bytes)) e h =
    sym (ok-injective h) ∙ ap sha256 (same_content bytes content e)
entry_sha256-content sha256 content (some special) e h = cc
entry_sha256-content sha256 content none e h = cc

module _ (sha256 : List ℕ → String) where
  pub verify_file-IsVerified :
      (files : Files) (path : String) (size : ℤ) (hash digest : String)
      → verify_file sha256 files path size hash ≡ ok digest
      → IsVerified sha256 files path size hash digest
  unfolding verify_file verify_regular_size file_sha256
  verify_file-IsVerified files path size hash digest h =
      let (n, h1, sized) = bind-returns (verify_regular_size files path size) _ h in
      let (content, there, exact) = entry_size-exact (files path) size sized in
      let (actual, h2, hashed) = bind-returns (file_sha256 sha256 files path) _ h1 in
      let (same, reported) = hash_checked-same actual hash h2 in
      record {
        content = content;
        there = there;
        exact_size = exact;
        same_hash = sym (entry_sha256-content sha256 content (files path) there hashed) ∙ same;
        reported = reported;
      }

-- Another path has what it had, or it is a directory that was missing on the way to the destination.
abbrev pub IsLeft : List String → Files → Files → String → Type 0
IsLeft parents before after q =
    (after q ≡ before q)
    ⊎ ((elem_str q parents ≡ true) × (before q ≡ none) × (after q ≡ some special))

-- Either a verified archive stands there, or nothing does, and the other paths are left.
pub data IsDownload (sha256 : List ℕ → String) (spec : SourceSpec) (path : String)
    (parents : List String) (before after : Files) : Result AcquisitionError String → Type 0 where
  verified :
      {digest : String}
      → IsVerified sha256 after path spec.archive_size_bytes spec.archive_sha256 digest
      → ((q : String) → str_eq q path ≡ false → IsLeft parents before after q)
      → IsDownload sha256 spec path parents before after (ok digest)
  absent :
      {e : AcquisitionError}
      → after path ≡ none
      → ((q : String) → str_eq q path ≡ false → IsLeft parents before after q)
      → IsDownload sha256 spec path parents before after (err e)

pub str_eq_self : (s : String) → str_eq s s ≡ true
str_eq_self s = (str_eq_iff s s).1 refl

pub unlink-other :
    (path q : String) (files : Files) → str_eq q path ≡ false → unlink path files q ≡ files q
unlink-other path q files h = rw h refl
