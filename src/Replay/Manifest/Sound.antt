-- ===== src/Replay/Manifest/Sound.antt =====
-- What a manifest that loads promises.
use go2_local_navigation.Prelude.{
  ℕ, ◌≡◌, refl, ap, Bool, true, false, not, ◌&&◌, ◌||◌, Option, none, some, Result, ok, err,
  ok-injective, bind-post, bind-returns, ◌==◌, arith, if◌then◌else◌,
}
use mathlib.Core.Path.{subst}
use go2_local_navigation.Prelude.Int.{pos}
use go2_local_navigation.Prelude.Text.{codes, starts_with}
use go2_local_navigation.Prelude.Document.{Entries, get}
use go2_local_navigation.Replay.Contract.{
  AcquisitionError, conflict, SourceSpec, make_source, is_sha256, is_filename, limits_positive,
  expected_cloud_count, expected_odometry_count,
}
use go2_local_navigation.Replay.Manifest.{
  Document, ManifestError, ConversionSpec, built, field_missing, refuse, source_fields,
  parse_source_spec, source_row, channels_of, with_counts, conversion_fields, conversion_limits,
  load_conversion_spec, required_positive_int, required_string, key_error, refused,
}

-- A source whose archive is pinned by its hash and sizes, whose files have plain names, and which is
-- fetched over https within positive limits.
pub record IsPinned (s : SourceSpec) : Type 0 where
  pub hash : is_sha256 s.archive_sha256 ≡ true
  pub https : starts_with (codes "https://") (codes s.download_url) ≡ true
  pub archive_name : is_filename s.archive_filename ≡ true
  pub extracted_name : is_filename s.extracted_filename ≡ true
  pub limits : limits_positive s ≡ true

both_true : (a b : Bool) → not a || not b ≡ false → (a ≡ true) × (b ≡ true)
both_true true true h = (refl, refl)
both_true true false h = cc
both_true false b h = cc

four_guards :
    (a b c d : Bool) {s t : SourceSpec}
    → (if not a
        then err (conflict "invalid_archive_sha256")
        else if not b
        then err (conflict "download_url_must_be_https")
        else if c
        then err (conflict "source_filename_invalid")
        else if not d
        then err (conflict "source_limit_must_be_positive")
        else ok s)
      ≡ ok t
    → (a ≡ true) × (b ≡ true) × (c ≡ false) × (d ≡ true) × (s ≡ t)
four_guards false b c d h = cc
four_guards true false c d h = cc
four_guards true true true d h = cc
four_guards true true false false h = cc
four_guards true true false true h = (refl, refl, refl, refl, ok-injective h)

make_source-IsPinned : (s : SourceSpec) {t : SourceSpec} → make_source s ≡ ok t → IsPinned t
unfolding make_source
make_source-IsPinned s h =
    let (hash, https, names, limits, same) =
      four_guards (is_sha256 s.archive_sha256)
        (starts_with (codes "https://") (codes s.download_url))
        (not (is_filename s.archive_filename) || not (is_filename s.extracted_filename))
        (limits_positive s) h in
    let (archive, extracted) =
      both_true (is_filename s.archive_filename) (is_filename s.extracted_filename) names in
    subst IsPinned same (record {
      hash = hash;
      https = https;
      archive_name = archive;
      extracted_name = extracted;
      limits = limits;
    })

built-made : (r : Result AcquisitionError SourceSpec) {t : SourceSpec} → built r ≡ ok t → r ≡ ok t
built-made (ok s) h = ap (λ u. ok u) (ok-injective h)
built-made (err e) h = cc

made-IsPinned : (s : SourceSpec) {t : SourceSpec} → built (make_source s) ≡ ok t → IsPinned t
made-IsPinned s h = make_source-IsPinned s (built-made (make_source s) h)

field_missing-ok :
    {A : Type 0} (r : Result ManifestError A) {v : A} → field_missing r ≡ ok v → r ≡ ok v
field_missing-ok (ok v) h = h
field_missing-ok (err (key_error key)) h = cc
field_missing-ok (err (refused e)) h = h

module _ {F : Type 0} where
  parse_source_spec-IsPinned :
      (raw : Entries F) {t : SourceSpec} → parse_source_spec raw ≡ ok t → IsPinned t
  unfolding parse_source_spec source_fields
  parse_source_spec-IsPinned raw h =
      bind-post (required_string raw "source_id") (field_missing-ok (source_fields raw) h) (λ id h.
        bind-post (required_string raw "download_url") h (λ url h.
          bind-post (required_string raw "archive_filename") h (λ archive h.
            bind-post (required_string raw "extracted_filename") h (λ extracted h.
              bind-post (required_string raw "archive_sha256") h (λ hash h.
                bind-post (required_positive_int raw "archive_size_bytes") h (λ size h.
                  bind-post (required_positive_int raw "extracted_size_bytes") h (λ whole h.
                    bind-post (required_positive_int raw "minimum_free_bytes") h (λ free h.
                      bind-post (required_positive_int raw "connect_timeout_seconds") h
                        (λ connect h.
                          bind-post (required_positive_int raw "total_timeout_seconds") h
                            (λ total h.
                              bind-post (required_positive_int raw "max_attempts") h (λ attempts h.
                                made-IsPinned
                                  (record {
                                    source_id = id;
                                    download_url = url;
                                    archive_filename = archive;
                                    extracted_filename = extracted;
                                    archive_sha256 = hash;
                                    archive_size_bytes = pos size;
                                    extracted_size_bytes = pos whole;
                                    minimum_free_bytes = pos free;
                                    connect_timeout_seconds = pos connect;
                                    total_timeout_seconds = pos total;
                                    max_attempts = pos attempts;
                                  })
                                  h)))))))))))

-- A conversion of the pinned source with the pinned counts.
pub record IsConvertible (c : ConversionSpec) : Type 0 where
  pub pinned : IsPinned c.source
  pub clouds : c.expected_cloud_count ≡ expected_cloud_count
  pub odometry : c.expected_odometry_count ≡ expected_odometry_count

module _ {F : Type 0} where
  conversion_fields-IsConvertible :
      (raw : Entries F) {clouds odometry : ℕ} {c : ConversionSpec}
      → clouds ≡ expected_cloud_count
      → odometry ≡ expected_odometry_count
      → conversion_fields raw clouds odometry ≡ ok c
      → IsConvertible c
  conversion_fields-IsConvertible raw {clouds} {odometry} p q h =
      bind-post (required_positive_int raw "short_duration_seconds") h
        (λ seconds h. go (seconds == 120) h)
    where
      limits : {c : ConversionSpec} → conversion_limits raw clouds odometry ≡ ok c → IsConvertible c
      limits h =
          let (source, h1, e) = bind-returns (parse_source_spec raw) _ h in
          bind-post (required_positive_int raw "short_minimum_cloud_count") h1 (λ _ h.
            bind-post (required_positive_int raw "short_minimum_odometry_count") h (λ _ h.
              bind-post (required_positive_int raw "full_output_cap_bytes") h (λ _ h.
                subst IsConvertible (ok-injective h) (record {
                  pinned = parse_source_spec-IsPinned raw e;
                  clouds = p;
                  odometry = q;
                }))))

      go :
          (b : Bool) {c : ConversionSpec}
          → (if b
              then conversion_limits raw clouds odometry
              else refuse "short_duration_contract_mismatch")
            ≡ ok c
          → IsConvertible c
      go true h = limits h
      go false h = cc

  with_counts-IsConvertible :
      (raw : Entries F) (clouds odometry : Option ℕ) {c : ConversionSpec}
      → with_counts raw clouds odometry ≡ ok c
      → IsConvertible c
  with_counts-IsConvertible raw (some clouds) (some odometry) h =
      go (clouds == expected_cloud_count) (odometry == expected_odometry_count)
        (λ e. ground (arith, e)) (λ e. ground (arith, e)) h
    where
      go :
          (a b : Bool) {c : ConversionSpec}
          → (a ≡ true → clouds ≡ expected_cloud_count)
          → (b ≡ true → odometry ≡ expected_odometry_count)
          → (if a && b
              then conversion_fields raw clouds odometry
              else refuse "selected_count_contract_mismatch")
            ≡ ok c
          → IsConvertible c
      go true true p q h = conversion_fields-IsConvertible raw (p refl) (q refl) h
      go true false p q h = cc
      go false b p q h = cc
  with_counts-IsConvertible raw none odometry h = cc
  with_counts-IsConvertible raw (some clouds) none h = cc

  -- A conversion that loads is for one source with a SHA-256 hash, an https address, plain file names
  -- and positive limits, and expects the pinned numbers of clouds and odometry messages.
  pub load_conversion_spec-IsConvertible :
      (document : Document F) (c : ConversionSpec)
      → load_conversion_spec document ≡ ok c
      → IsConvertible c
  unfolding load_conversion_spec
  load_conversion_spec-IsConvertible document c h = bind-post (source_row document) h (λ raw h.
      bind-post (channels_of (get "selected_channels" raw)) h
        (λ counts h. with_counts-IsConvertible raw counts.cloud counts.odometry h))
