-- ===== src/Validation/CloudAccounting.antt =====
-- src/go2_validation/go2_validation/mapping_cloud_accounting.py: the accounting is read from the
-- launch log, a list of code points. The JSON codec of the standard library is a parameter, `loads`
-- for reading; `none` is a `JSONDecodeError`. The detail of a reason is kept where it is a field.
pub mod RoundTrip
use go2_local_navigation.Prelude.{
  ℕ, zero, suc, String, Bool, true, false, not, ◌&&◌, ◌||◌, Option, none, some, List, [], ◌∷◌,
  length, drop, Result, ok, err, ◌>>=◌, ◌==◌, leb, if◌then◌else◌,
}
use go2_local_navigation.Prelude.Text.{codes, contains, starts_with}
use go2_local_navigation.Prelude.Document.{
  YamlValue, mapping, Entries, get, natural, positive_natural, has_keys, keys_within,
}
use go2_local_navigation.Perception.RetryQueue.{MappingCloudAccounting}
use go2_local_navigation.Validation.Acceptance.{emit_cadence}

abbrev pub marker : List ℕ
marker = codes "MAPPING_CLOUD_ACCOUNTING "

abbrev pub accounting_fields : List String
accounting_fields =
    "received" ∷ "future_waited" ∷ "recovered_after_retry" ∷ "processed" ∷ "output_published"
    ∷ "dropped_unrecoverable" ∷ "dropped_overflow" ∷ "pending_at_shutdown"
    ∷ "partial_frames_not_emitted" ∷ "emit_every" ∷ "output_stamp_regression_count" ∷ []

pub data MappingCloudAccountingError : Type 0 where
  log_unreadable missing multiple json_invalid shape_invalid : MappingCloudAccountingError
  count_invalid : String → MappingCloudAccountingError

-- the characters at which `str.splitlines` splits
abbrev pub is_line_break : ℕ → Bool
is_line_break c =
    (leb 10 c && leb c 13) || (leb 28 c && leb c 30) || c == 133 || c == 8232 || c == 8233

abbrev pub first_of_line : ℕ → List (List ℕ) → List (List ℕ)
first_of_line c [] = (c ∷ []) ∷ []
first_of_line c (line ∷ lines) = (c ∷ line) ∷ lines

-- `str.splitlines`; a carriage return and a line feed are one break
unfoldable pub splitlines : List ℕ → List (List ℕ)
splitlines [] = []
splitlines (c ∷ cs) =
    let rest = splitlines cs in
    if c == 13 && starts_with (10 ∷ []) cs
    then rest
    else if is_line_break c
    then [] ∷ rest
    else first_of_line c rest

-- `tuple(line for line in lines if MARKER in line)`
unfoldable pub marked : List (List ℕ) → List (List ℕ)
marked [] = []
marked (line ∷ lines) =
    let rest = marked lines in if contains marker line then line ∷ rest else rest

-- `line.split(MARKER, maxsplit=1)[1]`, for a line that has the marker
unfoldable pub payload_of : List ℕ → List ℕ
payload_of [] = []
payload_of (c ∷ cs) =
    let rest = payload_of cs in
    if starts_with marker (c ∷ cs) then drop (length marker) (c ∷ cs) else rest

abbrev required_by : Option ℕ → String → Result MappingCloudAccountingError ℕ
required_by (some n) field_name = ok n
required_by none field_name = err (count_invalid field_name)

abbrev optional :
    Result MappingCloudAccountingError MappingCloudAccounting
    → Result MappingCloudAccountingError (Option MappingCloudAccounting)
optional r = r >>= λ a. ok (some a)

module _ {F : Type 0} where
  unfoldable pub nonnegative_count : YamlValue F → String → Result MappingCloudAccountingError ℕ
  nonnegative_count value field_name = required_by (natural value) field_name

  unfoldable pub positive_count : YamlValue F → String → Result MappingCloudAccountingError ℕ
  positive_count value field_name = required_by (positive_natural value) field_name

  -- the fields, in the order in which the code reads them
  unfoldable pub counts_of : Entries F → Result MappingCloudAccountingError MappingCloudAccounting
  counts_of es = nonnegative_count (get "received" es) "received" >>= λ received.
      nonnegative_count (get "future_waited" es) "future_waited" >>= λ future_waited.
      nonnegative_count (get "recovered_after_retry" es) "recovered_after_retry" >>= λ recovered.
      nonnegative_count (get "processed" es) "processed" >>= λ processed.
      nonnegative_count (get "output_published" es) "output_published" >>= λ output_published.
      nonnegative_count (get "dropped_unrecoverable" es) "dropped_unrecoverable" >>= λ dropped.
      nonnegative_count (get "dropped_overflow" es) "dropped_overflow" >>= λ overflow.
      nonnegative_count (get "pending_at_shutdown" es) "pending_at_shutdown" >>= λ pending.
      nonnegative_count (get "partial_frames_not_emitted" es) "partial_frames_not_emitted"
      >>= λ partial. positive_count (get "emit_every" es) "emit_every" >>= λ emit_every.
          nonnegative_count (get "output_stamp_regression_count" es) "output_stamp_regression_count"
          >>= λ regressions. ok (record {
            received = received;
            future_waited = future_waited;
            recovered_after_retry = recovered;
            processed = processed;
            output_published = output_published;
            dropped_unrecoverable = dropped;
            dropped_overflow = overflow;
            pending_at_shutdown = pending;
            partial_frames_not_emitted = partial;
            emit_every = emit_every;
            output_stamp_regression_count = regressions;
          })

  unfoldable pub accounting_of :
      YamlValue F → Result MappingCloudAccountingError MappingCloudAccounting
  accounting_of (mapping es) =
      if keys_within accounting_fields es && has_keys accounting_fields es
      then counts_of es
      else err shape_invalid
  accounting_of _ = err shape_invalid

  abbrev read_document :
      Option (YamlValue F) → Result MappingCloudAccountingError MappingCloudAccounting
  read_document none = err json_invalid
  read_document (some document) = accounting_of document

  unfoldable pub parse_marked :
      (List ℕ → Option (YamlValue F))
      → List (List ℕ)
      → Result MappingCloudAccountingError MappingCloudAccounting
  parse_marked loads [] = err missing
  parse_marked loads (line ∷ []) = read_document (loads (payload_of line))
  parse_marked loads _ = err multiple

  unfoldable pub parse_mapping_cloud_accounting_log :
      (List ℕ → Option (YamlValue F))
      → List ℕ
      → Result MappingCloudAccountingError MappingCloudAccounting
  parse_mapping_cloud_accounting_log loads log_text =
      parse_marked loads (marked (splitlines log_text))

  -- `read_text`: `none` is an `OSError`
  unfoldable pub read_mapping_cloud_accounting :
      (List ℕ → Option (YamlValue F))
      → Option (List ℕ)
      → Result MappingCloudAccountingError MappingCloudAccounting
  read_mapping_cloud_accounting loads none = err log_unreadable
  read_mapping_cloud_accounting loads (some log_text) =
      parse_mapping_cloud_accounting_log loads log_text

  unfoldable pub mapping_cloud_accounting_for_profile :
      (List ℕ → Option (YamlValue F))
      → Option (List ℕ)
      → String
      → Result MappingCloudAccountingError (Option MappingCloudAccounting)
  mapping_cloud_accounting_for_profile loads log profile = elim (emit_cadence profile) [
    | none ↦ ok none
    | some cadence ↦ optional (read_mapping_cloud_accounting loads log)
  ]
