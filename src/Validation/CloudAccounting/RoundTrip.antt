-- ===== src/Validation/CloudAccounting/RoundTrip.antt =====
-- `format_mapping_cloud_accounting` of
-- src/go2_perception/go2_perception/mapping_cloud_accumulator.py, and reading its line back.
use go2_local_navigation.Prelude.{
  ℕ, suc, ◌≡◌, ◌∙◌, refl, ap, Bool, true, false, ◌||◌, Option, some, List, [], ◌∷◌, ◌++◌, All,
  All-append, ok, arith, ◌==◌,
}
use go2_local_navigation.Prelude.Int.{pos}
use go2_local_navigation.Prelude.Text.{contains, starts_with}
use go2_local_navigation.Prelude.Document.{YamlValue, text, integer, mapping, entry, no_entries}
use go2_local_navigation.Perception.RetryQueue.{MappingCloudAccounting}
use go2_local_navigation.Validation.CloudAccounting.{
  marker, is_line_break, splitlines, marked, payload_of, accounting_of, counts_of,
  nonnegative_count, positive_count, parse_marked, parse_mapping_cloud_accounting_log,
}

-- `asdict(accounting)`
abbrev pub document_of : {F : Type 0} → MappingCloudAccounting → YamlValue F
document_of a = mapping (
    entry (text "received") (integer (pos a.received)) (
      entry (text "future_waited") (integer (pos a.future_waited)) (
        entry (text "recovered_after_retry") (integer (pos a.recovered_after_retry)) (
          entry (text "processed") (integer (pos a.processed)) (
            entry (text "output_published") (integer (pos a.output_published)) (
              entry (text "dropped_unrecoverable") (integer (pos a.dropped_unrecoverable)) (
                entry (text "dropped_overflow") (integer (pos a.dropped_overflow)) (
                  entry (text "pending_at_shutdown") (integer (pos a.pending_at_shutdown)) (
                    entry (text "partial_frames_not_emitted")
                      (integer (pos a.partial_frames_not_emitted))
                      (entry (text "emit_every") (integer (pos a.emit_every)) (
                        entry (text "output_stamp_regression_count")
                          (integer (pos a.output_stamp_regression_count)) no_entries)))))))))))

unfoldable pub format_mapping_cloud_accounting :
    {F : Type 0} → (YamlValue F → List ℕ) → MappingCloudAccounting → List ℕ
format_mapping_cloud_accounting dumps a = marker ++ dumps (document_of a)

-- A text on one line.
abbrev pub IsLine : List ℕ → Type 0
IsLine line = All (λ c. is_line_break c ≡ false) line

abbrev pub unlines : List (List ℕ) → List ℕ
unlines [] = []
unlines (line ∷ lines) = line ++ 10 ∷ unlines lines

abbrev pub IsPlain : List ℕ → Type 0
IsPlain line = IsLine line × (contains marker line ≡ false)

splitlines-line :
    (line rest : List ℕ) → IsLine line → splitlines (line ++ 10 ∷ rest) ≡ line ∷ splitlines rest
unfolding splitlines
splitlines-line [] rest h = refl
splitlines-line (c ∷ line) rest h =
    let ih = splitlines-line line rest h.1 in ground (arith, ih, h.0)

splitlines-unlines : (lines : List (List ℕ)) → All IsLine lines → splitlines (unlines lines) ≡ lines
unfolding splitlines
splitlines-unlines [] h = refl
splitlines-unlines (line ∷ lines) h =
    splitlines-line line (unlines lines) h.0
    ∙ ap (λ rest. line ∷ rest) (splitlines-unlines lines h.1)

marked-plain :
    (before after : List (List ℕ)) (line : List ℕ)
    → All IsPlain before
    → All IsPlain after
    → contains marker line ≡ true
    → marked (before ++ line ∷ after) ≡ line ∷ []
unfolding marked
marked-plain [] [] line h k m = rw m
marked-plain [] (a ∷ after) line h k m =
    let ih = marked-plain [] after line h k.1 m in ground (arith, ih, m, (k.0).1)
marked-plain (b ∷ before) after line h k m = rw (h.0).1 (marked-plain before after line h.1 k m)

-- A launch prefix: it has no capital M, with which the marker begins.
abbrev pub IsPrefix : List ℕ → Type 0
IsPrefix prefix = All (λ c. (77 == c) ≡ false) prefix

payload_of-prefix :
    (prefix payload : List ℕ)
    → IsPrefix prefix
    → payload_of (prefix ++ (marker ++ payload)) ≡ payload
unfolding payload_of starts_with
payload_of-prefix [] payload h = refl
payload_of-prefix (c ∷ prefix) payload h = rw h.0 (payload_of-prefix prefix payload h.1)

or_true : (a : Bool) {b : Bool} → b ≡ true → (a || b) ≡ true
or_true true h = refl
or_true false h = h

contains-prefix : (prefix payload : List ℕ) → contains marker (prefix ++ (marker ++ payload)) ≡ true
unfolding contains
contains-prefix [] payload = refl
contains-prefix (c ∷ prefix) payload =
    or_true (starts_with marker (c ∷ prefix ++ (marker ++ payload)))
      (contains-prefix prefix payload)

accounting_of-document_of :
    (F : Type 0) (a : MappingCloudAccounting) (n : ℕ)
    → a.emit_every ≡ suc n
    → accounting_of (document_of {F = F} a) ≡ ok a
unfolding accounting_of counts_of nonnegative_count positive_count
accounting_of-document_of F a n h = rw h refl

-- What the log needs of the JSON codec for one accounting: its text is on one line, and is read back.
pub record IsCodec {F : Type 0} (dumps : YamlValue F → List ℕ)
    (loads : List ℕ → Option (YamlValue F)) (a : MappingCloudAccounting) : Type 0 where
  pub one_line : IsLine (dumps (document_of a))
  pub loads-dumps : loads (dumps (document_of a)) ≡ some (document_of a)

IsLine-append : (xs ys : List ℕ) → IsLine xs → IsLine ys → IsLine (xs ++ ys)
IsLine-append xs ys = All-append (λ c. is_line_break c ≡ false) xs ys

marker-IsLine : IsLine marker
marker-IsLine = ground arith

IsPlain-IsLine : (lines : List (List ℕ)) → All IsPlain lines → All IsLine lines
IsPlain-IsLine [] h = tt
IsPlain-IsLine (line ∷ lines) h = ((h.0).0, IsPlain-IsLine lines h.1)

-- The accounting that the node prints is the one that is read from the launch log: the printed line
-- may have a launch prefix on its line that has no capital M, other lines without the marker may
-- stand around it, `emit_every` is positive, and the JSON codec reads back what it writes on one
-- line.
pub parse-format :
    {F : Type 0} (dumps : YamlValue F → List ℕ) (loads : List ℕ → Option (YamlValue F))
    (a : MappingCloudAccounting) (n : ℕ) (before after : List (List ℕ)) (prefix : List ℕ)
    → IsCodec dumps loads a
    → a.emit_every ≡ suc n
    → All IsPlain before
    → All IsPlain after
    → IsLine prefix
    → IsPrefix prefix
    → parse_mapping_cloud_accounting_log loads
        (unlines (before ++ (prefix ++ format_mapping_cloud_accounting dumps a) ∷ after))
      ≡ ok a
unfolding parse_mapping_cloud_accounting_log parse_marked format_mapping_cloud_accounting
parse-format dumps loads a n before after prefix codec e h k l p =
    let line = prefix ++ (marker ++ dumps (document_of a)) in
    let lines = before ++ line ∷ after in
    let whole : All IsLine lines =
      All-append IsLine before (line ∷ after) (IsPlain-IsLine before h) (
        IsLine-append prefix (marker ++ dumps (document_of a)) l
            (IsLine-append marker (dumps (document_of a)) marker-IsLine codec.one_line),
        IsPlain-IsLine after k,
      ) in
    rw (splitlines-unlines lines whole) (
      rw (marked-plain before after line h k (contains-prefix prefix (dumps (document_of a)))) (
        rw (payload_of-prefix prefix (dumps (document_of a)) p)
          (rw codec.loads-dumps (accounting_of-document_of _ a n e))))
