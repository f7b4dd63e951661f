-- ===== src/Replay/Files/Stream.antt =====
-- How far a bounded copy goes.
use go2_local_navigation.Prelude.{
  ℕ, zero, suc, ◌+◌, ◌-◌, ◌≤◌, ◌<◌, ◌≡◌, ◌∙◌, refl, ap, true, false, none, some, List, [], ◌∷◌,
  ◌++◌, length, take, drop, take-drop, length-drop, length-append, is_empty, Result, ok, err, ◌>>=◌,
  ltb, leb, arith, if◌then◌else◌, Bool-cases, inl, inr,
}
use go2_local_navigation.Replay.Contract.{AcquisitionError, conflict}
use go2_local_navigation.Replay.Files.{stream_loop, minimum, chunk_bytes}

-- The whole source if it fits, and else an error.
abbrev pub bounded_copy : List ℕ → ℕ → ℕ → Result AcquisitionError (List ℕ)
bounded_copy source written byte_cap =
    if leb (written + length source) byte_cap
    then ok source
    else err (conflict "download_byte_cap_exceeded")

chunk_size : (n : ℕ) (source : List ℕ) → length (take n source) ≡ minimum n (length source)
chunk_size zero source = ground arith
chunk_size (suc n) [] = ground arith
chunk_size (suc n) (x ∷ source) = let ih = chunk_size n source in ground (arith, ih)

empty_of_length : (xs : List ℕ) → length xs ≡ 0 → xs ≡ []
empty_of_length [] h = refl
empty_of_length (x ∷ xs) h = absurd (omega (arith, h))

after_chunk :
    (chunk rest : List ℕ) (written byte_cap : ℕ)
    → (bounded_copy rest (written + length chunk) byte_cap >>= λ more. ok (chunk ++ more))
      ≡ bounded_copy (chunk ++ rest) written byte_cap
after_chunk chunk rest written byte_cap =
    let sizes = length-append chunk rest in
    elim (Bool-cases (leb (written + length chunk + length rest) byte_cap)) [
      | inl fits ↦
          let whole : leb (written + length (chunk ++ rest)) byte_cap ≡ true =
            ground (arith, fits, sizes) in
          rw fits (rw whole refl)
      | inr over ↦
          let whole : leb (written + length (chunk ++ rest)) byte_cap ≡ false =
            ground (arith, over, sizes) in
          rw over (rw whole refl)
    ]

-- The copy writes the whole source if it fits below the cap, and else stops with an error; it ends
-- after at most as many rounds as the source has bytes, and one more. No write fails.
pub stream_loop-bounded_copy :
    (fuel : ℕ) (source : List ℕ) (written byte_cap : ℕ)
    → length source < fuel
    → written ≤ byte_cap
    → stream_loop (λ _. false) fuel source written byte_cap
      ≡ some (bounded_copy source written byte_cap)
unfolding stream_loop
stream_loop-bounded_copy zero source written byte_cap h l = absurd (omega arith)
stream_loop-bounded_copy (suc fuel) source written byte_cap h l =
    let size = minimum chunk_bytes (byte_cap - written + 1) in
    go (take size source) (drop size source) (take-drop size source) (chunk_size size source)
      (λ a b.
        stream_loop-bounded_copy fuel (drop size source) (written + length (take size source))
          byte_cap (ground (arith, a, length-drop size source, chunk_size size source)) b)
  where
    go :
        (chunk rest : List ℕ)
        → chunk ++ rest ≡ source
        → length chunk ≡ minimum (minimum chunk_bytes (byte_cap - written + 1)) (length source)
        → (1 ≤ length chunk
            → written + length chunk ≤ byte_cap
            → stream_loop (λ _. false) fuel rest (written + length chunk) byte_cap
              ≡ some (bounded_copy rest (written + length chunk) byte_cap))
        → (if is_empty chunk
            then some (ok [])
            else if ltb byte_cap (written + length chunk)
            then some (err (conflict "download_byte_cap_exceeded"))
            else elim (stream_loop (λ _. false) fuel rest (written + length chunk) byte_cap) [
              | none ↦ none
              | some r ↦ some (r >>= λ more. ok (chunk ++ more))
            ])
          ≡ some (bounded_copy source written byte_cap)
    go [] rest e size ih =
        let z : length source ≡ 0 = ground (arith, size) in
        rw (empty_of_length source z) (ground arith)
    go (c ∷ chunk) rest e size ih =
        let sizes = length-append (c ∷ chunk) rest in
        elim (Bool-cases (ltb byte_cap (written + suc (length chunk)))) [
          | inl over ↦
              let whole : leb (written + length source) byte_cap ≡ false =
                ground (arith, over, sizes, ap length e) in
              rw over (rw whole refl)
          | inr under ↦ rw under (
              rw (ih (omega arith) (ground (arith, under))) (
                ap some (
                  after_chunk (c ∷ chunk) rest written byte_cap
                  ∙ ap (λ s. bounded_copy s written byte_cap) e)))
        ]
