-- ===== src/Bringup/Topic/Frames.antt =====
-- The sets of frames of src/bringup/bringup/preflight_accumulator.py, where only one is expected.
use go2_local_navigation.Prelude.{
  ◌≡◌, ◌⊎◌, ◌∙◌, inl, inr, String, true, Option, none, some, List, [], ◌∷◌, All, Bool-cases,
  if◌then◌else◌,
}
use mathlib.Core.Path.{subst}
use go2_local_navigation.Prelude.Text.{str_eq, str_eq_iff, codes}
use go2_local_navigation.Bringup.Metrics.{frame_passed}
use go2_local_navigation.Bringup.Topic.{add_text, add_frame, codes_lt}

-- Texts that are all one.
abbrev pub Only : String → List String → Type 0
Only f texts = All (λ t. t ≡ f) texts

Only-add_text :
    (f s : String) (texts : List String) → Only f (add_text s texts) → (s ≡ f) × Only f texts
unfolding add_text
Only-add_text f s [] h = (h.0, tt)
Only-add_text f s (t ∷ ts) h = elim (Bool-cases (str_eq s t)) [
  | inl e ↦
      let k =
        subst
          (λ b. Only f (
            if b
            then t ∷ ts
            else if codes_lt (codes s) (codes t)
            then s ∷ t ∷ ts
            else t ∷ add_text s ts))
          e h in
      ((str_eq_iff s t).0 e ∙ k.0, k)
  | inr e ↦
      let k =
        subst
          (λ b. Only f (
            if b
            then t ∷ ts
            else if codes_lt (codes s) (codes t)
            then s ∷ t ∷ ts
            else t ∷ add_text s ts))
          e h in
      elim (Bool-cases (codes_lt (codes s) (codes t))) [
        | inl l ↦
            let n = subst (λ b. Only f (if b then s ∷ t ∷ ts else t ∷ add_text s ts)) l k in
            (n.0, n.1)
        | inr l ↦
            let n = subst (λ b. Only f (if b then s ∷ t ∷ ts else t ∷ add_text s ts)) l k in
            let (a, b) = Only-add_text f s ts n.1 in (a, (n.0, b))
      ]
]

-- No frame, an empty one, or the one named.
abbrev pub FrameIs : String → Option String → Type 0
FrameIs f none = Unit
FrameIs f (some g) = (str_eq g "" ≡ true) ⊎ (g ≡ f)

Only-add_frame :
    (f : String) (frame : Option String) (frames : List String)
    → Only f (add_frame frame frames)
    → FrameIs f frame × Only f frames
unfolding add_frame
Only-add_frame f none frames h = (tt, h)
Only-add_frame f (some g) frames h = elim (Bool-cases (str_eq g "")) [
  | inl e ↦ (inl e, subst (λ b. Only f (if b then frames else add_text g frames)) e h)
  | inr e ↦
      let (a, b) =
        Only-add_text f g frames
          (subst (λ b. Only f (if b then frames else add_text g frames)) e h) in
      (inr a, b)
]

-- What a contract asks of the frames, where it names one.
abbrev pub OnlyExpected : Option String → List String → Type 0
OnlyExpected none frames = Unit
OnlyExpected (some f) frames = Only f frames

abbrev pub FrameMatches : Option String → Option String → Type 0
FrameMatches none frame = Unit
FrameMatches (some f) frame = FrameIs f frame

pub expected_frame :
    (expected frame : Option String) (frames : List String)
    → OnlyExpected expected (add_frame frame frames)
    → FrameMatches expected frame × OnlyExpected expected frames
expected_frame none frame frames h = (tt, tt)
expected_frame (some f) frame frames h = Only-add_frame f frame frames h

pub passed-OnlyExpected :
    (expected : Option String) (frames : List String)
    → frame_passed expected frames ≡ true
    → OnlyExpected expected frames
passed-OnlyExpected none frames h = tt
passed-OnlyExpected (some f) (g ∷ []) h = ((str_eq_iff g f).0 h, tt)
passed-OnlyExpected (some f) [] h = cc
passed-OnlyExpected (some f) (g ∷ k ∷ ks) h = cc
