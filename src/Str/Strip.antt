-- ===== src/Str/Strip.antt =====
-- About `strip`.
use sdrportal.Prelude.{
  ℕ, ◌≡◌, refl, ap, ◌∙◌, Text, [], ◌∷◌, ◌++◌, true, false, Bool-cases, inl, inr, All,
}
use sdrportal.Str.{is_space, lstrip, rstrip, strip, cons_unless_blank}

abbrev pub IsBlank : Text → Type 0
IsBlank s = All (λ c. is_space c ≡ true) s

-- The first character, if there is one, is no white space; and so for the last.
abbrev pub StartsDark : Text → Type 0
StartsDark [] = Unit
StartsDark (c ∷ s) = is_space c ≡ false

abbrev pub EndsDark : Text → Type 0
EndsDark [] = Unit
EndsDark (c ∷ []) = is_space c ≡ false
EndsDark (c ∷ d ∷ s) = EndsDark (d ∷ s)

lstrip_lem : (s : Text) → (pre : Text) × (s ≡ pre ++ lstrip s) × IsBlank pre × StartsDark (lstrip s)
unfolding lstrip
lstrip_lem [] = ([], refl, tt, tt)
lstrip_lem (c ∷ s) = elim (Bool-cases (is_space c)) [
  | inl e ↦
      let (pre, split, blank, dark) = lstrip_lem s in
      (c ∷ pre, rw e (ap (λ (t : Text). c ∷ t) split), (e, blank), rw e dark)
  | inr e ↦ ([], rw e, tt, rw e e)
]

rstrip_lem :
    (s : Text) → (post : Text) × (s ≡ rstrip s ++ post) × IsBlank post × EndsDark (rstrip s)
unfolding rstrip
rstrip_lem [] = ([], refl, tt, tt)
rstrip_lem (c ∷ s) = step c s (rstrip s) (rstrip_lem s)
  where
    step :
        (c : ℕ) (s t : Text)
        → (post : Text) × (s ≡ t ++ post) × IsBlank post × EndsDark t
        → (post : Text) × (c ∷ s ≡ cons_unless_blank c t ++ post)
          × IsBlank post
          × EndsDark (cons_unless_blank c t)
    step c s [] (post, split, blank, dark) = elim (Bool-cases (is_space c)) [
      | inl e ↦ (c ∷ post, rw e (ap (λ (u : Text). c ∷ u) split), (e, blank), rw e tt)
      | inr e ↦ (post, rw e (ap (λ (u : Text). c ∷ u) split), blank, rw e e)
    ]
    step c s (d ∷ t) (post, split, blank, dark) =
        (post, ap (λ (u : Text). c ∷ u) split, blank, dark)

rstrip-StartsDark : (s : Text) → StartsDark s → StartsDark (rstrip s)
unfolding rstrip
rstrip-StartsDark [] h = tt
rstrip-StartsDark (c ∷ s) h = go (rstrip s)
  where
    go : (t : Text) → StartsDark (cons_unless_blank c t)
    go [] = rw h h
    go (d ∷ t) = h

-- A text is its stripped text between two pieces of white space, and the stripped text neither
-- begins nor ends with white space.
pub strip_lem :
    (s : Text)
    → (pre : Text) × (post : Text) × (s ≡ pre ++ (strip s ++ post))
      × IsBlank pre
      × IsBlank post
      × StartsDark (strip s)
      × EndsDark (strip s)
unfolding strip
strip_lem s =
    let (pre, left, blank_left, dark) = lstrip_lem s in
    let (post, right, blank_right, dark_end) = rstrip_lem (lstrip s) in
    (
      pre,
      post,
      left ∙ ap (λ (u : Text). pre ++ u) right,
      blank_left,
      blank_right,
      rstrip-StartsDark (lstrip s) dark,
      dark_end,
    )
