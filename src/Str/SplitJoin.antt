-- ===== src/Str/SplitJoin.antt =====
-- About `split` and `join`.
use sdrportal.Prelude.{
  ℕ, zero, suc, ◌-◌, ◌≡◌, ◌≢◌, refl, ap, ◌∙◌, Text, List, [], ◌∷◌, ◌++◌, true, false, ◌==◌, length,
  drop, arith, Bool-cases, inl, inr, All,
}
use sdrportal.Str.{is_prefix, cons_head, split_from, split, join, has_char}

cons_head-ne-nil : (c : ℕ) (ts : List Text) → cons_head c ts ≢ []
cons_head-ne-nil c [] = λ e. cc
cons_head-ne-nil c (t ∷ ts) = λ e. cc

pub split_from-ne-nil : (sep : Text) (k : ℕ) (s : Text) → split_from sep k s ≢ []
unfolding split_from
split_from-ne-nil sep k [] = λ e. cc
split_from-ne-nil sep (suc k) (c ∷ s) = split_from-ne-nil sep k s
split_from-ne-nil sep zero (c ∷ s) = elim (Bool-cases (is_prefix sep (c ∷ s))) [
  | inl e ↦ rw e (λ q. cc)
  | inr e ↦ rw e (cons_head-ne-nil c (split_from sep 0 s))
]

is_prefix-append-drop : (p s : Text) → is_prefix p s ≡ true → p ++ drop (length p) s ≡ s
unfolding is_prefix
is_prefix-append-drop [] s h = refl
is_prefix-append-drop (p ∷ ps) [] h = cc
is_prefix-append-drop (p ∷ ps) (c ∷ s) h = ground (arith, is_prefix-append-drop ps s)

join-cons_head :
    (sep : Text) (c : ℕ) (ts : List Text) → ts ≢ [] → join sep (cons_head c ts) ≡ c ∷ join sep ts
unfolding join
join-cons_head sep c [] h = absurd (h refl)
join-cons_head sep c (t ∷ []) h = refl
join-cons_head sep c (t ∷ u ∷ us) h = refl

join-cons :
    (sep t : Text) (ts : List Text) → ts ≢ [] → join sep (t ∷ ts) ≡ t ++ (sep ++ join sep ts)
unfolding join
join-cons sep t [] h = absurd (h refl)
join-cons sep t (u ∷ us) h = refl

join-split_from :
    (q : ℕ) (qs : Text) (k : ℕ) (s : Text) → join (q ∷ qs) (split_from (q ∷ qs) k s) ≡ drop k s
unfolding split_from
join-split_from q qs zero [] = unfold join in refl
join-split_from q qs (suc k) [] = unfold join in refl
join-split_from q qs (suc k) (c ∷ s) = join-split_from q qs k s
join-split_from q qs zero (c ∷ s) = elim (Bool-cases (is_prefix (q ∷ qs) (c ∷ s))) [
  | inl e ↦
      let sep : Text = q ∷ qs in
      let less : suc (length qs) - 1 ≡ length qs = omega arith in
      rw e (
        join-cons sep [] (split_from sep (length sep - 1) s) (split_from-ne-nil sep _ s)
        ∙ ap (λ (t : Text). sep ++ t)
            (ap (λ (k : ℕ). join sep (split_from sep k s)) less
              ∙ join-split_from q qs (length qs) s)
        ∙ is_prefix-append-drop sep (c ∷ s) e)
  | inr e ↦
      let sep : Text = q ∷ qs in
      rw e (
        join-cons_head sep c (split_from sep 0 s) (split_from-ne-nil sep 0 s)
        ∙ ap (λ (t : Text). c ∷ t) (join-split_from q qs 0 s))
]

abbrev Without : ℕ → List Text → Type 0
Without c ts = All (λ t. has_char c t ≡ false) ts

cons_head-Without :
    (c x : ℕ) (ts : List Text) → (x == c) ≡ false → Without c ts → Without c (cons_head x ts)
unfolding has_char
cons_head-Without c x [] h w = (rw h, tt)
cons_head-Without c x (t ∷ ts) h w = (rw h w.0, w.1)

split_from-Without : (c : ℕ) (s : Text) → Without c (split_from (c ∷ []) 0 s)
unfolding split_from is_prefix has_char
split_from-Without c [] = (refl, tt)
split_from-Without c (x ∷ s) = elim (Bool-cases (c == x)) [
  | inl e ↦ rw e (refl, split_from-Without c s)
  | inr e ↦ rw e (cons_head-Without c x _ (ground arith) (split_from-Without c s))
]

-- No piece of a split at one character contains that character.
pub split-Without : (c : ℕ) (s : Text) → All (λ t. has_char c t ≡ false) (split (c ∷ []) s)
unfolding split
split-Without c s = split_from-Without c s

split_from-append :
    (c : ℕ) (t s : Text)
    → has_char c t ≡ false
    → split_from (c ∷ []) 0 (t ++ (c ∷ s)) ≡ t ∷ split_from (c ∷ []) 0 s
unfolding split_from is_prefix has_char
split_from-append c [] s h = ground arith
split_from-append c (x ∷ t) s h = ground (arith, split_from-append c t s)

pub split-append :
    (c : ℕ) (t s : Text)
    → has_char c t ≡ false
    → split (c ∷ []) (t ++ (c ∷ s)) ≡ t ∷ split (c ∷ []) s
unfolding split
split-append c t s h = split_from-append c t s h

split_from_whole : (c : ℕ) (t : Text) → has_char c t ≡ false → split_from (c ∷ []) 0 t ≡ t ∷ []
unfolding split_from is_prefix has_char
split_from_whole c [] h = refl
split_from_whole c (x ∷ t) h = ground (arith, split_from_whole c t)

-- Splitting at one character gives back pieces that were joined by it, if there is a piece and
-- none contains the character.
pub split-join :
    (c : ℕ) (t : Text) (ts : List Text)
    → All (λ u. has_char c u ≡ false) (t ∷ ts)
    → split (c ∷ []) (join (c ∷ []) (t ∷ ts)) ≡ t ∷ ts
unfolding split join
split-join c t [] h = split_from_whole c t h.0
split-join c t (u ∷ us) h =
    split_from-append c t _ h.0 ∙ ap (λ (l : List Text). t ∷ l) (split-join c u us h.1)

-- For a separator that is not empty, joining the pieces of a split gives the text back.
pub join-split : (sep s : Text) → sep ≢ [] → join sep (split sep s) ≡ s
unfolding split
join-split [] s h = absurd (h refl)
join-split (q ∷ qs) s h = join-split_from q qs 0 s
