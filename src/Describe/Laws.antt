-- ===== src/Describe/Laws.antt =====
-- When a description has a text, and which.
use sdrportal.Prelude.{◌≡◌, refl, Text, some, [], ◌++◌, ◌⊎◌, inl, inr}
use sdrportal.Exc.{ok, err, standard_error}
use sdrportal.Str.{strip}
use sdrportal.Describe.{
  Bit, str, content, content_, value, other, Bits, nil, cons, expecting, break_after,
  description_bit, join_bits, description,
}

-- Every leaf of the object is a text.
unfoldable mutual
  pub IsText : Bit → Type 0
  IsText (str t) = Unit
  IsText (content name items) = AreTexts items
  IsText (content_ name items) = AreTexts items
  IsText (value name item) = IsText item
  IsText other = ⊥

  pub AreTexts : Bits → Type 0
  AreTexts nil = Unit
  AreTexts (cons b bs) = IsText b × AreTexts bs

-- The marked up text, with no error to mind.
unfoldable mutual
  pub flat : Bit → Text
  flat (str t) = t
  flat (content name items) = break_after name (flat_all items)
  flat (content_ name items) = break_after name (flat_all items)
  flat (value name item) = break_after name (flat item)
  flat other = []

  pub flat_all : Bits → Text
  flat_all nil = []
  flat_all (cons b bs) = flat b ++ flat_all bs

mutual
  unfolding description_bit IsText flat

  bit_of_text : (b : Bit) → IsText b → description_bit b ≡ ok (flat b)
  bit_of_text (str t) h = refl
  bit_of_text (content name items) h = rw (bits_of_texts items h)
  bit_of_text (content_ name items) h = rw (bits_of_texts items h)
  bit_of_text (value name item) h = rw (bit_of_text item h)
  bit_of_text other h = absurd h

  bits_of_texts : (bs : Bits) → AreTexts bs → join_bits bs ≡ ok (flat_all bs)
  bits_of_texts nil h = refl
  bits_of_texts (cons b bs) h = rw (bit_of_text b h.0, bits_of_texts bs h.1)

mutual
  unfolding description_bit IsText

  bit_cases : (b : Bit) → IsText b ⊎ (description_bit b ≡ err (standard_error expecting))
  bit_cases (str t) = inl tt
  bit_cases (content name items) = elim (bits_cases items) [ inl h ↦ inl h | inr e ↦ inr (rw e) ]
  bit_cases (content_ name items) = elim (bits_cases items) [ inl h ↦ inl h | inr e ↦ inr (rw e) ]
  bit_cases (value name item) = elim (bit_cases item) [ inl h ↦ inl h | inr e ↦ inr (rw e) ]
  bit_cases other = inr refl

  bits_cases : (bs : Bits) → AreTexts bs ⊎ (join_bits bs ≡ err (standard_error expecting))
  bits_cases nil = inl tt
  bits_cases (cons b bs) = elim (bit_cases b) [
    | inl h ↦ elim (bits_cases bs) [ inl k ↦ inl (h, k) | inr e ↦ inr (rw (bit_of_text b h, e)) ]
    | inr e ↦ inr (rw e)
  ]

-- A description has a text exactly if every leaf of the object is a text: then it is the marked up
-- text, with a break after each paragraph and stripped of the white space around it; otherwise
-- StandardError is raised.
pub description-cases :
    (obj : Bit)
    → (IsText obj × (description (some obj) ≡ ok (some (strip (flat obj)))))
      ⊎ ((¬ IsText obj) × (description (some obj) ≡ err (standard_error expecting)))
unfolding description
description-cases obj = elim (bit_cases obj) [
  | inl h ↦ inl (h, rw (bit_of_text obj h))
  | inr e ↦ inr (λ h. cc (bit_of_text obj h), rw e)
]
