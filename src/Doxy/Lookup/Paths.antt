-- ===== src/Doxy/Lookup/Paths.antt =====
-- About `get_member` of base.py along a scoped name.
use mathlib.Core.Path.{fun_ext}
use sdrportal.Prelude.{
  ℕ, zero, suc, ◌<◌, ◌≡◌, ap, Text, codes, Option, List, [], ◌∷◌, ◌++◌, Bool, false, length,
  length-append, arith, Bool-cases, inl, inr, subst,
}
use sdrportal.Str.{split, join}
use sdrportal.Str.SplitJoin.{join-split}
use sdrportal.Doxy.State.{ObjId, World, Category, M, ◌>>=◌}
use sdrportal.Doxy.Lookup.{get_direct, first_bit, other_bits, is_empty, get_member_from, get_member}

-- What a scoped name is without its first part.
abbrev rest_of : Text → Text
rest_of name = join (codes "::") (other_bits (split (codes "::") name))

other_bits-shorter :
    (bits : List Text)
    → is_empty (join (codes "::") (other_bits bits)) ≡ false
    → length (join (codes "::") (other_bits bits)) < length (join (codes "::") bits)
unfolding join
other_bits-shorter [] h = cc
other_bits-shorter (b ∷ []) h = cc
other_bits-shorter (b ∷ c ∷ bs) h =
    omega (arith, length-append {0} b (codes "::" ++ join (codes "::") (c ∷ bs)))

rest_of-shorter :
    (name : Text) → is_empty (rest_of name) ≡ false → length (rest_of name) < length name
rest_of-shorter name h =
    subst (λ (t : Text). length (rest_of name) < length t) (join-split (codes "::") name (λ e. cc))
      (other_bits-shorter (split (codes "::") name) h)

module _ (w : World) (includes_block : Option ObjId → M Bool) where
  fuel_irrelevant :
      (f g : ℕ) (self : ObjId) (name : Text) (cat : Category)
      → length name < f
      → length name < g
      → get_member_from w includes_block f self name cat
        ≡ get_member_from w includes_block g self name cat
  unfolding get_member_from
  fuel_irrelevant zero g self name cat h k = absurd (omega arith)
  fuel_irrelevant (suc f) zero self name cat h k = absurd (omega arith)
  fuel_irrelevant (suc f) (suc g) self name cat h k =
      ap
        (λ (next : ObjId → M ObjId).
          get_direct w includes_block self cat (first_bit (split (codes "::") name)) >>= next)
        (fun_ext λ member. elim (Bool-cases (is_empty (rest_of name))) [
          | inl e ↦ rw e
          | inr e ↦
              let shorter = rest_of-shorter name e in
              rw e (fuel_irrelevant f g member (rest_of name) cat (omega arith) (omega arith))
        ])

  -- Any fuel above the length of the name gives one and the same result, that of `get_member`.
  pub get_member_from-get_member :
      (fuel : ℕ) (self : ObjId) (name : Text) (cat : Category)
      → length name < fuel
      → get_member_from w includes_block fuel self name cat
        ≡ get_member w includes_block self name cat
  unfolding get_member
  get_member_from-get_member fuel self name cat h =
      fuel_irrelevant fuel (suc (length name)) self name cat h (omega arith)
