-- ===== src/Bindings/Bits.antt =====
-- A value of the bindings as `description_bit` of gr-sdrp/docs/doxygen/doxyxml/text.py sees it.
use sdrportal.Prelude.{Text, codes, Option, none, some, text_eq, if◌then◌else◌}
use sdrportal.Describe.{Bit, Bits}
use sdrportal.Bindings.Value.{
  Value, nothing, string, integer, array, instance_of, container, Values, nil, cons, Fields, end,
  field, get_field, content_, content,
}

-- The attribute `name`; `None` is no paragraph, as if it were missing.
abbrev name_text : Option Value → Option Text
name_text (some (string t)) = some t
name_text _ = none

-- The first of `content`, `content_` and `value` that the object has.
abbrev pub object_bit : Option Text → Option Bits → Option Bits → Option Bit → Bit
object_bit n (some items) _ _ = Bit.content n items
object_bit n none (some items) _ = Bit.content_ n items
object_bit n none none (some item) = Bit.value n item
object_bit n none none none = Bit.other

unfoldable mutual
  unfolding get_field text_eq

  pub bit_of : Value → Bit
  bit_of nothing = Bit.other
  bit_of (string t) = Bit.str t
  bit_of (integer minus n) = Bit.other
  bit_of (array vs) = Bit.other
  bit_of (instance_of c fs) =
      object_bit (name_text (get_field (codes "name") fs)) (items_at content fs)
        (items_at content_ fs) (bit_at (codes "value") fs)
  bit_of (container cat n v) = Bit.value (some n) (bit_of v)

  pub bits_of : Values → Bits
  bits_of nil = Bits.nil
  bits_of (cons v vs) = Bits.cons (bit_of v) (bits_of vs)

  -- The items of a list; what is no list has an item that is no text.
  pub items_of : Value → Bits
  items_of nothing = Bits.cons Bit.other Bits.nil
  items_of (string t) = Bits.cons Bit.other Bits.nil
  items_of (integer minus n) = Bits.cons Bit.other Bits.nil
  items_of (array vs) = bits_of vs
  items_of (instance_of c fs) = Bits.cons Bit.other Bits.nil
  items_of (container cat n v) = Bits.cons Bit.other Bits.nil

  pub items_at : Text → Fields → Option Bits
  items_at k end = none
  items_at k (field j v fs) =
      let rest = items_at k fs in if text_eq j k then some (items_of v) else rest

  pub bit_at : Text → Fields → Option Bit
  bit_at k end = none
  bit_at k (field j v fs) = let rest = bit_at k fs in if text_eq j k then some (bit_of v) else rest
