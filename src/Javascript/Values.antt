-- ===== src/Javascript/Values.antt =====
-- The values of JavaScript that the script handles. Of the numbers these are the integers: the
-- script computes with bytes, sizes, counters and 32-bit patterns.
use warpcoil.Base.{ℕ, ◌-◌, ◌^◌, ◌%◌, Bool, true, false, List, [], ◌∷◌, ltb, if◌then◌else◌}
use warpcoil.Types.Syntax.{Identifier}
use warpcoil.Generated.Interface.{equal}

-- `negsuc n` is -(n + 1).
pub data ℤ : Type 0 where
  pos : ℕ → ℤ
  negsuc : ℕ → ℤ

-- `<` on numbers
abbrev pub less_than : ℤ → ℤ → Bool
less_than (pos m) (pos n) = ltb m n
less_than (pos m) (negsuc n) = false
less_than (negsuc m) (pos n) = true
less_than (negsuc m) (negsuc n) = ltb n m

-- What `<<=` and `|=` leave: the 32 bits as a signed number.
abbrev pub to_int32 : ℕ → ℤ
to_int32 bits = if ltb bits (2 ^ 31) then pos bits else negsuc (2 ^ 32 - 1 - bits)

-- The low bits of a number, which `setUint8`, `setUint16` and `setUint32` write.
abbrev pub low_bits : ℕ → ℤ → ℕ
low_bits width (pos n) = n % 2 ^ width
low_bits width (negsuc n) = 2 ^ width - 1 - n % 2 ^ width

-- A text is the list of its UTF-16 code units.
mutual
  pub data Value : Type 0 where
    undefined : Value
    number : ℤ → Value
    text : List ℕ → Value
    array : Values → Value
    object : Properties → Value

  pub data Values : Type 0 where
    none_left : Values
    item : Value → Values → Values

  -- The own properties of an object, in the order in which they were added.
  pub data Properties : Type 0 where
    no_property : Properties
    property : Identifier → Value → Properties → Properties

-- `elements.push(value)`
unfoldable pub push : Values → Value → Values
push none_left value = item value none_left
push (item first rest) value = item first (push rest value)

-- `result.name = value`
unfoldable pub set_property : Identifier → Value → Properties → Properties
set_property name value no_property = property name value no_property
set_property name value (property key old rest) =
    let later = set_property name value rest in
    if equal name key then property key value rest else property key old later

-- "high" and "low"
abbrev pub high_name : Identifier
high_name = 104 ∷ 105 ∷ 103 ∷ 104 ∷ []

abbrev pub low_name : Identifier
low_name = 108 ∷ 111 ∷ 119 ∷ []

-- `{high: …, low: …}`
abbrev pub long : ℤ → ℤ → Value
long high low =
    object (property high_name (number high) (property low_name (number low) no_property))
