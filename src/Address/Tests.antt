-- ===== src/Address/Tests.antt =====
-- The theorems on net/address.cc, on addresses of four bytes, and two of different sizes.
use astraea_open_source.Prelude.{◌≡◌, [], ◌∷◌, ◌++◌, true, false, refl, arith}
use astraea_open_source.Address.{Address, equals, less, memcmp}
use astraea_open_source.Address.Order.{zeros, OneOf, compare-OneOf}

abbrev port_8888 : Address
port_8888 = record { size = 4; addr = 2 ∷ 0 ∷ 34 ∷ 184 ∷ [] ++ zeros 124 }

abbrev port_8889 : Address
port_8889 = record { size = 4; addr = 2 ∷ 0 ∷ 34 ∷ 185 ∷ [] ++ zeros 124 }

abbrev family_only : Address
family_only = record { size = 2; addr = 2 ∷ 0 ∷ [] ++ zeros 126 }

compare-OneOf_example :
    OneOf (less port_8888 port_8889) (equals port_8888 port_8889) (less port_8889 port_8888)
compare-OneOf_example =
    compare-OneOf port_8888 port_8889
      (record { size_fits = omega arith; full = refl; padding = refl })
      (record { size_fits = omega arith; full = refl; padding = refl }) refl

-- A short address equals one that it begins, is also less than it, and is not equal the other way.
equals_asymmetric :
    (equals family_only port_8888 ≡ true)
    × (equals port_8888 family_only ≡ false)
    × (less family_only port_8888 ≡ true)
unfolding equals less memcmp
equals_asymmetric = (refl, refl, refl)
