-- ===== src/Access/Tests.antt =====
-- Access rights on concrete lines, over a net that holds the addresses up to a bound; an address is
-- the length of its text.
use srv_app.Base.{
  ℕ, ◌+◌, ◌≡◌, refl, ◌≤◌, Bool, true, List, [], ◌∷◌, Option, none, some, Memᴰ, Text, codes, arith,
  leb, length, text_eq,
}
use srv_app.Access.{level_of, get_access_level, cfg_access, parse_access_level}
use srv_app.Access.Bounds.{level_of-cfg_access, get_access_level-granted}

abbrev contains : ℕ → ℕ → Bool
contains net ip = leb ip net

abbrev parse_ip : Text → ℕ
parse_ip s = length s

abbrev parse_cidr : Text → Option (ℕ × ℕ)
parse_cidr [] = none
parse_cidr (c ∷ s) = some (length s + 1, length s + 1)

abbrev as_is : Text → Text
as_is s = s

-- The second line lowers the net of the first.
abbrev lines : List (Text × Text)
lines =
    (codes "12345", codes "admin") ∷ (codes "123", codes "user") ∷ (codes "", codes "admin") ∷ []

cfg_test :
    (get_access_level contains parse_ip (cfg_access contains as_is parse_cidr lines) (codes "1234")
      ≡ 1)
    × (get_access_level contains parse_ip
          (cfg_access contains as_is parse_cidr lines)
          (codes "123456")
        ≡ 0)
unfolding get_access_level cfg_access parse_access_level text_eq
cfg_test = (refl, refl)

level_of-cfg_access_example :
    level_of contains (cfg_access contains as_is parse_cidr lines) 3
    ≤ parse_access_level as_is (codes "user")
level_of-cfg_access_example =
    level_of-cfg_access contains as_is parse_cidr lines (codes "123") (codes "user") 3 3
      (Memᴰ.tail (Memᴰ.head refl)) refl refl

get_access_level-granted_example :
    (v : Text × Text) × Memᴰ v lines
    × ((ip : ℕ) × (net : ℕ) × (parse_cidr v.0 ≡ some (ip, net))
        × (contains net 4 ≡ true)
        × (get_access_level contains parse_ip
              (cfg_access contains as_is parse_cidr lines)
              (codes "1234")
            ≤ parse_access_level as_is v.1))
unfolding get_access_level cfg_access parse_access_level text_eq
get_access_level-granted_example =
    get_access_level-granted contains as_is parse_cidr parse_ip lines (codes "1234") (omega arith)
