-- ===== src/Addrs/Tests.antt =====
-- Runs on concrete inputs: an address is its text, and one with a colon is not of version 4.
use srv_app.Base.{
  ◌≡◌, ◌≤◌, ◌≢◌, refl, false, ◌||◌, ◌==◌, List, [], ◌∷◌, Option, none, some, Text, codes,
  if◌then◌else◌, arith, text_eq, text_eq_iff, Bool, int_eq,
}
use srv_app.Dict.{insert, lookup}
use srv_app.Mux.{slash, colon}
use srv_app.Addrs.{net_enum_addrs}
use srv_app.Addrs.Changes.{occurrences}

abbrev before_slash : Text → Text
before_slash [] = []
before_slash (c ∷ s) = let rest = before_slash s in if c == slash then [] else c ∷ rest

abbrev has_colon : Text → Bool
has_colon [] = false
has_colon (c ∷ s) = (c == colon) || has_colon s

abbrev as_text : Text → Text
as_text s = s

abbrev read_v4 : Text → Option Text
read_v4 s = if has_colon s then none else some (before_slash s)

abbrev loopback : Text
loopback = codes "127.0.0.1"

abbrev lan : Text
lan = codes "10.0.0.5"

abbrev interfaces : List Text
interfaces = codes "127.0.0.1/8" ∷ codes "::1/128" ∷ codes "10.0.0.5/24" ∷ []

first_enumeration : net_enum_addrs as_text read_v4 interfaces [] ≡ (loopback ∷ lan ∷ [], 2)
unfolding net_enum_addrs insert lookup text_eq int_eq
first_enumeration = refl

second_enumeration :
    net_enum_addrs as_text read_v4 interfaces (lan ∷ loopback ∷ []) ≡ (loopback ∷ lan ∷ [], 0)
unfolding net_enum_addrs insert lookup text_eq int_eq
second_enumeration = refl

removed_addr : net_enum_addrs as_text read_v4 [] (lan ∷ []) ≡ ([], 1)
unfolding net_enum_addrs insert lookup text_eq int_eq
removed_addr = refl

lan_not_loopback : loopback ≢ lan
lan_not_loopback = ground arith

no_doubles : (k : Text) → occurrences k (loopback ∷ lan ∷ []) ≤ 1
no_doubles k = ground (arith, text_eq_iff loopback k, text_eq_iff lan k, lan_not_loopback)

lan_doubled : occurrences lan (lan ∷ lan ∷ []) ≡ 2
unfolding text_eq
lan_doubled = refl
