-- ===== src/Addrs.antt =====
-- net.go: `netEnumAddrs`, which reads the local addresses again and says how many came or went. It
-- runs under `localAddrsLock`.
pub mod Changes
mod Tests
use srv_app.Base.{
  ℕ, zero, suc, ◌+◌, Bool, true, false, ◌||◌, List, [], ◌∷◌, ◌++◌, Option, none, some, Text, ℤ, pos,
  negsuc, int_eq, if◌then◌else◌,
}
use srv_app.Dict.{lookup, insert}

-- `n + 1`
abbrev pub int_suc : ℤ → ℤ
int_suc (pos n) = pos (suc n)
int_suc (negsuc zero) = pos 0
int_suc (negsuc (suc n)) = negsuc n

-- The value of a missing key of a map of integers is 0.
abbrev pub value_or_zero : Option ℤ → ℤ
value_or_zero none = pos 0
value_or_zero (some v) = v

-- `currentAddrs[k]++`
unfoldable pub count_addr : Text → List (Text × ℤ) → List (Text × ℤ)
count_addr k m = insert k (int_suc (value_or_zero (lookup k m))) m

-- The cases -1 and 1 of the switch.
unfoldable pub is_change : ℤ → Bool
is_change v = int_eq v (negsuc 0) || int_eq v (pos 1)

-- The last loop.
unfoldable pub change_count : List (Text × ℤ) → ℕ
unfolding is_change
change_count [] = 0
change_count ((k, v) ∷ m) = let rest = change_count m in if is_change v then rest + 1 else rest

-- `ip_string` is `IP.String`; `read_ip` is `net.ParseIP` on the part of the text of an interface
-- address in front of the slash, none where it returns nil or where `To4` does.
module _ {Ip : Type 0} (ip_string : Ip → Text) (read_ip : Text → Option Ip) where
  -- The first loop.
  unfoldable pub mark_old : List Ip → List (Text × ℤ) → List (Text × ℤ)
  mark_old [] m = m
  mark_old (a ∷ l) m = mark_old l (insert (ip_string a) (negsuc 0) m)

  -- One round of the second loop, on `localAddrs` and `currentAddrs`.
  unfoldable pub take_addr : Option Ip → List Ip × List (Text × ℤ) → List Ip × List (Text × ℤ)
  unfolding count_addr
  take_addr none s = s
  take_addr (some ip) s = (s.0 ++ ip ∷ [], count_addr (ip_string ip) s.1)

  unfoldable pub take_addrs : List Text → List Ip × List (Text × ℤ) → List Ip × List (Text × ℤ)
  unfolding take_addr
  take_addrs [] s = s
  take_addrs (a ∷ addrs) s = take_addrs addrs (take_addr (read_ip a) s)

  -- On the texts that `net.InterfaceAddrs` returns and the old addresses: the new addresses, and the
  -- number of changes.
  unfoldable pub net_enum_addrs : List Text → List Ip → List Ip × ℕ
  unfolding mark_old take_addrs change_count
  net_enum_addrs addrs local_addrs =
      let (new, current) = take_addrs addrs ([], mark_old local_addrs []) in
      (new, change_count current)
