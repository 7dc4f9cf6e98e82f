-- ===== src/Access.antt =====
-- netAccessLevel.go, and the loop of `cfgNet` in config.go that fills `netAccessList`. The list is
-- read and written under `netCfgLock`.
pub mod Bounds
mod Tests
use srv_app.Base.{
  ℕ, Bool, true, false, List, [], ◌∷◌, ◌++◌, Option, none, some, Text, codes, text_eq, ltb,
  if◌then◌else◌,
}

abbrev pub access_level_none : ℕ
access_level_none = 0

abbrev pub access_level_user : ℕ
access_level_user = 1

abbrev pub access_level_admin : ℕ
access_level_admin = 2

-- `to_lower` is `strings.ToLower`.
unfoldable pub parse_access_level : (Text → Text) → Text → ℕ
parse_access_level to_lower lvl_str =
    let s = to_lower lvl_str in
    if text_eq s (codes "admin")
    then access_level_admin
    else if text_eq s (codes "user")
    then access_level_user
    else if text_eq s (codes "none")
    then access_level_none
    else access_level_none

pub record AccessNet (Subnet : Type 0) : Type 0 where
  pub level : ℕ
  pub subnet : Subnet

-- The addresses and subnets of package net: `contains` is `IPNet.Contains`, `parse_ip` is
-- `net.ParseIP` (an address that cannot be read is a value of `Ip` as well, the nil address), and
-- `parse_cidr` is `net.ParseCIDR`, none on its error.
module _ {Ip Subnet : Type 0} (contains : Subnet → Ip → Bool) where
  -- The loop of `getAccessLevel`.
  unfoldable pub level_of : List (AccessNet Subnet) → Ip → ℕ
  level_of [] ip = access_level_none
  level_of (n ∷ nets) ip = if contains n.subnet ip then n.level else level_of nets ip

  unfoldable pub get_access_level : (Text → Ip) → List (AccessNet Subnet) → Text → ℕ
  unfolding level_of
  get_access_level parse_ip nets host = level_of nets (parse_ip host)

  -- One round of the inner loop of `cfgNet`, on one net.
  unfoldable pub lower_net : Ip → ℕ → AccessNet Subnet → AccessNet Subnet
  lower_net ip level n =
      if contains n.subnet ip
      then (if ltb level n.level then record n { level = level } else n)
      else n

  -- The inner loop: whether the net is new, and the nets.
  unfoldable pub lower_nets : Ip → ℕ → List (AccessNet Subnet) → Bool × List (AccessNet Subnet)
  unfolding lower_net
  lower_nets ip level [] = (true, [])
  lower_nets ip level (n ∷ nets) =
      let (new_net, rest) = lower_nets ip level nets in
      (if contains n.subnet ip then false else new_net, lower_net ip level n ∷ rest)

  -- What the outer loop does with the result of `ParseCIDR` and the level of a line `AccessRights`.
  unfoldable pub add_net :
      List (AccessNet Subnet) → ℕ → Option (Ip × Subnet) → List (AccessNet Subnet)
  unfolding lower_nets
  add_net nets level none = nets
  add_net nets level (some (ip, ip_net)) =
      let (new_net, lowered) = lower_nets ip level nets in
      if new_net then lowered ++ record { level = level; subnet = ip_net } ∷ [] else lowered

  module _ (to_lower : Text → Text) (parse_cidr : Text → Option (Ip × Subnet)) where
    -- One round of the outer loop, on the first and the second text of a line.
    unfoldable pub add_rights : List (AccessNet Subnet) → Text × Text → List (AccessNet Subnet)
    unfolding add_net
    add_rights nets (cidr, lvl_str) =
        add_net nets (parse_access_level to_lower lvl_str) (parse_cidr cidr)

    unfoldable pub add_all_rights :
        List (AccessNet Subnet) → List (Text × Text) → List (AccessNet Subnet)
    add_all_rights nets [] = nets
    add_all_rights nets (v ∷ vals) = add_all_rights (add_rights nets v) vals

    -- `netAccessList` after a change of the configuration.
    unfoldable pub cfg_access : List (Text × Text) → List (AccessNet Subnet)
    unfolding add_all_rights add_rights
    cfg_access vals = add_all_rights [] vals
