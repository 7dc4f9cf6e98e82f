-- ===== src/Access/Bounds.antt =====
-- What the lines of the configuration grant, and what they do not.
use srv_app.Base.{
  ℕ, ◌≤◌, ◌<◌, ◌≡◌, refl, inl, inr, Bool, true, false, List, [], ◌∷◌, ◌++◌, Option, none, some,
  Memᴰ, Text, arith, Bool-cases, ◌||◌, All, All-append, if◌then◌else◌,
}
use native.Mathlib.Nat.{le_refl}
use srv_app.Access.{
  AccessNet, level_of, lower_net, lower_nets, add_net, add_rights, add_all_rights, cfg_access,
  parse_access_level, get_access_level,
}

module _ {Ip Subnet : Type 0} (contains : Subnet → Ip → Bool) where
  covers : List (AccessNet Subnet) → Ip → Bool
  covers [] ip = false
  covers (n ∷ nets) ip = contains n.subnet ip || covers nets ip

  lower_net_lem :
      (ip : Ip) (level : ℕ) (n : AccessNet Subnet)
      → ((lower_net contains ip level n).level ≤ n.level)
        × ((lower_net contains ip level n).subnet ≡ n.subnet)
  unfolding lower_net
  lower_net_lem ip level n = ground arith

  -- Lowering changes no subnet, raises no level, and lowers what it is for.
  lower_nets_lem :
      (ip : Ip) (level : ℕ) (nets : List (AccessNet Subnet)) (other : Ip)
      → let lowered = (lower_nets contains ip level nets).1 in
        (covers lowered other ≡ covers nets other)
        × (level_of contains lowered other ≤ level_of contains nets other)
  unfolding lower_nets level_of covers
  lower_nets_lem ip level [] other = ground arith
  lower_nets_lem ip level (n ∷ nets) other = ground (arith, lower_nets_lem ip level nets other)

  lower_nets_self :
      (ip : Ip) (level : ℕ) (nets : List (AccessNet Subnet))
      → let r = lower_nets contains ip level nets in
        (level_of contains r.1 ip ≤ level) × (r.0 ≡ (if covers nets ip then false else true))
  unfolding lower_nets level_of covers
  lower_nets_self ip level [] = ground arith
  lower_nets_self ip level (n ∷ nets) = ground (arith, lower_nets_self ip level nets)

  level_of-append :
      (nets more : List (AccessNet Subnet)) (ip : Ip)
      → (covers (nets ++ more) ip ≡ (covers nets ip || covers more ip))
        × (level_of contains (nets ++ more) ip
            ≡ (if covers nets ip then level_of contains nets ip else level_of contains more ip))
  unfolding level_of covers
  level_of-append [] more ip = ground arith
  level_of-append (n ∷ nets) more ip = ground (arith, level_of-append nets more ip)

  -- The address has a net, which grants at most `level`.
  abbrev IsBounded : ℕ → Ip → List (AccessNet Subnet) → Type 0
  IsBounded level ip nets = (covers nets ip ≡ true) × (level_of contains nets ip ≤ level)

  add_net-IsBounded :
      (level : ℕ) (ip : Ip) (nets : List (AccessNet Subnet)) (level' : ℕ) (p : Option (Ip × Subnet))
      → IsBounded level ip nets
      → IsBounded level ip (add_net contains nets level' p)
  unfolding add_net
  add_net-IsBounded level ip nets level' none h = h
  add_net-IsBounded level ip nets level' (some (ip', net)) h =
      let lowered = (lower_nets contains ip' level' nets).1 in
      let added : List (AccessNet Subnet) = record { level = level'; subnet = net } ∷ [] in
      ground (arith, lower_nets_lem ip' level' nets ip, level_of-append lowered added ip)

  add_net_self :
      (nets : List (AccessNet Subnet)) (level : ℕ) (ip : Ip) (net : Subnet)
      → contains net ip ≡ true
      → IsBounded level ip (add_net contains nets level (some (ip, net)))
  unfolding add_net level_of covers
  add_net_self nets level ip net inside =
      let lowered = (lower_nets contains ip level nets).1 in
      let added : List (AccessNet Subnet) = record { level = level; subnet = net } ∷ [] in
      ground (
        arith,
        lower_nets_lem ip level nets ip,
        lower_nets_self ip level nets,
        level_of-append lowered added ip,
      )

  module _ (to_lower : Text → Text) (parse_cidr : Text → Option (Ip × Subnet)) where
    add_all_rights-IsBounded :
        (level : ℕ) (ip : Ip) (nets : List (AccessNet Subnet)) (vals : List (Text × Text))
        → IsBounded level ip nets
        → IsBounded level ip (add_all_rights contains to_lower parse_cidr nets vals)
    unfolding add_all_rights
    add_all_rights-IsBounded level ip nets [] h = h
    add_all_rights-IsBounded level ip nets (v ∷ vals) h =
        add_all_rights-IsBounded level ip (add_rights contains to_lower parse_cidr nets v) vals (
          unfold add_rights in
          add_net-IsBounded level ip nets (parse_access_level to_lower v.1) (parse_cidr v.0) h)

    add_all_rights-listed :
        (nets : List (AccessNet Subnet)) (vals : List (Text × Text)) (cidr lvl : Text) (ip : Ip)
        (net : Subnet)
        → Memᴰ (cidr, lvl) vals
        → parse_cidr cidr ≡ some (ip, net)
        → contains net ip ≡ true
        → IsBounded
            (parse_access_level to_lower lvl)
            ip
            (add_all_rights contains to_lower parse_cidr nets vals)
    unfolding add_all_rights
    add_all_rights-listed nets [] cidr lvl ip net m parsed inside = elim m [ ]
    add_all_rights-listed nets (v ∷ vals) cidr lvl ip net (Memᴰ.head e) parsed inside =
        add_all_rights-IsBounded _ ip _ vals (
          rw (← e) (
            unfold add_rights in
            rw parsed (add_net_self nets (parse_access_level to_lower lvl) ip net inside)))
    add_all_rights-listed nets (v ∷ vals) cidr lvl ip net (Memᴰ.tail m) parsed inside =
        add_all_rights-listed (add_rights contains to_lower parse_cidr nets v) vals cidr lvl ip net
          m parsed inside

    -- The line grants its net at least the level that the list records for it.
    abbrev Grants : AccessNet Subnet → Text × Text → Type 0
    Grants n v =
        (ip : Ip) × (parse_cidr v.0 ≡ some (ip, n.subnet))
        × (n.level ≤ parse_access_level to_lower v.1)

    abbrev IsJustified : List (Text × Text) → AccessNet Subnet → Type 0
    IsJustified vals n = (v : Text × Text) × Memᴰ v vals × Grants n v

    lower_nets-IsJustified :
        (all : List (Text × Text)) (ip : Ip) (level : ℕ) (nets : List (AccessNet Subnet))
        → All (IsJustified all) nets
        → All (IsJustified all) (lower_nets contains ip level nets).1
    unfolding lower_nets
    lower_nets-IsJustified all ip level [] h = tt
    lower_nets-IsJustified all ip level (n ∷ nets) ((v, listed, (a, parsed, most)), rest) = (
      (
        v,
        listed,
        (a, rw (lower_net_lem ip level n).1 parsed, omega (arith, lower_net_lem ip level n)),
      ),
      lower_nets-IsJustified all ip level nets rest,
    )

    add_net-IsJustified :
        (all : List (Text × Text)) (nets : List (AccessNet Subnet)) (cidr lvl : Text)
        (p : Option (Ip × Subnet))
        → parse_cidr cidr ≡ p
        → Memᴰ (cidr, lvl) all
        → All (IsJustified all) nets
        → All (IsJustified all) (add_net contains nets (parse_access_level to_lower lvl) p)
    unfolding add_net
    add_net-IsJustified all nets cidr lvl none parsed listed h = h
    add_net-IsJustified all nets cidr lvl (some (ip, net)) parsed listed h =
        let level' = parse_access_level to_lower lvl in
        let r = lower_nets contains ip level' nets in
        let kept = lower_nets-IsJustified all ip level' nets h in
        elim (Bool-cases r.0) [
          | inl new ↦ rw new (
              All-append (IsJustified all) r.1 _ kept
                (((cidr, lvl), listed, (ip, parsed, le_refl _)), tt))
          | inr old ↦ rw old kept
        ]

    add_all_rights-IsJustified :
        (all : List (Text × Text)) (nets : List (AccessNet Subnet)) (vals : List (Text × Text))
        → ((v : Text × Text) → Memᴰ v vals → Memᴰ v all)
        → All (IsJustified all) nets
        → All (IsJustified all) (add_all_rights contains to_lower parse_cidr nets vals)
    unfolding add_all_rights
    add_all_rights-IsJustified all nets [] sub h = h
    add_all_rights-IsJustified all nets (v ∷ vals) sub h =
        add_all_rights-IsJustified all (add_rights contains to_lower parse_cidr nets v) vals
          (λ w m. sub w (Memᴰ.tail m))
          (unfold add_rights in
            add_net-IsJustified all nets v.0 v.1 (parse_cidr v.0) refl (sub v (Memᴰ.head refl)) h)

    level_of-IsJustified :
        (all : List (Text × Text)) (nets : List (AccessNet Subnet)) (ip : Ip)
        → All (IsJustified all) nets
        → 0 < level_of contains nets ip
        → (n : AccessNet Subnet) × (contains n.subnet ip ≡ true)
          × (level_of contains nets ip ≡ n.level)
          × IsJustified all n
    unfolding level_of
    level_of-IsJustified all [] ip h pos = absurd (omega arith)
    level_of-IsJustified all (n ∷ nets) ip (j, h) pos = elim (Bool-cases (contains n.subnet ip)) [
      | inl inside ↦ (n, inside, ground arith, j)
      | inr outside ↦
          let (n', inside, level, j') = level_of-IsJustified all nets ip h (ground arith) in
          (n', inside, ground arith, j')
    ]

    -- An address that a line of the configuration names gets at most the level of that line, whatever
    -- stands in the other lines, if the net that `ParseCIDR` returns holds the address that it returns.
    pub level_of-cfg_access :
        (vals : List (Text × Text)) (cidr lvl : Text) (ip : Ip) (net : Subnet)
        → Memᴰ (cidr, lvl) vals
        → parse_cidr cidr ≡ some (ip, net)
        → contains net ip ≡ true
        → level_of contains (cfg_access contains to_lower parse_cidr vals) ip
          ≤ parse_access_level to_lower lvl
    unfolding cfg_access
    level_of-cfg_access vals cidr lvl ip net m parsed inside =
        (add_all_rights-listed [] vals cidr lvl ip net m parsed inside).1

    -- No host has a level above none but by a line of the configuration whose net holds the host and
    -- which grants at least that level.
    pub get_access_level-granted :
        (parse_ip : Text → Ip) (vals : List (Text × Text)) (host : Text)
        → let nets = cfg_access contains to_lower parse_cidr vals in
          0 < get_access_level contains parse_ip nets host
          → (v : Text × Text) × Memᴰ v vals
            × ((ip : Ip) × (net : Subnet) × (parse_cidr v.0 ≡ some (ip, net))
                × (contains net (parse_ip host) ≡ true)
                × (get_access_level contains parse_ip nets host ≤ parse_access_level to_lower v.1))
    unfolding cfg_access get_access_level
    get_access_level-granted parse_ip vals host pos =
        let nets = add_all_rights contains to_lower parse_cidr [] vals in
        let justified = add_all_rights-IsJustified vals [] vals (λ v m. m) tt in
        let (n, inside, level, (v, listed, (ip, parsed, most))) =
          level_of-IsJustified vals nets (parse_ip host) justified pos in
        (v, listed, (ip, n.subnet, parsed, inside, omega arith))
