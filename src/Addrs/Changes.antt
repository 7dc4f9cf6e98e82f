-- ===== src/Addrs/Changes.antt =====
-- Which changes of the local addresses an enumeration reports.
use srv_app.Base.{
  ℕ, zero, suc, ◌+◌, ◌≤◌, ◌<◌, ◌≡◌, refl, ◌↔◌, Bool, false, ◌||◌, List, [], ◌∷◌, ◌++◌, map, sym,
  Option, none, some, Text, text_eq, text_eq_iff, text_eq_refl, ℤ, pos, negsuc, int_eq, ltb, ◌==◌,
  ==_iff, if◌then◌else◌, arith, Memᴰ, ap, ◌∙◌, append_assoc, append-nil, Bool-cases, inl, inr,
}
use srv_app.Dict.{lookup, insert, IsMap}
use srv_app.Dict.Laws.{lookup-insert, insert-IsMap}
use srv_app.Addrs.{
  int_suc, value_or_zero, count_addr, is_change, change_count, mark_old, take_addr, take_addrs,
  net_enum_addrs,
}

-- How often the text stands in the list.
abbrev pub occurrences : Text → List Text → ℕ
occurrences k [] = 0
occurrences k (j ∷ l) = let rest = occurrences k l in if text_eq j k then suc rest else rest

abbrev count_all : List Text → List (Text × ℤ) → List (Text × ℤ)
count_all [] m = m
count_all (k ∷ ks) m = count_all ks (count_addr k m)

abbrev add_times : ℕ → Option ℤ → Option ℤ
add_times zero v = v
add_times (suc n) v = add_times n (some (int_suc (value_or_zero v)))

lookup-count_all :
    (k : Text) (ks : List Text) (m : List (Text × ℤ))
    → lookup k (count_all ks m) ≡ add_times (occurrences k ks) (lookup k m)
unfolding count_addr
lookup-count_all k [] m = refl
lookup-count_all k (j ∷ ks) m =
    let v = int_suc (value_or_zero (lookup j m)) in
    let rest = lookup-count_all k ks (count_addr j m) in
    let here = lookup-insert j k v m in
    elim (Bool-cases (text_eq j k)) [
      | inl same ↦
          rw (rest, here, same)
            (ap
              (λ (i : Text).
                add_times (occurrences k ks) (some (int_suc (value_or_zero (lookup i m)))))
              ((text_eq_iff j k).0 same))
      | inr other ↦ rw (rest, here, other) refl
    ]

abbrev counts : Option ℤ → Bool
counts none = false
counts (some v) = is_change v

counts_of_zero :
    (m : List (Text × ℤ)) → change_count m ≡ 0 → (k : Text) → counts (lookup k m) ≡ false
unfolding change_count lookup
counts_of_zero [] e k = refl
counts_of_zero ((j, v) ∷ m) e k = elim (Bool-cases (is_change v)) [
  | inl changed ↦ ground arith
  | inr same_addr ↦ elim (Bool-cases (text_eq j k)) [
    | inl same ↦ rw same same_addr
    | inr other ↦ rw other (counts_of_zero m (ground arith) k)
  ]
]

zero_of_counts :
    (m : List (Text × ℤ))
    → IsMap m
    → ((k : Text) → counts (lookup k m) ≡ false)
    → change_count m ≡ 0
unfolding change_count lookup
zero_of_counts [] h none_counts = refl
zero_of_counts ((j, v) ∷ m) h none_counts =
    let here : is_change v ≡ false = rw (text_eq_refl j) at (none_counts j) in
    let rest = zero_of_counts m h.1 (λ k. elim (Bool-cases (text_eq j k)) [
      | inl same ↦ rw (← (text_eq_iff j k).0 same, h.0) refl
      | inr other ↦ rw other at (none_counts k)
    ]) in
    rw here rest

add_times_pos : (n m : ℕ) → add_times n (some (pos m)) ≡ some (pos (n + m))
add_times_pos zero m = ap (λ (n : ℕ). some (pos n)) (omega arith)
add_times_pos (suc n) m = add_times_pos n (suc m) ∙ ap (λ (n : ℕ). some (pos n)) (omega arith)

-- Whether an old address, and one that is not old, counts as a change by its occurrences.
counts_old : (n : ℕ) → counts (add_times n (some (negsuc 0))) ≡ (n == 0) || (n == 2)
unfolding is_change int_eq
counts_old zero = refl
counts_old (suc n) = rw (add_times_pos n 0) (ground arith)

counts_new : (n : ℕ) → counts (add_times n none) ≡ (n == 1)
unfolding is_change int_eq
counts_new zero = refl
counts_new (suc n) = rw (add_times_pos n 1) (ground arith)

-- Whether the address counts as a change, by its occurrences in the old and in the new list.
abbrev pub counts_in : ℕ → ℕ → Bool
counts_in old new = if ltb 0 old then (new == 0) || (new == 2) else new == 1

count_all-IsMap : (ks : List Text) (m : List (Text × ℤ)) → IsMap m → IsMap (count_all ks m)
unfolding count_addr
count_all-IsMap [] m h = h
count_all-IsMap (k ∷ ks) m h = count_all-IsMap ks (count_addr k m) (insert-IsMap k _ m h)

mem_of_occurrences : (k : Text) (l : List Text) → 0 < occurrences k l → Memᴰ k l
mem_of_occurrences k [] h = absurd (omega arith)
mem_of_occurrences k (j ∷ l) h = elim (Bool-cases (text_eq j k)) [
  | inl same ↦ Memᴰ.head (sym ((text_eq_iff j k).0 same))
  | inr other ↦ Memᴰ.tail (mem_of_occurrences k l (rw other at h))
]

occurrences_of_mem : (k : Text) (l : List Text) → Memᴰ k l → 0 < occurrences k l
occurrences_of_mem k [] m = elim m [ ]
occurrences_of_mem k (j ∷ l) (Memᴰ.head e) = rw e (rw (text_eq_refl j) (omega arith))
occurrences_of_mem k (j ∷ l) (Memᴰ.tail m) = ground (arith, occurrences_of_mem k l m)

module _ {Ip : Type 0} (ip_string : Ip → Text) (read_ip : Text → Option Ip) where
  abbrev texts : List Ip → List Text
  texts = map ip_string

  abbrev add_read : Option Ip → List Ip → List Ip
  add_read none l = l
  add_read (some ip) l = ip ∷ l

  -- The addresses that can be read.
  abbrev pub read_ips : List Text → List Ip
  read_ips [] = []
  read_ips (a ∷ addrs) = add_read (read_ip a) (read_ips addrs)

  lookup-mark_old :
      (k : Text) (l : List Ip) (m : List (Text × ℤ))
      → lookup k (mark_old ip_string read_ip l m)
        ≡ (if ltb 0 (occurrences k (texts l)) then some (negsuc 0) else lookup k m)
  unfolding mark_old
  lookup-mark_old k [] m = refl
  lookup-mark_old k (a ∷ l) m =
      let rest = lookup-mark_old k l (insert (ip_string a) (negsuc 0) m) in
      let here = lookup-insert (ip_string a) k (negsuc 0) m in ground (arith, rest, here)

  mark_old-IsMap :
      (l : List Ip) (m : List (Text × ℤ)) → IsMap m → IsMap (mark_old ip_string read_ip l m)
  unfolding mark_old
  mark_old-IsMap [] m h = h
  mark_old-IsMap (a ∷ l) m h = mark_old-IsMap l _ (insert-IsMap (ip_string a) (negsuc 0) m h)

  take_addrs_lem :
      (addrs : List Text) (l : List Ip) (m : List (Text × ℤ))
      → take_addrs ip_string read_ip addrs (l, m)
        ≡ (l ++ read_ips addrs, count_all (texts (read_ips addrs)) m)
  unfolding take_addrs take_addr
  take_addrs_lem [] l m = ap (λ (x : List Ip). (x, m)) (sym (append-nil l))
  take_addrs_lem (a ∷ addrs) l m = after (read_ip a) (take_addrs_lem addrs)
    where
      after :
          (o : Option Ip)
          → ((l : List Ip) (m : List (Text × ℤ))
              → take_addrs ip_string read_ip addrs (l, m)
                ≡ (l ++ read_ips addrs, count_all (texts (read_ips addrs)) m))
          → take_addrs ip_string read_ip addrs (take_addr ip_string read_ip o (l, m))
            ≡ (l ++ add_read o (read_ips addrs), count_all (texts (add_read o (read_ips addrs))) m)
      after none rest = rest l m
      after (some ip) rest =
          rest (l ++ ip ∷ []) (count_addr (ip_string ip) m)
          ∙ ap
              (λ (x : List Ip).
                (x, count_all (texts (read_ips addrs)) (count_addr (ip_string ip) m)))
              (append_assoc l (ip ∷ []) (read_ips addrs))

  net_enum_addrs_lem :
      (addrs : List Text) (local_addrs : List Ip)
      → net_enum_addrs ip_string read_ip addrs local_addrs ≡ (
        read_ips addrs,
        change_count
            (count_all (texts (read_ips addrs)) (mark_old ip_string read_ip local_addrs [])),
      )
  unfolding net_enum_addrs
  net_enum_addrs_lem addrs local_addrs =
      ap (λ (s : List Ip × List (Text × ℤ)). (s.0, change_count s.1))
        (take_addrs_lem addrs [] (mark_old ip_string read_ip local_addrs []))

  counts_mark :
      (old new : ℕ)
      → counts (add_times new (if ltb 0 old then some (negsuc 0) else none)) ≡ counts_in old new
  counts_mark old new = elim (Bool-cases (ltb 0 old)) [
    | inl held ↦ rw held (counts_old new)
    | inr fresh ↦ rw fresh (counts_new new)
  ]

  counted :
      (k : Text) (local_addrs new : List Ip)
      → counts (lookup k (count_all (texts new) (mark_old ip_string read_ip local_addrs [])))
        ≡ counts_in (occurrences k (texts local_addrs)) (occurrences k (texts new))
  unfolding lookup
  counted k local_addrs new =
      let old = occurrences k (texts local_addrs) in
      let times = occurrences k (texts new) in
      ap counts (lookup-count_all k (texts new) (mark_old ip_string read_ip local_addrs []))
      ∙ ap (λ (v : Option ℤ). counts (add_times times v)) (lookup-mark_old k local_addrs [])
      ∙ counts_mark old times

  -- The enumeration returns the addresses that can be read, in their order. It reports no change
  -- exactly if each address that was local occurs neither never nor twice among them, and each other
  -- one does not occur once.
  pub net_enum_addrs_zero :
      (addrs : List Text) (local_addrs : List Ip)
      → let (new, n) = net_enum_addrs ip_string read_ip addrs local_addrs in
        (new ≡ read_ips addrs)
        × ((n ≡ 0) ↔ (
            (k : Text)
            → counts_in (occurrences k (texts local_addrs)) (occurrences k (texts new)) ≡ false))
  net_enum_addrs_zero addrs local_addrs =
      let new = read_ips addrs in
      let marked = mark_old ip_string read_ip local_addrs [] in
      let m = count_all (texts new) marked in
      let distinct = count_all-IsMap (texts new) marked (mark_old-IsMap local_addrs [] tt) in
      rw (net_enum_addrs_lem addrs local_addrs) (
        refl,
        (
          λ none_counted k. sym (counted k local_addrs new) ∙ counts_of_zero m none_counted k,
          λ same. zero_of_counts m distinct (λ k. counted k local_addrs new ∙ same k),
        ),
      )

  same_of_counts :
      (old new : List Text) (k : Text)
      → occurrences k new ≤ 1
      → (counts_in (occurrences k old) (occurrences k new) ≡ false) ↔ (Memᴰ k old ↔ Memᴰ k new)
  same_of_counts old new k once = ground (
    arith,
    mem_of_occurrences k old,
    mem_of_occurrences k new,
    occurrences_of_mem k old,
    occurrences_of_mem k new,
  )

  -- Where no address is enumerated twice, no change is reported exactly if the new addresses are the
  -- old ones, in whatever order.
  pub net_enum_addrs-same :
      (addrs : List Text) (local_addrs : List Ip)
      → ((k : Text) → occurrences k (texts (read_ips addrs)) ≤ 1)
      → let (new, n) = net_enum_addrs ip_string read_ip addrs local_addrs in
        (n ≡ 0) ↔ ((k : Text) → Memᴰ k (texts local_addrs) ↔ Memᴰ k (texts new))
  net_enum_addrs-same addrs local_addrs once =
      let (new, n) = net_enum_addrs ip_string read_ip addrs local_addrs in
      let (read, no_change) = net_enum_addrs_zero addrs local_addrs in
      let at_most : (k : Text) → occurrences k (texts new) ≤ 1 = λ k. rw read (once k) in
      let same = λ (k : Text). same_of_counts (texts local_addrs) (texts new) k (at_most k) in
      (λ e k. (same k).0 (no_change.0 e k), λ f. no_change.1 (λ k. (same k).1 (f k)))

  -- An address that two interfaces have is reported as a change at every enumeration, although the
  -- addresses stay as they are.
  net_enum_addrs_twice :
      (addrs : List Text) (local_addrs : List Ip) (k : Text)
      → occurrences k (texts (read_ips addrs)) ≡ 2
      → let (new, _) = net_enum_addrs ip_string read_ip addrs local_addrs in
        let (new', n) = net_enum_addrs ip_string read_ip addrs new in (new' ≡ new) × (0 < n)
  net_enum_addrs_twice addrs local_addrs k twice =
      let new = (net_enum_addrs ip_string read_ip addrs local_addrs).0 in
      let (read, _) = net_enum_addrs_zero addrs local_addrs in
      let (again, no_change) = net_enum_addrs_zero addrs new in
      let n = (net_enum_addrs ip_string read_ip addrs new).1 in
      let old : occurrences k (texts new) ≡ 2 = rw read twice in
      (
        again ∙ sym read,
        elim (Bool-cases (n == 0)) [
          | inl none_counted ↦
              let unchanged = no_change.0 ((==_iff n 0).0 none_counted) k in
              absurd (cc (rw (old, again, twice) at unchanged))
          | inr changed ↦ ground arith
        ],
      )
