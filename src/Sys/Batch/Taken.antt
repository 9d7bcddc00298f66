-- ===== src/Sys/Batch/Taken.antt =====
-- After every Read, the datagrams that it counted can be taken, with what the kernel wrote for each.
use go_netx.Base.{
  ℕ, ◌+◌, ◌*◌, ◌≤◌, ◌<◌, ◌≡◌, refl, ap, subst, sym, ◌∙◌, ◌⊎◌, inl, inr, List, [], Option, none,
  some, length, get_or, get_or-All, get_elem?-eq-get_or, slice, slice_empty, length-slice,
  if-cases₂, All, arith, ltb, leb, ◌==◌, if◌then◌else◌, ℕ_discrete, Outcome, Ends, Ends-and_then,
  Ends-if,
}
use mathlib.Core.Logic.{if_pos, if_neg}
use native.Mathlib.Nat.{mul-le-mul_right}
use go_netx.Base.Assoc.{get, put, get-put}
use go_netx.Sys.{port}
use go_netx.Sys.Batch.{
  Sockaddr, inet4, inet6, other_family, Slot, new_slot, Zone, IpAddr, addr4, addr6, BatchReader,
  Poll, count, read, zone_name, zone, scoped, addr, control, Message, message,
}
use go_netx.Sys.Batch.Fitting.{Fits, IsPoll, Counted, poll_loop-Fits}

module _ (unmap : ℕ → IpAddr) (interface_name : ℕ → Option ℕ) where
  -- The name that a scope has: the cached one, or else the one that a lookup gives.
  abbrev pub scope_name : List (ℕ × Zone) → ℕ → Zone
  scope_name zones id = elim (get ℕ_discrete id zones) [
    | some z ↦ z
    | none ↦ zone_name interface_name id
  ]

  -- An address of IPv6 with a scope has its name, and any other is left as it is.
  abbrev pub with_zone : List (ℕ × Zone) → IpAddr → ℕ → IpAddr
  with_zone zones (addr4 a) scope = addr4 a
  with_zone zones (addr6 a z) scope =
      if scope == 0 then addr6 a z else addr6 a (some (scope_name zones scope))

  abbrev pub sender : List (ℕ × Zone) → Sockaddr → Option (IpAddr × ℕ)
  sender zones (inet4 p a) = some (addr4 a, port p)
  sender zones (inet6 p a scope) = some (with_zone zones (unmap a) scope, port p)
  sender zones other_family = none

  -- What a cache holds stays, for ever, and what is new in it is what a lookup gives.
  abbrev pub Kept : List (ℕ × Zone) → List (ℕ × Zone) → Type 0
  Kept zones zones' =
      (id : ℕ)
      → (get ℕ_discrete id zones' ≡ get ℕ_discrete id zones)
        ⊎ ((get ℕ_discrete id zones ≡ none)
            × (get ℕ_discrete id zones' ≡ some (zone_name interface_name id)))

  zone-Kept :
      (id : ℕ) (zones : List (ℕ × Zone))
      → ((zone interface_name id zones).0 ≡ scope_name zones id)
        × Kept zones (zone interface_name id zones).1
  unfolding zone
  zone-Kept id zones = go (get ℕ_discrete id zones) refl
    where
      added :
          get ℕ_discrete id zones ≡ none
          → Kept zones (put ℕ_discrete id (zone_name interface_name id) zones)
      added e j = elim (ℕ_discrete id j) [
        | yes same ↦ inr (
          ap (λ i. get ℕ_discrete i zones) (sym same) ∙ e,
          get-put ℕ_discrete id j (zone_name interface_name id) zones
              ∙ if_pos _ same (some (zone_name interface_name id)) (get ℕ_discrete j zones)
              ∙ ap (λ i. some (zone_name interface_name i)) same,
        )
        | no other ↦ inl (
            get-put ℕ_discrete id j (zone_name interface_name id) zones
            ∙ if_neg _ other (some (zone_name interface_name id)) (get ℕ_discrete j zones))
      ]

      go :
          (o : Option Zone)
          → get ℕ_discrete id zones ≡ o
          → let q : Zone × List (ℕ × Zone) = elim o as (λ _. Zone × List (ℕ × Zone)) [
            | some z ↦ (z, zones)
            | none ↦
                (zone_name interface_name id, put ℕ_discrete id (zone_name interface_name id) zones)
          ] in
            (q.0 ≡ (elim o as (λ _. Zone) [ some z ↦ z | none ↦ zone_name interface_name id ]))
            × Kept zones q.1
      go none e = (refl, added e)
      go (some z) e = (refl, λ j. inl refl)

  scoped-Kept :
      (a : IpAddr) (scope : ℕ) (zones : List (ℕ × Zone))
      → ((scoped unmap interface_name a scope zones).0 ≡ with_zone zones a scope)
        × Kept zones (scoped unmap interface_name a scope zones).1
  unfolding scoped
  scoped-Kept (addr4 a) scope zones = (refl, λ j. inl refl)
  scoped-Kept (addr6 a z) scope zones =
      if-cases₂ {A = IpAddr × List (ℕ × Zone)} {B = IpAddr} (λ x y. (x.0 ≡ y) × Kept zones x.1)
        (scope == 0) (λ _. (refl, λ j. inl refl))
        (λ _. let (e, kept) = zone-Kept scope zones in (ap (λ n. addr6 a (some n)) e, kept))

  addr-Kept :
      (name : Sockaddr) (zones : List (ℕ × Zone))
      → ((addr unmap interface_name name zones).0 ≡ sender zones name)
        × Kept zones (addr unmap interface_name name zones).1
  unfolding addr
  addr-Kept (inet4 p a) zones = (refl, λ j. inl refl)
  addr-Kept other_family zones = (refl, λ j. inl refl)
  addr-Kept (inet6 p a scope) zones =
      let (e, kept) = scoped-Kept (unmap a) scope zones in (ap (λ b. some (b, port p)) e, kept)

  -- The message of a slot, as the code gives it: with the part of the control data that is the slot's, and all that
  -- the kernel wrote there.
  abbrev pub IsMessage : ℕ → BatchReader → Message × BatchReader → Type 0
  IsMessage i r (m, r') =
      let s = get_or r.slots i new_slot in
      (m.len ≡ s.len)
      × (m.flags ≡ s.flags)
      × (m.from ≡ sender r.zones s.name)
      × (length m.oob ≡ (if ltb 0 r.oob_size then s.controllen else 0))
      × (m.oob ≡ slice (i * r.oob_size) (i * r.oob_size + length m.oob) r.oob)
      × Fits r'
      × Kept r.zones r'.zones

  -- Slot `i` lies within the slots.
  slot_end : (i size slots len : ℕ) → i < slots → len ≤ size → i * size + len ≤ slots * size
  slot_end i size slots len h k =
      grind (arith, mul-le-mul_right {m = i + 1} {n = slots} size (omega arith))

  control-inside :
      (i : ℕ) (s : Slot) (r : BatchReader)
      → Fits r
      → i < length r.slots
      → s.controllen ≤ r.oob_size
      → Ends
          (λ b.
            (length b ≡ (if ltb 0 r.oob_size then s.controllen else 0))
            × (b ≡ slice (i * r.oob_size) (i * r.oob_size + length b) r.oob))
          (control i s r)
  unfolding control
  control-inside i s r (size, within) h k =
      let start = i * r.oob_size in
      let stop = start + s.controllen in
      let inside : stop ≤ length r.oob =
        omega (arith, size, slot_end i r.oob_size (length r.slots) s.controllen h k) in
      let long : length (slice start stop r.oob) ≡ s.controllen =
        omega (arith, length-slice r.oob start stop (omega arith) inside) in
      if-cases₂ {A = Outcome (List ℕ)} {B = ℕ}
        (λ o n. Ends (λ b. (length b ≡ n) × (b ≡ slice start (start + length b) r.oob)) o)
        (ltb 0 r.oob_size)
        (λ _.
          Ends-if (λ b. (length b ≡ s.controllen) × (b ≡ slice start (start + length b) r.oob))
            (leb stop (length r.oob))
            (λ _. (
              slice start stop r.oob,
              refl,
              (long, ap (λ n. slice start (start + n) r.oob) (sym long)),
            ))
            (λ e. absurd (ground arith)))
        (λ _. (
          [],
          refl,
          (refl, sym (ap (λ n. slice start n r.oob) (omega arith) ∙ slice_empty r.oob start)),
        ))

  message-IsMessage :
      (i : ℕ) (r : BatchReader)
      → Fits r
      → i < length r.slots
      → Ends (IsMessage i r) (message unmap interface_name i r)
  unfolding message
  message-IsMessage i r (size, within) h =
      let s = get_or r.slots i new_slot in
      let (same, kept) = addr-Kept s.name r.zones in
      rw (get_elem?-eq-get_or r.slots i new_slot h, message)
        (Ends-and_then _ (IsMessage i r) (control i s r) _
          (control-inside i s r (size, within) h
            (get_or-All (λ s. s.controllen ≤ r.oob_size) r.slots i new_slot within (omega arith)))
          (λ b (long, is). (_, refl, (refl, refl, same, long, is, (size, within), kept))))

  -- Read, from a reader whose control data has a part for each slot, and then Message: each of the datagrams that
  -- Read counted can be taken without a panic, with the length and the flags that the kernel gave its slot, the
  -- whole of its own part of the control data, and the sender. A sender's scope has the name that the reader's cache
  -- has for it, which may be an old one, and else the one that a lookup gives now; Read leaves the cache as it is,
  -- and Message keeps what it holds and adds only what a lookup gives. The kernel keeps within the slots and the
  -- room for control data that each call offers it.
  pub read-message :
      (ps : List Poll) (r : BatchReader) (n i : ℕ)
      → Fits r
      → All IsPoll ps
      → (read ps r).0 ≡ count n
      → i < n
      → ((read ps r).1.zones ≡ r.zones)
        × Ends (IsMessage i (read ps r).1) (message unmap interface_name i (read ps r).1)
  unfolding read
  read-message ps r n i fits ok e h =
      let (fits', counted, kept) = poll_loop-Fits ps (record r { n = 0; errno = none }) ok fits in
      let inside : n ≤ length (read ps r).1.slots =
        subst (λ x. Counted x (read ps r).1) e counted in
      (kept, message-IsMessage i (read ps r).1 fits' (omega arith))
