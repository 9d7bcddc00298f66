-- ===== src/Sys/Control/Encoded.antt =====
-- DropCount over what the kernel writes: each message is its header, its data and zeros up to a multiple of eight.
use go_netx.Base.{
  ℕ, zero, suc, ◌+◌, ◌-◌, ◌^◌, ◌≤◌, ◌<◌, ◌≡◌, refl, ap, ◌∙◌, List, [], ◌∷◌, ◌++◌, length, take,
  drop, leb, ltb, arith, All, Bool, true, ◌&&◌, ◌||◌, ◌==◌, if◌then◌else◌, Option, none, some, sym,
  replicate, length-append, length-replicate, if-cases, if-cases₂, Outcome, returns, and_then,
}
use go_netx.Base.Int.{pos, ltb_ℤ, of_word}
use go_netx.Sys.{
  Header, Turn, no_count, counted, goes_on, hdr, sol_socket, so_rxq_ovfl, read_le, read_header,
  look_at, le_value, slice_from, skip, scan, drop_count, cmsg_align,
}
use go_netx.Sys.Control.Bytes.{
  le_bytes, le_value-le_bytes, read_le-here, drop-append, cmsg_align-eq,
}

pub record Message : Type 0 where
  pub level : ℕ
  pub kind : ℕ
  pub payload : List ℕ

abbrev pub size : Message → ℕ
size m = hdr + length m.payload

abbrev pub padding : Message → List ℕ
padding m = replicate (cmsg_align (size m) - size m) 0

abbrev pub encode_one : Message → List ℕ
encode_one m =
    le_bytes 8 (size m) ++ (le_bytes 4 m.level ++ (le_bytes 4 m.kind ++ (m.payload ++ padding m)))

-- The messages, and what is left of the buffer.
abbrev pub encode : List Message → List ℕ → List ℕ
encode [] tail = tail
encode (m ∷ ms) tail = encode_one m ++ encode ms tail

abbrev pub IsMessage : Message → Type 0
IsMessage m = (size m < 2 ^ 63) × (m.level < 2 ^ 32) × (m.kind < 2 ^ 32)

abbrev pub is_count : Message → Bool
is_count m = (m.level == sol_socket && m.kind == so_rxq_ovfl) && leb 4 (length m.payload)

-- The count of the first message that is one.
abbrev pub first_count : List Message → Option ℕ
first_count [] = none
first_count (m ∷ ms) = if is_count m then some (le_value (take 4 m.payload)) else first_count ms

take_append-le : (n : ℕ) (xs ys : List ℕ) → n ≤ length xs → take n (xs ++ ys) ≡ take n xs
take_append-le zero xs ys h = refl
take_append-le (suc n) [] ys h = absurd (omega arith)
take_append-le (suc n) (x ∷ xs) ys h = ap (◌∷◌ x) (take_append-le n xs ys (omega arith))

of_word-small : (n : ℕ) → n < 2 ^ 63 → of_word n ≡ pos n
of_word-small n h = ground arith

read_header-of :
    (oob : List ℕ) {a b c : ℕ}
    → read_le 8 0 oob ≡ returns a
    → read_le 4 8 oob ≡ returns b
    → read_le 4 12 oob ≡ returns c
    → read_header oob ≡ returns (record { len = a; level = b; kind = c })
unfolding read_header
read_header-of oob e_len e_level e_kind = rw (e_len, e_level, e_kind) refl

module _ (m : Message) (rest : List ℕ) where
  length-encode_one : length (encode_one m) ≡ cmsg_align (size m)
  length-encode_one = omega (
    arith,
    length-append m.payload (padding m),
    length-replicate {A = ℕ} (cmsg_align (size m) - size m) 0,
    cmsg_align-eq (size m),
  )

  read_header-encode :
      IsMessage m
      → read_header (encode_one m ++ rest)
        ≡ returns (record { len = size m; level = m.level; kind = m.kind })
  read_header-encode (fits, level, kind) =
      let more = (m.payload ++ padding m) ++ rest in
      read_header-of (encode_one m ++ rest)
        (read_le-here 8 0 [] (le_bytes 8 (size m))
            (le_bytes 4 m.level ++ (le_bytes 4 m.kind ++ more)) refl refl
          ∙ ap returns (le_value-le_bytes 8 (size m) (omega arith)))
        (read_le-here 4 8 (le_bytes 8 (size m)) (le_bytes 4 m.level) (le_bytes 4 m.kind ++ more)
            refl refl
          ∙ ap returns (le_value-le_bytes 4 m.level level))
        (read_le-here 4 12 (le_bytes 8 (size m) ++ le_bytes 4 m.level) (le_bytes 4 m.kind) more refl
            refl
          ∙ ap returns (le_value-le_bytes 4 m.kind kind))

  data-here :
      4 ≤ length m.payload
      → read_le 4 hdr (encode_one m ++ rest) ≡ returns (le_value (take 4 m.payload))
  unfolding read_le
  data-here enough =
      if-cases (λ o. o ≡ returns (le_value (take 4 m.payload)))
        (leb (hdr + 4) (length (encode_one m ++ rest)))
        (λ h.
          ap (λ b. returns (le_value b))
            (take_append-le 4 (m.payload ++ padding m) rest
                (omega (arith, length-append m.payload (padding m)))
              ∙ take_append-le 4 m.payload (padding m) enough))
        (λ h.
          absurd (
            ground (arith, length-append (encode_one m) rest, length-append m.payload (padding m))))

  slice_from-encode : slice_from (cmsg_align (size m)) (encode_one m ++ rest) ≡ returns rest
  slice_from-encode =
      if-cases (λ o. o ≡ returns rest) (leb (cmsg_align (size m)) (length (encode_one m ++ rest)))
        (λ h. ap returns (
          ap (λ n. drop n (encode_one m ++ rest)) (sym length-encode_one)
          ∙ drop-append (encode_one m) rest))
        (λ h. absurd (ground (arith, length-append (encode_one m) rest, length-encode_one)))

  skip-encode : skip (cmsg_align (size m)) (encode_one m ++ rest) ≡ returns (goes_on rest)
  skip-encode =
      if-cases (λ o. o ≡ returns (goes_on rest))
        (ltb (length (encode_one m ++ rest)) (cmsg_align (size m)))
        (λ h. absurd (ground (arith, length-append (encode_one m) rest, length-encode_one)))
        (λ h. ap (λ o. and_then o (λ r. returns (goes_on r))) slice_from-encode)

  look_at-encode :
      IsMessage m
      → look_at (record { len = size m; level = m.level; kind = m.kind }) (encode_one m ++ rest)
        ≡ returns (if is_count m then counted (le_value (take 4 m.payload)) else goes_on rest)
  unfolding look_at
  look_at-encode (fits, level, kind) = rw (of_word-small (size m) fits) (
      if-cases (λ o. o ≡ returns turn) outer
        (λ e. absurd (
          ground
            (arith, length-append (encode_one m) rest, length-encode_one, cmsg_align-eq (size m))))
        (λ _. rw (same) (
          if-cases₂ {A = Outcome Turn} {B = Turn} (λ o t. o ≡ returns t) (is_count m)
            (λ e. ap (λ o. and_then o (λ v. returns (counted v))) (data-here (enough e)))
            (λ _. skip-encode))))
    where
      turn : Turn
      turn = if is_count m then counted (le_value (take 4 m.payload)) else goes_on rest

      outer : Bool
      outer =
          ltb_ℤ (pos (size m)) (pos hdr)
          || ltb_ℤ (pos (length (encode_one m ++ rest))) (pos (size m))

      same : leb (hdr + 4) (size m) ≡ leb 4 (length m.payload)
      same = ground arith

      enough : is_count m ≡ true → 4 ≤ length m.payload
      enough e = ground arith

unfoldable after : ℕ → Turn → Outcome (Option ℕ)
after fuel no_count = returns none
after fuel (counted v) = returns (some v)
after fuel (goes_on rest) = scan fuel rest

-- A turn of the loop whose parts are known.
scan-turn :
    (fuel : ℕ) (oob : List ℕ) {h : Header} {t : Turn}
    → leb hdr (length oob) ≡ true
    → read_header oob ≡ returns h
    → look_at h oob ≡ returns t
    → scan (suc fuel) oob ≡ after fuel t
unfolding scan after
scan-turn fuel oob {h = h} {t = t} e e_header e_turn =
    ap
      (λ b.
        if b
        then (and_then (and_then (read_header oob) (λ x. look_at x oob)) then_on)
        else returns none)
      e
    ∙ ap (λ o. and_then (and_then o (λ x. look_at x oob)) then_on) e_header
    ∙ ap (λ o. and_then o then_on) e_turn
    ∙ same t
  where
    then_on : Turn → Outcome (Option ℕ)
    then_on t = elim t [
      | no_count ↦ returns none
      | counted v ↦ returns (some v)
      | goes_on rest ↦ scan fuel rest
    ]

    same : (t : Turn) → then_on t ≡ after fuel t
    same no_count = refl
    same (counted v) = refl
    same (goes_on rest) = refl

scan-encode :
    (fuel : ℕ) (ms : List Message) (tail : List ℕ)
    → All IsMessage ms
    → length tail < hdr
    → length ms < fuel
    → scan fuel (encode ms tail) ≡ returns (first_count ms)
unfolding scan after
scan-encode zero ms tail ok short h = absurd (omega arith)
scan-encode (suc fuel) [] tail ok short h =
    if-cases (λ o. o ≡ returns none) (leb hdr (length tail)) (λ e. absurd (ground arith))
      (λ _. refl)
scan-encode (suc fuel) (m ∷ ms) tail (ok, oks) short h =
    let rest = encode ms tail in
    scan-turn fuel (encode_one m ++ rest) (ground (arith, length-append (encode_one m) rest))
      (read_header-encode m rest ok) (look_at-encode m rest ok)
    ∙ if-cases₂ {A = Turn} {B = Option ℕ} (λ t r. after fuel t ≡ returns r) (is_count m) (λ _. refl)
        (λ _. scan-encode fuel ms tail oks short (omega arith))

length-encode : (ms : List Message) (tail : List ℕ) → length ms ≤ length (encode ms tail)
length-encode [] tail = omega arith
length-encode (m ∷ ms) tail =
    omega (arith, length-append (encode_one m) (encode ms tail), length-encode ms tail)

-- DropCount reads back what the kernel wrote: over any control messages, one after the other, and a rest of the
-- buffer that has no room for another, it gives the count of the first message of the socket level that has
-- the kind of drop counts and four bytes at least, and none where no message is one. The level and the kind
-- are numbers of 32 bits, and a message's size is one of 63.
pub drop_count-encode :
    (ms : List Message) (tail : List ℕ)
    → All IsMessage ms
    → length tail < hdr
    → drop_count (encode ms tail) ≡ returns (first_count ms)
unfolding drop_count
drop_count-encode ms tail ok short =
    scan-encode (suc (length (encode ms tail))) ms tail ok short
      (omega (arith, length-encode ms tail))
