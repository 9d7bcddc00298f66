-- ===== src/Sys.antt =====
-- internal/sys on Linux: what the kernel tells of a datagram that was read, and what its errors mean.
-- Control data is a list of bytes in the layout of a little-endian machine of 64 bits. A read past the end of it, which
-- the code would make through an unsafe pointer, is a panic here, as a slice beyond the end is.
pub mod Control
pub mod Batch
mod Tests
use go_netx.Base.{
  ℕ, zero, suc, ◌+◌, ◌-◌, ◌*◌, ◌/◌, ◌%◌, ◌^◌, Bool, true, false, ◌&&◌, ◌||◌, List, [], ◌∷◌, Option,
  none, some, length, take, drop, leb, ltb, ◌==◌, if◌then◌else◌, bit_and, Outcome, returns, panics,
  runs_on, and_then,
}
use go_netx.Base.Int.{ℤ, pos, pos_part, ltb_ℤ, of_word}

-- `ReadErr`
pub data ReadErr : Type 0 where
  fatal transient truncated : ReadErr

-- The errors that the code tells apart, of package syscall.
pub data Errno : Type 0 where
  eintr eagain enobufs enomem econnrefused ehostunreach enetunreach : Errno
  other_errno : ℕ → Errno

abbrev pub classify_errno : Errno → ReadErr
classify_errno (other_errno n) = fatal
classify_errno eintr = transient
classify_errno eagain = transient
classify_errno enobufs = transient
classify_errno enomem = transient
classify_errno econnrefused = transient
classify_errno ehostunreach = transient
classify_errno enetunreach = transient

-- With the errno that `errors.As` finds in the error.
unfoldable pub classify_read : Option Errno → ReadErr
classify_read none = fatal
classify_read (some e) = classify_errno e

unfoldable pub classify_winsock : ℕ → ReadErr
classify_winsock code =
    if code == 10040 then truncated else if code == 10054 || code == 10052 then transient else fatal

abbrev pub sol_socket : ℕ
sol_socket = 1

abbrev pub so_rxq_ovfl : ℕ
so_rxq_ovfl = 40

-- `EnableDropCount`: whether the kernel will report drops. `raw` is the error of the connection's Control, if any, and
-- `set` is setsockopt, by level and option.
unfoldable pub enable_drop_count :
    {K : Type 0} → (ℕ → ℕ → ℤ → K → K × Option Errno) → Option ℕ → K → K × Bool
enable_drop_count set (some e) s = (s, false)
enable_drop_count set none s =
    let (s', e) = set sol_socket so_rxq_ovfl (pos 1) s in
    (s', elim e [ none ↦ true | some x ↦ false ])

-- The size of a `Cmsghdr`.
abbrev pub hdr : ℕ
hdr = 16

-- `n &^ m`
abbrev pub and_not : ℕ → ℕ → ℕ
and_not n m = n - bit_and n m

unfoldable pub cmsg_align : ℕ → ℕ
cmsg_align n = and_not (n + 8 - 1) (8 - 1)

-- The number that bytes spell, the lowest first.
abbrev pub le_value : List ℕ → ℕ
le_value [] = 0
le_value (b ∷ bs) = b + 256 * le_value bs

-- The number in the `n` bytes at `i`.
unfoldable pub read_le : ℕ → ℕ → List ℕ → Outcome ℕ
read_le n i bytes =
    if leb (i + n) (length bytes) then returns (le_value (take n (drop i bytes))) else panics

-- `Cmsghdr`
pub record Header : Type 0 where
  pub len : ℕ
  pub level : ℕ
  pub kind : ℕ

unfoldable pub read_header : List ℕ → Outcome Header
unfolding read_le
read_header oob = and_then (read_le 8 0 oob) (λ len. and_then (read_le 4 8 oob) (λ level.
    and_then (read_le 4 12 oob)
      (λ kind. returns (record { len = len; level = level; kind = kind }))))

-- What one turn of the loop comes to: an end without a count, the count, or the rest of the control data.
pub data Turn : Type 0 where
  no_count : Turn
  counted : ℕ → Turn
  goes_on : List ℕ → Turn

-- `oob[next:]`, which panics beyond the end.
abbrev pub slice_from : ℕ → List ℕ → Outcome (List ℕ)
slice_from next oob = if leb next (length oob) then returns (drop next oob) else panics

-- The rest of the control data, or the end where the next message would begin beyond it.
abbrev pub skip : ℕ → List ℕ → Outcome Turn
skip next oob =
    if ltb (length oob) next
    then returns no_count
    else and_then (slice_from next oob) (λ rest. returns (goes_on rest))

unfoldable pub look_at : Header → List ℕ → Outcome Turn
unfolding cmsg_align read_le
look_at h oob =
    let l = of_word h.len in
    if ltb_ℤ l (pos hdr) || ltb_ℤ (pos (length oob)) l
    then returns no_count
    else if (h.level == sol_socket && h.kind == so_rxq_ovfl) && leb (hdr + 4) (pos_part l)
    then and_then (read_le 4 hdr oob) (λ v. returns (counted v))
    else skip (cmsg_align (pos_part l)) oob

-- The loop of `DropCount`.
unfoldable pub scan : ℕ → List ℕ → Outcome (Option ℕ)
unfolding read_header look_at
scan zero oob = runs_on
scan (suc fuel) oob =
    if leb hdr (length oob)
    then and_then (and_then (read_header oob) (λ h. look_at h oob)) (λ t. elim t [
      | no_count ↦ returns none
      | counted v ↦ returns (some v)
      | goes_on rest ↦ scan fuel rest
    ])
    else returns none

-- `DropCount`: each turn drops a header at least.
unfoldable pub drop_count : List ℕ → Outcome (Option ℕ)
unfolding scan
drop_count oob = scan (suc (length oob)) oob

-- `port`: the number whose bytes stand the other way round.
unfoldable pub port : ℕ → ℕ
port p = p % 256 * 2 ^ 8 + p / 256
