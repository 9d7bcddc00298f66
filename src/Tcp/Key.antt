-- ===== src/Tcp/Key.antt =====
-- tcp/server.go: ipKey, the key under which MaxConnsPerIP counts a connection. An address is the number that its bytes
-- spell, the highest first.
mod Tests
use go_netx.Base.{
  ℕ, ◌+◌, ◌-◌, ◌*◌, ◌/◌, ◌%◌, ◌^◌, ◌≤◌, ◌<◌, ◌≡◌, refl, sym, ap, ◌∙◌, ◌↔◌, Bool, true, false, ◌&&◌,
  List, [], ◌∷◌, length, Option, none, some, leb, ltb, ◌==◌, if◌then◌else◌, if-cases, arith,
  Bool-cases, inl, inr,
}
use native.Mathlib.Nat.{one-le-pow, eq_of_mul-eq-mul_left}

pub data Addr : Type 0 where
  v4 v6 : ℕ → Addr

-- A connection's address: a TCPAddr with the bytes of its IP, or another.
pub data NetAddr : Type 0 where
  tcp_addr : List ℕ → NetAddr
  other_addr : NetAddr

abbrev pub be_value : List ℕ → ℕ → ℕ
be_value [] n = n
be_value (b ∷ bs) n = be_value bs (n * 256 + b)

-- `netip.AddrFromSlice`
abbrev pub addr_from_slice : List ℕ → Option Addr
addr_from_slice bytes =
    if length bytes == 4
    then some (v4 (be_value bytes 0))
    else if length bytes == 16
    then some (v6 (be_value bytes 0))
    else none

-- `Unmap`: an IPv4 address in the form of IPv6 stands for the former.
abbrev pub unmap : Addr → Addr
unmap (v4 a) = v4 a
unmap (v6 a) = if a / 2 ^ 32 == 65535 then v4 (a % 2 ^ 32) else v6 a

-- The low bits of an address cleared, where there are as many as are kept.
abbrev pub masked : ℕ → ℕ → ℕ
masked dropped a = 2 ^ dropped * (a / 2 ^ dropped)

-- `ip.Prefix(bits)` of an address of IPv6, without its bits.
abbrev pub prefix : ℕ → ℕ → Option Addr
prefix bits a = if leb bits 128 then some (v6 (masked (128 - bits) a)) else none

-- The part of ipKey after Unmap.
abbrev pub key_of : ℕ → Addr → Option Addr
key_of bits (v4 a) = some (v4 a)
key_of bits (v6 a) = if ltb bits 128 then prefix bits a else some (v6 a)

abbrev pub key_of_slice : ℕ → Option Addr → Option Addr
key_of_slice bits none = none
key_of_slice bits (some a) = key_of bits (unmap a)

unfoldable pub ip_key : NetAddr → ℕ → Option Addr
ip_key other_addr bits = none
ip_key (tcp_addr ip) bits = key_of_slice bits (addr_from_slice ip)

-- One address of IPv4, or two of IPv6 that begin with the same bits.
abbrev pub SameClient : ℕ → Addr → Addr → Type 0
SameClient bits (v4 a) (v4 b) = a ≡ b
SameClient bits (v6 a) (v6 b) = a / 2 ^ (128 - bits) ≡ b / 2 ^ (128 - bits)
SameClient bits (v4 a) (v6 b) = ⊥
SameClient bits (v6 a) (v4 b) = ⊥

key_of-v6 : (bits a : ℕ) → bits ≤ 128 → key_of bits (v6 a) ≡ some (v6 (masked (128 - bits) a))
key_of-v6 bits a h =
    if-cases (λ k. k ≡ some (v6 (masked (128 - bits) a))) (ltb bits 128)
      (λ below.
        if-cases (λ k. k ≡ some (v6 (masked (128 - bits) a))) (leb bits 128) (λ _. refl)
          (λ e. absurd (ground arith)))
      (λ e. ap (λ n. some (v6 n)) (all_bits (ground arith)))
  where
    all_bits : 128 - bits ≡ 0 → a ≡ masked (128 - bits) a
    all_bits none_dropped =
        let whole : a ≡ masked 0 a = omega arith in whole ∙ ap (λ d. masked d a) (sym none_dropped)

v4-apart : (a b : ℕ) → some (v4 a) ≡ some (v6 b) → ⊥
v4-apart a b e = ground arith

v6-same : (a b : ℕ) → some (v6 a) ≡ some (v6 b) → a ≡ b
v6-same a b e = ground arith

key_of-SameClient :
    (bits : ℕ) (a b : Addr) → bits ≤ 128 → (key_of bits a ≡ key_of bits b) ↔ SameClient bits a b
key_of-SameClient bits (v4 a) (v4 b) h = (λ e. ground arith, λ e. ap (λ n. some (v4 n)) e)
key_of-SameClient bits (v4 a) (v6 b) h =
    (λ e. v4-apart a (masked (128 - bits) b) (e ∙ key_of-v6 bits b h), λ e. absurd e)
key_of-SameClient bits (v6 a) (v4 b) h =
    (λ e. v4-apart b (masked (128 - bits) a) (sym e ∙ key_of-v6 bits a h), λ e. absurd e)
key_of-SameClient bits (v6 a) (v6 b) h = (
  λ e.
      eq_of_mul-eq-mul_left (2 ^ (128 - bits)) (one-le-pow (128 - bits) 2 (omega arith))
        (a / 2 ^ (128 - bits)) (b / 2 ^ (128 - bits))
        (v6-same (masked (128 - bits) a) (masked (128 - bits) b)
          (sym (key_of-v6 bits a h) ∙ e ∙ key_of-v6 bits b h)),
  λ e. key_of-v6 bits a h ∙ ap (λ n. some (v6 (2 ^ (128 - bits) * n))) e ∙ sym (key_of-v6 bits b h),
)

-- Two connections are counted under one key exactly where they come from the same address of IPv4, be it in the form of
-- IPv6, or from addresses of IPv6 that begin with the same bits, as many as IPv6PrefixBits, which NewServer takes
-- up to 128. Their addresses are slices of 4 or 16 bytes.
pub ip_key-SameClient :
    (bits : ℕ) (x y : List ℕ) (a b : Addr)
    → bits ≤ 128
    → addr_from_slice x ≡ some a
    → addr_from_slice y ≡ some b
    → (ip_key (tcp_addr x) bits ≡ ip_key (tcp_addr y) bits) ↔ SameClient bits (unmap a) (unmap b)
unfolding ip_key
ip_key-SameClient bits x y a b h ex ey = rw (ex, ey) (key_of-SameClient bits (unmap a) (unmap b) h)
