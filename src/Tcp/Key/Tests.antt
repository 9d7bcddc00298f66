-- ===== src/Tcp/Key/Tests.antt =====
-- Two addresses in one network of 64 bits, and one of IPv4 in the form of IPv6.
use go_netx.Base.{ℕ, ◌≡◌, ◌↔◌, refl, List, [], ◌∷◌, some, arith}
use go_netx.Tcp.Key.{v4, v6, tcp_addr, be_value, unmap, ip_key, SameClient, ip_key-SameClient}

abbrev one : List ℕ
one = 32 ∷ 1 ∷ 13 ∷ 184 ∷ 0 ∷ 0 ∷ 0 ∷ 7 ∷ 0 ∷ 0 ∷ 0 ∷ 0 ∷ 0 ∷ 0 ∷ 0 ∷ 1 ∷ []

abbrev another : List ℕ
another = 32 ∷ 1 ∷ 13 ∷ 184 ∷ 0 ∷ 0 ∷ 0 ∷ 7 ∷ 9 ∷ 0 ∷ 0 ∷ 0 ∷ 0 ∷ 0 ∷ 0 ∷ 2 ∷ []

abbrev mapped : List ℕ
mapped = 0 ∷ 0 ∷ 0 ∷ 0 ∷ 0 ∷ 0 ∷ 0 ∷ 0 ∷ 0 ∷ 0 ∷ 255 ∷ 255 ∷ 10 ∷ 0 ∷ 0 ∷ 1 ∷ []

mapped_key : ip_key (tcp_addr mapped) 64 ≡ some (v4 167772161)
unfolding ip_key
mapped_key = refl

one_key : ip_key (tcp_addr one) 64 ≡ ip_key (tcp_addr another) 64
unfolding ip_key
one_key = refl

ip_key-SameClient_example :
    (ip_key (tcp_addr one) 64 ≡ ip_key (tcp_addr another) 64)
    ↔ SameClient 64 (unmap (v6 (be_value one 0))) (unmap (v6 (be_value another 0)))
ip_key-SameClient_example =
    ip_key-SameClient 64 one another (v6 (be_value one 0)) (v6 (be_value another 0)) (omega arith)
      refl refl
