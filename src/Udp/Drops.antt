-- ===== src/Udp/Drops.antt =====
-- The kernel's count of drops, which wraps at 32 bits, as a total that does not.
pub mod Reported
use go_netx.Base.{ℕ, ◌+◌, ◌%◌, ◌^◌, ◌<◌, ◌≡◌, refl, ap, ◌∙◌, max, List, [], ◌∷◌, arith}
use go_netx.Udp.{DropCounter, observe}

-- The counter that has seen the count m at most.
abbrev pub seen : ℕ → DropCounter
seen m = record { last = m % 2 ^ 32; total = m }

-- One report, however late: it counts if it is the largest so far, and changes nothing otherwise. No two reports are
-- as much as 2 ^ 31 apart.
pub observe_lem :
    (m c : ℕ)
    → c < m + 2 ^ 31
    → m < c + 2 ^ 31
    → max m c < 2 ^ 64
    → observe (c % 2 ^ 32) (seen m) ≡ seen (max m c)
unfolding observe
observe_lem m c h k l = ground arith

-- The reports of one socket, by all the readers that share it.
abbrev pub observe_all : List ℕ → DropCounter → DropCounter
observe_all [] d = d
observe_all (c ∷ cs) d = observe_all cs (observe (c % 2 ^ 32) d)

abbrev pub largest : List ℕ → ℕ → ℕ
largest [] m = m
largest (c ∷ cs) m = largest cs (max m c)

-- Each report is of a count less than 2 ^ 31 away from the largest before it.
abbrev pub IsNear : List ℕ → ℕ → Type 0
IsNear [] m = Unit
IsNear (c ∷ cs) m = (c < m + 2 ^ 31) × (m < c + 2 ^ 31) × (max m c < 2 ^ 64) × IsNear cs (max m c)

-- Whatever the order of the reports, the total is the largest of the kernel's counts, though the reports have only its
-- low 32 bits. Each report is less than 2 ^ 31 away from the largest before it.
pub observe_all_lem :
    (cs : List ℕ) (m : ℕ) → IsNear cs m → observe_all cs (seen m) ≡ seen (largest cs m)
observe_all_lem [] m near = refl
observe_all_lem (c ∷ cs) m near =
    ap (observe_all cs) (observe_lem m c near.0 near.1 near.2) ∙ observe_all_lem cs (max m c) near.3
