-- ===== src/Udp/Drops/Reported.antt =====
-- From the control data of the datagrams to the drop count of a socket: DropCount of internal/sys with the counter of udp.
use go_netx.Base.{
  ℕ, ◌%◌, ◌^◌, ◌<◌, ◌≡◌, refl, ap, ◌∙◌, max, List, [], ◌∷◌, All, length, Option, none, some,
  Outcome, returns, and_then,
}
use go_netx.Sys.{hdr, drop_count}
use go_netx.Sys.Control.Encoded.{Message, IsMessage, encode, first_count, drop_count-encode}
use go_netx.Udp.{DropCounter, observe}
use go_netx.Udp.Drops.{seen, largest, IsNear, observe_lem}

-- What is done with a count, if there is one.
abbrev pub note : Option ℕ → DropCounter → DropCounter
note none d = d
note (some raw) d = observe raw d

-- The control data of a datagram, if there is any.
unfoldable pub observe_control : List ℕ → DropCounter → Outcome DropCounter
observe_control [] d = returns d
observe_control (b ∷ oob) d = and_then (drop_count (b ∷ oob)) (λ r. returns (note r d))

-- The datagrams of one socket, one after the other.
unfoldable pub observe_controls : List (List ℕ) → DropCounter → Outcome DropCounter
unfolding observe_control
observe_controls [] d = returns d
observe_controls (oob ∷ oobs) d = and_then (observe_control oob d) (observe_controls oobs)

-- The low 32 bits of a count that is there.
abbrev pub low32 : Option ℕ → Option ℕ
low32 none = none
low32 (some c) = some (c % 2 ^ 32)

-- Control messages that report the count, or none, and a rest that is no message.
pub record IsReport (count : Option ℕ) (oob : List ℕ) : Type 0 where
  pub sent : List Message
  pub tail : List ℕ
  pub fits : All IsMessage sent
  pub short : length tail < hdr
  pub is : oob ≡ encode sent tail
  pub says : first_count sent ≡ low32 count

abbrev pub AreReports : List (Option ℕ) → List (List ℕ) → Type 0
AreReports [] [] = Unit
AreReports (c ∷ cs) (oob ∷ oobs) = IsReport c oob × AreReports cs oobs
AreReports [] (oob ∷ oobs) = ⊥
AreReports (c ∷ cs) [] = ⊥

abbrev pub counts : List (Option ℕ) → List ℕ
counts [] = []
counts (none ∷ cs) = counts cs
counts (some c ∷ cs) = c ∷ counts cs

observe_control_lem :
    (oob : List ℕ) (d : DropCounter)
    → observe_control oob d ≡ and_then (drop_count oob) (λ r. returns (note r d))
unfolding observe_control drop_count
observe_control_lem [] d = refl
observe_control_lem (b ∷ oob) d = refl

observe_control-IsReport :
    (c : Option ℕ) (oob : List ℕ) (d : DropCounter)
    → IsReport c oob
    → observe_control oob d ≡ returns (note (low32 c) d)
observe_control-IsReport c oob d r =
    observe_control_lem oob d
    ∙ ap (λ o. and_then o (λ r. returns (note r d)))
        (ap drop_count r.is ∙ drop_count-encode r.sent r.tail r.fits r.short ∙ ap returns r.says)

-- From the bytes of the control data to the total: where each datagram of a socket carries the control messages of a
-- kernel that reports its cumulative count of drops, in the low 32 bits, or reports nothing, reading them
-- never panics and leaves a total that is the largest count reported. Each report is less than 2 ^ 31 away from
-- the largest before it.
pub observe_controls_lem :
    (cs : List (Option ℕ)) (oobs : List (List ℕ)) (m : ℕ)
    → AreReports cs oobs
    → IsNear (counts cs) m
    → observe_controls oobs (seen m) ≡ returns (seen (largest (counts cs) m))
unfolding observe_controls
observe_controls_lem [] [] m are near = refl
observe_controls_lem (none ∷ cs) (oob ∷ oobs) m (is, are) near =
    ap (λ o. and_then o (observe_controls oobs)) (observe_control-IsReport none oob (seen m) is)
    ∙ observe_controls_lem cs oobs m are near
observe_controls_lem (some c ∷ cs) (oob ∷ oobs) m (is, are) near =
    ap (λ o. and_then o (observe_controls oobs))
      (observe_control-IsReport (some c) oob (seen m) is
        ∙ ap returns (observe_lem m c near.0 near.1 near.2))
    ∙ observe_controls_lem cs oobs (max m c) are near.3
observe_controls_lem [] (oob ∷ oobs) m are near = absurd are
observe_controls_lem (none ∷ cs) [] m are near = absurd are
observe_controls_lem (some c ∷ cs) [] m are near = absurd are
