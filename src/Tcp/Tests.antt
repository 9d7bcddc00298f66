-- ===== src/Tcp/Tests.antt =====
-- A server with one slot for each address, one of which is taken, and an Admit that is full.
use go_netx.Base.{
  ℕ, ◌<◌, ◌≤◌, ◌≡◌, refl, false, [], ◌∷◌, Option, some, arith, ℕ_discrete, none, true, List, Ends,
  ◌+◌, length,
}
use go_netx.Base.Assoc.{get}
use go_netx.Base.Int.{pos}
use go_netx.Limit.All.{Limiter}
use go_netx.Limit.PerKey.{in_use}
use go_netx.Tcp.{Server}
use go_netx.Tcp.Serve.{Serving, Event, arrives, fails, ends, closes, run}
use go_netx.Tcp.Serve.Run.{Balanced, run-Balanced}
use go_netx.Tcp.Serve.Stopped.{Still, run-Still}
use go_netx.Tcp.Slots.{Fair, holders}

abbrev full_limiter : Option (Limiter ℕ)
full_limiter = some (record { try_acquire = λ s. (s, false); release = λ s. s })

abbrev one_served : Server ℕ ℕ
one_served = record {
  per_ip = some (record { max = 1; n = (7, 1) ∷ [] });
  admit = 0;
  stopped = false;
  last_id = 4;
  conns = (4, some 7) ∷ [];
  accepted = 1;
  rejected = 0;
  rejected_per_ip = 0;
  active = 1;
  closed = 0;
}

one_served-Fair : Fair ℕ_discrete full_limiter one_served
one_served-Fair =
    (record { distinct = (refl, tt); counted = λ k n e. counts k n e }, λ k. matches k)
  where
    counts : (k n : ℕ) → get ℕ_discrete k ((7, 1) ∷ []) ≡ some n → (0 < n) × (n ≤ 1)
    counts k n e = ground arith

    matches :
        (k : ℕ)
        → in_use ℕ_discrete k (record { max = 1; n = (7, 1) ∷ [] })
          ≡ holders ℕ_discrete k one_served.conns
    matches k = unfold in_use in ground arith

abbrev serving : Serving ℕ ℕ
serving = record {
  server = one_served;
  bits = 64;
  serving = true;
  aborted = false;
  hung_up = [];
  result = none;
  delay = pos 0;
  accept_errors = 0;
}

serving-Balanced : Balanced ℕ_discrete full_limiter 4 one_served
serving-Balanced = record {
  fair = one_served-Fair;
  numbered = record { below = (omega arith, tt); last = omega arith };
}

abbrev busy : List (Event ℕ)
busy =
    arrives (some 7)
    ∷ arrives none
    ∷ fails true true 3
    ∷ ends 4
    ∷ arrives (some 7)
    ∷ closes
    ∷ fails false true 3
    ∷ []

run-Balanced_example :
    Ends
      (λ v'. Balanced ℕ_discrete full_limiter (4 + length busy) v'.server)
      (run ℕ_discrete full_limiter busy serving)
run-Balanced_example =
    run-Balanced ℕ_discrete full_limiter busy 4 serving (omega arith) serving-Balanced

-- The same server, after a drain.
abbrev draining : Serving ℕ ℕ
draining = record serving { server = record one_served { stopped = true } }

draining-Balanced : Balanced ℕ_discrete full_limiter 4 (record one_served { stopped = true })
draining-Balanced = record {
  fair = one_served-Fair;
  numbered = record { below = (omega arith, tt); last = omega arith };
}

run-Still_example : Ends (λ v'. Still 1 v'.server) (run ℕ_discrete full_limiter busy draining)
run-Still_example =
    run-Still ℕ_discrete full_limiter 1 busy 4 draining (omega arith) draining-Balanced
      (record { stopped = refl; accepted = refl })
