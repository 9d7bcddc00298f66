-- ===== src/Limit/Rate/Tests.antt =====
-- A token bucket over whole numbers.
use go_netx.Base.{ℕ, ◌+◌, ◌-◌, ◌*◌, ◌≡◌, refl, arith, min, ltb, leb, none}
use go_netx.Base.Int.{pos, pos_part}
use go_netx.Limit.Rate.{Floats, Rate, new_rate, admitted, IsExact, admitted-burst}

abbrev whole : Floats ℕ
whole = record {
  lt = ltb;
  le = leb;
  add = λ a b. a + b;
  mul = λ a b. a * b;
  sub = λ a b. a - b;
  of_int = pos_part;
  since = λ now last. pos_part now - pos_part last;
}

whole-IsExact : IsExact whole
whole-IsExact = record { less = λ m n h k. refl; minus = λ n h. omega arith }

abbrev three : Rate ℕ
three = record { per_sec = 2; burst = 3; tokens = 3; last = none }

admitted-burst_example : admitted whole 5 (pos 70) three ≡ min 5 3
unfolding new_rate
admitted-burst_example =
    admitted-burst whole (pos 70) 2 3 5 three whole-IsExact (λ n h. omega arith) (omega arith) refl
