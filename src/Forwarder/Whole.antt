-- ===== src/Forwarder/Whole.antt =====
-- Natural numbers in place of floating-point numbers, for the examples.
use rassberry.Base.{ℕ, ◌*◌, ◌-◌, ltb, leb}
use rassberry.Base.Int.{ℤ, pos, negsuc}
use rassberry.Supervisor.Backoff.{Float}

abbrev pos_part : ℤ → ℕ
pos_part (pos n) = n
pos_part (negsuc n) = 0

abbrev pub whole : Float
whole = record {
  F = ℕ;
  zero_point = 0;
  one = 1;
  two = 2;
  mul = λ a b. a * b;
  div = λ a b. a;
  sub = λ a b. a - b;
  lt = ltb;
  le = leb;
  of_duration = pos_part;
  to_duration = pos;
}
