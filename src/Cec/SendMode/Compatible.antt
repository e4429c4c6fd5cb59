-- ===== src/Cec/SendMode/Compatible.antt =====
-- Which modes go together: SendMode::match against the two directions of a transfer.
use libstreetpass.Prelude.{ℕ, ◌/◌, ◌%◌, ◌≤◌, ◌≡◌, Bool, ◌&&◌, ◌||◌, ◌==◌, arith}
use libstreetpass.Cec.SendMode.{match}

-- The two bits of a mode.
abbrev pub can_recv : ℕ → Bool
can_recv mode = mode % 2 == 1

abbrev pub can_send : ℕ → Bool
can_send mode = mode / 2 % 2 == 1

-- Two of the four modes match exactly when both are EXCHANGE, or one can send what the other can
-- receive.
pub match-compatible :
    (a b : ℕ)
    → a ≤ 3
    → b ≤ 3
    → match a b ≡ ((a == 0) && (b == 0) || can_send a && can_recv b || can_recv a && can_send b)
unfolding match
match-compatible a b ha hb = ground arith

pub match_comm : (a b : ℕ) → a ≤ 3 → b ≤ 3 → match a b ≡ match b a
unfolding match
match_comm a b ha hb = ground arith
