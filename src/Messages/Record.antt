-- ===== src/Messages/Record.antt =====
-- `class CustomerRecord` (Messages.h, Messages.cpp).
use two_phase_commit_protoco.Base.{ℕ, ◌+◌}
use two_phase_commit_protoco.Base.Int.{ℤ, minus_one}

pub record CustomerRecord : Type 0 where
  pub customer_id : ℤ
  pub last_order : ℤ

-- The constructor `CustomerRecord()`.
abbrev pub new_record : CustomerRecord
new_record = record { customer_id = minus_one; last_order = minus_one }

-- The constructor `CustomerRecord(int, int)`.
abbrev pub make_record : ℤ → ℤ → CustomerRecord
make_record customer_id last_order = record { customer_id = customer_id; last_order = last_order }

abbrev pub set_customer_id : CustomerRecord → ℤ → CustomerRecord
set_customer_id this cid = record this { customer_id = cid }

abbrev pub set_last_order : CustomerRecord → ℤ → CustomerRecord
set_last_order this num = record this { last_order = num }

abbrev pub size : CustomerRecord → ℕ
size this = 4 + 4
