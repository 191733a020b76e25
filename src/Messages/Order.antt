-- ===== src/Messages/Order.antt =====
-- `class CustomerOrder` (Messages.h, Messages.cpp).
use two_phase_commit_protoco.Base.{ℕ, ◌+◌, Bool, not, Option, some, List, ◌++◌, ◌>>=◌}
use two_phase_commit_protoco.Base.Int.{ℤ, minus_one, eqb_ℤ}
use two_phase_commit_protoco.Word.{htonl, ntohl, store_int, load_int}

pub record CustomerOrder : Type 0 where
  pub customer_id : ℤ
  pub order_number : ℤ
  pub request_type : ℤ

-- The constructor `CustomerOrder()`.
abbrev pub new_order : CustomerOrder
new_order = record { customer_id = minus_one; order_number = minus_one; request_type = minus_one }

abbrev pub set_order : CustomerOrder → ℤ → ℤ → ℤ → CustomerOrder
set_order this id number type = record this {
  customer_id = id;
  order_number = number;
  request_type = type;
}

-- `sizeof(int)` is 4.
abbrev pub size : CustomerOrder → ℕ
size this = 4 + 4 + 4

-- The bytes that `Marshal` writes at the front of the buffer.
unfoldable pub marshal : CustomerOrder → List ℕ
marshal this =
    store_int (htonl this.customer_id)
    ++ (store_int (htonl this.order_number) ++ store_int (htonl this.request_type))

-- `none`: the buffer is shorter than what is read.
unfoldable pub unmarshal : CustomerOrder → List ℕ → Option CustomerOrder
unmarshal this buffer = do
  (net_customer_id, buffer) ← load_int buffer
  (net_order_number, buffer) ← load_int buffer
  (net_request_type, buffer) ← load_int buffer
  some (record this {
    customer_id = ntohl net_customer_id;
    order_number = ntohl net_order_number;
    request_type = ntohl net_request_type;
  })

abbrev pub is_valid : CustomerOrder → Bool
is_valid this = not (eqb_ℤ this.customer_id minus_one)
