-- ===== src/Messages/Laptop.antt =====
-- `class LaptopInfo` (Messages.h, Messages.cpp).
use two_phase_commit_protoco.Base.{ℕ, ◌+◌, Bool, not, Option, some, List, ◌++◌, ◌>>=◌}
use two_phase_commit_protoco.Base.Int.{ℤ, minus_one, eqb_ℤ}
use two_phase_commit_protoco.Word.{htonl, ntohl, store_int, load_int}
use two_phase_commit_protoco.Messages.Order.{CustomerOrder}

pub record LaptopInfo : Type 0 where
  pub customer_id : ℤ
  pub order_number : ℤ
  pub request_type : ℤ
  pub engineer_id : ℤ
  pub admin_id : ℤ

-- The constructor `LaptopInfo()`.
abbrev pub new_laptop : LaptopInfo
new_laptop = record {
  customer_id = minus_one;
  order_number = minus_one;
  request_type = minus_one;
  engineer_id = minus_one;
  admin_id = minus_one;
}

abbrev pub set_info : LaptopInfo → ℤ → ℤ → ℤ → ℤ → ℤ → LaptopInfo
set_info this id number type engid expid = record this {
  customer_id = id;
  order_number = number;
  request_type = type;
  engineer_id = engid;
  admin_id = expid;
}

abbrev pub copy_order : LaptopInfo → CustomerOrder → LaptopInfo
copy_order this order = record this {
  customer_id = order.customer_id;
  order_number = order.order_number;
  request_type = order.request_type;
}

abbrev pub set_engineer_id : LaptopInfo → ℤ → LaptopInfo
set_engineer_id this id = record this { engineer_id = id }

abbrev pub set_admin_id : LaptopInfo → ℤ → LaptopInfo
set_admin_id this id = record this { admin_id = id }

abbrev pub size : LaptopInfo → ℕ
size this = 4 + 4 + 4 + 4 + 4

-- The bytes that `Marshal` writes at the front of the buffer.
unfoldable pub marshal : LaptopInfo → List ℕ
marshal this =
    store_int (htonl this.customer_id)
    ++ (store_int (htonl this.order_number)
        ++ (store_int (htonl this.request_type)
            ++ (store_int (htonl this.engineer_id) ++ store_int (htonl this.admin_id))))

-- `none`: the buffer is shorter than what is read.
unfoldable pub unmarshal : LaptopInfo → List ℕ → Option LaptopInfo
unmarshal this buffer = do
  (net_customer_id, buffer) ← load_int buffer
  (net_order_number, buffer) ← load_int buffer
  (net_request_type, buffer) ← load_int buffer
  (net_engineer_id, buffer) ← load_int buffer
  (net_admin_id, buffer) ← load_int buffer
  some (record this {
    customer_id = ntohl net_customer_id;
    order_number = ntohl net_order_number;
    request_type = ntohl net_request_type;
    engineer_id = ntohl net_engineer_id;
    admin_id = ntohl net_admin_id;
  })

abbrev pub is_valid : LaptopInfo → Bool
is_valid this = not (eqb_ℤ this.customer_id minus_one)
