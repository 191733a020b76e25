-- ===== src/Messages/Codec.antt =====
-- `Unmarshal` after `Marshal` of `CustomerOrder` and `LaptopInfo` (Messages.cpp).
use two_phase_commit_protoco.Base.{ℕ, ◌≡◌, some, List, ◌++◌}
use two_phase_commit_protoco.Base.Int.{IsInt32}
use two_phase_commit_protoco.Word.{wire_laws, ntohl-htonl}
use two_phase_commit_protoco.Messages.Order
use two_phase_commit_protoco.Messages.Order.{CustomerOrder}
use two_phase_commit_protoco.Messages.Laptop
use two_phase_commit_protoco.Messages.Laptop.{LaptopInfo}

pub record OrderInRange (o : CustomerOrder) : Type 0 where
  pub customer_id : IsInt32 o.customer_id
  pub order_number : IsInt32 o.order_number
  pub request_type : IsInt32 o.request_type

pub record LaptopInRange (l : LaptopInfo) : Type 0 where
  pub customer_id : IsInt32 l.customer_id
  pub order_number : IsInt32 l.order_number
  pub request_type : IsInt32 l.request_type
  pub engineer_id : IsInt32 l.engineer_id
  pub admin_id : IsInt32 l.admin_id

order_unmarshal-marshal :
    (g o : CustomerOrder) (rest : List ℕ)
    → OrderInRange o
    → Order.unmarshal g (Order.marshal o ++ rest) ≡ some o
unfolding Order.unmarshal Order.marshal
order_unmarshal-marshal g o rest h = simp (
  wire_laws,
  ntohl-htonl o.customer_id h.customer_id,
  ntohl-htonl o.order_number h.order_number,
  ntohl-htonl o.request_type h.request_type,
)

laptop_unmarshal-marshal :
    (g l : LaptopInfo) (rest : List ℕ)
    → LaptopInRange l
    → Laptop.unmarshal g (Laptop.marshal l ++ rest) ≡ some l
unfolding Laptop.unmarshal Laptop.marshal
laptop_unmarshal-marshal g l rest h = simp (
  wire_laws,
  ntohl-htonl l.customer_id h.customer_id,
  ntohl-htonl l.order_number h.order_number,
  ntohl-htonl l.request_type h.request_type,
  ntohl-htonl l.engineer_id h.engineer_id,
  ntohl-htonl l.admin_id h.admin_id,
)

-- An order of `int`s that is written and read back, over any order, is that order, and a laptop of
-- `int`s that is written and read back, over any laptop, is that laptop, whatever follows them in
-- the buffer.
order_laptop_unmarshal-marshal :
    (g o : CustomerOrder) (g' l : LaptopInfo) (rest : List ℕ)
    → OrderInRange o
    → LaptopInRange l
    → (Order.unmarshal g (Order.marshal o ++ rest) ≡ some o)
      × (Laptop.unmarshal g' (Laptop.marshal l ++ rest) ≡ some l)
order_laptop_unmarshal-marshal g o g' l rest h h' =
    (order_unmarshal-marshal g o rest h, laptop_unmarshal-marshal g' l rest h')
