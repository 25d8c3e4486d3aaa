-- ===== src/Outbox/Delivery.antt =====
-- The notices of delivery of a sent message, in any order.
use mathlib.Core.List.{Perm, Permᴰ}
use mathlib.Core.Logic.{∥∥₁_elim}
use native.Mathlib.Nat.{ℕ_set}
use event_pro_backend.Prelude.{
  ℕ, ◌≡◌, ◌∙◌, max, Option, none, some, Text, List, [], ◌∷◌, arith, refl,
}
use event_pro_backend.Clock.{DateTime, aware}
use event_pro_backend.Outbox.Schedule.{sent, DeliveryStatus, delivered, read, rejected}
use event_pro_backend.Outbox.{OutboxMessage, record_delivery}

-- How far a delivery has come: refused by WhatsApp, delivered, read.
abbrev pub rank : DeliveryStatus → ℕ
rank rejected = 1
rank delivered = 2
rank read = 3

abbrev pub progress : Option DeliveryStatus → ℕ
progress none = 0
progress (some s) = rank s

pub record Notice : Type 0 where
  pub status : DeliveryStatus
  pub error : Option Text
  pub at : ℕ

pub deliver_all : List Notice → OutboxMessage → OutboxMessage
deliver_all [] m = m
deliver_all (n ∷ ns) m = deliver_all ns (record_delivery n.status n.error (aware n.at) m).1

-- The furthest of a list of notices.
pub furthest : List Notice → ℕ
furthest [] = 0
furthest (n ∷ ns) = max (rank n.status) (furthest ns)

module _ (s : DeliveryStatus) (error : Option Text) (at : DateTime) (m : OutboxMessage) where
  pub record_delivery-status : m.status ≡ sent → (record_delivery s error at m).1.status ≡ sent
  unfolding record_delivery
  record_delivery-status h = ground arith

module _ (s : DeliveryStatus) (error : Option Text) (t : ℕ) (m : OutboxMessage) where
  pub record_delivery-progress :
      m.status ≡ sent
      → progress (record_delivery s error (aware t) m).1.delivery_status
        ≡ max (progress m.delivery_status) (rank s)
  unfolding record_delivery
  record_delivery-progress h = ground arith

-- A sent message that receives any notices has come exactly as far as the furthest of them and
-- of its delivery status before.
pub deliver_all-progress :
    (ns : List Notice) (m : OutboxMessage)
    → m.status ≡ sent
    → progress (deliver_all ns m).delivery_status ≡ max (progress m.delivery_status) (furthest ns)
unfolding deliver_all furthest
deliver_all-progress [] m h = omega arith
deliver_all-progress (n ∷ ns) m h =
    let next = (record_delivery n.status n.error (aware n.at) m).1 in
    omega (
      arith,
      record_delivery-progress n.status n.error n.at m h,
      deliver_all-progress ns next (record_delivery-status n.status n.error (aware n.at) m h),
    )

furthest-Permᴰ : {ns ks : List Notice} → Permᴰ ns ks → furthest ns ≡ furthest ks
unfolding furthest
furthest-Permᴰ Permᴰ.nil = refl
furthest-Permᴰ (Permᴰ.cons e p) = ground (arith, e, furthest-Permᴰ p)
furthest-Permᴰ (Permᴰ.swap e f) = ground (arith, e, f)
furthest-Permᴰ (Permᴰ.trans p q) = furthest-Permᴰ p ∙ furthest-Permᴰ q

progress_injective : (a b : Option DeliveryStatus) → progress a ≡ progress b → a ≡ b
progress_injective a b h = ground arith

-- Two orders of arrival of the same notices leave a sent message with the same delivery status.
pub deliver_all-perm :
    (ns ks : List Notice) (m : OutboxMessage)
    → m.status ≡ sent
    → Perm ns ks
    → (deliver_all ns m).delivery_status ≡ (deliver_all ks m).delivery_status
deliver_all-perm ns ks m h p =
    let same : furthest ns ≡ furthest ks = ∥∥₁_elim p (ℕ_set _ _) furthest-Permᴰ in
    progress_injective _ _ (omega (arith, deliver_all-progress ns m h, deliver_all-progress ks m h))
