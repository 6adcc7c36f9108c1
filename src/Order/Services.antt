-- ===== src/Order/Services.antt =====
-- What the order service is wired to (cmd/order-service/main.go): JSON, Redis, the product
-- service's client, and the environment. All of it is outside the package, and is a parameter.
use go_grpc_http.Base.{ℕ, ◌+◌, ◌≤◌, ◌<◌, ◌≡◌, ◌≢◌, String, List, Bool, Option, none, some}
use go_grpc_http.Base.Int.{ℤ}
use go_grpc_http.Base.Action.{Result, ok, Env, Action, Time, Bytes}
use go_grpc_http.Base.Codec.{Codec, IsFaithful}
use go_grpc_http.Nats.{Message}
use go_grpc_http.Order.Model.{
  OrderCreatedPayload, OrderPaidPayload, OrderCancelledPayload, OrderView, StoredEvent,
}
use go_grpc_http.Payment.Model.{PaymentEvent}

-- `jsonb` is what a JSONB column gives back for a text that is put into it.
pub record Json : Type 0 where
  pub created : Codec OrderCreatedPayload
  pub paid : Codec OrderPaidPayload
  pub cancelled : Codec OrderCancelledPayload
  pub view : Codec OrderView
  pub payment : Codec PaymentEvent
  pub jsonb : Bytes → Result String Bytes

-- The documented behaviour: values survive the round trip, and a JSONB column keeps the value of what
-- was marshalled.
pub record IsLawful (j : Json) : Type 0 where
  pub created_law : IsFaithful j.created
  pub paid_law : IsFaithful j.paid
  pub cancelled_law : IsFaithful j.cancelled
  pub view_law : IsFaithful j.view
  pub payment_law : IsFaithful j.payment
  pub jsonb_keeps :
      (p : OrderCreatedPayload) {b b' : Bytes}
      → j.created.marshal p ≡ ok b
      → j.jsonb b ≡ ok b'
      → j.created.unmarshal b' ≡ ok p

-- github.com/redis/go-redis: the commands in use. `get` is `none` for redis.Nil.
pub record Redis (R : Type 0) : Type 0 where
  pub get : Time → String → R → Option Bytes
  pub set : Time → String → Bytes → ℕ → R → R
  pub zadd : String → ℕ → String → R → R
  pub zrevrange : String → R → List String

-- GET after SET key value EX ttl, and the independence of other keys.
pub record IsStore {R : Type 0} (c : Redis R) : Type 0 where
  pub get-set_self :
      (t t' : Time) (k : String) (v : Bytes) (ttl : ℕ) (r : R)
      → t ≤ t'
      → t' < t + ttl
      → c.get t' k (c.set t k v ttl r) ≡ some v
  pub get-set_expired :
      (t t' : Time) (k : String) (v : Bytes) (ttl : ℕ) (r : R)
      → t + ttl ≤ t'
      → c.get t' k (c.set t k v ttl r) ≡ none
  pub get-set_ne :
      (t t' : Time) (k j : String) (v : Bytes) (ttl : ℕ) (r : R)
      → k ≢ j
      → c.get t' j (c.set t k v ttl r) ≡ c.get t' j r
  pub get-zadd :
      (t : Time) (k j : String) (score : ℕ) (member : String) (r : R)
      → k ≢ j
      → c.get t j (c.zadd k score member r) ≡ c.get t j r

-- What PlaceOrder reads of a GetProductResponse.
pub record ProductInfo : Type 0 where
  pub name : String
  pub price_cents : ℤ

-- The generated client of the product service; `reserve_stock` answers `resp.Success`.
pub record ProductClient (P : Type 0) : Type 0 where
  pub get_product : String → P → Result String ProductInfo × P
  pub reserve_stock : String → ℤ → P → Result String Bool × P
  pub release_stock : String → ℤ → P → Result String Bool × P

pub record Services (P R : Type 0) : Type 0 where
  pub env : Env
  pub json : Json
  pub redis : Redis R
  pub products : ProductClient P

-- Everything that the handlers change: the event_store table, what was published on NATS, the
-- Redis read model, the product service's stock.
pub record OrderState (P R : Type 0) : Type 0 where
  pub events : List StoredEvent
  pub published : List Message
  pub cache : R
  pub products : P

abbrev pub Handler : Type 0 → Type 0 → Type 0 → Type 0
Handler P R A = Action String (OrderState P R) A
