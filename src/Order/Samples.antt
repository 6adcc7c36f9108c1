-- ===== src/Order/Samples.antt =====
-- A sample order, and JSON codecs that know its values: test data.
pub mod Values
pub mod Views
use go_grpc_http.Base.{
  ◌∙◌, ℕ, String, ◌≡◌, refl, List, [], ◌∷◌, Bool, true, false, ◌&&◌, Option, none, some, arith,
  eq_iff, ◌=?◌, if◌then◌else◌, Bool-cases, inl, inr, ltb, eq_refl, ◌+◌,
}
use go_grpc_http.Base.Text.{◌==◌}
use go_grpc_http.Base.Int.{ℤ, pos, negsuc}
use go_grpc_http.Base.Action.{ok, err, Bytes, Env, World, done}
use go_grpc_http.Base.Codec.{Codec, IsFaithful}
use go_grpc_http.Order.Model.{
  OrderItem, OrderView, OrderCreatedPayload, OrderPaidPayload, OrderCancelledPayload,
}
use go_grpc_http.Order.Services.{
  Json, IsLawful, Redis, IsStore, ProductClient, Services, OrderState,
}
use go_grpc_http.Order.Projector.{view_of_created}
use go_grpc_http.Payment.Model.{PaymentEvent}
use go_grpc_http.Order.Samples.Values.{created, is_created, is_created-eq}
use go_grpc_http.Order.Samples.Views.{view_codec, view_codec-IsFaithful}

-- The codec that writes one value, which `test` recognises, as the bytes `[1]`.
abbrev pub sample_codec : {A : Type 0} → A → (A → Bool) → Codec A
sample_codec a test = record {
  marshal = λ x. if test x then ok (1 ∷ []) else err "json: unsupported value";
  unmarshal = λ b. elim b [ [] ↦ err "unexpected end of JSON input" | n ∷ ns ↦ ok a ];
}

pub sample_codec-IsFaithful :
    {A : Type 0} (a : A) (test : A → Bool)
    → ((x : A) → test x ≡ true → x ≡ a)
    → IsFaithful (sample_codec a test)
sample_codec-IsFaithful a test sound = record {
  round_trip = λ x {b} written. elim (Bool-cases (test x)) [
    | inl hit ↦ ground (arith, hit, written, sound x hit)
    | inr miss ↦ absurd (ground (arith, miss, written))
  ];
}

abbrev pub paid : OrderPaidPayload
paid = record { order_id = "o-1"; payment_id = "pay-1"; paid_at = 2000 }

abbrev is_paid : OrderPaidPayload → Bool
is_paid p = p.order_id == "o-1" && p.payment_id == "pay-1" && p.paid_at =? 2000

is_paid-eq : (p : OrderPaidPayload) → is_paid p ≡ true → p ≡ paid
is_paid-eq p h = ground (arith, h, eq_iff p.order_id "o-1", eq_iff p.payment_id "pay-1")

abbrev pub cancelled : OrderCancelledPayload
cancelled = record { order_id = "o-1"; reason = "payment failed"; cancelled_at = 2000 }

abbrev is_cancelled : OrderCancelledPayload → Bool
is_cancelled p = p.order_id == "o-1" && p.reason == "payment failed" && p.cancelled_at =? 2000

is_cancelled-eq : (p : OrderCancelledPayload) → is_cancelled p ≡ true → p ≡ cancelled
is_cancelled-eq p h = ground (arith, h, eq_iff p.order_id "o-1", eq_iff p.reason "payment failed")

abbrev pub completed : PaymentEvent
completed = record {
  payment_id = "pay-1";
  order_id = "o-1";
  status = "completed";
  timestamp = 1500;
}

abbrev is_completed : PaymentEvent → Bool
is_completed e =
    e.payment_id == "pay-1" && e.order_id == "o-1" && e.status == "completed" && e.timestamp =? 1500

is_completed-eq : (e : PaymentEvent) → is_completed e ≡ true → e ≡ completed
is_completed-eq e h =
    ground
      (arith, h, eq_iff e.payment_id "pay-1", eq_iff e.order_id "o-1", eq_iff e.status "completed")

abbrev pub json : Json
json = record {
  created = sample_codec created is_created;
  paid = sample_codec paid is_paid;
  cancelled = sample_codec cancelled is_cancelled;
  view = view_codec;
  payment = sample_codec completed is_completed;
  jsonb = λ b. ok b;
}

jsonb_same :
    (b b' : Bytes) → json.jsonb b ≡ ok b' → json.created.unmarshal b' ≡ json.created.unmarshal b
jsonb_same b b' h = ground (arith, h)

pub json-IsLawful : IsLawful json
json-IsLawful = record {
  created_law = sample_codec-IsFaithful created is_created is_created-eq;
  paid_law = sample_codec-IsFaithful paid is_paid is_paid-eq;
  cancelled_law = sample_codec-IsFaithful cancelled is_cancelled is_cancelled-eq;
  view_law = view_codec-IsFaithful;
  payment_law = sample_codec-IsFaithful completed is_completed is_completed-eq;
  jsonb_keeps = λ p {b} {b'} written h.
      jsonb_same b b' h
      ∙ (sample_codec-IsFaithful created is_created is_created-eq).round_trip p written;
}

-- Every call goes through, at the time of its number.
abbrev pub calm : Env
calm = record {
  outcome = λ n. done;
  now = λ n. n;
  uuid = λ n. "o-1";
  serial = λ n. n;
  cut = λ n. none;
  scan = λ n. [];
}

-- A store of texts with their expiry, the latest first.
abbrev pub Entries : Type 0
Entries = List (String × Bytes × ℕ)

abbrev get_entry : ℕ → String → Entries → Option Bytes
get_entry now key [] = none
get_entry now key ((k, value, expiry) ∷ entries) =
    if k == key then (if ltb now expiry then some value else none) else get_entry now key entries

abbrev pub redis : Redis Entries
redis = record {
  get = get_entry;
  set = λ now key value ttl entries. (key, value, now + ttl) ∷ entries;
  zadd = λ key score member entries. entries;
  zrevrange = λ key entries. [];
}

pub redis-IsStore : IsStore redis
redis-IsStore = record {
  get-set_self = λ t t' k v ttl r before in_time. rw (eq_refl k) (ground (arith, in_time));
  get-set_expired = λ t t' k v ttl r late. rw (eq_refl k) (ground (arith, late));
  get-set_ne = λ t t' k j v ttl r other. ground (arith, other, eq_iff k j);
  get-zadd = λ t k j score member r other. refl;
}

-- A product service with one product, and enough of it.
abbrev pub shop : ProductClient Unit
shop = record {
  get_product = λ id p. (ok (record { name = "Pen"; price_cents = pos 150 }), p);
  reserve_stock = λ id quantity p. (ok true, p);
  release_stock = λ id quantity p. (ok true, p);
}

abbrev pub services : Services Unit Entries
services = record { env = calm; json = json; redis = redis; products = shop }

abbrev pub start : World (OrderState Unit Entries)
start = record {
  calls = 0;
  state = record { events = []; published = []; cache = []; products = tt };
}
