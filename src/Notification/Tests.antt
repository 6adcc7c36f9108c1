-- ===== src/Notification/Tests.antt =====
-- An order is placed: the bridge forwards the event, and a mail is sent and logged.
use go_grpc_http.Base.{◌≡◌, refl, List, [], ◌∷◌, map, true}
use mathlib.Core.List.{Sublistᴰ}
use go_grpc_http.Base.Action.{World}
use go_grpc_http.Nats.{Message}
use go_grpc_http.Notification.Model.{Mail, Services, NotifyState}
use go_grpc_http.Notification.Bridge.{Exchange, delivery_of, bridge_all}
use go_grpc_http.Notification.Forwarding.{bridge_all-Sublist}
use go_grpc_http.Notification.Sender.{is_configured}
use go_grpc_http.Notification.Subscriber.{consume, consume_all}
use go_grpc_http.Notification.Once.{AddsUpTo, consume_all-AddsUpTo}
use go_grpc_http.Notification.Mailed.{order_created, order_paid, consume-MailsTo}
use go_grpc_http.Notification.EndToEnd.{AllReadable, bridged_is_mailed}
use go_grpc_http.Order.Samples.{calm, json, paid}
use go_grpc_http.Order.Samples.Values.{created}

abbrev notices : Services
notices = record {
  env = calm;
  created = json.created;
  paid = json.paid;
  cancelled = json.cancelled;
  payment = json.payment;
  dollars = λ cents. "$3.00";
  sender = record {
    host = "smtp";
    port = "25";
    username = "u";
    password = "p";
    from = "shop@example.com";
  };
  notify_email = "me@example.com";
}

abbrev placed_message : Message
placed_message = record { subject = "orders.created"; body = 1 ∷ [] }

abbrev paid_message : Message
paid_message = record { subject = "orders.paid"; body = 1 ∷ [] }

abbrev unknown_message : Message
unknown_message = record { subject = "orders.unknown"; body = [] }

abbrev no_deliveries : World Exchange
no_deliveries = record { calls = 0; state = [] }

abbrev no_mails : World NotifyState
no_mails = record { calls = 0; state = record { mails = []; notification_log = [] } }

bridge_all-Sublist_example :
    (sent : List Message) × Sublistᴰ sent (placed_message ∷ unknown_message ∷ [])
    × ((bridge_all calm (placed_message ∷ unknown_message ∷ []) no_deliveries).state
        ≡ map
            (λ m. record {
              routing_key = m.subject;
              content_type = "application/json";
              body = m.body;
              persistent = true;
            })
            sent)
bridge_all-Sublist_example =
    bridge_all-Sublist calm (placed_message ∷ unknown_message ∷ []) no_deliveries

consume_all-AddsUpTo_example :
    AddsUpTo 2 2 no_mails.state
      (consume_all notices
        (delivery_of placed_message ∷ delivery_of unknown_message ∷ [])
        no_mails).state
consume_all-AddsUpTo_example =
    consume_all-AddsUpTo notices (delivery_of placed_message ∷ delivery_of unknown_message ∷ [])
      no_mails

one_configured : is_configured notices.sender ≡ true
unfolding is_configured
one_configured = refl

consume-MailsTo_example :
    (m : Mail) × ((consume notices (delivery_of placed_message) no_mails).state.mails ≡ m ∷ [])
    × (m.to ≡ "me@example.com")
consume-MailsTo_example =
    consume-MailsTo notices one_configured (λ n. refl) (delivery_of placed_message) no_mails refl
      (order_created created refl refl)

two_readable : AllReadable notices (placed_message ∷ paid_message ∷ [])
two_readable = (order_created created refl refl, (order_paid paid refl refl, tt))

bridged_is_mailed_example :
    (mails : List Mail) × ((consume_all notices
        (bridge_all calm (placed_message ∷ paid_message ∷ []) no_deliveries).state
        no_mails).state.mails
      ≡ mails)
    × (map (λ m. m.to) mails ≡ "me@example.com" ∷ "me@example.com" ∷ [])
bridged_is_mailed_example =
    bridged_is_mailed notices one_configured refl (λ n. refl) calm (λ n. refl)
      (placed_message ∷ paid_message ∷ []) 0 no_mails two_readable
