-- ===== src/Notification/EndToEnd.antt =====
-- internal/notification/event: from the NATS messages to the mails, through the bridge, RabbitMQ and
-- the subscriber.
use go_grpc_http.Base.{ℕ, ◌≡◌, refl, sym, ap, ◌∙◌, List, [], ◌∷◌, ◌++◌, map, true, false}
use mathlib.Core.List.{append-nil, append_assoc}
use go_grpc_http.Base.Text.{◌==◌}
use go_grpc_http.Base.Action.{Env, World, done}
use go_grpc_http.Nats.{Message}
use go_grpc_http.Notification.Model.{Mail, Services, NotifyState}
use go_grpc_http.Notification.Bridge.{bridge_all}
use go_grpc_http.Notification.Sender.{is_configured}
use go_grpc_http.Notification.Subscriber.{consume, consume_all}
use go_grpc_http.Notification.Forwarding.{published_as, bridge_all_complete}
use go_grpc_http.Notification.Mailed.{IsReadable, consume-MailsTo}

module _ (d : Services) where
  -- Each message is one of the five events, with a payload that decodes.
  abbrev pub AllReadable : List Message → Type 0
  AllReadable [] = Unit
  AllReadable (m ∷ msgs) =
      IsReadable d (record {
        routing_key = m.subject;
        content_type = "application/json";
        body = m.body;
        persistent = true;
      })
      × AllReadable msgs

  module _ (configured : is_configured d.sender ≡ true) (set : (d.notify_email == "") ≡ false)
      (up : (n : ℕ) → d.env.outcome n ≡ done) where
    consume_all-mails :
        (msgs : List Message) (w : World NotifyState)
        → AllReadable msgs
        → (mails : List Mail) × ((consume_all d (map published_as msgs) w).state.mails
            ≡ w.state.mails ++ mails)
          × (map (λ m. m.to) mails ≡ map (λ (msg : Message). d.notify_email) msgs)
    unfolding consume_all
    consume_all-mails [] w readable = ([], sym (append-nil w.state.mails), refl)
    consume_all-mails (msg ∷ msgs) w (first, others) =
        let (m, mailed, to) = consume-MailsTo d configured up (published_as msg) w set first in
        let (mails, all, tos) = consume_all-mails msgs (consume d (published_as msg) w) others in
        (
          m ∷ mails,
          all ∙ ap (λ l. l ++ mails) mailed ∙ append_assoc w.state.mails (m ∷ []) mails,
          rw (to, tos) refl,
        )

    -- Every event is mailed. While the calls of the bridge and of the subscriber go through, with
    -- an SMTP server and a NOTIFY_EMAIL configured: if each message of a sequence is one of the five
    -- events with a payload that decodes, and the subscriber gets what the bridge published on an
    -- empty exchange for that sequence, once and in that order, then it sends exactly one mail for
    -- each message, to the configured address.
    pub bridged_is_mailed :
        (bridging : Env)
        → ((n : ℕ) → bridging.outcome n ≡ done)
        → (msgs : List Message) (calls : ℕ) (w : World NotifyState) → AllReadable msgs
        → (mails : List Mail) × ((consume_all d
              (bridge_all bridging msgs (record { calls = calls; state = [] })).state
              w).state.mails
            ≡ w.state.mails ++ mails)
          × (map (λ m. m.to) mails ≡ map (λ (msg : Message). d.notify_email) msgs)
    bridged_is_mailed bridging bridge_up msgs calls w readable =
        rw (bridge_all_complete bridging bridge_up msgs (record { calls = calls; state = [] }))
          (consume_all-mails msgs w readable)
