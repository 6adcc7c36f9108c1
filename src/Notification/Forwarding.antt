-- ===== src/Notification/Forwarding.antt =====
-- internal/notification/event/bridge.go: what becomes of a sequence of messages.
use go_grpc_http.Base.{
  true, ℕ, ◌≡◌, refl, sym, ap, ◌∙◌, List, [], ◌∷◌, ◌++◌, map, arith, inl, inr, ◌⊎◌,
}
use mathlib.Core.List.{append-nil, append_assoc, Sublistᴰ}
use go_grpc_http.Base.Action.{Env, World, call, done}
use go_grpc_http.Nats.{Message}
use go_grpc_http.Notification.Bridge.{Delivery, Exchange, delivery_of, forward, bridge, bridge_all}

-- A message as it is to be published.
abbrev pub published_as : Message → Delivery
published_as m = record {
  routing_key = m.subject;
  content_type = "application/json";
  body = m.body;
  persistent = true;
}

module _ (env : Env) where
  bridge-cases :
      (msg : Message) (w : World Exchange)
      → ((bridge env msg w).state ≡ w.state)
        ⊎ ((bridge env msg w).state ≡ w.state ++ delivery_of msg ∷ [])
  unfolding bridge forward call
  bridge-cases msg w = ground arith

  -- However the calls of RabbitMQ end, what the bridge has published of a sequence of NATS messages
  -- stands behind what was published before, and is some of them, each once and in their order: with
  -- the subject as routing key, the body as it is, the content type of JSON, and persistent.
  pub bridge_all-Sublist :
      (msgs : List Message) (w : World Exchange)
      → (sent : List Message) × Sublistᴰ sent msgs
        × ((bridge_all env msgs w).state
            ≡ w.state
              ++ map
                  (λ m. record {
                    routing_key = m.subject;
                    content_type = "application/json";
                    body = m.body;
                    persistent = true;
                  })
                  sent)
  unfolding bridge_all
  bridge_all-Sublist [] w = ([], Sublistᴰ.slnil, sym (append-nil w.state))
  bridge_all-Sublist (msg ∷ msgs) w =
      let (sent, some_of, left) = bridge_all-Sublist msgs (bridge env msg w) in
      elim (bridge-cases msg w) [
        | inl same ↦ (sent, Sublistᴰ.cons some_of, left ∙ ap (λ l. l ++ map published_as sent) same)
        | inr more ↦ (
          msg ∷ sent,
          Sublistᴰ.cons-cons refl some_of,
          left
              ∙ ap (λ l. l ++ map published_as sent) more
              ∙ append_assoc w.state (delivery_of msg ∷ []) (map published_as sent),
        )
      ]

  bridge-up :
      (msg : Message) (w : World Exchange)
      → env.outcome w.calls ≡ done
      → (bridge env msg w).state ≡ w.state ++ delivery_of msg ∷ []
  unfolding bridge forward call
  bridge-up msg w up = ground (arith, up)

  -- While the calls go through, the bridge publishes every message, in order.
  pub bridge_all_complete :
      (up : (n : ℕ) → env.outcome n ≡ done) (msgs : List Message) (w : World Exchange)
      → (bridge_all env msgs w).state ≡ w.state ++ map published_as msgs
  unfolding bridge_all
  bridge_all_complete up [] w = sym (append-nil w.state)
  bridge_all_complete up (msg ∷ msgs) w =
      bridge_all_complete up msgs (bridge env msg w)
      ∙ ap (λ l. l ++ map published_as msgs) (bridge-up msg w (up w.calls))
      ∙ append_assoc w.state (delivery_of msg ∷ []) (map published_as msgs)
