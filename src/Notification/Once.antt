-- ===== src/Notification/Once.antt =====
-- internal/notification/event/subscriber.go: how many mails and log rows events make.
use go_grpc_http.Base.{
  ℕ, suc, ◌+◌, ◌≤◌, String, ◌≡◌, refl, sym, ap, ◌∙◌, List, [], ◌∷◌, ◌++◌, Bool, true, false, arith,
  inl, inr, ◌⊎◌, Bool-cases, length, length-append, if◌then◌else◌,
}
use mathlib.Core.List.{append-nil, append_assoc}
use go_grpc_http.Base.Text.{◌⧺◌, ◌==◌}
use go_grpc_http.Base.Action.{Result, ok, err, World, call, lift, ◌>>=◌}
use go_grpc_http.Notification.Model.{Notification, Mail, Services, NotifyState, Handler}
use go_grpc_http.Notification.Bridge.{Delivery}
use go_grpc_http.Notification.Sender.{
  is_configured, mail_text, insert_notification, send, log_notification,
}
use go_grpc_http.Notification.Subscriber.{
  resolve_recipient, log, notify, handle_order_created, handle_order_paid, handle_order_cancelled,
  handle_payment_completed, handle_payment_failed, handle_message, consume, consume_all,
}

-- Between two states at most `n` mails were sent and at most `m` rows were logged, behind what was
-- there.
pub record AddsUpTo (n m : ℕ) (s s' : NotifyState) : Type 0 where
  pub sent : List Mail
  pub logged : List Notification
  pub mails : s'.mails ≡ s.mails ++ sent
  pub rows : s'.notification_log ≡ s.notification_log ++ logged
  pub few_mails : length sent ≤ n
  pub few_rows : length logged ≤ m

adds_nothing : (n m : ℕ) (s : NotifyState) → AddsUpTo n m s s
adds_nothing n m s = record {
  sent = [];
  logged = [];
  mails = sym (append-nil s.mails);
  rows = sym (append-nil s.notification_log);
  few_mails = omega arith;
  few_rows = omega arith;
}

adds_more :
    (n m k l : ℕ) (s t u : NotifyState)
    → AddsUpTo n m s t
    → AddsUpTo k l t u
    → AddsUpTo (n + k) (m + l) s u
adds_more n m k l s t u a b = record {
  sent = a.sent ++ b.sent;
  logged = a.logged ++ b.logged;
  mails = b.mails ∙ ap (λ l. l ++ b.sent) a.mails ∙ append_assoc s.mails a.sent b.sent;
  rows =
      b.rows ∙ ap (λ l. l ++ b.logged) a.rows ∙ append_assoc s.notification_log a.logged b.logged;
  few_mails = omega (arith, length-append a.sent b.sent, a.few_mails, b.few_mails);
  few_rows = omega (arith, length-append a.logged b.logged, a.few_rows, b.few_rows);
}

module _ (d : Services) where
  -- A mail, if one is sent.
  send-cases :
      (to subject body : String) (w : World NotifyState)
      → ((send d to subject body w).1.state ≡ w.state)
        ⊎ ((send d to subject body w).1.state ≡ record w.state {
          mails =
              w.state.mails ++ record { to = to; msg = mail_text d.sender to subject body } ∷ [];
        })
  unfolding send call
  send-cases to subject body w = ground arith

  pub log_notification-cases :
      (n : Notification) (w : World NotifyState)
      → ((log_notification d n w).1.state ≡ w.state)
        ⊎ ((log_notification d n w).1.state
            ≡ record w.state { notification_log = w.state.notification_log ++ n ∷ [] })
  unfolding log_notification insert_notification call
  log_notification-cases n w = ground arith

  pub send-ok :
      (to subject body : String) (w : World NotifyState) → (send d to subject body w).0 ≡ ok tt
  unfolding send
  send-ok to subject body w = elim (Bool-cases (is_configured d.sender)) [
    | inl set ↦ rw set refl
    | inr unset ↦ rw unset refl
  ]

  send-AddsUpTo :
      (to subject body : String) (w : World NotifyState)
      → AddsUpTo 1 0 w.state (send d to subject body w).1.state
  send-AddsUpTo to subject body w = elim (send-cases to subject body w) [
    | inl same ↦ rw same (adds_nothing 1 0 w.state)
    | inr more ↦ rw more (record {
      sent = record { to = to; msg = mail_text d.sender to subject body } ∷ [];
      logged = [];
      mails = refl;
      rows = sym (append-nil w.state.notification_log);
      few_mails = omega arith;
      few_rows = omega arith;
    })
  ]

  log-AddsUpTo :
      (event_type recipient subject body : String) (w : World NotifyState)
      → AddsUpTo 0 1 w.state (log d event_type recipient subject body w).1.state
  unfolding log
  log-AddsUpTo event_type recipient subject body w =
      let row : Notification = record {
        id = d.env.uuid w.calls;
        event_type = event_type;
        recipient = recipient;
        channel = "email";
        subject = subject;
        body = body;
        created_at = d.env.now (w.calls + 1);
      } in
      let w2 : World NotifyState = record w { calls = w.calls + 1 + 1 } in
      elim (log_notification-cases row w2) [
        | inl same ↦ rw same (adds_nothing 0 1 w.state)
        | inr more ↦ rw more (record {
          sent = [];
          logged = row ∷ [];
          mails = sym (append-nil w.state.mails);
          rows = refl;
          few_mails = omega arith;
          few_rows = omega arith;
        })
      ]

  notify-AddsUpTo :
      (event_type fallback subject text row_text : String) (w : World NotifyState)
      → AddsUpTo 1 1 w.state (notify d event_type fallback subject text row_text w).1.state
  unfolding notify
  notify-AddsUpTo event_type fallback subject text row_text w =
      let to = resolve_recipient d.notify_email fallback in
      let w1 = (send d to subject text w).1 in
      rw (send-ok to subject text w) (
        adds_more 1 0 0 1 w.state w1.state (log d event_type to subject row_text w1).1.state
          (send-AddsUpTo to subject text w) (log-AddsUpTo event_type to subject row_text w1))

  -- A handler decodes its payload, and notifies.
  decoded-AddsUpTo :
      {A : Type 0} (r : Result String A) (f : A → Handler Unit) (w : World NotifyState)
      → ((a : A) → AddsUpTo 1 1 w.state (f a w).1.state)
      → AddsUpTo 1 1 w.state ((lift r >>= f) w).1.state
  decoded-AddsUpTo (ok a) f w notifies = notifies a
  decoded-AddsUpTo (err e) f w notifies = adds_nothing 1 1 w.state

  handle_message-AddsUpTo :
      (msg : Delivery) (w : World NotifyState)
      → AddsUpTo 1 1 w.state (handle_message d msg w).1.state
  unfolding handle_message handle_order_created handle_order_paid handle_order_cancelled
      handle_payment_completed handle_payment_failed
  handle_message-AddsUpTo msg w =
      if_AddsUpTo (msg.routing_key == "orders.created") _ _ w
        (decoded-AddsUpTo (d.created.unmarshal msg.body) _ w
          λ p. notify-AddsUpTo "orders.created" _ _ _ ("Order " ⧺ p.order_id ⧺ " placed") w)
        (if_AddsUpTo (msg.routing_key == "orders.paid") _ _ w
          (decoded-AddsUpTo (d.paid.unmarshal msg.body) _ w λ p.
            notify-AddsUpTo "orders.paid" _ _ _
              ("Payment " ⧺ p.payment_id ⧺ " for order " ⧺ p.order_id) w)
          (if_AddsUpTo (msg.routing_key == "orders.cancelled") _ _ w
            (decoded-AddsUpTo (d.cancelled.unmarshal msg.body) _ w λ p.
              notify-AddsUpTo "orders.cancelled" _ _ _
                ("Order " ⧺ p.order_id ⧺ " cancelled: " ⧺ p.reason) w)
            (if_AddsUpTo (msg.routing_key == "payments.completed") _ _ w
              (decoded-AddsUpTo (d.payment.unmarshal msg.body) _ w λ p.
                notify-AddsUpTo "payments.completed" _ _ _
                  ("Payment " ⧺ p.payment_id ⧺ " completed") w)
              (if_AddsUpTo (msg.routing_key == "payments.failed") _ _ w
                (decoded-AddsUpTo (d.payment.unmarshal msg.body) _ w λ p.
                  notify-AddsUpTo "payments.failed" _ _ _ ("Payment failed for order " ⧺ p.order_id)
                    w)
                (adds_nothing 1 1 w.state)))))
    where
      if_AddsUpTo :
          (b : Bool) (m n : Handler Unit) (w : World NotifyState)
          → AddsUpTo 1 1 w.state (m w).1.state
          → AddsUpTo 1 1 w.state (n w).1.state
          → AddsUpTo 1 1 w.state ((if b then m else n) w).1.state
      if_AddsUpTo true m n w h k = h
      if_AddsUpTo false m n w h k = k

  -- However calls end, a sequence of deliveries sends at most one mail and logs at most one row for
  -- each of them, behind those that were there.
  pub consume_all-AddsUpTo :
      (msgs : List Delivery) (w : World NotifyState)
      → AddsUpTo (length msgs) (length msgs) w.state (consume_all d msgs w).state
  unfolding consume_all consume
  consume_all-AddsUpTo [] w = adds_nothing 0 0 w.state
  consume_all-AddsUpTo (msg ∷ msgs) w =
      let e : suc (length msgs) ≡ 1 + length msgs = omega arith in
      rw e (
        adds_more 1 1 (length msgs) (length msgs) w.state (consume d msg w).state
          (consume_all d msgs (consume d msg w)).state (handle_message-AddsUpTo msg w)
          (consume_all-AddsUpTo msgs (consume d msg w)))
