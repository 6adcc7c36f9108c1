-- ===== src/Notification/Sender.antt =====
-- internal/notification/sender/email.go and internal/notification/repository/postgres.go
use go_grpc_http.Base.{String, [], ◌∷◌, ◌++◌, Bool, not, ◌&&◌, ◌||◌, none, some, if◌then◌else◌}
use go_grpc_http.Base.Text.{◌⧺◌, ◌==◌, fits}
use go_grpc_http.Base.Action.{Result, ok, err, pure, call, exec, handle, wrapping}
use go_grpc_http.Base.Sql.{find_row, unique_violation, value_too_long}
use go_grpc_http.Notification.Model.{Notification, EmailSender, Services, NotifyState, Handler}

unfoldable pub is_configured : EmailSender → Bool
is_configured s = not (s.host == "" || s.username == "" || s.password == "")

unfoldable pub mail_text : EmailSender → String → String → String → String
mail_text s to subject body =
    "From: " ⧺ s.from ⧺ "\r\nTo: " ⧺ to ⧺ "\r\nSubject: " ⧺ subject
    ⧺ "\r\nMIME-Version: 1.0\r\nContent-Type: text/plain; charset=\"utf-8\"\r\n\r\n" ⧺ body

abbrev fits_columns : Notification → Bool
fits_columns n =
    fits 36 n.id
    && fits 100 n.event_type
    && fits 255 n.recipient
    && fits 50 n.channel
    && fits 500 n.subject

unfoldable pub insert_notification : Notification → NotifyState → Result String Unit × NotifyState
unfolding find_row
insert_notification n s =
    if fits_columns n
    then elim (find_row (λ m. m.id == n.id) s.notification_log) [
      | none ↦ (ok tt, record s { notification_log = s.notification_log ++ n ∷ [] })
      | some other ↦ (err unique_violation, s)
    ]
    else (err value_too_long, s)

module _ (d : Services) where
  -- An error of the SMTP server is logged, and is no error of `Send`.
  unfoldable pub send : String → String → String → Handler Unit
  unfolding is_configured mail_text call
  send to subject body =
      if is_configured d.sender
      then handle
          (exec d.env λ s. (
            tt,
            record s {
              mails = s.mails ++ record { to = to; msg = mail_text d.sender to subject body } ∷ [];
            },
          ))
          (λ (r : Result String Unit). pure tt)
      else pure tt

  -- `Repository.Log`
  unfoldable pub log_notification : Notification → Handler Unit
  unfolding insert_notification call
  log_notification n = wrapping "insert notification: " (call d.env (insert_notification n))
