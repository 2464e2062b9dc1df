-- ===== src/Alerting/Senders.antt =====
-- pkg/alerting/senders.go: each sender is a stub that logs what it would send and reports no error. The
-- log is a list of its lines, the newest last.
use eks_financial_orchestrat.Common.{◌≡◌, refl, String, Option, none, List, [], ◌∷◌, ◌++◌}
use eks_financial_orchestrat.Common.Dict.{Dict}
use eks_financial_orchestrat.Alerting.{
  Notification, Sender, slack_sender, email_sender, pager_duty_sender, sns_sender, send,
}

pub record LogLine : Type 0 where
  pub text : String
  pub alert_id : String
  pub namespace : String
  pub severity : String
  pub message : String

abbrev pub new_slack_sender : Dict String → Sender
new_slack_sender config = slack_sender config

abbrev pub new_email_sender : Dict String → Sender
new_email_sender config = email_sender config

abbrev pub new_pager_duty_sender : Dict String → Sender
new_pager_duty_sender config = pager_duty_sender config

abbrev pub new_sns_sender : Dict String → Sender
new_sns_sender config = sns_sender config

-- The error, if there is one, and the log.
abbrev pub Sent : Type 0
Sent = Option String × List LogLine

module _ {F : Type 0} (n : Notification F) where
  abbrev pub log_stub : String → List LogLine → List LogLine
  log_stub text log =
      log
      ++ (record {
        text = text;
        alert_id = n.alert_id;
        namespace = n.namespace;
        severity = n.severity;
        message = n.message;
      }
          ∷ [])

  abbrev pub send_slack : List LogLine → Sent
  send_slack log = (none, log_stub "Slack notification sent (stub)" log)

  abbrev pub send_email : List LogLine → Sent
  send_email log = (none, log_stub "Email notification sent (stub)" log)

  abbrev pub send_pager_duty : List LogLine → Sent
  send_pager_duty log = (none, log_stub "PagerDuty notification sent (stub)" log)

  abbrev pub send_sns : List LogLine → Sent
  send_sns log = (none, log_stub "SNS notification sent (stub)" log)

  -- The call of `Send` through the interface NotificationSender.
  abbrev pub send_logged : Sender → List LogLine → Sent
  send_logged (slack_sender config) = send_slack
  send_logged (email_sender config) = send_email
  send_logged (pager_duty_sender config) = send_pager_duty
  send_logged (sns_sender config) = send_sns

  -- The error is that of `send`, which leaves the log out.
  pub send_logged-send :
      (sender : Sender) (log : List LogLine) → (send_logged sender log).0 ≡ send sender
  send_logged-send (slack_sender config) log = refl
  send_logged-send (email_sender config) log = refl
  send_logged-send (pager_duty_sender config) log = refl
  send_logged-send (sns_sender config) log = refl

-- `HealthCheck` of the four.
abbrev pub health_check_slack : Option String
health_check_slack = none

abbrev pub health_check_email : Option String
health_check_email = none

abbrev pub health_check_pager_duty : Option String
health_check_pager_duty = none

abbrev pub health_check_sns : Option String
health_check_sns = none
