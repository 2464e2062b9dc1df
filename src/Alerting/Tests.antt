-- ===== src/Alerting/Tests.antt =====
-- Runs of the alert manager.
use mathlib.Core.Option
use eks_financial_orchestrat.Common.{
  ℕ, ◌≡◌, refl, ◌↔◌, ◌⊎◌, inl, Bool, true, false, none, some, List, [], ◌∷◌, ◌++◌, arith, ltb,
  nat_eq, get_elem?, Any, eq_iff, if◌then◌else◌,
}
use eks_financial_orchestrat.Common.Fixed.{Fixed, whole, fixed_float}
use eks_financial_orchestrat.Types.{SilenceWindowSpec}
use eks_financial_orchestrat.Policy.Validate.{is_valid_channel_type}
use eks_financial_orchestrat.Alerting.{
  Alert, AlertManager, Notification, Delivery, notification_of, Behaviour, NotificationChannel,
  Sender, slack_sender, SendError, cancelled, exhausted, send_with_retry, is_in_silence_window,
  set_silence_windows, configure_channel, send_alert, report_error,
}
use eks_financial_orchestrat.Alerting.Retry.{
  FailedBelow, backoffs, send_with_retry_succeeds, send_with_retry_cancelled,
  send_with_retry_exhausts,
}
use eks_financial_orchestrat.Alerting.Dispatch.{
  Covers, Reports, FailedAt, is_in_silence_window_iff, configure_channel-eq_valid,
  send_alert_withheld, send_alert_reaches_all,
}

-- Fails at the attempts below n; the context is cancelled in the wait before attempt n or later.
abbrev fails_below : ℕ → Bool → Behaviour
fails_below n cancels = record {
  outcome = λ i. if ltb i n then some "timeout" else none;
  done = λ i. if ltb i n then false else cancels;
}

fails_below-FailedBelow : (n : ℕ) (cancels : Bool) → FailedBelow (fails_below n cancels) 3 n
fails_below-FailedBelow n cancels = record {
  failed = λ i l. ("timeout", ground arith);
  waiting = λ i l p. ground arith;
}

send_with_retry_succeeds_example :
    send_with_retry (fails_below 2 false) 3 ≡ record { error = none; sends = 3; waits = backoffs 2 }
send_with_retry_succeeds_example =
    send_with_retry_succeeds (fails_below 2 false) 3 2 (omega arith)
      (fails_below-FailedBelow 2 false) (λ p. refl) refl

send_with_retry_cancelled_example :
    send_with_retry (fails_below 2 true) 3
    ≡ record { error = some cancelled; sends = 2; waits = backoffs 2 }
send_with_retry_cancelled_example =
    send_with_retry_cancelled (fails_below 2 true) 3 2 (omega arith) (omega arith)
      (fails_below-FailedBelow 2 true) refl

send_with_retry_exhausts_example :
    send_with_retry (fails_below 4 false) 3
    ≡ record { error = some (exhausted 3 (some "timeout")); sends = 4; waits = backoffs 3 }
send_with_retry_exhausts_example =
    send_with_retry_exhausts (fails_below 4 false) 3 (fails_below-FailedBelow 4 false)

abbrev window : SilenceWindowSpec
window = record { start = 10; end = 20; reason = "upgrade" }

abbrev manager : AlertManager
manager = record {
  channels = slack_sender [] ∷ slack_sender [] ∷ [];
  silence_windows = window ∷ [];
}

abbrev alert : Alert Fixed
alert = record {
  id = "a1";
  timestamp = 12;
  severity = "warning";
  category = "budget";
  namespace = "shop";
  current_cost = whole 90;
  budget_limit = whole 100;
  usage_percent = whole 90;
  message = "";
  recommended_action = "scale down";
}

is_in_silence_window_iff_example :
    (is_in_silence_window (set_silence_windows manager (window ∷ [])) 12 "shop" ≡ true)
    ↔ Any (Covers 12) (window ∷ [])
is_in_silence_window_iff_example = is_in_silence_window_iff manager (window ∷ []) 12 "shop"

abbrev channel : NotificationChannel
channel = record { channel_type = "slack"; config = [] }

configure_channel-eq_valid_example :
    ((is_valid_channel_type "slack" ≡ true)
      × ((sender : Sender) × (configure_channel manager channel
            ≡ (none, record manager { channels = manager.channels ++ (sender ∷ []) }))))
    ⊎ ((is_valid_channel_type "slack" ≡ false)
        × (configure_channel manager channel ≡ (some "slack", manager)))
configure_channel-eq_valid_example = configure_channel-eq_valid manager channel

-- The first channel fails once, and the second one always.
abbrev respond : ℕ → Sender → Notification Fixed → Behaviour
respond i sender n = fails_below (if nat_eq i 0 then 1 else 9) false

send_alert_withheld_example :
    ((send_alert respond manager 12 alert).deliveries ≡ [])
    × (((send_alert respond manager 12 alert).error ≡ none) ↔ Any (Covers 12) (window ∷ []))
send_alert_withheld_example =
    send_alert_withheld respond manager 12 alert (inl (inl (omega arith, omega arith)))

send_alert_reaches_all_example :
    (fs : List (ℕ × SendError)) × (ds : List Delivery) × (send_alert respond manager 25 alert
      ≡ record { error = report_error fs; deliveries = ds })
    × ((i : ℕ)
        → get_elem? ds i
          ≡ Option.map
              (λ c. send_with_retry (respond i c (notification_of alert)) 3)
              (get_elem? manager.channels i))
    × ((i : ℕ) (e : SendError) → Reports i e fs ↔ FailedAt i e ds)
send_alert_reaches_all_example =
    send_alert_reaches_all respond manager 25 alert (λ c. ground arith)
      (λ e. ground (arith, eq_iff "shop" "")) (λ e. ground (arith, eq_iff "scale down" ""))
