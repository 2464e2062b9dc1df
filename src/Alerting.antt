-- ===== src/Alerting.antt =====
-- pkg/alerting: retry.go, manager.go, types.go and senders.go. A call of a channel's `Send` is known
-- by its outcome, and a wait by whether the context was cancelled in it; what is sent, and how long
-- is waited, is recorded. Log lines are left out.

mod Tests
pub mod Retry
pub mod Dispatch
pub mod Senders
use eks_financial_orchestrat.Common.{
  ℕ, zero, suc, ◌+◌, ◌-◌, ◌^◌, String, Bool, true, false, not, ◌&&◌, ◌||◌, Option, none, some, List,
  [], ◌∷◌, ◌++◌, ltb, leb, any, ◌==◌, if◌then◌else◌, map,
}
use eks_financial_orchestrat.Common.Dict.{Dict}
use eks_financial_orchestrat.Common.Float.{Float, ◌⊖◌, ◌⊗◌, ◌⊘◌}
use eks_financial_orchestrat.Types.{Time, SilenceWindowSpec}

pub record Alert (F : Type 0) : Type 0 where
  pub id : String
  pub timestamp : Time
  pub severity : String
  pub category : String
  pub namespace : String
  pub current_cost : F
  pub budget_limit : F
  pub usage_percent : F
  pub message : String
  pub recommended_action : String

pub record AnomalyDetection (F : Type 0) : Type 0 where
  pub is_anomaly : Bool
  pub actual_cost : F
  pub forecast_cost : F
  pub deviation_pct : F

pub record Notification (F : Type 0) : Type 0 where
  pub alert_id : String
  pub channel : String
  pub severity : String
  pub category : String
  pub namespace : String
  pub current_cost : F
  pub budget_limit : F
  pub usage_percent : F
  pub message : String
  pub recommended_action : String
  pub timestamp : Time

pub record NotificationChannel : Type 0 where
  pub channel_type : String
  pub config : Dict String

-- The four senders of senders.go, each with its configuration.
pub data Sender : Type 0 where
  slack_sender email_sender pager_duty_sender sns_sender : Dict String → Sender

pub record AlertManager : Type 0 where
  pub channels : List Sender
  pub silence_windows : List SilenceWindowSpec

pub data SendError : Type 0 where
  cancelled : SendError
  exhausted : ℕ → Option String → SendError

-- What one call of `sendWithRetry` did: the calls of `Send`, and the waits in seconds.
pub record Delivery : Type 0 where
  pub error : Option SendError
  pub sends : ℕ
  pub waits : List ℕ

-- How a channel behaves: the error of each call of `Send`, and whether the context is cancelled
-- during the wait before it.
pub record Behaviour : Type 0 where
  pub outcome : ℕ → Option String
  pub done : ℕ → Bool

-- `Send` of each sender of senders.go is a stub that only logs.
abbrev pub send : Sender → Option String
send _ = none

abbrev pub stub_behaviour {ℓ} : {A : Type ℓ} → ℕ → Sender → A → Behaviour
stub_behaviour i sender notification = record { outcome = λ _. send sender; done = λ _. false }

module _ (b : Behaviour) (max_retries : ℕ) where
  abbrev pub delivery : Option SendError → ℕ → List ℕ → Delivery
  delivery e n w = record { error = e; sends = n; waits = w }

  -- The loop with `rounds` passes left, from `attempt`; `last` is `lastErr`.
  unfoldable pub retry_from : ℕ → ℕ → Option String → List ℕ → Delivery
  retry_from zero attempt last waits = delivery (some (exhausted max_retries last)) attempt waits
  retry_from (suc rounds) attempt last waits =
      let waiting = ltb 0 attempt in
      let waits' = if waiting then waits ++ (2 ^ (attempt - 1) ∷ []) else waits in
      let next = retry_from rounds (attempt + 1) (b.outcome attempt) waits' in
      if waiting && b.done attempt
      then delivery (some cancelled) attempt waits'
      else elim (b.outcome attempt) [ none ↦ delivery none (attempt + 1) waits' | some e ↦ next ]

  -- `sendWithRetry`
  unfoldable pub send_with_retry : Delivery
  unfolding retry_from
  send_with_retry = retry_from (max_retries + 1) 0 none []

-- `IsInSilenceWindow` at the time `now`. The namespace is not looked at.
unfoldable pub is_in_silence_window : AlertManager → Time → String → Bool
is_in_silence_window m now namespace =
    any (λ w. not (ltb now w.start) && ltb now w.end) m.silence_windows

-- `ConfigureChannel`; an unsupported type is the error.
abbrev pub new_sender : NotificationChannel → Option Sender
new_sender c =
    if c.channel_type == "slack"
    then some (slack_sender c.config)
    else if c.channel_type == "email"
    then some (email_sender c.config)
    else if c.channel_type == "pagerduty"
    then some (pager_duty_sender c.config)
    else if c.channel_type == "sns"
    then some (sns_sender c.config)
    else none

unfoldable pub configure_channel : AlertManager → NotificationChannel → Option String × AlertManager
configure_channel m c = elim (new_sender c) [
  | some sender ↦ (none, record m { channels = m.channels ++ (sender ∷ []) })
  | none ↦ (some c.channel_type, m)
]

unfoldable pub set_silence_windows : AlertManager → List SilenceWindowSpec → AlertManager
set_silence_windows m windows = record m { silence_windows = windows }

pub data AlertError : Type 0 where
  missing_fields : List String → AlertError
  channels_failed : List (ℕ × SendError) → AlertError

-- What `SendAlert` did on each channel, in order.
pub record Report : Type 0 where
  pub error : Option AlertError
  pub deliveries : List Delivery

abbrev pub missing : {F : Type 0} → Alert F → List String
missing a =
    (if a.namespace == "" then "Namespace" ∷ [] else [])
    ++ (if a.recommended_action == "" then "RecommendedAction" ∷ [] else [])

-- `validateAlert`
unfoldable pub validate_alert : {F : Type 0} → Alert F → Option AlertError
validate_alert a = elim (missing a) [ [] ↦ none | f ∷ fs ↦ some (missing_fields (f ∷ fs)) ]

-- The errors of the channels from index `i` on.
abbrev pub failures : ℕ → List Delivery → List (ℕ × SendError)
failures i [] = []
failures i (d ∷ ds) =
    let rest = failures (suc i) ds in elim d.error [ none ↦ rest | some e ↦ (i, e) ∷ rest ]

abbrev pub report_error : List (ℕ × SendError) → Option AlertError
report_error [] = none
report_error (f ∷ fs) = some (channels_failed (f ∷ fs))

abbrev pub max_send_retries : ℕ
max_send_retries = 3

-- The notification that `SendAlert` builds; it leaves the channel empty.
abbrev pub notification_of : {F : Type 0} → Alert F → Notification F
notification_of a = record {
  alert_id = a.id;
  channel = "";
  severity = a.severity;
  category = a.category;
  namespace = a.namespace;
  current_cost = a.current_cost;
  budget_limit = a.budget_limit;
  usage_percent = a.usage_percent;
  message = a.message;
  recommended_action = a.recommended_action;
  timestamp = a.timestamp;
}

-- How each channel, by its index and its sender, behaves when it is sent a notification.
module _ {F : Type 0} (respond : ℕ → Sender → Notification F → Behaviour) where
  -- The loop over the channels, from index `i` on.
  abbrev pub deliver_all : Notification F → ℕ → List Sender → List Delivery
  deliver_all n i [] = []
  deliver_all n i (c ∷ cs) =
      send_with_retry (respond i c n) max_send_retries ∷ deliver_all n (suc i) cs

  -- `SendAlert`
  unfoldable pub send_alert : AlertManager → Time → Alert F → Report
  unfolding is_in_silence_window validate_alert
  send_alert m now a =
      let deliveries = deliver_all (notification_of a) 0 m.channels in
      if is_in_silence_window m now a.namespace
      then record { error = none; deliveries = [] }
      else elim (validate_alert a) [
        | some e ↦ record { error = some e; deliveries = [] }
        | none ↦ record { error = report_error (failures 0 deliveries); deliveries = deliveries }
      ]

module _ {F : Type 0} ⦃fl : Float F⦄ where
  abbrev deviation : F → F → F
  deviation actual forecast =
      let pct = ((actual ⊖ forecast) ⊘ forecast) ⊗ fl.of_nat 100 in
      let infinite = if fl.lt (fl.of_nat 0) actual then fl.of_nat 100 else fl.of_nat 0 in
      if not (fl.eq forecast (fl.of_nat 0)) then pct else infinite

  -- `CheckAnomalies`
  unfoldable pub check_anomalies : F → F → AnomalyDetection F
  check_anomalies actual forecast = record {
    is_anomaly = fl.lt (forecast ⊗ fl.ratio 12 10) actual;
    actual_cost = actual;
    forecast_cost = forecast;
    deviation_pct = deviation actual forecast;
  }
