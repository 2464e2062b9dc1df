-- ===== src/Alerting/Dispatch.antt =====
-- Which channels `SendAlert` reaches, and what it reports.
use native.Mathlib.Nat.{zero-add}
use mathlib.Core.Option
use eks_financial_orchestrat.Common.{
  ℕ, zero, suc, ◌+◌, ◌≤◌, ◌<◌, String, ◌≡◌, ◌≢◌, ◌↔◌, ◌⊎◌, inl, inr, true, false, not, ◌&&◌,
  get_elem?, none, some, List, [], ◌∷◌, ◌++◌, arith, ltb, any, Any, eq_iff, refl, Option-cases,
}
use eks_financial_orchestrat.Types.{Time, SilenceWindowSpec}
use eks_financial_orchestrat.Policy.Validate.{is_valid_channel_type}
use eks_financial_orchestrat.Alerting.{
  Alert, AlertManager, Notification, deliver_all, notification_of, Behaviour, Delivery, SendError,
  NotificationChannel, Sender, is_in_silence_window, failures, report_error, send_with_retry,
  send_alert, configure_channel, new_sender, set_silence_windows,
}

abbrev pub Covers : Time → SilenceWindowSpec → Type 0
Covers now w = (w.start ≤ now) × (now < w.end)

any_window_iff :
    (now : Time) (ws : List SilenceWindowSpec)
    → (any (λ w. not (ltb now w.start) && ltb now w.end) ws ≡ true) ↔ Any (Covers now) ws
any_window_iff now [] = ground arith
any_window_iff now (w ∷ ws) = ground (arith, any_window_iff now ws)

-- After `SetSilenceWindows`, a time is silenced exactly when it lies in one of the windows, the
-- start included and the end not. This is so for every namespace.
pub is_in_silence_window_iff :
    (m : AlertManager) (windows : List SilenceWindowSpec) (now : Time) (namespace : String)
    → (is_in_silence_window (set_silence_windows m windows) now namespace ≡ true)
      ↔ Any (Covers now) windows
unfolding is_in_silence_window set_silence_windows
is_in_silence_window_iff m windows now namespace = any_window_iff now windows

-- `ConfigureChannel` accepts exactly the channel types that policy validation accepts; it adds one
-- channel then, and otherwise leaves the manager as it was.
pub configure_channel-eq_valid :
    (m : AlertManager) (c : NotificationChannel)
    → ((is_valid_channel_type c.channel_type ≡ true)
        × ((sender : Sender) × (configure_channel m c
              ≡ (none, record m { channels = m.channels ++ (sender ∷ []) }))))
      ⊎ ((is_valid_channel_type c.channel_type ≡ false)
          × (configure_channel m c ≡ (some c.channel_type, m)))
unfolding configure_channel
configure_channel-eq_valid m c = elim (Option-cases (new_sender c)) [
  | inl refused ↦ inr (ground arith, ground arith)
  | inr (sender, made) ↦ inl (ground arith, (sender, ground arith))
]

-- The channel with index j is reported with the error e.
abbrev pub Reports : ℕ → SendError → List (ℕ × SendError) → Type 0
Reports j e = Any (λ f. (f.0 ≡ j) × (f.1 ≡ e))

-- The delivery on the channel with index i ended with the error e.
abbrev pub FailedAt : ℕ → SendError → List Delivery → Type 0
FailedAt i e [] = ⊥
FailedAt zero e (d ∷ ds) = d.error ≡ some e
FailedAt (suc i) e (d ∷ ds) = FailedAt i e ds

failures_ge : (o j : ℕ) (e : SendError) (ds : List Delivery) → Reports j e (failures o ds) → o ≤ j
failures_ge o j e [] r = absurd r
failures_ge o j e (d ∷ ds) r = ground (arith, failures_ge (suc o) j e ds)

failures_iff :
    (o i : ℕ) (e : SendError) (ds : List Delivery)
    → Reports (o + i) e (failures o ds) ↔ FailedAt i e ds
failures_iff o i e [] = ground arith
failures_iff o zero e (d ∷ ds) = ground (arith, failures_ge (suc o) (o + 0) e ds)
failures_iff o (suc i) e (d ∷ ds) =
    let shift : o + suc i ≡ suc o + i = omega arith in
    rw shift (ground (arith, failures_iff (suc o) i e ds, failures_iff (suc o) i e ds))

report_error_iff : (fs : List (ℕ × SendError)) → (report_error fs ≡ none) ↔ (fs ≡ [])
report_error_iff [] = ground arith
report_error_iff (f ∷ fs) = ground arith

module _ {F : Type 0} (respond : ℕ → Sender → Notification F → Behaviour) where
  get_elem?-deliver_all :
      (n : Notification F) (o i : ℕ) (cs : List Sender)
      → get_elem? (deliver_all respond n o cs) i
        ≡ Option.map (λ c. send_with_retry (respond (o + i) c n) 3) (get_elem? cs i)
  get_elem?-deliver_all n o i [] = refl
  get_elem?-deliver_all n o zero (c ∷ cs) = let here : o + 0 ≡ o = omega arith in rw here refl
  get_elem?-deliver_all n o (suc i) (c ∷ cs) =
      let shift : o + suc i ≡ suc o + i = omega arith in
      rw shift (get_elem?-deliver_all n (suc o) i cs)

  module _ (m : AlertManager) (now : Time) (a : Alert F) where
    -- In a silence window nothing is sent and no error is returned, even for an alert that lacks
    -- required fields. An incomplete alert outside of one is not sent either; its error is not
    -- empty.
    pub send_alert_withheld :
        Any (Covers now) m.silence_windows ⊎ ((a.namespace ≡ "") ⊎ (a.recommended_action ≡ ""))
        → ((send_alert respond m now a).deliveries ≡ [])
          × (((send_alert respond m now a).error ≡ none) ↔ Any (Covers now) m.silence_windows)
    unfolding send_alert
    send_alert_withheld withheld = ground (
      arith,
      any_window_iff now m.silence_windows,
      eq_iff a.namespace "",
      eq_iff a.recommended_action "",
    )

    -- Outside of all silence windows the notification of an alert with a namespace and a recommended
    -- action goes to every channel, and to no other, with three retries, whatever happens on the
    -- other channels. The channels whose delivery ended with an error are reported, each with its
    -- index and its error, and no others; if there are none, there is no error.
    pub send_alert_reaches_all :
        ¬ Any (Covers now) m.silence_windows
        → a.namespace ≢ ""
        → a.recommended_action ≢ ""
        → (fs : List (ℕ × SendError)) × (ds : List Delivery) × (send_alert respond m now a
            ≡ record { error = report_error fs; deliveries = ds })
          × ((i : ℕ)
              → get_elem? ds i
                ≡ Option.map
                    (λ c. send_with_retry (respond i c (notification_of a)) 3)
                    (get_elem? m.channels i))
          × ((i : ℕ) (e : SendError) → Reports i e fs ↔ FailedAt i e ds)
    unfolding send_alert
    send_alert_reaches_all awake ns action =
        let ds = deliver_all respond (notification_of a) 0 m.channels in
        (
          failures 0 ds,
          ds,
          ground (
            arith,
            any_window_iff now m.silence_windows,
            eq_iff a.namespace "",
            eq_iff a.recommended_action "",
          ),
          λ i. rw zero-add at (get_elem?-deliver_all (notification_of a) 0 i m.channels),
          λ i e. rw zero-add at (failures_iff 0 i e ds),
        )
