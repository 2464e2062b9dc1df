-- ===== src/Policy/Tests/Histories.antt =====
-- A codec for three histories.
use eks_financial_orchestrat.Common.{
  ℕ, String, ◌≡◌, sym, ap, Bool-cases, nat_eq, nat_eq_iff, ◌≢◌, inl, inr, some, List, [], ◌∷◌,
  arith, ◌==◌, eq_iff, if◌then◌else◌,
}
use eks_financial_orchestrat.Common.Fixed.{Fixed, whole, fixed_float}
use eks_financial_orchestrat.Common.Result.{Result, ok, err}
use eks_financial_orchestrat.Types.{BudgetSpec, FinancialPolicySpec}
use eks_financial_orchestrat.Policy.Manager.{PolicyVersion, HistoryCodec}
use eks_financial_orchestrat.Policy.Manager.History.{IsCodec}
use eks_financial_orchestrat.Kube.Single.{ok_inj}

pub nat_discrete : Discrete ℕ
nat_discrete a b = elim (Bool-cases (nat_eq a b)) [
  | inl t ↦ yes ((nat_eq_iff a b).0 t)
  | inr f ↦ no (λ e. cc (f, (nat_eq_iff a b).1 e))
]

pub string_discrete : Discrete String
string_discrete a b = elim (Bool-cases (a == b)) [
  | inl t ↦ yes ((eq_iff a b).0 t)
  | inr f ↦ no (λ e. cc (f, (eq_iff a b).1 e))
]

-- A codec for three histories: none, and the two of the runs below.
abbrev pub History : Type 0
History = List (PolicyVersion Fixed)

pub history_discrete : Discrete History
history_discrete = hlevel (nat_discrete, string_discrete)

abbrev pub budget : ℕ → BudgetSpec Fixed
budget limit = record {
  monthly_limit = whole limit;
  alert_thresholds = whole 50 ∷ whole 80 ∷ [];
  breach_action = "throttle";
}

abbrev pub spec : ℕ → ℕ → FinancialPolicySpec Fixed
spec limit version = record {
  target_namespace = "shop";
  budget = budget limit;
  instance_mix = some (record {
    min_on_demand_percent = whole 20;
    max_spot_percent = whole 80;
    allowed_instance_types = [];
  });
  mode = "automatic";
  alerting = some (record {
    channels = record { channel_type = "slack"; config = [] } ∷ [];
    silence_windows = record { start = 10; end = 20; reason = "" } ∷ [];
  });
  version = version;
}

abbrev pub first : PolicyVersion Fixed
first = record { version = 1; spec = spec 100 1; timestamp = 7 }

abbrev pub second : PolicyVersion Fixed
second = record { version = 2; spec = spec 200 2; timestamp = 8 }

abbrev pub encode :
    (h : History)
    → Dec (h ≡ [])
    → Dec (h ≡ first ∷ [])
    → Dec (h ≡ first ∷ second ∷ [])
    → Result String String
encode h (yes a) b c = ok "none"
encode h (no a) (yes b) c = ok "one"
encode h (no a) (no b) (yes c) = ok "two"
encode h (no a) (no b) (no c) = err "not encoded"

abbrev pub decode : String → Result String History
decode t =
    if t == "none"
    then ok []
    else if t == "one"
    then ok (first ∷ [])
    else if t == "two"
    then ok (first ∷ second ∷ [])
    else err "not decoded"

abbrev pub codec : HistoryCodec Fixed
codec = record {
  marshal = λ h.
      encode h (history_discrete h []) (history_discrete h (first ∷ []))
        (history_discrete h (first ∷ second ∷ []));
  unmarshal = decode;
}

pub encode-decode :
    (h : History) (t : String) (a : Dec (h ≡ [])) (b : Dec (h ≡ first ∷ []))
    (c : Dec (h ≡ first ∷ second ∷ []))
    → encode h a b c ≡ ok t
    → (decode t ≡ ok h) × (t ≢ "")
encode-decode h t (yes a) b c e =
    rw (sym (ok_inj e)) (ap ok (sym a), λ q. ground (arith, eq_iff "none" ""))
encode-decode h t (no a) (yes b) c e =
    rw (sym (ok_inj e)) (ap ok (sym b), λ q. ground (arith, eq_iff "one" ""))
encode-decode h t (no a) (no b) (yes c) e =
    rw (sym (ok_inj e)) (ap ok (sym c), λ q. ground (arith, eq_iff "two" ""))
encode-decode h t (no a) (no b) (no c) e = cc

pub codec-IsCodec : IsCodec codec
codec-IsCodec = record {
  round_trip = λ h t e.
      encode-decode h t (history_discrete h []) (history_discrete h (first ∷ []))
        (history_discrete h (first ∷ second ∷ [])) e;
}
