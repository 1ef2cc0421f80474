-- ===== src/Alerts/Dispatch/Delivery.antt =====
-- What the dispatch loop records and schedules.
use depsera.Prelude.{
  String, ◌≡◌, refl, Bool, true, false, Option, none, some, List, [], ◌∷◌, ◌++◌, map, if◌then◌else◌,
  sym, ap, Bool-cases, inl, inr,
}
use mathlib.Core.List.{append-nil, append_assoc}
use depsera.Types.{AlertChannel, AlertStatus, sent, failed}
use depsera.Alerts.Dispatch.{
  SendOutcome, success, failure, threw, Senders, AlertEvent, AlertService, PendingRetry,
  deliver_one, deliver,
}

-- A send was tried and failed.
abbrev retries : Option SendOutcome → Bool
retries none = false
retries (some success) = false
retries (some failure) = true
retries (some threw) = true

abbrev outcome_status : Option SendOutcome → AlertStatus
outcome_status (some success) = sent
outcome_status _ = failed

abbrev pub status_of : Senders → AlertChannel → String × AlertStatus
status_of send c = (c.id, outcome_status (send c))

abbrev pub retries_of : Senders → AlertEvent → List AlertChannel → List PendingRetry
retries_of send event [] = []
retries_of send event (c ∷ cs) =
    if retries (send c)
    then record { channel = c; event = event } ∷ retries_of send event cs
    else retries_of send event cs

abbrev with_retries : AlertService → List PendingRetry → AlertService
with_retries s more = record s { pending_retries = s.pending_retries ++ more }

abbrev first_retry : AlertEvent → AlertChannel → Bool → List PendingRetry
first_retry event c b = if b then record { channel = c; event = event } ∷ [] else []

deliver_one_lem :
    (event : AlertEvent) (c : AlertChannel) (o : Option SendOutcome) (s : AlertService)
    → deliver_one event c o s ≡ (with_retries s (first_retry event c (retries o)), outcome_status o)
unfolding deliver_one
deliver_one_lem event c none s =
    ap (λ r. (record s { pending_retries = r }, failed)) (sym (append-nil s.pending_retries))
deliver_one_lem event c (some success) s =
    ap (λ r. (record s { pending_retries = r }, sent)) (sym (append-nil s.pending_retries))
deliver_one_lem event c (some failure) s = refl
deliver_one_lem event c (some threw) s = refl

retries_of-cons :
    (send : Senders) (event : AlertEvent) (c : AlertChannel) (cs : List AlertChannel)
    → first_retry event c (retries (send c)) ++ retries_of send event cs
      ≡ retries_of send event (c ∷ cs)
retries_of-cons send event c cs = elim (Bool-cases (retries (send c))) [
  | inl again ↦ rw again refl
  | inr once ↦ rw once refl
]

-- A dispatch records exactly one entry for each channel, in order, as sent where its send succeeded
-- and as failed where it failed, threw or had no sender; it schedules one retry for each channel
-- whose send failed or threw, none for one without a sender; and it changes nothing else.
pub deliver_lem :
    (send : Senders) (event : AlertEvent) (channels : List AlertChannel) (s : AlertService)
    → deliver send event channels s ≡ (
      record s { pending_retries = s.pending_retries ++ retries_of send event channels },
      map (status_of send) channels,
    )
unfolding deliver
deliver_lem send event [] s =
    ap (λ r. (record s { pending_retries = r }, [])) (sym (append-nil s.pending_retries))
deliver_lem send event (c ∷ cs) s = rw (deliver_one_lem event c (send c) s) (
    rw (deliver_lem send event cs (with_retries s (first_retry event c (retries (send c)))))
      (rw (append_assoc, retries_of-cons send event c cs) refl))
