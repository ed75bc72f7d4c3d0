-- ===== src/Checks/Edge.antt =====
-- app/services/edge_checks.py: the certificate and origin checks. The probes are a parameter; of the details only what
-- is read back is kept.
use custom_domain.Common.{
  ℕ, ◌+◌, ◌-◌, ◌/◌, Bool, true, false, not, ◌&&◌, ◌||◌, ◌==◌, ltb, leb, min, Option, none, some, [],
  text_eq, Text, Time, days, codes, if◌then◌else◌,
}
use custom_domain.Errors.{Result, ok, ◌>>=◌}
use custom_domain.Model.{
  DomainStatus, CheckType, Reason, Application, Domain, Log, status_eq, is_deleted, active_claim,
  check, serving_origin,
}
use custom_domain.Lifecycle.Status.{
  application_active, claim_verified, checks_passing, transition_status, record_check,
}
use custom_domain.Checks.Outcomes.{Outcome, failure, success}
use custom_domain.Checks.Schedule.{schedule_next}

abbrev pub not_issuable : DomainStatus → Bool
not_issuable DomainStatus.pending_dns = true
not_issuable DomainStatus.suspended = true
not_issuable DomainStatus.deleting = true
not_issuable _ = false

-- `certificate_authorized`, on a row that was found, and the application it refers to.
unfoldable pub certificate_authorized : Option Application → Domain → Bool
certificate_authorized application d =
    if is_deleted d || not_issuable d.status
    then false
    else if not (application_active application)
    then false
    else claim_verified (active_claim d)

-- A probe, or EdgeProbeFailed with its code.
pub data Probed {ℓ} (A : Type ℓ) : Type ℓ where
  answered : A → Probed A
  probe_failed : Text → Probed A

-- The fields of the probes that the outcomes read.
pub record EdgeProbe : Type 0 where
  pub status : ℕ
  pub edge_header : Option Text
  pub not_after : Time
  pub not_before : Option Time

pub record WorkspaceProbe : Type 0 where
  pub status : ℕ
  pub reference : Option Text
  pub application_id : Option Text

pub record EdgeProber : Type 0 where
  pub probe : Text → Probed EdgeProbe
  pub probe_workspace : Text → Probed WorkspaceProbe

abbrev pub edge_health_value : Text
edge_health_value = codes "1"

abbrev pub certificate_expiry_warning : Time
certificate_expiry_warning = days 7

-- The warning, at most a third of the lifetime, which `timedelta / 3` rounds to the nearest microsecond.
unfoldable pub warning_for : EdgeProbe → Time
warning_for probe = elim probe.not_before [
  | none ↦ certificate_expiry_warning
  | some from ↦ min certificate_expiry_warning ((probe.not_after - from + 1) / 3)
]

abbrev pub reached : EdgeProbe → Bool
reached probe =
    probe.status == 204
    && elim probe.edge_header [ none ↦ false | some v ↦ text_eq v edge_health_value ]

unfoldable pub certificate_outcome : EdgeProber → Domain → Bool → Time → Outcome
certificate_outcome prober d disable_https now = elim disable_https [
  | true ↦ success []
  | false ↦ elim (prober.probe d.hostname) [
    | probe_failed code ↦ failure code []
    | answered probe ↦
        if not (reached probe)
        then failure (codes "edge_not_reached") []
        else if leb probe.not_after now
        then failure (codes "certificate_expired") []
        else if ltb (probe.not_after - now) (warning_for probe)
        then failure (codes "certificate_expiring") []
        else success []
  ]
]

-- `value is not None and value != expected`
abbrev pub differs : Option Text → Text → Bool
differs none expected = false
differs (some value) expected = not (text_eq value expected)

-- The answer on the workspace path; `id_text` is `str` of an identifier.
unfoldable pub workspace_outcome : (ℕ → Text) → Domain → WorkspaceProbe → Outcome
workspace_outcome id_text d probe =
    if not (probe.status == 200)
    then failure (codes "workspace_probe_failed") []
    else elim probe.reference [
      | none ↦ failure (codes "workspace_probe_invalid") []
      | some reference ↦
          if not (text_eq reference d.reference)
            || differs probe.application_id (id_text d.application_id)
          then failure (codes "workspace_mismatch") []
          else success []
    ]

abbrev pub served_origin : Option Application → Bool
served_origin none = false
served_origin (some a) = elim (serving_origin a) [ none ↦ false | some o ↦ true ]

abbrev pub probes_workspace : Option Application → Bool
probes_workspace none = false
probes_workspace (some a) = a.workspace_probe_enabled

unfoldable pub origin_outcome :
    (ℕ → Text) → Option Application → Domain → Option EdgeProber → Outcome
origin_outcome id_text application d prober =
    if not (served_origin application)
    then failure (codes "origin_not_ready") []
    else if not (probes_workspace application)
    then success []
    else elim prober [
      | none ↦ success []
      | some p ↦ elim (p.probe_workspace d.hostname) [
        | probe_failed code ↦ failure code []
        | answered probe ↦ workspace_outcome id_text d probe
      ]
    ]

unfoldable pub record_edge_outcome :
    CheckType → Outcome → Time → Domain × Log → Result (Domain × Log)
record_edge_outcome t outcome now (d, log) =
    let (next_at, details) = schedule_next (check t d) outcome now in
    record_check t outcome.status outcome.error_code (some details) now (some next_at) d log

abbrev pub recovery : DomainStatus → Reason
recovery DomainStatus.provisioning = Reason.readiness_probe_passed
recovery _ = Reason.recovered

unfoldable pub become_ready : Time → Domain × Log → Result (Domain × Log)
become_ready now (d, log) =
    if (status_eq d.status DomainStatus.provisioning
        || status_eq d.status DomainStatus.attention_required)
      && claim_verified (active_claim d)
      && checks_passing d
    then transition_status DomainStatus.ready (some (recovery d.status)) now d log
    else ok (d, log)

unfoldable pub apply_edge_outcomes : Outcome → Outcome → Time → Domain → Log → Result (Domain × Log)
apply_edge_outcomes certificate origin now d log = do
  s₁ ← record_edge_outcome CheckType.certificate certificate now (d, log)
  s₂ ← record_edge_outcome CheckType.origin origin now s₁
  become_ready now s₂
