-- ===== src/Runtime/Run/Counting.antt =====
-- The counters of `RunReport` (workflow/types.go) against a list of statuses.
use fsm_go.Prelude.{ℕ, ◌+◌, ◌≡◌, refl, Bool, true, false, List, [], ◌∷◌, length, keep, arith}
use fsm_go.Types.{TaskStatus, RunReport}
use fsm_go.Runtime.Run.{counted}

abbrev pub is_succeeded : TaskStatus → Bool
is_succeeded TaskStatus.succeeded = true
is_succeeded _ = false

abbrev pub is_retrying : TaskStatus → Bool
is_retrying TaskStatus.retrying = true
is_retrying _ = false

abbrev pub is_failed : TaskStatus → Bool
is_failed TaskStatus.failed = true
is_failed _ = false

abbrev pub is_timed_out : TaskStatus → Bool
is_timed_out TaskStatus.timed_out = true
is_timed_out _ = false

abbrev pub many : (TaskStatus → Bool) → List TaskStatus → ℕ
many p statuses = length (keep p statuses)

-- The report counts each of the statuses under its own name, on top of an earlier report.
pub record Counts (before : RunReport) (statuses : List TaskStatus) (report : RunReport)
    : Type 0 where
  pub scanned : report.scanned ≡ before.scanned
  pub succeeded : report.succeeded ≡ before.succeeded + many is_succeeded statuses
  pub retried : report.retried ≡ before.retried + many is_retrying statuses
  pub failed : report.failed ≡ before.failed + many is_failed statuses
  pub timed_out : report.timed_out ≡ before.timed_out + many is_timed_out statuses

pub Counts-none : (report : RunReport) → Counts report [] report
Counts-none report = record {
  scanned = refl;
  succeeded = omega arith;
  retried = omega arith;
  failed = omega arith;
  timed_out = omega arith;
}

pub Counts-more :
    (before report : RunReport) (status : TaskStatus) (statuses : List TaskStatus)
    → Counts (counted status before) statuses report
    → Counts before (status ∷ statuses) report
Counts-more before report TaskStatus.succeeded statuses h = record {
  scanned = h.scanned;
  succeeded = omega (arith, h.succeeded);
  retried = h.retried;
  failed = h.failed;
  timed_out = h.timed_out;
}
Counts-more before report TaskStatus.retrying statuses h = record {
  scanned = h.scanned;
  succeeded = h.succeeded;
  retried = omega (arith, h.retried);
  failed = h.failed;
  timed_out = h.timed_out;
}
Counts-more before report TaskStatus.failed statuses h = record {
  scanned = h.scanned;
  succeeded = h.succeeded;
  retried = h.retried;
  failed = omega (arith, h.failed);
  timed_out = h.timed_out;
}
Counts-more before report TaskStatus.timed_out statuses h = record {
  scanned = h.scanned;
  succeeded = h.succeeded;
  retried = h.retried;
  failed = h.failed;
  timed_out = omega (arith, h.timed_out);
}
Counts-more before report TaskStatus.pending statuses h = record {
  scanned = h.scanned;
  succeeded = h.succeeded;
  retried = h.retried;
  failed = h.failed;
  timed_out = h.timed_out;
}
Counts-more before report TaskStatus.running statuses h = record {
  scanned = h.scanned;
  succeeded = h.succeeded;
  retried = h.retried;
  failed = h.failed;
  timed_out = h.timed_out;
}
