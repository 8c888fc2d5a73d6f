-- ===== src/Api/Control.antt =====
-- `ctrl.Result` of controller-runtime, as both controllers return it.
use bpfman_operator.Shared.{ℕ}

pub data CtrlResult : Type 0 where
  done : CtrlResult
  requeue_after : (seconds : ℕ) → CtrlResult
