-- ===== src/Delivery/Throttled.antt =====
-- internal/worker/delivery/deliver_throttled_sms.go.
use notification_api_spec.Base.{ℕ, String, List, Proc, Done, call, ◌>>◌}
use notification_api_spec.Delivery.{Uuid}

-- The calls that the worker makes: a wait for a token of the limiter, and a delivery.
pub data ThrottledCall : Type 0 where
  wait : ThrottledCall
  deliver_one : Uuid → String → ℕ → ThrottledCall

pub record ThrottledWorker : Type 0 where
  pub wait_limiter : List ThrottledCall → Done
  pub deliverer : List ThrottledCall → Uuid → String → ℕ → Done
  pub concurrency : ℕ

pub deliver : ThrottledWorker → Uuid → String → ℕ → Proc ThrottledCall (Unit {0})
deliver w id p retries = do
  call wait (λ log. w.wait_limiter log)
  call (deliver_one id p retries) (λ log. w.deliverer log id p retries)
