-- ===== src/SaveNotify/Receive.antt =====
-- The receive count that the save worker reads.
use notification_api_spec.Base.{
  ℕ, ◌≤◌, ◌<◌, ◌^◌, Option, none, some, arith, Bool-cases, inl, inr, ◌=s=◌, trim_space,
}
use notification_api_spec.Queue.{Attributes}
use notification_api_spec.SaveNotify.{count_of, wrapped_digits, receive_count}

count_of-bounds : (o : Option ℕ) → (1 ≤ count_of o) × (count_of o < 2 ^ 63)
count_of-bounds none = (omega arith, omega arith)
count_of-bounds (some n) = ground arith

-- The count is at least 1 and an `int`, whatever the attribute holds.
pub receive_count-bounds :
    (attributes : Attributes) → (1 ≤ receive_count attributes) × (receive_count attributes < 2 ^ 63)
unfolding receive_count
receive_count-bounds attributes =
    let value = trim_space (attributes "ApproximateReceiveCount") in
    elim (Bool-cases (value =s= "")) [
      | inl missing ↦ rw missing (omega arith, omega arith)
      | inr given ↦ rw given (count_of-bounds (wrapped_digits 0 value))
    ]
