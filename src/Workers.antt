-- ===== src/Workers.antt =====
-- internal/worker/manager.go: `WorkerManager`.
pub mod Queues
mod Tests
use notification_api_spec.Base.{
  ℕ, zero, suc, ◌+◌, ◌*◌, String, Bool, true, false, Option, none, some, List, [], ◌∷◌, ◌++◌, map,
  ◌=s=◌, ◌<>◌, leb, if◌then◌else◌, trim_space, trim_prefix,
}

-- The handlers of `WorkerHandlers`.
pub data Handler : Type 0 where
  save_sms save_email deliver_sms deliver_email deliver_throttled_sms research_mode : Handler

-- What the manager reads of the configuration. A concurrency below zero counts as zero.
pub record WorkerConfig : Type 0 where
  pub notification_queue_prefix : String
  pub sms_worker_concurrency : ℕ
  pub worker_shutdown_timeout : ℕ

pub record QueueSpec : Type 0 where
  pub queue_url : String
  pub handler : Handler
  pub concurrency : ℕ

pub prefix_with : String → String → String
prefix_with prefix suffix = if prefix =s= "" then trim_prefix suffix "-" else prefix <> suffix

pub prefixed_queue_name : Option WorkerConfig → String → String
unfolding prefix_with
prefixed_queue_name none suffix = trim_prefix suffix "-"
prefixed_queue_name (some cfg) suffix =
    prefix_with (trim_space cfg.notification_queue_prefix) suffix

-- The suffixes of the queues, their handlers, and whether the concurrency is 1.
abbrev pub queues : List (String × Handler × Bool)
queues =
    ("-priority-database-tasks.fifo", Handler.save_sms, false)
    ∷ ("-normal-database-tasks", Handler.save_sms, false)
    ∷ ("-bulk-database-tasks", Handler.save_sms, false)
    ∷ ("-priority-email-database-tasks.fifo", Handler.save_email, false)
    ∷ ("-normal-email-database-tasks", Handler.save_email, false)
    ∷ ("-bulk-email-database-tasks", Handler.save_email, false)
    ∷ ("send-sms-high", Handler.deliver_sms, false)
    ∷ ("send-sms-medium", Handler.deliver_sms, false)
    ∷ ("send-sms-low", Handler.deliver_sms, false)
    ∷ ("send-email-high", Handler.deliver_email, false)
    ∷ ("send-email-medium", Handler.deliver_email, false)
    ∷ ("send-email-low", Handler.deliver_email, false)
    ∷ ("send-throttled-sms-tasks", Handler.deliver_throttled_sms, true)
    ∷ ("research-mode-tasks", Handler.research_mode, true)
    ∷ []

pub spec_of : Option WorkerConfig → ℕ → String × Handler × Bool → QueueSpec
unfolding prefixed_queue_name
spec_of cfg concurrency (suffix, handler, single) = record {
  queue_url = prefixed_queue_name cfg suffix;
  handler = handler;
  concurrency = if single then 1 else concurrency;
}

pub queue_specs : Option WorkerConfig → ℕ → List QueueSpec
unfolding spec_of
queue_specs cfg concurrency = map (spec_of cfg concurrency) queues

abbrev pub concurrency_of : Option WorkerConfig → ℕ
concurrency_of none = 1
concurrency_of (some cfg) =
    if leb 1 cfg.sms_worker_concurrency then cfg.sms_worker_concurrency else 1

-- The consumers that one loop starts.
abbrev pub consumers : ℕ → QueueSpec → List (String × Handler)
consumers zero spec = []
consumers (suc n) spec = (spec.queue_url, spec.handler) ∷ consumers n spec

abbrev pub start_all : List QueueSpec → List (String × Handler)
start_all [] = []
start_all (spec ∷ specs) = consumers spec.concurrency spec ++ start_all specs

-- `Start`: the consumers, by queue and handler.
pub start : Option WorkerConfig → List (String × Handler)
unfolding queue_specs
start cfg = start_all (queue_specs cfg (concurrency_of cfg))

-- `shutdownTimeout` in seconds.
pub shutdown_timeout : Option WorkerConfig → ℕ
shutdown_timeout none = 5
shutdown_timeout (some cfg) =
    if leb 1 cfg.worker_shutdown_timeout then cfg.worker_shutdown_timeout else 5
