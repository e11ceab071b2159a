-- ===== src/Workers/Tests.antt =====
-- The queues of a deployment with a prefix, and of one without.
use notification_api_spec.Base.{◌≡◌, ◌≢◌, ◌+◌, ◌*◌, true, false, some, Among, blank, length}
use notification_api_spec.SaveNotify.{Kind, queue_for_process_type}
use notification_api_spec.Workers.{WorkerConfig, QueueSpec, queue_specs, concurrency_of, start}
use notification_api_spec.Workers.Queues.{delivery_handler, save_queue_consumers, start-length}

abbrev config : WorkerConfig
config = record {
  notification_queue_prefix = "prod";
  sms_worker_concurrency = 4;
  worker_shutdown_timeout = 0;
}

save_queue_consumers_example :
    (blank "prod" ≡ true
      → Among
          (record {
            queue_url = queue_for_process_type Kind.sms "bulk";
            handler = delivery_handler Kind.sms;
            concurrency = 4;
          })
          (queue_specs (some config) 4))
    × (blank "prod" ≡ false
        → (spec : QueueSpec) → Among spec (queue_specs (some config) 4)
        → spec.queue_url ≢ queue_for_process_type Kind.sms "bulk")
save_queue_consumers_example = save_queue_consumers config 4 Kind.sms "bulk"

start-length_example : length (start (some config)) ≡ 12 * concurrency_of (some config) + 2
start-length_example = start-length (some config)
