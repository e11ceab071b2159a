-- ===== src/Workers/Queues.antt =====
-- The queues that the manager consumes, and those that the save worker sends to.

use text.Mathlib.TextLemmas.{nil-append, cons-append}
use notification_api_spec.Base.{
  ℕ, zero, suc, ◌+◌, ◌*◌, ◌≡◌, ◌≢◌, refl, ap, sym, ◌∙◌, inl, inr, String, Bool, true, false, ◌||◌,
  Option, some, List, [], ◌∷◌, map, ◌=s=◌, ◌<>◌, if◌then◌else◌, trim_space, to_lower, push, blank,
  length, length-append, any, Among, arith, has_suffix, trim_prefix, subst, eq_iff, eq_refl,
}
use notification_api_spec.SaveNotify.{Kind, queue_for_process_type}
use notification_api_spec.Workers.{
  Handler, WorkerConfig, QueueSpec, prefix_with, prefixed_queue_name, queues, spec_of, queue_specs,
  concurrency_of, consumers, start_all, start,
}

consumers-length : (n : ℕ) (spec : QueueSpec) → length (consumers n spec) ≡ n
consumers-length zero spec = refl
consumers-length (suc n) spec = ap suc (consumers-length n spec)

abbrev total : List QueueSpec → ℕ
total [] = 0
total (spec ∷ specs) = spec.concurrency + total specs

start_all-length : (specs : List QueueSpec) → length (start_all specs) ≡ total specs
start_all-length [] = refl
start_all-length (spec ∷ specs) = omega (
  arith,
  length-append (consumers spec.concurrency spec) (start_all specs),
  consumers-length spec.concurrency spec,
  start_all-length specs,
)

-- Twelve queues are consumed as often as configured, and two of them once.
pub start-length : (cfg : Option WorkerConfig) → length (start cfg) ≡ 12 * concurrency_of cfg + 2
unfolding start queue_specs spec_of
start-length cfg = start_all-length (queue_specs cfg (concurrency_of cfg)) ∙ omega arith

-- The queues of the save worker.
abbrev save_queues : List String
save_queues =
    "send-email-high" ∷ "send-sms-high" ∷ "send-email-low" ∷ "send-sms-low" ∷ "send-email-medium"
    ∷ "send-sms-medium" ∷ []

queue_for_process_type-Among :
    (kind : Kind) (process_type : String)
    → Among (queue_for_process_type kind process_type) save_queues
unfolding queue_for_process_type
queue_for_process_type-Among Kind.email process_type = ground arith
queue_for_process_type-Among Kind.sms process_type = ground arith

abbrev rest_of : String → String
rest_of String.[] = ""
rest_of (String.◌∷◌ c s) = s

or_true : (a : Bool) {b : Bool} → b ≡ true → (a || b) ≡ true
or_true true e = refl
or_true false e = e

has_suffix_refl : (s : String) → has_suffix s s ≡ true
unfolding has_suffix
has_suffix_refl String.[] = refl
has_suffix_refl (String.◌∷◌ c s) = ground (arith, eq_refl (push c s))

has_suffix-append : (p s : String) → has_suffix (p <> s) s ≡ true
unfolding has_suffix
has_suffix-append String.[] s = ap (λ t. has_suffix t s) (nil-append s) ∙ has_suffix_refl s
has_suffix-append (String.◌∷◌ c p) s =
    ap (λ t. has_suffix t s) (cons-append c p s)
    ∙ or_true (push c (p <> s) =s= s) (has_suffix-append p s)

proper_suffix : (p s : String) → p ≢ "" → has_suffix (rest_of (p <> s)) s ≡ true
proper_suffix String.[] s h = absurd (h refl)
proper_suffix (String.◌∷◌ c p) s h =
    ap (λ t. has_suffix (rest_of t) s) (cons-append c p s) ∙ has_suffix-append p s

-- No queue of the manager is a queue of the save worker after more letters.
no_proper_suffix : any (λ name. any (λ q. has_suffix (rest_of name) q.0) queues) save_queues ≡ false
unfolding has_suffix
no_proper_suffix = refl

any-false :
    {A : Type 0} (p : A → Bool) (xs : List A) (a : A) → any p xs ≡ false → Among a xs → p a ≡ false
any-false p [] a h m = absurd m
any-false p (x ∷ xs) a h (inl e) = ap p e ∙ (ground arith)
any-false p (x ∷ xs) a h (inr m) = any-false p xs a (ground arith) m

not_a_save_queue :
    (prefix name : String) (q : String × Handler × Bool)
    → prefix ≢ ""
    → Among name save_queues
    → Among q queues
    → prefix <> q.0 ≢ name
not_a_save_queue prefix name q some_prefix m k e =
    let p = λ (r : String × Handler × Bool). has_suffix (rest_of name) r.0 in
    let absent : p q ≡ false =
      any-false p queues q
        (any-false (λ n. any (λ r. has_suffix (rest_of n) r.0) queues) save_queues name
          no_proper_suffix m)
        k in
    let found = proper_suffix prefix q.0 some_prefix in
    let moved = ap (λ s. has_suffix (rest_of s) q.0) e in ground (arith, sym moved ∙ found)

Among-map : {A B : Type 0} (f : A → B) (xs : List A) (x : A) → Among x xs → Among (f x) (map f xs)
Among-map f [] x m = m
Among-map f (y ∷ xs) x (inl e) = inl (ap f e)
Among-map f (y ∷ xs) x (inr m) = inr (Among-map f xs x m)

Among-map_back :
    {A B : Type 0} (f : A → B) (xs : List A) (b : B)
    → Among b (map f xs)
    → (x : A) × Among x xs × (b ≡ f x)
Among-map_back f [] b m = absurd m
Among-map_back f (y ∷ xs) b (inl e) = (y, inl refl, e)
Among-map_back f (y ∷ xs) b (inr m) = let (x, k, e) = Among-map_back f xs b m in (x, inr k, e)

abbrev pub delivery_handler : Kind → Handler
delivery_handler Kind.email = Handler.deliver_email
delivery_handler Kind.sms = Handler.deliver_sms

-- A save queue stands among the queues, and its name has no dash to trim.
abbrev IsServed : Kind → String → Type 0
IsServed kind name =
    Among (name, delivery_handler kind, false) queues × (trim_prefix name "-" ≡ name)

either_way : {A : Type 0} (P : A → Type 0) (b : Bool) (x y : A) → P x → P y → P (if b then x else y)
either_way P true x y h k = h
either_way P false x y h k = k

queue_for_process_type-IsServed :
    (kind : Kind) (process_type : String) → IsServed kind (queue_for_process_type kind process_type)
unfolding queue_for_process_type trim_prefix
queue_for_process_type-IsServed Kind.email process_type =
    either_way (IsServed Kind.email) (to_lower (trim_space process_type) =s= "priority")
      "send-email-high" _ (ground arith, refl)
      (either_way (IsServed Kind.email) (to_lower (trim_space process_type) =s= "bulk")
        "send-email-low" "send-email-medium" (ground arith, refl) (ground arith, refl))
queue_for_process_type-IsServed Kind.sms process_type =
    either_way (IsServed Kind.sms) (to_lower (trim_space process_type) =s= "priority")
      "send-sms-high" _ (ground arith, refl)
      (either_way (IsServed Kind.sms) (to_lower (trim_space process_type) =s= "bulk") "send-sms-low"
        "send-sms-medium" (ground arith, refl) (ground arith, refl))

unprefixed :
    (cfg : WorkerConfig) (suffix : String)
    → blank cfg.notification_queue_prefix ≡ true
    → prefixed_queue_name (some cfg) suffix ≡ trim_prefix suffix "-"
unfolding prefixed_queue_name prefix_with
unprefixed cfg suffix h = rw h refl

prefixed :
    (cfg : WorkerConfig) (suffix : String)
    → blank cfg.notification_queue_prefix ≡ false
    → prefixed_queue_name (some cfg) suffix ≡ trim_space cfg.notification_queue_prefix <> suffix
unfolding prefixed_queue_name prefix_with
prefixed cfg suffix h = rw h refl

url_of :
    (cfg : WorkerConfig) (concurrency : ℕ) (q : String × Handler × Bool)
    → (spec_of (some cfg) concurrency q).queue_url ≡ prefixed_queue_name (some cfg) q.0
unfolding spec_of
url_of cfg concurrency (suffix, handler, single) = refl

spec_of_lem :
    (cfg : WorkerConfig) (concurrency : ℕ) (name : String) (kind : Kind)
    → prefixed_queue_name (some cfg) name ≡ name
    → spec_of (some cfg) concurrency (name, delivery_handler kind, false)
      ≡ record { queue_url = name; handler = delivery_handler kind; concurrency = concurrency }
unfolding spec_of
spec_of_lem cfg concurrency name kind e =
    ap
      (λ url. record {
        queue_url = url;
        handler = delivery_handler kind;
        concurrency = concurrency;
      })
      e

-- The queue that the save worker sends to, by the process type, is consumed by the handler of its
-- kind if the queues have no prefix, and by nobody if they have one.
pub save_queue_consumers :
    (cfg : WorkerConfig) (concurrency : ℕ) (kind : Kind) (process_type : String)
    → let name = queue_for_process_type kind process_type in
      (blank cfg.notification_queue_prefix ≡ true
        → Among
            (record {
              queue_url = name;
              handler = delivery_handler kind;
              concurrency = concurrency;
            })
            (queue_specs (some cfg) concurrency))
      × (blank cfg.notification_queue_prefix ≡ false
          → (spec : QueueSpec) → Among spec (queue_specs (some cfg) concurrency)
          → spec.queue_url ≢ name)
unfolding queue_specs
save_queue_consumers cfg concurrency kind process_type =
    let name = queue_for_process_type kind process_type in
    let (m, plain) = queue_for_process_type-IsServed kind process_type in
    (
      λ no_prefix.
          subst (λ spec. Among spec (map (spec_of (some cfg) concurrency) queues))
            (spec_of_lem cfg concurrency name kind (unprefixed cfg name no_prefix ∙ plain))
            (Among-map (spec_of (some cfg) concurrency) queues (name, delivery_handler kind, false)
              m),
      λ some_prefix spec k e.
          let (q, l, same) = Among-map_back (spec_of (some cfg) concurrency) queues spec k in
          not_a_save_queue (trim_space cfg.notification_queue_prefix) name q
            (ground (arith, eq_iff (trim_space cfg.notification_queue_prefix) ""))
            (queue_for_process_type-Among kind process_type) l
            (sym (prefixed cfg q.0 some_prefix)
              ∙ sym (url_of cfg concurrency q)
              ∙ sym (ap (λ s. s.queue_url) same)
              ∙ e),
    )
