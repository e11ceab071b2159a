-- ===== src/Services/Lifecycle/Tests.antt =====
-- A service that is suspended and resumed, and one that is archived.
use notification_api_spec.Base.{◌≡◌, ◌≢◌, refl, true, false, none, some, [], ◌∷◌, ok, Among, inl}
use notification_api_spec.Auth.Jwt.{unix}
use notification_api_spec.Auth.Cache.{ApiKey}
use notification_api_spec.Services.{Failures, next_version}
use notification_api_spec.Services.ApiKeys.{created_row, revoked_row, keys_of_service}
use notification_api_spec.Services.Lifecycle.{
  ServiceRow, Template, Tables, service_by_id, suspended_row, resumed_row, archived_row,
  archived_template, templates_of_service, suspend_service, resume_service, archive_service,
  first_template,
}
use notification_api_spec.Services.Lifecycle.Resumed.{suspend-resume}
use notification_api_spec.Services.Lifecycle.Archived.{archive_closes}
use notification_api_spec.Services.Lifecycle.Histories.{noted_template_blocks}

abbrev no_failures : Failures
no_failures q = none

abbrev running : ServiceRow
running = record {
  id = "s1";
  name = "Passports";
  email_from = "passports";
  active = true;
  version = 4;
  updated_at = none;
  suspended_at = none;
  suspended_by_id = none;
}

abbrev other : ServiceRow
other = record running { id = "s2"; name = "Parks" }

abbrev key : ApiKey
key = created_row "k1" "robot" "AQID" "s1" "u1" "normal"

abbrev template : Template
template = record { id = "t1"; service_id = "s1"; version = 2; archived = false }

abbrev tables : Tables
tables = record {
  services = other ∷ running ∷ [];
  services_history = running ∷ [];
  key_tables = record { keys = key ∷ []; history = key ∷ [] };
  templates = template ∷ [];
  templates_history = [];
}

abbrev suspended : ServiceRow
suspended = suspended_row (unix 10) (some "u1") running

abbrev resumed : ServiceRow
resumed = resumed_row (unix 20) suspended

abbrev while_suspended : Tables
while_suspended = record tables {
  services = other ∷ suspended ∷ [];
  services_history = suspended ∷ running ∷ [];
}

abbrev when_resumed : Tables
when_resumed = record tables {
  services = other ∷ resumed ∷ [];
  services_history = resumed ∷ suspended ∷ running ∷ [];
}

is_there : service_by_id "s1" tables.services ≡ ok running
unfolding service_by_id
is_there = refl

did_suspend :
    suspend_service no_failures (unix 10) "s1" (some "u1") tables
    ≡ ok (some suspended, while_suspended)
unfolding suspend_service
did_suspend = refl

did_resume :
    resume_service no_failures (unix 20) "s1" while_suspended ≡ ok (some resumed, when_resumed)
unfolding resume_service
did_resume = refl

suspend-resume_example :
    (suspended.active ≡ false)
    × (resumed ≡ record running {
      version = next_version (next_version running.version);
      updated_at = some (unix 20);
      suspended_at = none;
      suspended_by_id = none;
    })
    × (service_by_id "s1" when_resumed.services ≡ ok resumed)
    × (when_resumed.services_history ≡ resumed ∷ suspended ∷ tables.services_history)
suspend-resume_example =
    suspend-resume no_failures (unix 10) (unix 20) "s1" (some "u1") running suspended resumed tables
      while_suspended when_resumed is_there refl did_suspend did_resume

abbrev archived : ServiceRow
archived = archived_row (unix 30) "30" running

abbrev dead : ApiKey
dead = revoked_row (unix 30) key

abbrev when_archived : Tables
when_archived = record {
  services = other ∷ archived ∷ [];
  services_history = archived ∷ running ∷ [];
  key_tables = record { keys = dead ∷ []; history = dead ∷ key ∷ [] };
  templates = archived_template template ∷ [];
  templates_history = archived_template template ∷ [];
}

did_archive :
    archive_service no_failures (unix 30) (unix 30) "30" "s1" tables
    ≡ ok (some archived, when_archived)
unfolding archive_service keys_of_service templates_of_service
did_archive = refl

archive_closes_example :
    (archived.active ≡ false)
    × (service_by_id "s1" when_archived.services ≡ ok archived)
    × ((k : ApiKey) → ¬ Among k (keys_of_service (unix 30) when_archived.key_tables.keys "s1"))
    × ((tmpl : Template) → ¬ Among tmpl (templates_of_service "s1" when_archived.templates))
archive_closes_example =
    archive_closes no_failures (unix 30) (unix 30) "30" "s1" archived tables when_archived
      did_archive

-- The template was noted when it was made.
abbrev with_history : Tables
with_history = record tables { templates_history = template ∷ [] }

its_version : first_template "t1" with_history.templates ≡ ok template
unfolding first_template
its_version = refl

noted_template_blocks_example :
    archive_service no_failures (unix 30) (unix 30) "30" "s1" with_history
    ≢ ok (some archived, when_archived)
noted_template_blocks_example =
    noted_template_blocks no_failures template (unix 30) (unix 30) "30" "s1" with_history
      (archived, when_archived) (inl refl) refl refl (template, its_version, refl, refl) refl
