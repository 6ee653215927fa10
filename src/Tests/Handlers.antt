-- ===== src/Tests/Handlers.antt =====
-- Requests to the handler, and a blade program that answers.
use winchaos.Data.Model.{find_uid, rows_of}
use winchaos.Data.Experiment.{source}
use winchaos.Cmdexec.Uid.{generate_uid}
use winchaos.Base.Decimal.{itoa_ℕ, atoi}
use winchaos.Cmdexec.Cpu.{cpu_resolver}
use winchaos.Base.{
  contains, ℕ, ◌-◌, ◌<◌, String, true, false, List, [], ◌∷◌, Option, some, ◌≡◌, ◌≢◌, refl, inl, inr,
  nat_eq, arith,
}
use winchaos.Base.TextLaws.{has_code}
use winchaos.Base.Dict.{get, lookup}
use winchaos.Base.Exec.{panicked, value}
use winchaos.Transport.Value.{str, obj, end, field}
use winchaos.Transport.Request.{Request}
use winchaos.Transport.Response.{Response}
use winchaos.Cmdexec.Destroy.{destroy_experiment}
use winchaos.Web.Dispatch.{handle}
use winchaos.Web.Dispatch.Kinds.{BeginsWith, routes, Routed, handle_routes}
use winchaos.Web.Dispatch.Routes.{handle_destroys, handle_panics}
use winchaos.Web.Blade.{Blade, timing_check_status}
use winchaos.Web.Blade.Polling.{IsTimer, Settled, timing_check_status_settles}
use winchaos.Web.Cache.{Handler, handle_cache_and_safe_point}
use winchaos.Web.Cache.Running.{running_after, handle_cache-running}
use winchaos.Web.Dispatch.Framed.{handle_changes_one}
use winchaos.Web.Dispatch.Lasting.{Answers, begin, next, Lasts, records_last}
use winchaos.Cmdexec.Frame.{Outcomes}
use winchaos.Tests.World.{World, busy, memory, host, world, find, host-IsApart, memory-IsSource}

abbrev asking : List (String × String) → Request
asking params = record { headers = []; params = params }

abbrev pub no_duration : String → Option String
no_duration s = some "time: invalid duration"

disk_is_named : ◌≢◌ {A = String} "disk" ""
disk_is_named e = cc

abbrev unknown_kind : Request
unknown_kind = asking (("cmd", "create") ∷ ("cmd2", "disk-fill") ∷ [])

disk_is_asked : get "cmd" unknown_kind.params ≢ ""
unfolding get lookup
disk_is_asked e = cc

disk_begins : BeginsWith "disk" (get "cmd2" unknown_kind.params)
unfolding get lookup
disk_begins = inr ("fill", refl)

handle_routes_example :
    Routed host memory no_duration 5 unknown_kind.params
      (lookup "disk" (routes host memory no_duration 5 unknown_kind.params))
      (handle host memory no_duration 5 unknown_kind world)
      world
unfolding get lookup contains has_code
handle_routes_example =
    handle_routes host memory no_duration 5 unknown_kind "disk" world disk_is_asked refl refl
      disk_is_named disk_begins

abbrev pub destroy_1 : Request
destroy_1 = asking (("cmd", "destroy 1") ∷ ("cmd2", "cpu-fullload") ∷ [])

handle_destroys_example :
    handle host memory no_duration 5 destroy_1 ≡ destroy_experiment host memory "1"
unfolding get lookup has_code
handle_destroys_example = handle_destroys host memory no_duration 5 destroy_1 "1" refl refl

abbrev bare_destroy : Request
bare_destroy = asking (("cmd", "destroy") ∷ [])

bare_destroy_is_some : get "cmd" bare_destroy.params ≢ ""
unfolding get lookup
bare_destroy_is_some e = let same : ◌≡◌ {A = String} "destroy" "" = e in cc

handle_panics_example : handle host memory no_duration 5 bare_destroy world ≡ (panicked, world)
unfolding contains get lookup has_code
handle_panics_example =
    handle_panics host memory no_duration 5 bare_destroy world bare_destroy_is_some
      (inl (refl, refl))

-- The ticks that are left of the minute. The program knows one agent, which runs.
abbrev running_response : Response
running_response = record {
  code = 200;
  success = true;
  error = "";
  result = obj (field "ProgramType" (str "jvm") (field "Status" (str "Running") end));
}

abbrev pub blade : Blade ℕ
blade = record {
  is_exist = λ w. true;
  exec_script = λ command w. (("{}", "", true), w);
  unmarshal = λ s. value running_response;
  show = λ v. "map[]";
  tick = λ w. w - 1;
  is_done = λ w. nat_eq w 0;
}

tick_counts : (w : ℕ) → nat_eq (w - 1) 0 ≡ false → w - 1 < w
tick_counts w h = ground arith

pub blade-IsTimer : IsTimer blade (λ w. w)
blade-IsTimer = record { tick_counts = tick_counts; exec_counts = λ command w. omega arith }

timing_check_status_settles_example :
    Settled blade "7" (timing_check_status blade 61 "7" "Unknown" "" 60)
timing_check_status_settles_example =
    timing_check_status_settles blade (λ w. w) blade-IsTimer "7" "Unknown" "" 60

abbrev started : Response
started = record { code = 200; success = true; error = ""; result = str "7" }

abbrev pub idle : Handler
idle = record { running = ("3", "create cpu load") ∷ []; jobs = [] }

handle_cache-running_example :
    lookup "3"
      (handle_cache_and_safe_point blade "prepare jvm --async" "prepare" "jvm" started
        (idle, 60)).1.0.running
    ≡ running_after "prepare jvm --async" "prepare" "jvm" "7" idle.running "3"
handle_cache-running_example =
    handle_cache-running blade "prepare jvm --async" "prepare" "jvm" "7" started idle 60 (inr refl)
      "3"

handle_changes_one_example : Outcomes find world (handle host memory no_duration 5 destroy_1 world)
handle_changes_one_example =
    handle_changes_one host memory no_duration find host-IsApart memory-IsSource 5 destroy_1 world

abbrev cpu_load : Request
cpu_load = asking (("cmd", "create") ∷ ("cmd2", "cpu-fullload") ∷ ("cpu-percent", "50") ∷ [])

abbrev after_both : World
after_both =
    (handle host memory no_duration 5 destroy_1
      (handle host memory no_duration 5 cpu_load world).1).1

both_answered : Answers host memory no_duration find host-IsApart memory-IsSource world after_both
unfolding handle lookup cpu_resolver atoi generate_uid source rows_of itoa_ℕ destroy_experiment
both_answered = next (next begin 5 cpu_load refl) 5 destroy_1 refl

records_last_example : Lasts (find after_both "1") busy
unfolding find_uid
records_last_example =
    records_last host memory no_duration find host-IsApart memory-IsSource both_answered "1" busy
      refl
