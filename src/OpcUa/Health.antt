-- ===== src/OpcUa/Health.antt =====
-- The collection jobs of src/python/gizmo_opcua.py and the health that is published from what they
-- leave. Times are microseconds of the monotonic clock.
pub mod Laws
pub mod Schedule
use Prim.Native.Nat.{max}
use gizmo.Prelude.{
  ℕ, ◌+◌, Bool, true, false, not, ◌&&◌, ◌||◌, Option, none, some, List, [], ◌∷◌, ◌++◌, ltb, ◌==◌,
  any, all, if◌then◌else◌,
}

pub data Category : Type 0 where
  measurement thermal sdr time operating_system network storage firmware services calibration :
      Category

pub data Quality : Type 0 where
  good uncertain bad not_available : Quality

pub data Overall : Type 0 where
  starting failed degraded ok : Overall

-- What `Health.<category>` shows.
pub data Shown : Type 0 where
  starting : Shown
  of_quality : Quality → Shown

pub data Status : Type 0 where
  good uncertain_last_usable_value bad_no_communication bad_data_unavailable : Status

-- `_quality_status`
unfoldable pub quality_status : Quality → Status
quality_status Quality.good = Status.good
quality_status Quality.uncertain = Status.uncertain_last_usable_value
quality_status Quality.not_available = Status.bad_no_communication
quality_status Quality.bad = Status.bad_data_unavailable

abbrev pub index : Category → ℕ
index Category.measurement = 0
index Category.thermal = 1
index Category.sdr = 2
index Category.time = 3
index Category.operating_system = 4
index Category.network = 5
index Category.storage = 6
index Category.firmware = 7
index Category.services = 8
index Category.calibration = 9

abbrev pub category_eq : Category → Category → Bool
category_eq c d = index c == index d

-- The keys of `_job_specs`, in their order.
abbrev pub categories : List Category
categories =
    Category.measurement ∷ Category.thermal ∷ Category.sdr ∷ Category.time
    ∷ Category.operating_system ∷ Category.network ∷ Category.storage ∷ Category.firmware
    ∷ Category.services ∷ Category.calibration ∷ []

-- `essential`
abbrev pub is_essential : Category → Bool
is_essential Category.measurement = true
is_essential Category.time = true
is_essential Category.firmware = true
is_essential Category.services = true
is_essential Category.calibration = true
is_essential c = false

-- The configured intervals.
pub record Intervals : Type 0 where
  pub measurement : ℕ
  pub platform : ℕ
  pub inventory : ℕ
  pub sdr : ℕ

-- The intervals of `_job_specs`.
unfoldable pub job_interval : Intervals → Category → ℕ
job_interval i Category.measurement = i.measurement
job_interval i Category.thermal = i.measurement
job_interval i Category.sdr = i.sdr
job_interval i Category.time = i.measurement
job_interval i Category.operating_system = i.platform
job_interval i Category.network = i.platform
job_interval i Category.storage = i.inventory
job_interval i Category.firmware = i.inventory
job_interval i Category.services = i.platform
job_interval i Category.calibration = i.inventory

-- The fields of the server that the jobs and the health work on.
pub record Monitor : Type 0 where
  -- the collections in flight, the oldest first
  pub jobs : List Category
  pub next_run : Category → ℕ
  pub attempted : Category → Bool
  pub has_data : Category → Bool
  pub category_quality : Category → Option Quality
  pub health : Category → Shown
  pub overall : Overall
  pub ready_sent : Bool
  pub last_notified_health : Option Overall
  -- the states notified to systemd, the latest first
  pub notified : List Overall

abbrev pub put {ℓ} : {A : Type ℓ} → Category → A → (Category → A) → Category → A
put c a f d = if category_eq c d then a else f d

-- `states[category]`
abbrev pub state_of : Monitor → Category → Quality
state_of m c = elim (m.category_quality c) [ none ↦ Quality.not_available | some q ↦ q ]

abbrev pub is_down : Quality → Bool
is_down Quality.bad = true
is_down Quality.not_available = true
is_down q = false

abbrev pub is_good : Quality → Bool
is_good Quality.good = true
is_good q = false

-- `overall`
unfoldable pub overall_health : Monitor → Overall
overall_health m =
    if not (all m.attempted categories)
    then Overall.starting
    else if any (λ c. is_essential c && is_down (state_of m c)) categories
    then Overall.failed
    else if any (λ c. not (is_good (state_of m c))) categories
    then Overall.degraded
    else Overall.ok

abbrev overall_eq : Overall → Option Overall → Bool
overall_eq Overall.starting (some Overall.starting) = true
overall_eq Overall.failed (some Overall.failed) = true
overall_eq Overall.degraded (some Overall.degraded) = true
overall_eq Overall.ok (some Overall.ok) = true
overall_eq o p = false

-- `_update_health`
unfoldable pub update_health : Monitor → Monitor
update_health m =
    let overall = overall_health m in
    let shown = record m {
      health = λ c. if m.attempted c then Shown.of_quality (state_of m c) else Shown.starting;
      overall = overall;
    } in
    if m.ready_sent && not (overall_eq overall m.last_notified_health)
    then record shown { notified = overall ∷ m.notified; last_notified_health = some overall }
    else shown

-- `_apply_quality`, less the three nodes of the category itself
unfoldable pub apply_quality : Category → Quality → Monitor → Monitor
apply_quality c quality m = update_health (record m {
  has_data = put c true m.has_data;
  category_quality = put c (some quality) m.category_quality;
})

-- `_mark_prefix_failed`, less the nodes of the category itself
unfoldable pub mark_prefix_failed : Category → Monitor → Monitor
mark_prefix_failed c m =
    let quality = if m.has_data c then Quality.uncertain else Quality.not_available in
    update_health (record m { category_quality = put c (some quality) m.category_quality })

-- `name in self._jobs`
abbrev pub in_flight : Category → List Category → Bool
in_flight c jobs = any (category_eq c) jobs

-- One round of the loop in `_schedule_jobs`.
unfoldable pub schedule_job : Intervals → ℕ → Category → Monitor → Monitor
schedule_job i now c m =
    if in_flight c m.jobs then m else if ltb now (m.next_run c) then m else record m {
      jobs = m.jobs ++ c ∷ [];
      next_run = put c (now + max 100_000 (job_interval i c)) m.next_run;
    }

unfoldable pub schedule_each : Intervals → ℕ → List Category → Monitor → Monitor
schedule_each i now [] m = m
schedule_each i now (c ∷ cs) m = schedule_each i now cs (schedule_job i now c m)

-- `_schedule_jobs`
unfoldable pub schedule_jobs : Intervals → ℕ → Monitor → Monitor
schedule_jobs i now m = schedule_each i now categories m

-- What a collection has come to: still going, applied with a quality, or an exception of the
-- collector or of the method that applies its result, before it sets the quality.
pub data Progress : Type 0 where
  running : Progress
  applied : Quality → Progress
  raised : Progress

-- `del self._jobs[name]`
unfoldable pub remove_job : Category → List Category → List Category
remove_job c [] = []
remove_job c (d ∷ jobs) = let rest = remove_job c jobs in if category_eq c d then rest else d ∷ rest

-- One round of the loop in `_finish_jobs`.
unfoldable pub finish_job : Category → Progress → Monitor → Monitor
finish_job c Progress.running m = m
finish_job c (Progress.applied quality) m =
    apply_quality c quality
      (record m { jobs = remove_job c m.jobs; attempted = put c true m.attempted })
finish_job c Progress.raised m =
    mark_prefix_failed c
      (record m { jobs = remove_job c m.jobs; attempted = put c true m.attempted })

unfoldable pub finish_each : (Category → Progress) → List Category → Monitor → Monitor
finish_each progress [] m = m
finish_each progress (c ∷ cs) m = finish_each progress cs (finish_job c (progress c) m)

-- `_finish_jobs`
unfoldable pub finish_jobs : (Category → Progress) → Monitor → Monitor
finish_jobs progress m = finish_each progress m.jobs m
