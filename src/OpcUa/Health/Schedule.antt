-- ===== src/OpcUa/Health/Schedule.antt =====
-- `_schedule_jobs` of src/python/gizmo_opcua.py: which collections it starts.
use Prim.Native.Nat.{max}
use gizmo.Prelude.{
  ℕ, ◌+◌, ◌≡◌, refl, Bool, true, false, not, ◌&&◌, ◌||◌, List, [], ◌∷◌, ◌++◌, ltb, ◌==◌, any, ap,
  sym, ◌∙◌, arith, if◌then◌else◌, Bool-cases, if_cases, if_ind, inl, inr,
}
use gizmo.OpcUa.Health.{
  Category, Monitor, Intervals, categories, index, category_eq, in_flight, job_interval,
  schedule_job, schedule_each, schedule_jobs,
}

of_index : ℕ → Category
of_index n =
    if n == 0
    then Category.measurement
    else if n == 1
    then Category.thermal
    else if n == 2
    then Category.sdr
    else if n == 3
    then Category.time
    else if n == 4
    then Category.operating_system
    else if n == 5
    then Category.network
    else if n == 6
    then Category.storage
    else if n == 7
    then Category.firmware
    else if n == 8
    then Category.services
    else Category.calibration

of_index-index : (c : Category) → of_index (index c) ≡ c
unfolding of_index
of_index-index Category.measurement = refl
of_index-index Category.thermal = refl
of_index-index Category.sdr = refl
of_index-index Category.time = refl
of_index-index Category.operating_system = refl
of_index-index Category.network = refl
of_index-index Category.storage = refl
of_index-index Category.firmware = refl
of_index-index Category.services = refl
of_index-index Category.calibration = refl

index_eq : (a b : ℕ) → (a == b) ≡ true → a ≡ b
index_eq a b h = ground arith

eq_of_category_eq : (c d : Category) → category_eq c d ≡ true → c ≡ d
eq_of_category_eq c d h =
    sym (of_index-index c) ∙ ap of_index (index_eq (index c) (index d) h) ∙ of_index-index d

category_eq_refl : (c : Category) → category_eq c c ≡ true
category_eq_refl c = ground arith

category_eq_comm : (c d : Category) → category_eq d c ≡ category_eq c d
category_eq_comm c d = ground arith

or_false : (b : Bool) → b ≡ b || false
or_false b = ground arith

any-append :
    (p : Category → Bool) (cs : List Category) (d : Category)
    → any p (cs ++ d ∷ []) ≡ any p cs || p d
any-append p [] d = ground arith
any-append p (c ∷ cs) d = ground (arith, any-append p cs d)

in_categories : (c : Category) → in_flight c categories ≡ true
in_categories Category.measurement = refl
in_categories Category.thermal = refl
in_categories Category.sdr = refl
in_categories Category.time = refl
in_categories Category.operating_system = refl
in_categories Category.network = refl
in_categories Category.storage = refl
in_categories Category.firmware = refl
in_categories Category.services = refl
in_categories Category.calibration = refl

-- Whether a category is due and idle.
abbrev starts : Category → ℕ → Monitor → Bool
starts c now m = not (in_flight c m.jobs) && not (ltb now (m.next_run c))

module _ (i : Intervals) (now : ℕ) (c : Category) where
  -- What is left of a category, in flight and to come, once `started` says that it is started.
  HasStarted : Monitor → Bool → Monitor → Type 0
  HasStarted m started m' =
      (in_flight c m'.jobs ≡ in_flight c m.jobs || started)
      × (m'.next_run c ≡ (if started then now + max 100_000 (job_interval i c) else m.next_run c))

  schedule_job-HasStarted :
      (d : Category) (m : Monitor)
      → HasStarted m (category_eq c d && starts c now m) (schedule_job i now d m)
  unfolding schedule_job HasStarted
  schedule_job-HasStarted d m = elim (Bool-cases (category_eq c d)) [
    | inl same ↦
        rw (sym (eq_of_category_eq c d same), category_eq_refl c)
          (if_cases (HasStarted m (starts c now m)) (in_flight c m.jobs) _ _
            (λ e. rw e (refl, refl))
            (λ e.
              if_cases (HasStarted m (starts c now m)) (ltb now (m.next_run c)) _ _
                (λ f. rw (e, f) (refl, refl))
                (λ f.
                  rw (any-append (category_eq c) m.jobs c, category_eq_refl c, e, f) (refl, refl))))
    | inr other ↦ rw other (
        if_ind (HasStarted m false) (in_flight d m.jobs) _ _ (or_false _, refl)
          (if_ind (HasStarted m false) (ltb now (m.next_run d)) _ _ (or_false _, refl)
            (rw (any-append (category_eq c) m.jobs d, other, category_eq_comm c d, other)
              (refl, refl))))
  ]

  combine :
      (b b' f f' f'' : Bool) (t n n' n'' : ℕ)
      → f' ≡ f || b && (not f && not (ltb now n))
      → n' ≡ (if b && (not f && not (ltb now n)) then t else n)
      → f'' ≡ f' || b' && (not f' && not (ltb now n'))
      → n'' ≡ (if b' && (not f' && not (ltb now n')) then t else n')
      → (f'' ≡ f || (b || b') && (not f && not (ltb now n)))
        × (n'' ≡ (if (b || b') && (not f && not (ltb now n)) then t else n))
  combine false b' f f' f'' t n n' n'' h k h' k' = ground arith
  combine true b' f f' f'' t n n' n'' h k h' k' = ground arith

  HasStarted-trans :
      (m m' m'' : Monitor) (b b' : Bool)
      → HasStarted m (b && starts c now m) m'
      → HasStarted m' (b' && starts c now m') m''
      → HasStarted m ((b || b') && starts c now m) m''
  unfolding HasStarted
  HasStarted-trans m m' m'' b b' (h, k) (h', k') =
      combine b b' (in_flight c m.jobs) (in_flight c m'.jobs) (in_flight c m''.jobs)
        (now + max 100_000 (job_interval i c)) (m.next_run c) (m'.next_run c) (m''.next_run c) h k
        h' k'

  schedule_each-HasStarted :
      (cs : List Category) (m : Monitor)
      → HasStarted m (in_flight c cs && starts c now m) (schedule_each i now cs m)
  unfolding schedule_each
  schedule_each-HasStarted [] m = unfold HasStarted in (or_false _, refl)
  schedule_each-HasStarted (d ∷ cs) m =
      HasStarted-trans m (schedule_job i now d m) (schedule_each i now cs (schedule_job i now d m))
        (category_eq c d) (in_flight c cs) (schedule_job-HasStarted d m)
        (schedule_each-HasStarted cs (schedule_job i now d m))

  schedule_all :
      (b : Bool) (m : Monitor)
      → in_flight c categories ≡ b
      → HasStarted m (b && starts c now m) (schedule_each i now categories m)
  schedule_all b m h = rw (sym h) (schedule_each-HasStarted categories m)

  -- `_schedule_jobs` starts a collection of exactly the categories that are due and have none in
  -- flight, and brings their next one to one interval, of 0.1 s at least, after now; it leaves the
  -- other categories as they are.
  pub schedule_jobs_iff_due :
      (m : Monitor)
      → (in_flight c (schedule_jobs i now m).jobs
          ≡ in_flight c m.jobs || not (in_flight c m.jobs) && not (ltb now (m.next_run c)))
        × ((schedule_jobs i now m).next_run c ≡ (
            if not (in_flight c m.jobs) && not (ltb now (m.next_run c))
            then now + max 100_000 (job_interval i c)
            else m.next_run c))
  unfolding schedule_jobs HasStarted
  schedule_jobs_iff_due m = schedule_all true m (in_categories c)
