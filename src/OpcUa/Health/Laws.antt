-- ===== src/OpcUa/Health/Laws.antt =====
-- `Health.Overall` of src/python/gizmo_opcua.py by its meaning.
use gizmo.Prelude.{
  ◌≡◌, refl, Bool, true, false, not, ◌&&◌, any, all, ◌↔◌, sym, ◌∙◌, arith, Bool-cases, inl, inr,
}
use gizmo.OpcUa.Health.{
  Category, Quality, Overall, Monitor, categories, is_essential, state_of, is_down, is_good,
  overall_health, update_health,
}

all-categories : (p : Category → Bool) → all p categories ≡ true → (c : Category) → p c ≡ true
all-categories p h Category.measurement = ground (arith, h)
all-categories p h Category.thermal = ground (arith, h)
all-categories p h Category.sdr = ground (arith, h)
all-categories p h Category.time = ground (arith, h)
all-categories p h Category.operating_system = ground (arith, h)
all-categories p h Category.network = ground (arith, h)
all-categories p h Category.storage = ground (arith, h)
all-categories p h Category.firmware = ground (arith, h)
all-categories p h Category.services = ground (arith, h)
all-categories p h Category.calibration = ground (arith, h)

all_of_categories : (p : Category → Bool) → ((c : Category) → p c ≡ true) → all p categories ≡ true
all_of_categories p h =
    rw
      (
        h Category.measurement,
        h Category.thermal,
        h Category.sdr,
        h Category.time,
        h Category.operating_system,
        h Category.network,
        h Category.storage,
        h Category.firmware,
        h Category.services,
        h Category.calibration,
      )
      refl

any-categories : (p : Category → Bool) → any p categories ≡ false → (c : Category) → p c ≡ false
any-categories p h Category.measurement = ground (arith, h)
any-categories p h Category.thermal = ground (arith, h)
any-categories p h Category.sdr = ground (arith, h)
any-categories p h Category.time = ground (arith, h)
any-categories p h Category.operating_system = ground (arith, h)
any-categories p h Category.network = ground (arith, h)
any-categories p h Category.storage = ground (arith, h)
any-categories p h Category.firmware = ground (arith, h)
any-categories p h Category.services = ground (arith, h)
any-categories p h Category.calibration = ground (arith, h)

any_of_categories :
    (p : Category → Bool) → ((c : Category) → p c ≡ false) → any p categories ≡ false
any_of_categories p h =
    rw
      (
        h Category.measurement,
        h Category.thermal,
        h Category.sdr,
        h Category.time,
        h Category.operating_system,
        h Category.network,
        h Category.storage,
        h Category.firmware,
        h Category.services,
        h Category.calibration,
      )
      refl

ok_of :
    (m : Monitor)
    → ((c : Category) → m.attempted c ≡ true)
    → ((c : Category) → state_of m c ≡ Quality.good)
    → overall_health m ≡ Overall.ok
unfolding overall_health
ok_of m h k =
    rw
      (
        all_of_categories m.attempted h,
        any_of_categories (λ c. is_essential c && is_down (state_of m c))
            (λ c.
              rw (k c)
                (elim (Bool-cases (is_essential c)) [ inl e ↦ rw e refl | inr e ↦ rw e refl ])),
        any_of_categories (λ c. not (is_good (state_of m c))) (λ c. rw (k c) refl),
      )
      refl

good_of : (q : Quality) → not (is_good q) ≡ false → q ≡ Quality.good
good_of Quality.good h = refl
good_of Quality.uncertain h = ground arith
good_of Quality.bad h = ground arith
good_of Quality.not_available h = ground arith

of_ok :
    (m : Monitor)
    → overall_health m ≡ Overall.ok
    → (c : Category) → (m.attempted c ≡ true) × (state_of m c ≡ Quality.good)
unfolding overall_health
of_ok m h c = elim (Bool-cases (all m.attempted categories)) [
  | inr e ↦ ground (arith, e)
  | inl e ↦ elim (Bool-cases (any (λ c. is_essential c && is_down (state_of m c)) categories)) [
    | inl f ↦ ground (arith, e, f)
    | inr f ↦ elim (Bool-cases (any (λ c. not (is_good (state_of m c))) categories)) [
      | inl g ↦ ground (arith, e, f, g)
      | inr g ↦ (
        all-categories m.attempted e c,
        good_of (state_of m c) (any-categories (λ d. not (is_good (state_of m d))) g c),
      )
    ]
  ]
]

shows_overall : (m : Monitor) → (update_health m).overall ≡ overall_health m
unfolding update_health
shows_overall m = ground arith

-- `Health.Overall` is OK exactly when every category has been collected and the quality of every
-- one is Good.
pub overall_ok_iff_good :
    (m : Monitor)
    → ((update_health m).overall ≡ Overall.ok)
      ↔ ((c : Category) → (m.attempted c ≡ true) × (state_of m c ≡ Quality.good))
overall_ok_iff_good m = (
  λ h. of_ok m (sym (shows_overall m) ∙ h),
  λ h. shows_overall m ∙ ok_of m (λ c. (h c).0) (λ c. (h c).1),
)
