-- ===== src/Vram/Store/Honest.antt =====
-- A static figure is only ever stored beside a baseline that was measured with no model served.
use vvz_lmrs.Prelude.{
  ◌≡◌, refl, arith, Bool, true, false, ◌&&◌, Option, none, some, String, List, inl, inr, ◌==◌,
  eq_iff, Bool-cases, if◌then◌else◌,
}
use vvz_lmrs.Prelude.Int.{ℤ, pos, ◌-ℤ◌, ◌≤ℤ◌, leb_ℤ, int_laws}
use vvz_lmrs.Prelude.Dict.{Dict, lookup, lookup-insert, lookup-erase, dict_laws}
use vvz_lmrs.Prelude.Value.{Value}
use vvz_lmrs.Vram.Store.{
  GpuMemoryMeasurement, as_int, is_false, is_truthy, baseline_facts, loaded_facts, without_static,
  static_by_baseline, static_facts,
}

-- A static figure, the flag of its baseline, and the baseline, as the mapping may hold them: nothing
-- was measured; a baseline stands beside its flag; or a figure that is not negative stands beside a
-- baseline that was measured with no model served.
pub data HonestAt : Option Value → Option Value → Option Value → Type 0 where
  unknown : HonestAt none none none
  baseline : (served : Bool) (b : ℤ) → HonestAt none (some (Value.bool served)) (some (Value.int b))
  measured :
      (n b : ℤ)
      → pos 0 ≤ℤ n
      → HonestAt (some (Value.int n)) (some (Value.bool false)) (some (Value.int b))

abbrev pub IsHonest : Dict Value → Type 0
IsHonest facts =
    HonestAt (lookup "measured_model_static_vram_bytes" facts)
      (lookup "baseline_model_served" facts) (lookup "service_baseline_free_vram_bytes" facts)

-- A mapping whose three readings are known.
IsHonest-of :
    (facts : Dict Value) {x y z : Option Value}
    → lookup "measured_model_static_vram_bytes" facts ≡ x
    → lookup "baseline_model_served" facts ≡ y
    → lookup "service_baseline_free_vram_bytes" facts ≡ z
    → HonestAt x y z
    → IsHonest facts
IsHonest-of facts p q r h = rw (p, q, r) h

after_baseline :
    (served : Bool) (free : ℤ) {x y z : Option Value}
    → HonestAt x y z
    → (served && is_false y) ≡ false
    → HonestAt x (some (Value.bool served)) (some (Value.int free))
unfolding is_false
after_baseline served free unknown k = baseline served free
after_baseline served free (baseline old b) k = baseline served free
after_baseline true free (measured n b h) k = cc
after_baseline false free (measured n b h) k = measured n free h

pub baseline-IsHonest :
    (m : GpuMemoryMeasurement) (services : List String) (served : Bool) (facts : Dict Value)
    → IsHonest facts
    → (served && is_false (lookup "baseline_model_served" facts)) ≡ false
    → IsHonest (baseline_facts m services served facts)
unfolding baseline_facts
baseline-IsHonest m services served facts h k =
    IsHonest-of (baseline_facts m services served facts) (simp dict_laws) (simp dict_laws)
      (simp dict_laws) (after_baseline served m.free_bytes h k)

-- The static figure that `record_model_loaded` stores.
unfoldable pub new_static : ℤ → Option Value → Option ℤ → Option Value
new_static free flag none = none
new_static free flag (some b) =
    if is_truthy flag then none else if leb_ℤ free b then some (Value.int (b -ℤ free)) else none

module _ (key : String) where
  -- A key that `static_facts` does not write.
  abbrev IsOther : Type 0
  IsOther =
      ((key == "measured_model_static_vram_bytes") ≡ false)
      × ((key == "static_vram_unavailable_reason") ≡ false)

flipped : (s t : String) → (s == t) ≡ false → (t == s) ≡ false
flipped s t h = ground (arith, eq_iff s t, eq_iff t s)

lookup-without_static :
    (reason : String) (facts : Dict Value)
    → lookup "measured_model_static_vram_bytes" (without_static reason facts) ≡ none
unfolding without_static
lookup-without_static reason facts = simp dict_laws

lookup-static_by_baseline :
    (free : ℤ) (o : Option ℤ) (facts : Dict Value)
    → lookup "measured_model_static_vram_bytes" (static_by_baseline free o facts)
      ≡ new_static free none o
unfolding static_by_baseline new_static is_truthy
lookup-static_by_baseline free none facts = lookup-without_static _ facts
lookup-static_by_baseline free (some b) facts = elim (Bool-cases (leb_ℤ free b)) [
  | inl fits ↦ rw fits (simp dict_laws)
  | inr short ↦ rw short (lookup-without_static _ facts)
]

new_static_untruthy :
    (free : ℤ) (flag : Option Value) (o : Option ℤ)
    → is_truthy flag ≡ false
    → new_static free flag o ≡ new_static free none o
unfolding new_static
new_static_untruthy free flag none h = refl
new_static_untruthy free flag (some b) h = rw h (unfold is_truthy in refl)

new_static_truthy :
    (free : ℤ) (flag : Option Value) (o : Option ℤ)
    → is_truthy flag ≡ true
    → new_static free flag o ≡ none
unfolding new_static
new_static_truthy free flag none h = refl
new_static_truthy free flag (some b) h = rw h

pub lookup-static_facts :
    (free : ℤ) (facts : Dict Value)
    → lookup "measured_model_static_vram_bytes" (static_facts free facts)
      ≡ new_static free
          (lookup "baseline_model_served" facts)
          (as_int (lookup "service_baseline_free_vram_bytes" facts))
unfolding static_facts
lookup-static_facts free facts =
    let flag = lookup "baseline_model_served" facts in
    let o = as_int (lookup "service_baseline_free_vram_bytes" facts) in
    elim (Bool-cases (is_truthy flag)) [
      | inl served ↦
          rw (served, new_static_truthy free flag o served) (lookup-without_static _ facts)
      | inr free_of_model ↦
          rw (free_of_model, new_static_untruthy free flag o free_of_model)
            (lookup-static_by_baseline free o facts)
    ]

measured_or_not :
    (free b : ℤ) (fits : Bool)
    → leb_ℤ free b ≡ fits
    → HonestAt
        (if fits then some (Value.int (b -ℤ free)) else none)
        (some (Value.bool false))
        (some (Value.int b))
measured_or_not free b true h = measured (b -ℤ free) b (grind int_laws)
measured_or_not free b false h = baseline false b

after_loaded :
    (free : ℤ) {x y z : Option Value} → HonestAt x y z → HonestAt (new_static free y (as_int z)) y z
unfolding new_static as_int is_truthy
after_loaded free unknown = unknown
after_loaded free (baseline true b) = baseline true b
after_loaded free (baseline false b) = measured_or_not free b (leb_ℤ free b) refl
after_loaded free (measured n b h) = measured_or_not free b (leb_ℤ free b) refl

-- Deciding the static figure changes no other key than the figure and the reason.
module _ (key : String) (other : IsOther key) where
  lookup-without_static_other :
      (reason : String) (facts : Dict Value)
      → lookup key (without_static reason facts) ≡ lookup key facts
  unfolding without_static
  lookup-without_static_other reason facts = simp (
    lookup-insert,
    lookup-erase,
    flipped key "measured_model_static_vram_bytes" other.0,
    flipped key "static_vram_unavailable_reason" other.1,
  )

  lookup-static_by_baseline_other :
      (free : ℤ) (o : Option ℤ) (facts : Dict Value)
      → lookup key (static_by_baseline free o facts) ≡ lookup key facts
  unfolding static_by_baseline
  lookup-static_by_baseline_other free none facts = lookup-without_static_other _ facts
  lookup-static_by_baseline_other free (some b) facts = elim (Bool-cases (leb_ℤ free b)) [
    | inl fits ↦ rw fits (
        simp (
          lookup-insert,
          lookup-erase,
          flipped key "measured_model_static_vram_bytes" other.0,
          flipped key "static_vram_unavailable_reason" other.1,
        ))
    | inr short ↦ rw short (lookup-without_static_other _ facts)
  ]

  pub lookup-static_facts_other :
      (free : ℤ) (facts : Dict Value) → lookup key (static_facts free facts) ≡ lookup key facts
  unfolding static_facts
  lookup-static_facts_other free facts =
      elim (Bool-cases (is_truthy (lookup "baseline_model_served" facts))) [
        | inl served ↦ rw served (lookup-without_static_other _ facts)
        | inr free_of_model ↦ rw free_of_model (
            lookup-static_by_baseline_other free
              (as_int (lookup "service_baseline_free_vram_bytes" facts)) facts)
      ]

pub loaded-IsHonest :
    (model : String) (m : GpuMemoryMeasurement) (backend quantization : String) (facts : Dict Value)
    → IsHonest facts
    → IsHonest (static_facts m.free_bytes (loaded_facts model m backend quantization facts))
unfolding loaded_facts
loaded-IsHonest model m backend quantization facts h =
    let stored = loaded_facts model m backend quantization facts in
    IsHonest-of (static_facts m.free_bytes stored) (lookup-static_facts m.free_bytes stored)
      (lookup-static_facts_other "baseline_model_served" (refl, refl) m.free_bytes stored)
      (lookup-static_facts_other "service_baseline_free_vram_bytes" (refl, refl) m.free_bytes
        stored)
      (after_loaded m.free_bytes (
        IsHonest-of stored {x = lookup "measured_model_static_vram_bytes" facts}
          {y = lookup "baseline_model_served" facts}
          {z = lookup "service_baseline_free_vram_bytes" facts} (simp dict_laws) (simp dict_laws)
          (simp dict_laws) h))
