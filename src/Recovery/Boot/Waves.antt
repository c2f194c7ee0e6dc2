-- ===== src/Recovery/Boot/Waves.antt =====
-- How boot recovery spreads the deployments over waves, and where its messages wait.
use native.Mathlib.Nat.{div-mul-le_self, lt-div-mul-add, mul-le-mul_right, add-mul}
use Prim.Native.String.{String}
use workflow_world.Prelude.{
  ℕ, ◌+◌, ◌-◌, ◌*◌, ◌/◌, ◌≤◌, ◌<◌, suc, leb, ◌==◌, ◌≡◌, refl, sym, subst, ap, arith, Option, none,
  some, is_some, List, [], ◌∷◌, ◌++◌ as append, length, length-append, if◌then◌else◌,
}
use workflow_world.Prelude.Entries.{get_entry, set_entry}
use workflow_world.Storage.Schema.{RunRow}
use workflow_world.Recovery.Boot.{Waves, assign_wave, waves_of, deployment_key}

-- How many deployments a wave has.
abbrev pub wave_size : ℕ → Waves → ℕ
wave_size w [] = 0
wave_size w ((k, v) ∷ waves) = if v == w then suc (wave_size w waves) else wave_size w waves

wave_size-append :
    (w v : ℕ) (k : String) (waves : Waves)
    → wave_size w (append waves ((k, v) ∷ [])) ≡ wave_size w waves + (if v == w then 1 else 0)
wave_size-append w v k [] = ground arith
wave_size-append w v k ((l, u) ∷ waves) = ground (arith, wave_size-append w v k waves)

set_entry_new :
    (k : String) (v : ℕ) (waves : Waves)
    → get_entry k waves ≡ none
    → set_entry k v waves ≡ append waves ((k, v) ∷ [])
unfolding get_entry set_entry
set_entry_new k v [] h = refl
set_entry_new k v ((l, u) ∷ waves) h = ground (arith, h, set_entry_new k v waves)

-- The waves before the last are full, and none comes after it.
abbrev Filled : ℕ → Waves → Type 0
Filled per waves =
    (w : ℕ)
    → wave_size w waves
      ≡ (if leb (w * per + per) (length waves) then per else length waves - w * per)

before : (per w q : ℕ) → w < q → w * per + per ≤ q * per
before per w q h =
    let le : w + 1 ≤ q = omega (arith, h) in omega (arith, mul-le-mul_right per le, add-mul w 1 per)

filled_next :
    (per n w : ℕ)
    → 1 ≤ per
    → (if leb (w * per + per) n then per else n - w * per) + (if n / per == w then 1 else 0)
      ≡ (if leb (w * per + per) (n + 1) then per else n + 1 - w * per)
filled_next per n w h =
    let low = div-mul-le_self n per in
    let high : n < n / per * per + per = lt-div-mul-add {a = n} {b = per} h in
    by_wave (n / per) low high
  where
    same : (q : ℕ) → q ≡ w → q * per ≡ w * per
    same q e = ap (λ k. k * per) e

    by_wave :
        (q : ℕ)
        → q * per ≤ n
        → n < q * per + per
        → (if leb (w * per + per) n then per else n - w * per) + (if q == w then 1 else 0)
          ≡ (if leb (w * per + per) (n + 1) then per else n + 1 - w * per)
    by_wave q low high = ground (arith, low, high, h, before per w q, before per q w, same q)

append-Filled :
    (per : ℕ) (k : String) (waves : Waves)
    → 1 ≤ per
    → Filled per waves
    → Filled per (append waves ((k, length waves / per) ∷ []))
append-Filled per k waves h f w =
    rw
      (
        wave_size-append w (length waves / per) k waves,
        f w,
        length-append waves ((k, length waves / per) ∷ []),
      )
      (filled_next per (length waves) w h)

assign_wave-Filled :
    (per : ℕ) (r : RunRow) (waves : Waves)
    → 1 ≤ per
    → Filled per waves
    → Filled per (assign_wave per r waves)
unfolding assign_wave
assign_wave-Filled per r waves h f = by_entry (get_entry (deployment_key r) waves) refl
  where
    by_entry :
        (o : Option ℕ)
        → get_entry (deployment_key r) waves ≡ o
        → Filled per
            (if is_some o then waves else set_entry (deployment_key r) (length waves / per) waves)
    by_entry (some v) e = f
    by_entry none e =
        subst (Filled per) (sym (set_entry_new (deployment_key r) (length waves / per) waves e))
          (append-Filled per (deployment_key r) waves h f)

waves_of-Filled :
    (per : ℕ) (rs : List RunRow) (waves : Waves)
    → 1 ≤ per
    → Filled per waves
    → Filled per (waves_of per rs waves)
unfolding waves_of
waves_of-Filled per [] waves h f = f
waves_of-Filled per (r ∷ rs) waves h f =
    waves_of-Filled per rs (assign_wave per r waves) h (assign_wave-Filled per r waves h f)

-- Boot recovery fills its waves in order: each wave has as many deployments as are allowed in one, as
-- long as there are so many, the next one the rest, and none comes after it.
pub waves_of-wave_size :
    (per w : ℕ) (rs : List RunRow)
    → 1 ≤ per
    → let waves = waves_of per rs [] in
      wave_size w waves
      ≡ (if leb (w * per + per) (length waves) then per else length waves - w * per)
waves_of-wave_size per w rs h = waves_of-Filled per rs [] h (λ v. ground (arith, h)) w
