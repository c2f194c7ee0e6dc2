-- ===== src/Dispatcher/Fairness.antt =====
-- src/dispatcher/dispatcher.ts, `createFairness`: the deliveries in flight of each tenant.
use Prim.Native.String.{String}
use text.Mathlib.Text.{◌==◌ as str_eq}
use text.Mathlib.TextEquality.{eq_iff}
use workflow_world.Prelude.{
  ℕ, ◌+◌, ◌-◌, ◌≤◌, leb, ◌==◌, ◌≡◌, refl, ap, ◌∙◌, some, Bool, true, false, ◌&&◌, List, [], ◌∷◌,
  ◌++◌, or_else, has_row, arith, if◌then◌else◌,
}
use workflow_world.Prelude.Table.Laws.{has_row-append}
use workflow_world.Prelude.Entries.{
  get_entry, set_entry, delete_entry, get_entry-set_entry, get_entry-delete_entry, str_eq_refl,
}
use workflow_world.Storage.Schema.{Ident}
use workflow_world.Dispatch.Contract.{tenant_flag, wake_flag}

pub data FairnessLane : Type 0 where
  delivery wake : FairnessLane

abbrev pub Counts : Type 0
Counts = List (Ident × ℕ)

pub record Lanes : Type 0 where
  pub delivery_counts : Counts
  pub wake_counts : Counts

abbrev pub lane_of : FairnessLane → Lanes → Counts
lane_of delivery l = l.delivery_counts
lane_of wake l = l.wake_counts

abbrev pub change_lane : FairnessLane → (Counts → Counts) → Lanes → Lanes
change_lane delivery f l = record l { delivery_counts = f l.delivery_counts }
change_lane wake f l = record l { wake_counts = f l.wake_counts }

abbrev pub at_cap : ℕ → (Ident → String) → Counts → List String
at_cap cap flag_of [] = []
at_cap cap flag_of ((tenant, count) ∷ counts) =
    let rest = at_cap cap flag_of counts in if leb cap count then flag_of tenant ∷ rest else rest

-- `max_in_flight` is `maxInFlightPerTenant`.
unfoldable pub forbidden_flags : ℕ → Lanes → List String
forbidden_flags max_in_flight l =
    at_cap max_in_flight tenant_flag l.delivery_counts
    ++ at_cap max_in_flight wake_flag l.wake_counts

unfoldable pub acquire : Ident → FairnessLane → Lanes → Lanes
acquire tenant lane l =
    change_lane lane (λ m. set_entry tenant (or_else (get_entry tenant m) 0 + 1) m) l

abbrev pub put_or_delete : Ident → ℕ → Counts → Counts
put_or_delete tenant next m = if next == 0 then delete_entry tenant m else set_entry tenant next m

unfoldable pub release : Ident → FairnessLane → Lanes → Lanes
release tenant lane l =
    change_lane lane (λ m. put_or_delete tenant (or_else (get_entry tenant m) 1 - 1) m) l

-- The deliveries in flight that the maps report.
unfoldable pub in_flight : Ident → FairnessLane → Lanes → ℕ
in_flight tenant lane l = or_else (get_entry tenant (lane_of lane l)) 0

abbrev pub lane_eq : FairnessLane → FairnessLane → Bool
lane_eq delivery delivery = true
lane_eq wake wake = true
lane_eq delivery wake = false
lane_eq wake delivery = false

pub data Claim : Type 0 where
  acquired : Ident → FairnessLane → Claim
  released : Ident → FairnessLane → Claim

unfoldable pub claims : List Claim → Lanes → Lanes
unfolding acquire release
claims [] l = l
claims (acquired t lane ∷ cs) l = claims cs (acquire t lane l)
claims (released t lane ∷ cs) l = claims cs (release t lane l)

-- An independent count, one lane of one tenant at a time.
unfoldable pub outstanding : Ident → FairnessLane → List Claim → ℕ → ℕ
outstanding tenant lane [] n = n
outstanding tenant lane (acquired t l ∷ cs) n =
    outstanding tenant lane cs (if str_eq t tenant && lane_eq l lane then n + 1 else n)
outstanding tenant lane (released t l ∷ cs) n =
    outstanding tenant lane cs (if str_eq t tenant && lane_eq l lane then n - 1 else n)

pub acquire-in_flight :
    (tenant t : Ident) (lane k : FairnessLane) (l : Lanes)
    → in_flight tenant lane (acquire t k l) ≡ (
        if str_eq t tenant && lane_eq k lane
        then in_flight tenant lane l + 1
        else in_flight tenant lane l)
unfolding in_flight acquire
acquire-in_flight tenant t delivery delivery l = ground (
  arith,
  eq_iff t tenant,
  get_entry-set_entry t tenant (or_else (get_entry t l.delivery_counts) 0 + 1) l.delivery_counts,
)
acquire-in_flight tenant t wake wake l = ground (
  arith,
  eq_iff t tenant,
  get_entry-set_entry t tenant (or_else (get_entry t l.wake_counts) 0 + 1) l.wake_counts,
)
acquire-in_flight tenant t delivery wake l = ground arith
acquire-in_flight tenant t wake delivery l = ground arith

or_else-put_or_delete :
    (tenant t : Ident) (m : Counts)
    → or_else (get_entry tenant (put_or_delete t (or_else (get_entry t m) 1 - 1) m)) 0 ≡ (
        if str_eq t tenant
        then or_else (get_entry tenant m) 0 - 1
        else or_else (get_entry tenant m) 0)
or_else-put_or_delete tenant t m = ground (
  arith,
  eq_iff t tenant,
  get_entry-set_entry t tenant (or_else (get_entry t m) 1 - 1) m,
  get_entry-delete_entry t tenant m,
)

pub release-in_flight :
    (tenant t : Ident) (lane k : FairnessLane) (l : Lanes)
    → in_flight tenant lane (release t k l) ≡ (
        if str_eq t tenant && lane_eq k lane
        then in_flight tenant lane l - 1
        else in_flight tenant lane l)
unfolding in_flight release
release-in_flight tenant t delivery delivery l =
    ground (arith, or_else-put_or_delete tenant t l.delivery_counts)
release-in_flight tenant t wake wake l =
    ground (arith, or_else-put_or_delete tenant t l.wake_counts)
release-in_flight tenant t delivery wake l = ground arith
release-in_flight tenant t wake delivery l = ground arith

-- Whatever deliveries begin and end, in whatever order, the maps report for each tenant and lane what
-- a counter of its own would, which a release does not take below 0.
pub claims-outstanding :
    (tenant : Ident) (lane : FairnessLane) (cs : List Claim) (l : Lanes)
    → in_flight tenant lane (claims cs l) ≡ outstanding tenant lane cs (in_flight tenant lane l)
unfolding claims outstanding
claims-outstanding tenant lane [] l = refl
claims-outstanding tenant lane (acquired t k ∷ cs) l =
    claims-outstanding tenant lane cs (acquire t k l)
    ∙ ap (outstanding tenant lane cs) (acquire-in_flight tenant t lane k l)
claims-outstanding tenant lane (released t k ∷ cs) l =
    claims-outstanding tenant lane cs (release t k l)
    ∙ ap (outstanding tenant lane cs) (release-in_flight tenant t lane k l)

abbrev pub flag_of_lane : FairnessLane → Ident → String
flag_of_lane delivery = tenant_flag
flag_of_lane wake = wake_flag

at_cap-get_entry :
    (cap n : ℕ) (flag_of : Ident → String) (tenant : Ident) (m : Counts)
    → get_entry tenant m ≡ some n
    → cap ≤ n
    → has_row (str_eq (flag_of tenant)) (at_cap cap flag_of m) ≡ true
unfolding get_entry has_row
at_cap-get_entry cap n flag_of tenant [] h le = cc
at_cap-get_entry cap n flag_of tenant ((t, c) ∷ m) h le =
    ground (
      arith,
      eq_iff t tenant,
      at_cap-get_entry cap n flag_of tenant m,
      str_eq_refl (flag_of tenant),
    )

counted :
    (cap : ℕ) (tenant : Ident) (m : Counts)
    → 1 ≤ cap
    → cap ≤ or_else (get_entry tenant m) 0
    → get_entry tenant m ≡ some (or_else (get_entry tenant m) 0)
counted cap tenant m one le = ground arith

-- The flag of a tenant whose deliveries in flight have reached the cap, or whose wakes have, is
-- forbidden for the next claim.
pub forbidden_flags-in_flight :
    (cap : ℕ) (tenant : Ident) (lane : FairnessLane) (l : Lanes)
    → 1 ≤ cap
    → cap ≤ in_flight tenant lane l
    → has_row (str_eq (flag_of_lane lane tenant)) (forbidden_flags cap l) ≡ true
unfolding in_flight forbidden_flags
forbidden_flags-in_flight cap tenant delivery l one le =
    let m = l.delivery_counts in
    ground (
      arith,
      has_row-append (str_eq (tenant_flag tenant)) (at_cap cap tenant_flag m)
          (at_cap cap wake_flag l.wake_counts),
      at_cap-get_entry cap (or_else (get_entry tenant m) 0) tenant_flag tenant m
          (counted cap tenant m one le) le,
    )
forbidden_flags-in_flight cap tenant wake l one le =
    let m = l.wake_counts in
    ground (
      arith,
      has_row-append (str_eq (wake_flag tenant)) (at_cap cap tenant_flag l.delivery_counts)
          (at_cap cap wake_flag m),
      at_cap-get_entry cap (or_else (get_entry tenant m) 0) wake_flag tenant m
          (counted cap tenant m one le) le,
    )
