-- ===== src/Dispatcher/Dedup.antt =====
-- src/dispatcher/dispatcher.ts, `createMessageDedup`: which deliveries of a message with an idempotency
-- key run. A run of the code has two parts with other runs between them: it enters, and when its
-- delivery has ended it settles.
use Prim.Native.String.{String}
use text.Mathlib.Text.{◌==◌ as str_eq}
use text.Mathlib.TextEquality.{eq_iff}
use workflow_world.Prelude.{
  ℕ, suc, ◌≤◌, ◌≡◌, ◌≢◌, refl, ap, none, Bool, true, false, List, [], ◌∷◌, ◌++◌, length, arith,
  is_some, if◌then◌else◌,
}
use workflow_world.Prelude.Entries.{
  get_entry, set_entry, delete_entry, renew_entry, get_entry-set_entry, get_entry-delete_entry,
  length-renew_entry, get_entry-renew_entry, str_eq_refl,
}

-- A `Set` is a `Map` whose values say nothing.
pub data Present : Type 0 where
  present : Present

pub record Dedup : Type 0 where
  pub completed : List (String × Present)
  pub inflight : List (String × Present)

abbrev pub default_dedup_limit : ℕ
default_dedup_limit = 10000

unfoldable pub mark_completed : ℕ → String → Dedup → Dedup
mark_completed limit key d = record d { completed = renew_entry limit key present d.completed }

-- What a run does on entry: it delivers, it returns, or it waits for the delivery in flight and returns.
pub data Entry : Type 0 where
  executes skips waits : Entry

unfoldable pub enter : String → Dedup → Entry × Dedup
enter key d =
    if is_some (get_entry key d.completed)
    then (skips, d)
    else if is_some (get_entry key d.inflight)
    then (waits, d)
    else (executes, record d { inflight = set_entry key present d.inflight })

-- `completed` says whether the delivery returned the outcome `completed`; one that throws did not.
unfoldable pub settle : ℕ → String → Bool → Dedup → Dedup
unfolding mark_completed
settle limit key completed d =
    let marked = if completed then mark_completed limit key d else d in
    record marked { inflight = delete_entry key marked.inflight }

abbrev pub empty_dedup : Dedup
empty_dedup = record { completed = []; inflight = [] }

-- What runs of the code do to the structures, and the deliveries they have under way: each `enter`
-- that executes starts one, and only one that is under way can settle.
pub data Step (limit : ℕ) : Dedup × List String → Dedup × List String → Type 0 where
  starts :
      (key : String) (d : Dedup) (under_way : List String)
      → (enter key d).0 ≡ executes
      → Step limit (d, under_way) ((enter key d).1, key ∷ under_way)
  turns_away :
      (key : String) (d : Dedup) (under_way : List String)
      → (enter key d).0 ≢ executes
      → Step limit (d, under_way) ((enter key d).1, under_way)
  settles :
      (key : String) (completed : Bool) (d : Dedup) (before after : List String)
      → Step limit (d, before ++ key ∷ after) (settle limit key completed d, before ++ after)

pub data Reach (limit : ℕ) : Dedup × List String → Type 0 where
  fresh : Reach limit (empty_dedup, [])
  after : (s t : Dedup × List String) → Reach limit s → Step limit s t → Reach limit t

abbrev pub occurrences : String → List String → ℕ
occurrences key [] = 0
occurrences key (k ∷ ks) = if str_eq k key then suc (occurrences key ks) else occurrences key ks

occurrences-append :
    (key k : String) (xs ys : List String)
    → occurrences key (xs ++ k ∷ ys)
      ≡ (if str_eq k key then suc (occurrences key (xs ++ ys)) else occurrences key (xs ++ ys))
occurrences-append key k [] ys = refl
occurrences-append key k (x ∷ xs) ys = ground (arith, occurrences-append key k xs ys)

-- The deliveries under way are those of the map of the ones in flight, once each.
abbrev Agrees : Dedup × List String → Type 0
Agrees s =
    (key : String) → occurrences key s.1 ≡ (if is_some (get_entry key s.0.inflight) then 1 else 0)

settle-inflight :
    (limit : ℕ) (key : String) (completed : Bool) (d : Dedup)
    → (settle limit key completed d).inflight ≡ delete_entry key d.inflight
unfolding settle
settle-inflight limit key true d = refl
settle-inflight limit key false d = refl

Step-Agrees : (limit : ℕ) (s t : Dedup × List String) → Step limit s t → Agrees s → Agrees t
unfolding enter
Step-Agrees limit s t (starts k d u e) h key =
    ground (arith, eq_iff k key, h k, h key, get_entry-set_entry k key present d.inflight)
Step-Agrees limit s t (turns_away k d u e) h key = ground (arith, h key)
Step-Agrees limit s t (settles k c d xs ys) h key = ground (
  arith,
  eq_iff k key,
  h k,
  h key,
  occurrences-append key k xs ys,
  occurrences-append k k xs ys,
  settle-inflight limit k c d,
  get_entry-delete_entry k key d.inflight,
)

Reach-Agrees : (limit : ℕ) (s : Dedup × List String) → Reach limit s → Agrees s
unfolding get_entry
Reach-Agrees limit s fresh key = refl
Reach-Agrees limit t (after s u r step) key =
    Step-Agrees limit s t step (Reach-Agrees limit s r) key

-- However the runs of the code interleave, at most one delivery of a key is under way.
pub Reach-occurrences :
    (limit : ℕ) (key : String) (s : Dedup × List String) → Reach limit s → occurrences key s.1 ≤ 1
Reach-occurrences limit key s r = ground (arith, Reach-Agrees limit s r key)

enter-completed : (key : String) (d : Dedup) → (enter key d).1.completed ≡ d.completed
unfolding enter
enter-completed key d = ground arith

settle-completed :
    (limit : ℕ) (key : String) (c : Bool) (d : Dedup)
    → length d.completed ≤ limit
    → length (settle limit key c d).completed ≤ limit
unfolding settle mark_completed
settle-completed limit key true d h = length-renew_entry limit key present d.completed h
settle-completed limit key false d h = h

-- The completed keys that are remembered are never more than the limit.
pub Reach-completed :
    (limit : ℕ) (s : Dedup × List String) → Reach limit s → length s.0.completed ≤ limit
Reach-completed limit s fresh = omega arith
Reach-completed limit t (after s u r (starts k d ks e)) =
    omega (arith, Reach-completed limit s r, ap (λ m. length m) (enter-completed k d))
Reach-completed limit t (after s u r (turns_away k d ks e)) =
    omega (arith, Reach-completed limit s r, ap (λ m. length m) (enter-completed k d))
Reach-completed limit t (after s u r (settles k c d xs ys)) =
    settle-completed limit k c d (Reach-completed limit s r)

-- What a settled delivery means for the next one of its key, when fewer keys than the limit are
-- remembered: it is skipped if the delivery completed, and delivered again if it did not.
pub settle-enter :
    (limit : ℕ) (key : String) (c : Bool) (d : Dedup)
    → get_entry key d.completed ≡ none
    → suc (length d.completed) ≤ limit
    → (enter key (settle limit key c d)).0 ≡ (if c then skips else executes)
unfolding settle mark_completed enter
settle-enter limit key true d new room =
    ground (arith, get_entry-renew_entry limit key key present d.completed room, str_eq_refl key)
settle-enter limit key false d new room =
    ground (arith, new, get_entry-delete_entry key key d.inflight, str_eq_refl key)
