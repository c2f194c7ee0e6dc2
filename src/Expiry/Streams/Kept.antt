-- ===== src/Expiry/Streams/Kept.antt =====
-- What the passes over the chunks leave.
use workflow_world.Prelude.{
  ℕ, zero, suc, ◌+◌, ◌-◌, ◌≤◌, ltb, ◌==◌, ◌≡◌, refl, ◌∙◌, sym, ap, arith, some, Bool, true, false,
  not, ◌&&◌, ◌||◌, List, [], ◌∷◌, has_row, select_where, length, if◌then◌else◌, Bool-cases, inl,
  inr,
}
use workflow_world.Storage.Schema.{Time}
use workflow_world.Dispatcher.Affinity.{is_terminal}
use workflow_world.Expiry.Lineage.{
  ExpiryRun, Chunk, Archive, owns, may_expire, same_lineage, holds_lineage, is_persistent,
}
use workflow_world.Expiry.Streams.{
  Deadline, delete_first, is_victim, delete_checkpoints, prune_batch, prune_from, prune, refuses,
  StreamRetentionResult,
}

select_where-delete_first :
    {A : Type 0} (p q : A → Bool) (n : ℕ) (xs : List A)
    → ((x : A) → q x ≡ true → p x ≡ false)
    → select_where q (delete_first n p xs).1 ≡ select_where q xs
unfolding select_where delete_first
select_where-delete_first p q n [] apart = refl
select_where-delete_first p q n (x ∷ xs) apart = ground (
  arith,
  apart x,
  select_where-delete_first p q (if p x && not (n == 0) then n - 1 else n) xs apart,
)

-- A run in whose lineage one run has not ended or is persistent.
abbrev pub is_held : List ExpiryRun → ExpiryRun → Bool
is_held runs r =
    has_row
      (λ l. same_lineage r l && (not (is_terminal l.status) || is_persistent l.retention_class))
      runs

-- A chunk that ends a stream, or of a run whose lineage is held.
abbrev pub is_protected : List ExpiryRun → Chunk → Bool
is_protected runs c =
    c.eof || not (has_row (λ r. owns c.tenant_id c.run_id r && not (is_held runs r)) runs)

has_row-weaken :
    {A : Type 0} (p q : A → Bool) (xs : List A)
    → ((x : A) → p x ≡ true → q x ≡ true)
    → has_row p xs ≡ true
    → has_row q xs ≡ true
unfolding has_row
has_row-weaken p q [] f h = cc
has_row-weaken p q (x ∷ xs) f h = ground (arith, f x, has_row-weaken p q xs f, h)

may_expire-is_held :
    (due : ExpiryRun → Bool) (now : Time) (s : Archive) (r : ExpiryRun)
    → may_expire due now s r ≡ true
    → is_held s.runs r ≡ false
unfolding may_expire
may_expire-is_held due now s r h = elim (Bool-cases (is_held s.runs r)) [
  | inl e ↦ ground (
    arith,
    h,
    e,
    has_row-weaken
        (λ l. same_lineage r l && (not (is_terminal l.status) || is_persistent l.retention_class))
        (λ l. same_lineage r l && holds_lineage due l) s.runs step e,
  )
  | inr e ↦ e
]
  where
    step :
        (l : ExpiryRun)
        → (same_lineage r l && (not (is_terminal l.status) || is_persistent l.retention_class))
          ≡ true
        → (same_lineage r l && holds_lineage due l) ≡ true
    step l k = ground (arith, k)

is_victim-is_protected :
    (due : Deadline) (now : Time) (s : Archive) (c : Chunk)
    → is_protected s.runs c ≡ true
    → is_victim due now s c ≡ false
unfolding is_victim
is_victim-is_protected due now s c h =
    elim (Bool-cases
      (has_row (λ r. owns c.tenant_id c.run_id r && may_expire (due now) now s r) s.runs)) [
        | inl e ↦ ground (
          arith,
          h,
          e,
          has_row-weaken (λ r. owns c.tenant_id c.run_id r && may_expire (due now) now s r)
              (λ r. owns c.tenant_id c.run_id r && not (is_held s.runs r)) s.runs step e,
        )
        | inr e ↦ ground (arith, e)
      ]
  where
    step :
        (r : ExpiryRun)
        → (owns c.tenant_id c.run_id r && may_expire (due now) now s r) ≡ true
        → (owns c.tenant_id c.run_id r && not (is_held s.runs r)) ≡ true
    step r k = ground (arith, k, may_expire-is_held (due now) now s r)

prune_batch-is_protected :
    (due : Deadline) (n : ℕ) (now : Time) (s : Archive)
    → select_where (is_protected s.runs) (prune_batch due n now s).1.chunks
      ≡ select_where (is_protected s.runs) s.chunks
unfolding prune_batch
prune_batch-is_protected due n now s =
    select_where-delete_first (is_victim due now s) (is_protected s.runs) n s.chunks
      (is_victim-is_protected due now s)

prune_from-is_protected :
    (due : Deadline) (n : ℕ) (clock : ℕ → Time) (left done deleted : ℕ) (s : Archive)
    → select_where (is_protected s.runs) (prune_from due n clock left done deleted s).1.chunks
      ≡ select_where (is_protected s.runs) s.chunks
unfolding prune_from prune_batch delete_checkpoints
prune_from-is_protected due n clock zero done deleted s = refl
prune_from-is_protected due n clock (suc left) done deleted s =
    let now = clock (done + 1) in
    let b = prune_batch due n now s in
    elim (Bool-cases (ltb b.0 n)) [
      | inl e ↦ (rw e (prune_batch-is_protected due n now s))
      | inr e ↦
          (rw e (
            prune_from-is_protected due n clock left (done + 1) (deleted + b.0) b.1
            ∙ prune_batch-is_protected due n now s))
    ]

-- What a pass returns with, it leaves as said, whatever its deadline, clock and limits: every chunk that
-- ends a stream and every chunk of a run in whose lineage one run has not ended or is persistent stay,
-- in their order.
pub prune-is_protected :
    (due : Deadline) (locked : Bool) (n m : ℕ) (clock : ℕ → Time) (s t : Archive)
    (r : StreamRetentionResult)
    → prune due locked n m clock s ≡ some (r, t)
    → select_where (is_protected s.runs) t.chunks ≡ select_where (is_protected s.runs) s.chunks
unfolding prune
prune-is_protected due locked n m clock s t r h = elim (Bool-cases (refuses n m)) [
  | inl e ↦ (let k = rw e at h in cc)
  | inr e ↦ elim (Bool-cases locked) [
    | inl l ↦
        (let k = rw (e, l) at h in
          ap (λ (a : Archive). select_where (is_protected s.runs) a.chunks) (sym (second k))
          ∙ prune_from-is_protected due n clock m 0 0 s)
    | inr l ↦
        (let k = rw (e, l) at h in
          ap (λ (a : Archive). select_where (is_protected s.runs) a.chunks) (sym (second k)))
  ]
]
  where
    second : {x y : StreamRetentionResult × Archive} → some x ≡ some y → x.1 ≡ y.1
    second k = cc

pub length-delete_first :
    {A : Type 0} (n : ℕ) (p : A → Bool) (xs : List A)
    → (delete_first n p xs).0 + length (delete_first n p xs).1 ≡ length xs
unfolding delete_first
length-delete_first n p [] = refl
length-delete_first n p (x ∷ xs) =
    ground (arith, length-delete_first (if p x && not (n == 0) then n - 1 else n) p xs)

pub delete_first-bound :
    {A : Type 0} (n : ℕ) (p : A → Bool) (xs : List A) → (delete_first n p xs).0 ≤ n
unfolding delete_first
delete_first-bound n p [] = omega arith
delete_first-bound n p (x ∷ xs) =
    ground (arith, delete_first-bound (if p x && not (n == 0) then n - 1 else n) p xs)

-- A batch that is not full has deleted every row of the test.
pub delete_first-all :
    {A : Type 0} (n : ℕ) (p : A → Bool) (xs : List A)
    → ltb (delete_first n p xs).0 n ≡ true
    → has_row p (delete_first n p xs).1 ≡ false
unfolding delete_first has_row
delete_first-all n p [] h = refl
delete_first-all n p (x ∷ xs) h = ground (
  arith,
  h,
  delete_first-all (if p x && not (n == 0) then n - 1 else n) p xs,
  delete_first-bound (if p x && not (n == 0) then n - 1 else n) p xs,
)
