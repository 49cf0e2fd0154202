-- ===== src/Reconciler/Retries.antt =====
-- How often a key is put back whose sync always fails.
use furiko.Prelude.{
  ◌≡◌, arith, ℕ, zero, suc, ◌+◌, pos, refl, ◌∙◌, Bool, false, ◌||◌, some, String, if◌then◌else◌,
  leb_ℤ, ltb_ℤ, length, eq_refl,
}
use furiko.Meta.{lookup-insert}
use furiko.Reconciler.{
  unlimited, Queue, Handler, num_requeues, add_rate_limited, sync_item, work, work_times,
}

module _ (handler : Handler) where
  -- Is a key put back after an error?
  abbrev is_retried : ℕ → Bool
  is_retried n = leb_ℤ handler.max_requeues (pos 0) || ltb_ℤ (pos n) handler.max_requeues

  work-requeues :
      (q : Queue) (key : String) (object : String × String)
      → handler.split key ≡ some object
      → handler.sync_one object.0 object.1 (num_requeues q key) ≡ false
      → (num_requeues (work handler q key) key ≡ (
          if is_retried (num_requeues q key) then suc (num_requeues q key) else num_requeues q key))
        × (length (work handler q key).added
            ≡ (if is_retried (num_requeues q key) then suc (length q.added) else length q.added))
  unfolding work sync_item num_requeues add_rate_limited
  work-requeues q key object e fails = (
    ground (arith, lookup-insert key key (suc (num_requeues q key)) q.requeues, eq_refl key),
    ground arith,
  )

  work-exceeded :
      (q : Queue) (key : String) (object : String × String)
      → handler.max_requeues ≡ unlimited
      → handler.split key ≡ some object
      → handler.sync_one object.0 object.1 (num_requeues q key) ≡ false
      → (work handler q key).exceeded ≡ q.exceeded
  unfolding work sync_item num_requeues add_rate_limited
  work-exceeded q key object limit split fails = ground arith

  -- A key whose sync always fails is put back by each of its works, and each one is counted, and
  -- the log never has the retries exceeded, where the limit of requeues is -1, as it is for every
  -- reconciler.
  pub work_times-endless :
      (n : ℕ) (q : Queue) (key : String) (object : String × String)
      → handler.max_requeues ≡ unlimited
      → handler.split key ≡ some object
      → ((c : ℕ) → handler.sync_one object.0 object.1 c ≡ false)
      → (length (work_times handler n q key).added ≡ length q.added + n)
        × (num_requeues (work_times handler n q key) key ≡ num_requeues q key + n)
        × ((work_times handler n q key).exceeded ≡ q.exceeded)
  work_times-endless zero q key object limit split fails = (omega arith, omega arith, refl)
  work_times-endless (suc n) q key object limit split fails =
      let (requeues, added) = work-requeues q key object split (fails (num_requeues q key)) in
      let (added', requeues', exceeded) =
        work_times-endless n (work handler q key) key object limit split fails in
      (
        ground (arith),
        ground (arith),
        exceeded ∙ work-exceeded q key object limit split (fails (num_requeues q key)),
      )
