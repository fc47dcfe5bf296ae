-- ===== src/Agent/Connections.antt =====
-- `ConnectionLimiter`: the count behind the mutex, and the threads at its condition variable.
use keyvisor.Prelude.{ℕ, ◌+◌, ◌-◌, ◌≤◌, ◌<◌, ◌≡◌, refl, ◌⊎◌, inl, arith, leb, ◌==◌, if◌then◌else◌}

-- `active` is the guarded count. The threads that sleep in `wait`, the threads that `wait` has
-- let go and that have not had the mutex yet, and the live `ConnectionPermit` values are those of
-- the process, not fields of the source's type.
pub record Limiter : Type 0 where
  pub maximum : ℕ
  pub active : ℕ
  pub sleeping : ℕ
  pub woken : ℕ
  pub permits : ℕ

unfoldable pub new : ℕ → Limiter
new maximum = record { maximum = maximum; active = 0; sleeping = 0; woken = 0; permits = 0 }

-- `while *active >= self.maximum { wait }; *active += 1`, up to the next `wait` or to the permit.
unfoldable pub acquire : Limiter → Limiter
acquire l =
    if leb l.maximum l.active
    then record l { sleeping = l.sleeping + 1 }
    else record l { active = l.active + 1; permits = l.permits + 1 }

-- `wait` lets a thread go: `notify_one`, or a wake-up without one.
unfoldable pub wake : Limiter → Limiter
wake l = if l.sleeping == 0 then l else record l { sleeping = l.sleeping - 1; woken = l.woken + 1 }

-- A thread that was let go has the mutex again and tests the count again.
unfoldable pub resume : Limiter → Limiter
resume l = acquire (record l { woken = l.woken - 1 })

-- `Drop for ConnectionPermit`: `saturating_sub(1)` and `notify_one`.
unfoldable pub release : Limiter → Limiter
release l = wake (record l { active = l.active - 1; permits = l.permits - 1 })

pub data Step : Limiter → Limiter → Type 0 where
  acquires : (l : Limiter) → Step l (acquire l)
  wakes : (l : Limiter) → Step l (wake l)
  resumes : (l : Limiter) → 0 < l.woken → Step l (resume l)
  releases : (l : Limiter) → 0 < l.permits → Step l (release l)

-- The states that the threads can bring about.
pub data Reachable (maximum : ℕ) : Limiter → Type 0 where
  start : Reachable maximum (new maximum)
  after : (l l' : Limiter) → Reachable maximum l → Step l l' → Reachable maximum l'

-- The count is the number of permits, which is at most `maximum`; and a thread sleeps only while
-- the connections and the threads that are about to take a place fill all places.
pub record IsSafe (maximum : ℕ) (l : Limiter) : Type 0 where
  pub same_maximum : l.maximum ≡ maximum
  pub counted : l.active ≡ l.permits
  pub bounded : l.permits ≤ maximum
  pub awake : (l.sleeping ≡ 0) ⊎ (maximum ≤ l.active + l.woken)

acquire-IsSafe : (maximum : ℕ) (l : Limiter) → IsSafe maximum l → IsSafe maximum (acquire l)
unfolding acquire
acquire-IsSafe maximum l s =
    let a = s.same_maximum in
    let b = s.counted in
    let c = s.bounded in
    let d = s.awake in
    record {
      same_maximum = ground arith;
      counted = ground arith;
      bounded = ground arith;
      awake = ground arith;
    }

wake-IsSafe : (maximum : ℕ) (l : Limiter) → IsSafe maximum l → IsSafe maximum (wake l)
unfolding wake
wake-IsSafe maximum l s =
    let a = s.same_maximum in
    let b = s.counted in
    let c = s.bounded in
    let d = s.awake in
    record {
      same_maximum = ground arith;
      counted = ground arith;
      bounded = ground arith;
      awake = ground arith;
    }

resume-IsSafe :
    (maximum : ℕ) (l : Limiter) → IsSafe maximum l → 0 < l.woken → IsSafe maximum (resume l)
unfolding resume acquire
resume-IsSafe maximum l s h =
    let a = s.same_maximum in
    let b = s.counted in
    let c = s.bounded in
    let d = s.awake in
    record {
      same_maximum = ground arith;
      counted = ground arith;
      bounded = ground arith;
      awake = ground arith;
    }

release-IsSafe :
    (maximum : ℕ) (l : Limiter) → IsSafe maximum l → 0 < l.permits → IsSafe maximum (release l)
unfolding release wake
release-IsSafe maximum l s h =
    let a = s.same_maximum in
    let b = s.counted in
    let c = s.bounded in
    let d = s.awake in
    record {
      same_maximum = ground arith;
      counted = ground arith;
      bounded = ground arith;
      awake = ground arith;
    }

-- In every state that the threads can reach, the count is the number of connections that are
-- served, at most `maximum` are, and a thread sleeps only while those that are served and those
-- that are about to be fill all places: no wake-up is lost.
pub Reachable-IsSafe : (maximum : ℕ) (l : Limiter) → Reachable maximum l → IsSafe maximum l
unfolding new
Reachable-IsSafe maximum _ start = record {
  same_maximum = refl;
  counted = refl;
  bounded = omega arith;
  awake = inl refl;
}
Reachable-IsSafe maximum _ (after _ _ r (acquires k)) =
    acquire-IsSafe maximum k (Reachable-IsSafe maximum k r)
Reachable-IsSafe maximum _ (after _ _ r (wakes k)) =
    wake-IsSafe maximum k (Reachable-IsSafe maximum k r)
Reachable-IsSafe maximum _ (after _ _ r (resumes k h)) =
    resume-IsSafe maximum k (Reachable-IsSafe maximum k r) h
Reachable-IsSafe maximum _ (after _ _ r (releases k h)) =
    release-IsSafe maximum k (Reachable-IsSafe maximum k r) h
