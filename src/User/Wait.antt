-- ===== src/User/Wait.antt =====
-- The calls that wait: lib/sys/lib_mutexw.c, lib_allocw.c and lib/gen/sleep.c. `others` is what
-- happens between a YIELD of the caller and its next turn. The loops run on fuel.
use muxx.Prelude.{
  ℕ, zero, suc, ◌+◌, ◌-◌, ◌*◌, ◌%◌, ◌^◌, ◌≡◌, ◌≢◌, ◌<◌, refl, ◌∙◌, ◌||◌, some, List, ◌==◌, ltb,
  if◌then◌else◌, update, arith,
}
use muxx.Prelude.Int.{ℤ, same}
use muxx.Config.{mut_mutexes, mut_alloc}
use muxx.Errors.{eok, elocked, enoavail}
use muxx.Kernel.{Kernel, ok, hung, Cmd, and_then}
use muxx.Sched.{Frame}
use muxx.Mutex.{svc_mutex}
use muxx.Mutex.Lock.{svc_mutex-free, svc_mutex-held}
use muxx.Driver.{svc_alloc}

module _ (others : Kernel → Kernel) (fp : Frame) where
  unfoldable pub mutexw : (fuel m op : ℕ) → Cmd ℤ
  mutexw zero m op k = hung
  mutexw (suc fuel) m op k = and_then (svc_mutex fp m op k) (λ rc k'.
      let again = mutexw fuel m op (others k') in if same rc elocked then again else ok rc k')

  unfoldable pub allocw : (fuel : ℕ) → List ℕ → (op : ℕ) → Cmd ℤ
  allocw zero name op k = hung
  allocw (suc fuel) name op k = and_then (svc_alloc fp name op k) (λ rc k'.
      let again = allocw fuel name op (others k') in
      if same rc enoavail || same rc elocked then again else ok rc k')

  -- `seconds * CLK_FREQ` is an `int` of 16 bits, which is then made a long with its sign.
  abbrev pub sleep_ticks : (seconds : ℕ) → ℕ
  sleep_ticks seconds =
      let product = seconds * 60 % 2 ^ 16 in
      if ltb product (2 ^ 15) then product else product + 2 ^ 32 - 2 ^ 16

  unfoldable pub sleep_from : (fuel start ticks : ℕ) → Cmd ℤ
  sleep_from zero start ticks k = hung
  sleep_from (suc fuel) start ticks k =
      let again = sleep_from fuel start ticks (others k) in
      if ltb ((k.utimeticks + 2 ^ 32 - start) % 2 ^ 32) ticks then again else ok eok k

  unfoldable pub sleep : (fuel seconds : ℕ) → Cmd ℤ
  sleep fuel seconds k =
      if seconds == 0 then ok eok k else sleep_from fuel k.utimeticks (sleep_ticks seconds) k

  -- The mutex is held at each of the caller's first `n` turns and is free at the next one.
  abbrev pub FreeAfter : ℕ → (m : ℕ) → Kernel → Type 0
  FreeAfter zero m k = k.mutexes m ≡ 0
  FreeAfter (suc n) m k = (k.mutexes m ≢ 0) × FreeAfter n m (others (record k { ipl = 7 }))

  -- A task that waits for a mutex of the table, and finds it held at its first `n` turns and free at the next
  -- one, gets it there: the call returns EOK, and the mutex holds the low byte of the number that
  -- the task has then. No other task matters for this, if the caller is the running task at its
  -- turns.
  pub mutexw-FreeAfter :
      (n fuel m c : ℕ) (k : Kernel)
      → m < mut_mutexes
      → ((j : Kernel) → (others j).curtcb ≡ j.curtcb)
      → k.curtcb ≡ some c
      → FreeAfter n m k
      → n < fuel
      → (k' : Kernel) × (mutexw fuel m mut_alloc k ≡ ok eok k')
        × (k'.mutexes m ≡ (k'.tct c).pid % 256)
  unfolding mutexw
  mutexw-FreeAfter n zero m c k le turn cur free lt = absurd (omega (arith, lt))
  mutexw-FreeAfter zero (suc fuel) m c k le turn cur free lt = (
    record k { mutexes = update k.mutexes m ((k.tct c).pid % 2 ^ 8) },
    rw (svc_mutex-free fp m c k le cur free) refl,
    ground arith,
  )
  mutexw-FreeAfter (suc n) (suc fuel) m c k le turn cur (held, later) lt =
      let (k', got, holds) =
        mutexw-FreeAfter n fuel m c (others (record k { ipl = 7 })) le turn
          (turn (record k { ipl = 7 }) ∙ cur) later (omega (arith, lt)) in
      (k', rw (svc_mutex-held fp m k le held) got, holds)
