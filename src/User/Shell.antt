-- ===== src/User/Shell.antt =====
-- The shell, shell/rshell.c, up to the jump into the program. `others` is what happens between a
-- YIELD of the shell, which sleeps between two attempts, and its next turn. The loop runs on fuel.
use muxx.Prelude.{
  ℕ, zero, suc, ◌≡◌, refl, ap, ◌∙◌, ◌⊎◌, inl, inr, Bool, ◌||◌, Option, none, List, if◌then◌else◌,
  update, arith, Bool-cases, Option-cases, ltb, ◌-◌, ◌%◌, ◌^◌, ◌+◌,
}
use muxx.Prelude.Int.{ℤ, same, is_neg}
use muxx.Config.{iot_sentries, iot_tentries}
use muxx.Errors.{eok, enoavail, enosysres}
use muxx.Kernel.{Kernel, ok, hung, Cmd, and_then}
use muxx.Sched.{Frame}
use muxx.Driver.Exec.{Callback}
use muxx.Channel.{first_free_iote}
use muxx.Channel.Refused.{MayOpen, svc_open-full}
use muxx.User.{lib_open, first_free_fd}
use muxx.User.Files.{lib_open-fd, lib_open-no_fd, open_fd-refused}
use muxx.User.Wait.{sleep, sleep_from, sleep_ticks}
use muxx.User.Loader.{Loaded, Memory, load}

-- The shell jumps to the entry point, which is NULL if `load` did not set it, or it has given up.
pub data Outcome : Type 0 where
  jumps : (entry : Option ℕ) → Memory → Outcome
  gives_up : ℤ → Outcome

abbrev pub outcome : Loaded → Outcome
outcome r = if is_neg r.rc then gives_up r.rc else jumps r.entry r.memory

module _ (call : Callback) (others : Kernel → Kernel) (one_bit : Bool) (fp : Frame) where
  -- `naps` is the fuel of each sleep.
  unfoldable pub rshell : (fuel naps : ℕ) (parm : List ℕ) → Memory → Cmd Outcome
  rshell zero naps parm m k = hung
  rshell (suc fuel) naps parm m k = and_then (load call fp one_bit parm m k) (λ r k1.
      let again = and_then (sleep others fp naps 1 k1) (λ rc. rshell fuel naps parm r.memory) in
      if same r.rc enoavail || same r.rc enosysres then again else ok (outcome r) k1)

  -- No entry of the I/O table is free; task `c` may open channels.
  abbrev pub IsStarved : (c : ℕ) → Kernel → Type 0
  IsStarved c k = MayOpen one_bit fp c k × (first_free_iote iot_sentries 0 k.iott ≡ none)

  lib_open-IsStarved :
      (c : ℕ) (device : List ℕ) (k : Kernel)
      → IsStarved c k
      → (errors : ℕ → ℤ) × (lib_open one_bit fp device k
          ≡ ok enosysres (record k { t_errno = errors }))
  lib_open-IsStarved c device k (may, full) =
      let k1 : Kernel = record k { t_errno = update k.t_errno c eok } in
      let errors : ℕ → ℤ = update k1.t_errno c enosysres in
      let k2 : Kernel = record k { t_errno = errors } in
      let code : k2.t_errno c ≡ enosysres = ground arith in
      elim (Option-cases (first_free_fd iot_tentries 0 (k.channels c))) [
        | inl none_free ↦ (errors, lib_open-no_fd one_bit fp device k c may.0 none_free)
        | inr (fd, found) ↦ (
          errors,
          lib_open-fd one_bit fp device k c fd may.0 found
              ∙ open_fd-refused one_bit fp device k1 k2 c fd
                  (svc_open-full one_bit fp c device k1 may full) may.0
              ∙ ap (λ e. ok e k2) code,
        )
      ]

  load-IsStarved :
      (c : ℕ) (parm : List ℕ) (m : Memory) (k : Kernel)
      → IsStarved c k
      → (errors : ℕ → ℤ) × (load call fp one_bit parm m k
          ≡ ok
              (record { rc = enosysres; size = 0; entry = none; memory = m })
              (record k { t_errno = errors }))
  unfolding load
  load-IsStarved c parm m k starved =
      let (errors, run) = lib_open-IsStarved c parm k starved in (errors, rw run refl)

  -- A sleep runs out of fuel or ends in such a state, if no turn of another task frees an entry.
  sleep_from-IsStarved :
      (c fuel start ticks : ℕ) (k : Kernel)
      → ((j : Kernel) → IsStarved c j → IsStarved c (others j))
      → IsStarved c k
      → (sleep_from others fp fuel start ticks k ≡ hung)
        ⊎ ((k' : Kernel) × (sleep_from others fp fuel start ticks k ≡ ok eok k') × IsStarved c k')
  unfolding sleep_from
  sleep_from-IsStarved c zero start ticks k keeps starved = inl refl
  sleep_from-IsStarved c (suc fuel) start ticks k keeps starved =
      elim (Bool-cases (ltb ((k.utimeticks + 2 ^ 32 - start) % 2 ^ 32) ticks)) [
        | inr over ↦ inr (k, rw over refl, starved)
        | inl early ↦
            rw early (sleep_from-IsStarved c fuel start ticks (others k) keeps (keeps k starved))
      ]

  -- Once no entry of the I/O table is free, and as long as no other task frees one while the shell
  -- sleeps, the shell tries for ever: no number of attempts ends the loop, whether or not the device
  -- has become available. The shell's task has a number that fits into a byte, it is the running one
  -- at its turns, and the mutex of the channels is free then.
  pub rshell-IsStarved :
      (c fuel naps : ℕ) (parm : List ℕ) (m : Memory) (k : Kernel)
      → ((j : Kernel) → IsStarved c j → IsStarved c (others j))
      → IsStarved c k
      → rshell fuel naps parm m k ≡ hung
  unfolding rshell sleep
  rshell-IsStarved c zero naps parm m k keeps starved = refl
  rshell-IsStarved c (suc fuel) naps parm m k keeps starved =
      let (errors, run) = load-IsStarved c parm m k starved in
      let k1 : Kernel = record k { t_errno = errors } in
      elim (sleep_from-IsStarved c naps k1.utimeticks (sleep_ticks others fp 1) k1 keeps starved) [
        | inl endless ↦ rw (run, endless) refl
        | inr (k', woken, still) ↦
            rw (run, woken) (rshell-IsStarved c fuel naps parm m k' keeps still)
      ]
