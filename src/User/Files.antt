-- ===== src/User/Files.antt =====
-- Descriptors: which one OPEN takes, what CLOSE gives back, and the caller's number.
use muxx.Prelude.{
  ℕ, zero, suc, ◌+◌, ◌≡◌, ◌≢◌, ◌<◌, ◌≤◌, refl, ◌∙◌, Bool, true, none, some, List, ◌==◌, update,
  arith, inl, inr, ◌⊎◌,
}
use muxx.Prelude.Int.{pos}
use muxx.Config.{iot_tentries}
use muxx.Errors.{eok, enosysres}
use muxx.Types.{Ptr}
use muxx.Kernel.{Kernel, ok, current-eq}
use muxx.Sched.{Frame}
use muxx.Channel.{svc_open}
use muxx.Task.{svc_gettpi}
use muxx.User.{first_free_fd, open_fd, lib_open, getpid}

-- A task gets its own number from `getpid`, whatever its privileges.
pub getpid-own :
    (fp : Frame) (k : Kernel) (c : ℕ) → k.curtcb ≡ some c → getpid fp k ≡ ok (pos (k.tct c).pid) k
unfolding getpid svc_gettpi
getpid-own fp k c cur =
    let mine : ((k.tct c).uic == (k.tct c).uic) ≡ true = ground arith in rw (cur, mine) refl

first_free_fd-lowest :
    (left i : ℕ) (t : ℕ → Ptr) (fd : ℕ)
    → i ≤ fd
    → fd < i + left
    → t fd ≡ none
    → ((j : ℕ) → i ≤ j → j < fd → t j ≢ none)
    → first_free_fd left i t ≡ some fd
unfolding first_free_fd
first_free_fd-lowest zero i t fd le lt free used = absurd (omega (arith, le, lt))
first_free_fd-lowest (suc left) i t fd le lt free used =
    let cases : (i ≡ fd) ⊎ (suc i ≤ fd) = omega (arith, le) in
    elim cases [
      | inl at ↦ ground (arith, at, free)
      | inr above ↦
          let rest =
            first_free_fd-lowest left (suc i) t fd above (omega (arith, lt)) free
              (λ j l. used j (omega (arith, l))) in
          ground (arith, rest, used i (omega arith) above)
    ]

open_fd-opened :
    (one_bit : Bool) (fp : Frame) (name : List ℕ) (k k' : Kernel) (c fd io : ℕ)
    → svc_open one_bit fp name k ≡ ok (some io) k'
    → open_fd one_bit fp name c fd k
      ≡ ok
          (pos fd)
          (record k' { channels = update k'.channels c (update (k'.channels c) fd (some io)) })
unfolding open_fd
open_fd-opened one_bit fp name k k' c fd io opened = rw (opened, open_fd) refl

pub lib_open-fd :
    (one_bit : Bool) (fp : Frame) (name : List ℕ) (k : Kernel) (c fd : ℕ)
    → k.curtcb ≡ some c
    → first_free_fd iot_tentries 0 (k.channels c) ≡ some fd
    → lib_open one_bit fp name k
      ≡ open_fd one_bit fp name c fd (record k { t_errno = update k.t_errno c eok })
unfolding lib_open
lib_open-fd one_bit fp name k c fd cur lowest = ground (arith, cur, lowest)

pub lib_open-no_fd :
    (one_bit : Bool) (fp : Frame) (name : List ℕ) (k : Kernel) (c : ℕ)
    → k.curtcb ≡ some c
    → first_free_fd iot_tentries 0 (k.channels c) ≡ none
    → lib_open one_bit fp name k
      ≡ ok enosysres (record k { t_errno = update (update k.t_errno c eok) c enosysres })
unfolding lib_open
lib_open-no_fd one_bit fp name k c cur full = ground (arith, cur, full)

pub open_fd-refused :
    (one_bit : Bool) (fp : Frame) (name : List ℕ) (k k' : Kernel) (c fd : ℕ)
    → svc_open one_bit fp name k ≡ ok none k'
    → k'.curtcb ≡ some c
    → open_fd one_bit fp name c fd k ≡ ok (k'.t_errno c) k'
unfolding open_fd
open_fd-refused one_bit fp name k k' c fd refused cur =
    rw (refused, open_fd, current-eq k' c cur) refl

-- `open` uses the lowest free descriptor: if the kernel opens a channel, the descriptor is
-- returned and leads to the channel, and the caller's other descriptors and all other state are as
-- the kernel left them.
pub lib_open-lowest :
    (one_bit : Bool) (fp : Frame) (name : List ℕ) (k k' : Kernel) (c fd io : ℕ)
    → k.curtcb ≡ some c
    → fd < iot_tentries
    → k.channels c fd ≡ none
    → ((j : ℕ) → j < fd → k.channels c j ≢ none)
    → svc_open one_bit fp name (record k { t_errno = update k.t_errno c eok }) ≡ ok (some io) k'
    → lib_open one_bit fp name k
      ≡ ok
          (pos fd)
          (record k' { channels = update k'.channels c (update (k'.channels c) fd (some io)) })
lib_open-lowest one_bit fp name k k' c fd io cur lt free used opened =
    let lowest =
      first_free_fd-lowest iot_tentries 0 (k.channels c) fd (omega arith) (omega (arith, lt)) free
        (λ j le l. used j l) in
    lib_open-fd one_bit fp name k c fd cur lowest
    ∙ open_fd-opened one_bit fp name (record k { t_errno = update k.t_errno c eok }) k' c fd io
        opened
