-- ===== src/Tests/Channels.antt =====
-- The theorems on OPEN and READ, where task 2 runs.
use muxx.Prelude.{
  ℕ, zero, suc, ◌+◌, ◌≡◌, refl, none, some, List, arith, update, Bool, true, Option, false, ltb,
  if◌then◌else◌, inl, inr, length,
}
use muxx.Prelude.Int.{ℤ, same}
use muxx.Config.{max_drv, iot_sentries}
use muxx.Errors.{eok, enosysres, eeof}
use muxx.Kernel.{Kernel, ok, hung}
use muxx.Driver.{same_bytes, str_len, find_driver_from}
use muxx.Driver.Names.{HasDescriptors, first_named, name_length}
use muxx.Driver.Exec.{Callback}
use muxx.Channel.{svc_open, svc_close, first_free_iote, zero_iote}
use muxx.Channel.Answer.{opening, noted}
use muxx.Channel.Opened.{placed, svc_open-opening}
use muxx.Channel.RoundTrip.{svc_open-close, returned}
use muxx.Channel.Refused.{opens, opens-IsRefused}
use muxx.Transfer.{svc_read}
use muxx.Transfer.Read.{supply, Received, svc_read-Received}
use muxx.Types.{Iopkt}
use muxx.User.Shell.{IsStarved, rshell, rshell-IsStarved}
use muxx.Tests.Kernels.{
  a_frame, running, running-HasDescriptors, no_driver, pc_name, pc_desc, pc_driver, pc_channel,
}

pc_slot : first_free_iote iot_sentries 0 running.iott ≡ some 0
unfolding first_free_iote
pc_slot = refl

-- PC, on entry 0, with task 2 as its owner or not started.
abbrev pc_with : (active : Bool) → Kernel
pc_with active = record running {
  drvcbt = update running.drvcbt 0 (record pc_driver { active = active; ownerid = some 2 });
}

pc_first :
    (active : Bool)
    → first_named max_drv 0 (pc_with active).drvcbt (name_length pc_name) pc_name ≡ some 0
unfolding same_bytes str_len
pc_first active = refl

pc_with-HasDescriptors : (active : Bool) → HasDescriptors (pc_with active).drvcbt
pc_with-HasDescriptors active zero lt = inr (pc_desc, refl)
pc_with-HasDescriptors active (suc i) lt = inl (ground arith)

svc_open-opening_example : svc_open false a_frame pc_name (pc_with true) ≡ (
    let (rc, x, f) = opening 2 pc_desc ((pc_with true).drvcbt 0) in
    ok
      (if same rc eok then some 0 else none)
      (record (noted 0 0 x (f (placed 0 zero_iote)) (pc_with true)) {
        t_errno = if same rc eok then running.t_errno else update running.t_errno 2 rc;
      }))
svc_open-opening_example =
    svc_open-opening false a_frame pc_name 0 0 2 pc_desc (pc_with true) refl (omega arith) refl refl
      (pc_with-HasDescriptors true) pc_slot (pc_first true) refl refl (inr (inl refl))

opens-IsRefused_example :
    (k' : Kernel) × (opens 15 false a_frame pc_name (pc_with false) ≡ ok tt k')
    × ((other_device : List ℕ)
        → svc_open false a_frame other_device k'
          ≡ ok none (record k' { t_errno = update k'.t_errno 2 enosysres }))
opens-IsRefused_example =
    opens-IsRefused false a_frame 2 15 pc_name 0 (pc_with false)
      (refl, omega arith, refl, pc_with-HasDescriptors false) (pc_first false, inl refl) refl

-- A driver that supplies the bytes 70 and 71, and has no more.
abbrev two_bytes : ℕ → Option ℕ
two_bytes j = if ltb j 2 then some (70 + j) else none

abbrev tape : Callback
tape h address p = supply (two_bytes (length h)) p

svc_read-Received_example :
    (rc : ℤ) × (buffer' : ℕ → ℕ) × (calls : List (ℕ × Iopkt)) × (svc_read tape a_frame 4 3
        (λ i. 0)
        running
      ≡ ok
          (2, buffer')
          (record running {
            calls = calls;
            t_errno = update running.t_errno 2 eeof;
            iott = update running.iott 4 (record pc_channel { ioerror = false; eof = true });
          }))
    × Received two_bytes 3 0 0 (λ i. 0) rc buffer'
svc_read-Received_example =
    svc_read-Received tape two_bytes a_frame 4 3 (λ i. 0) running 2 0 pc_desc refl refl refl refl
      refl (λ h p. refl) (omega arith)

-- All entries are in use, and time passes.
abbrev full : Kernel
full = record running { iott = λ i. pc_channel }

abbrev time_passes : Kernel → Kernel
time_passes k = record k { utimeticks = k.utimeticks + 60 }

full-IsStarved : IsStarved tape time_passes false a_frame 2 full
unfolding first_free_iote
full-IsStarved = ((refl, omega arith, refl, running-HasDescriptors), refl)

rshell-IsStarved_example : rshell tape time_passes false a_frame 9 9 pc_name (λ a. 0) full ≡ hung
rshell-IsStarved_example =
    rshell-IsStarved tape time_passes false a_frame 2 9 9 pc_name (λ a. 0) full (λ j s. s)
      full-IsStarved

-- The driver is started, and nobody has the device.
abbrev at_rest : Kernel
at_rest = record running {
  drvcbt = update running.drvcbt 0 (record pc_driver { alloc = false; ownerid = none });
}

at_rest-HasDescriptors : HasDescriptors at_rest.drvcbt
at_rest-HasDescriptors zero lt = inr (pc_desc, refl)
at_rest-HasDescriptors (suc i) lt = inl (ground arith)

at_rest_first : first_named max_drv 0 at_rest.drvcbt (name_length pc_name) pc_name ≡ some 0
unfolding same_bytes str_len
at_rest_first = refl

at_rest_found : find_driver_from max_drv 0 at_rest.drvcbt pc_name ≡ some 0
unfolding find_driver_from same_bytes
at_rest_found = refl

svc_open-close_example :
    (k1 : Kernel) × (svc_open false a_frame pc_name at_rest ≡ ok (some 0) k1)
    × ((k1.iott 0).open_flag ≡ true)
    × ((k1.drvcbt 0).ownerid ≡ some 2)
    × (svc_close a_frame 0 k1
        ≡ ok eok (record at_rest {
          iott = update running.iott 0 (returned zero_iote);
          t_errno = update running.t_errno 2 eok;
        }))
svc_open-close_example =
    svc_open-close false a_frame a_frame pc_name 0 0 2 pc_desc at_rest refl (omega arith) refl refl
      at_rest-HasDescriptors pc_slot refl at_rest_first refl refl refl refl refl refl at_rest_found

-- No driver is registered and no channel is open, and task 2 has OPERPRV.
abbrev bare : Kernel
bare = record running {
  drvcbt = λ i. no_driver;
  iott = λ i. zero_iote;
  tct =
      update running.tct 2
        (record (running.tct 2) { task = record (running.tct 2).task { privileges = 1 } });
}

-- A driver whose callbacks do nothing.
abbrev idle : Callback
idle h address p = (eok, p)
