-- ===== src/Channel/Registered.antt =====
-- A driver from its registration on to an OPEN of its device.
use muxx.Prelude.{ℕ, true, false, some, List}
use muxx.Config.{drv_start}
use muxx.Types.{Ptr, DrvDesc, DrvCb, Iopkt}
use muxx.Kernel.{Kernel}
use muxx.Driver.Exec.{zero_iopkt}

abbrev pub registered : (name : List ℕ) → DrvDesc → (handler : Ptr) → DrvCb → DrvCb
registered name b handler x = record x {
  drvname = name;
  desc = some b;
  free = false;
  loaded = true;
  stopped = true;
  taskid = handler;
}

abbrev pub started : DrvCb → DrvCb
started x = record x { active = true; stopped = false }

abbrev start_packet : Iopkt
start_packet = record zero_iopkt { function = drv_start }
