-- ===== src/Tests/Kernels.antt =====
-- A kernel state for the tests: task 2 runs, and tasks 3, 5 and 7 are ready.
use muxx.Prelude.{
  ℕ, zero, suc, ◌+◌, ◌*◌, ◌%◌, ◌^◌, inl, inr, refl, true, false, none, some, List, [], ◌∷◌, arith,
  update, Bool-cases, ◌==◌,
}
use muxx.Errors.{eok}
use muxx.Types.{DrvDesc, DrvCb, Iote}
use muxx.Kernel.{Kernel}
use muxx.Sched.{Frame}
use muxx.Sched.Turn.{IsTurn}
use muxx.Channel.{zero_iote}
use muxx.Driver.{blank_name}
use muxx.Driver.Names.{HasDescriptors}
use muxx.Channel.Wired.{IsWired}
use muxx.Mem.{mem_init}
use muxx.Tests.Queues.{no_mmu, no_queue, three, three_queue, three-IsQueue}

abbrev pub a_frame : Frame
a_frame = record { gpr = λ i. i; pc = 0o60000; psw = 0xc000; ksp = 0o137776; usp = 0o157776 }

-- "PC", with blanks.
abbrev pub pc_name : List ℕ
pc_name = 80 ∷ 67 ∷ 32 ∷ 32 ∷ 32 ∷ 32 ∷ 32 ∷ 32 ∷ []

abbrev pub pc_desc : DrvDesc
pc_desc = record {
  callbacks = λ i. 0o20000 + 2 * i;
  shareable = false;
  buffered = false;
  devname = pc_name;
  defbufsiz = 0;
  isrtable = [];
}

abbrev pub no_driver : DrvCb
no_driver = record {
  drvname = blank_name;
  desc = none;
  free = true;
  loaded = false;
  active = false;
  stopped = false;
  alloc = false;
  taskid = none;
  ownerid = none;
  status = 0;
}

-- The driver PC is registered, and task 7 owns the device.
abbrev pub pc_driver : DrvCb
pc_driver = record no_driver {
  drvname = pc_name;
  desc = some pc_desc;
  free = false;
  loaded = true;
  active = true;
  alloc = true;
  ownerid = some 7;
}

-- Channel 4 is open on the driver.
abbrev pub pc_channel : Iote
pc_channel = record zero_iote { driver = some 0; open_flag = true }

abbrev pub running : Kernel
running = record {
  tct = three;
  curtcb = some 2;
  readyq = three_queue;
  suspq = no_queue;
  curtasks = 0;
  topspid = 1;
  minspid = 1;
  maxspid = 0o77;
  topupid = 0;
  minupid = 0o100;
  maxupid = 0o777;
  ustackt = 0o160000;
  kstackt = 0o140000;
  utimeticks = 0;
  clkcountdown = 5;
  clkquantum = 50;
  ipl = 0;
  mmu = no_mmu;
  mmcbt = mem_init;
  drvcbt = update (λ i. no_driver) 0 pc_driver;
  mutexes = λ i. 0;
  iott = update (λ i. zero_iote) 4 pc_channel;
  t_errno = λ i. eok;
  channels = λ i fd. none;
  vectors = λ i. 0;
  calls = [];
  memory = λ a. a % 2 ^ 8;
}

pub running-IsTurn : IsTurn running 2 (3 ∷ 5 ∷ 7 ∷ [])
running-IsTurn = record { current = refl; ready = three-IsQueue; out = refl }

pub running-HasDescriptors : HasDescriptors running.drvcbt
running-HasDescriptors zero lt = inr (pc_desc, refl)
running-HasDescriptors (suc i) lt = inl (ground arith)

pub running-IsWired : IsWired running.drvcbt running.iott
running-IsWired = record {
  registered = running-HasDescriptors;
  served = λ i l is. elim (Bool-cases (i == 4)) [
    | inl at ↦ (0, ground (arith, at), (omega arith, pc_desc, refl))
    | inr far ↦ absurd (ground (arith, far, is))
  ];
}
