-- ===== src/Tests/Programs.antt =====
-- The loader in a task that reads from an open channel.
use muxx.Prelude.{refl, some, arith}
use muxx.Kernel.{Kernel}
use muxx.Config.{task_base}
use muxx.User.Loader.{ExecHeader, Loaded, Memory, load_image}
use muxx.User.Image.{Gives, IsOutside, room, load_image-IsOutside}
use muxx.Tests.Kernels.{running, a_frame}
use muxx.Tests.Services.{ascii}

abbrev reader : Kernel
reader = record running { channels = λ t fd. some 4 }

abbrev a_header : ExecHeader
a_header = record { a_magic = 0o407; a_text = 3; a_data = 2; a_bss = 4; a_entry = task_base }

abbrev a_memory : Memory
a_memory a = 1

load_image-IsOutside_example :
    Gives
      (λ (r : Loaded). IsOutside task_base (room (reader.tct 2).task_type) a_memory r.memory)
      (load_image ascii a_frame 0 a_header a_memory reader)
load_image-IsOutside_example =
    load_image-IsOutside ascii a_frame 0 2 a_header a_memory reader refl (omega arith) (omega arith)
