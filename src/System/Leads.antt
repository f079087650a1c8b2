-- ===== src/System/Leads.antt =====
-- What calls on channels and drivers lead to: a result in a state of which something holds, or a
-- panic.
use muxx.Prelude.{ℕ, ◌≡◌, ◌≢◌, ◌∙◌, some, List, update}
use muxx.Prelude.Int.{ℤ}
use muxx.Config.{mut_mutexes}
use muxx.Types.{DrvCb, Iote, Iopkt}
use muxx.Kernel.{
  Kernel, Run, ok, switched, halted, fault, hung, Cmd, and_then, set_errno, current-eq,
}
use muxx.Mutex.{svc_mutex}
use muxx.Sched.{Frame}
use muxx.Sched.Turn.{Tables-trans}
use muxx.Channel.Wired.{Drives, IsServed, IsWired, IsWired-entry}
use muxx.Driver.{set_iote}
use muxx.System.{forget}
use muxx.System.Sane.{IsSane, Safe, goes_on, stops, Quiet, IsSane-Quiet}
use muxx.System.Locks.{svc_mutex-Settles, Quiet-of_fields}

abbrev pub Leads : {A : Type 0} → (A → Kernel → Type 0) → Run A → Type 0
Leads P (ok a k) = P a k
Leads P (switched k) = ⊥
Leads P (halted k) = Unit
Leads P fault = ⊥
Leads P hung = ⊥

pub Leads-and_then :
    {A B : Type 0} (P : A → Kernel → Type 0) (Q : B → Kernel → Type 0) (r : Run A) (f : A → Cmd B)
    → Leads P r
    → ((a : A) (k : Kernel) → P a k → Leads Q (f a k))
    → Leads Q (and_then r f)
Leads-and_then P Q (ok a k) f p h = h a k p
Leads-and_then P Q (switched k) f p h = absurd p
Leads-and_then P Q (halted k) f p h = tt
Leads-and_then P Q fault f p h = absurd p
Leads-and_then P Q hung f p h = absurd p

pub Leads-weaken :
    {A : Type 0} (P Q : A → Kernel → Type 0) (r : Run A)
    → Leads P r
    → ((a : A) (k : Kernel) → P a k → Q a k)
    → Leads Q r
Leads-weaken P Q (ok a k) p h = h a k p
Leads-weaken P Q (switched k) p h = absurd p
Leads-weaken P Q (halted k) p h = tt
Leads-weaken P Q fault p h = absurd p
Leads-weaken P Q hung p h = absurd p

-- Since `k0`, the queues and tables are the same, and the open channels have drivers.
pub record Tame (k0 k : Kernel) : Type 0 where
  pub quiet : Quiet k0 k
  pub wired : IsWired k.drvcbt k.iott

pub Quiet-trans : (k j l : Kernel) → Quiet k j → Quiet j l → Quiet k l
Quiet-trans k j l a b = record {
  tables = Tables-trans k j l a.tables b.tables;
  current = b.current ∙ a.current;
  ready = b.ready ∙ a.ready;
  suspended = b.suspended ∙ a.suspended;
  links = λ y. ((b.links y).0 ∙ (a.links y).0, (b.links y).1 ∙ (a.links y).1);
}

-- Changes of the fields that channels and drivers need.
pub Tame-fields :
    (k0 k : Kernel) (level : ℕ) (ms : ℕ → ℕ) (ds : ℕ → DrvCb) (t : ℕ → Iote) (es : ℕ → ℤ)
    (cs : List (ℕ × Iopkt))
    → Tame k0 k
    → IsWired ds t
    → Tame k0
        (record k { ipl = level; mutexes = ms; drvcbt = ds; iott = t; t_errno = es; calls = cs })
Tame-fields k0 k level ms ds t es cs g w = record {
  quiet = record {
    tables = record {
      pids = g.quiet.tables.pids;
      topspid = g.quiet.tables.topspid;
      maxspid = g.quiet.tables.maxspid;
      minupid = g.quiet.tables.minupid;
      topupid = g.quiet.tables.topupid;
      maxupid = g.quiet.tables.maxupid;
      curtasks = g.quiet.tables.curtasks;
      mmcbt = g.quiet.tables.mmcbt;
      wired = λ x. w;
    };
    current = g.quiet.current;
    ready = g.quiet.ready;
    suspended = g.quiet.suspended;
    links = g.quiet.links;
  };
  wired = w;
}

-- Tame, and something of the drivers and the I/O table.
abbrev pub With : Kernel → ((ℕ → DrvCb) → (ℕ → Iote) → Type 0) → Kernel → Type 0
With k0 R k = Tame k0 k × R k.drvcbt k.iott

abbrev pub Any : (ℕ → DrvCb) → (ℕ → Iote) → Type 0
Any ds t = Unit

pub With-refl : (k : Kernel) → IsWired k.drvcbt k.iott → With k Any k
With-refl k w = (
  record {
    quiet = Quiet-of_fields k k.ipl k.mutexes k.drvcbt k.vectors k.memory (λ x. x);
    wired = w;
  },
  tt,
)

pub Any-Safe :
    {A : Type 0} (k : Kernel) (c : ℕ) (xs ss : List ℕ) (r : Run A)
    → IsSane k c xs ss
    → Leads (λ a k'. With k Any k') r
    → Safe (forget r)
Any-Safe k c xs ss (ok a k') s (g, u) = goes_on (c, xs, ss, IsSane-Quiet k k' c xs ss g.quiet s)
Any-Safe k c xs ss (switched k') s p = absurd p
Any-Safe k c xs ss (halted k') s p = stops
Any-Safe k c xs ss fault s p = absurd p
Any-Safe k c xs ss hung s p = absurd p

-- Entry `io` has driver `d`, which has a descriptor.
abbrev pub On : (io d : ℕ) → (ℕ → DrvCb) → (ℕ → Iote) → Type 0
On io d ds t = ((t io).driver ≡ some d) × Drives ds d

pub On-IsServed :
    (io d : ℕ) (ds : ℕ → DrvCb) (t : ℕ → Iote) (e : Iote)
    → e.driver ≡ (t io).driver
    → On io d ds t
    → IsServed ds e
On-IsServed io d ds t e same (driver, drives) = λ is. (d, same ∙ driver, drives)

module _ (k0 : Kernel) (c : ℕ) (cur : k0.curtcb ≡ some c)
    (R : (ℕ → DrvCb) → (ℕ → Iote) → Type 0) where
  pub runs : (k : Kernel) → With k0 R k → k.curtcb ≡ some c
  runs k (g, r) = g.quiet.current ∙ cur

  pub set_errno-Leads :
      (rc : ℤ) (k : Kernel) → With k0 R k → Leads (λ a k'. With k0 R k') (set_errno rc k)
  set_errno-Leads rc k (g, r) =
      rw (current-eq k c (runs k (g, r)))
        (Tame-fields k0 k k.ipl k.mutexes k.drvcbt k.iott _ k.calls g g.wired, r)

  pub svc_mutex-Leads :
      (fp : Frame) (m op : ℕ) (k : Kernel)
      → m ≢ mut_mutexes
      → With k0 R k
      → Leads (λ rc k'. With k0 R k') (svc_mutex fp m op k)
  svc_mutex-Leads fp m op k ne (g, r) =
      let (rc, level, ms, e) = svc_mutex-Settles fp k c m op (runs k (g, r)) ne in
      rw e (Tame-fields k0 k level ms k.drvcbt k.iott k.t_errno k.calls g g.wired, r)

  pub set_iote-Leads :
      (R' : (ℕ → DrvCb) → (ℕ → Iote) → Type 0) (io : ℕ) (f : Iote → Iote) (k : Kernel)
      → With k0 R k
      → IsServed k.drvcbt (f (k.iott io))
      → R' k.drvcbt (update k.iott io (f (k.iott io)))
      → Leads (λ a k'. With k0 R' k') (set_iote io f k)
  set_iote-Leads R' io f k (g, r) is r' = (
    Tame-fields k0 k k.ipl k.mutexes k.drvcbt _ k.t_errno k.calls g
        (IsWired-entry k.drvcbt k.iott io (f (k.iott io)) is g.wired),
    r',
  )
