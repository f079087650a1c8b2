-- ===== src/User/Image.antt =====
-- Where `load` writes, and what it returns.
use muxx.Prelude.{
  ℕ, ◌+◌, ◌^◌, ◌/◌, ◌%◌, ◌≡◌, ◌≢◌, if◌then◌else◌, ◌<◌, ◌≤◌, refl, true, Option, some, ◌==◌, ltb,
  arith, inl, inr, ◌⊎◌, Bool-cases,
}
use muxx.Config.{task_base}
use muxx.Errors.{eok, enomem}
use muxx.Kernel.{
  Kernel, Run, ok, switched, halted, fault, hung, Cmd, pure, and_then, ◌>>=◌, current-eq, set_errno,
}
use muxx.Sched.{Frame}
use muxx.Driver.Exec.{Callback}
use muxx.Channel.{get_errno}
use muxx.Task.{svc_gettpi}
use muxx.User.{lib_read}
use muxx.User.Loader.{
  Memory, store, ExecHeader, has_magic, space_of, image_size, Loaded, read_at, load_segments,
  load_image,
}

-- If the call returns, then with a value that is as `P` says.
abbrev pub Gives : {A : Type 0} → (A → Type 0) → Run A → Type 0
Gives P (ok a k) = P a
Gives P (switched k) = Unit
Gives P (halted k) = Unit
Gives P fault = Unit
Gives P hung = Unit

Gives-and_then :
    {A B : Type 0} (P : A → Type 0) (Q : B → Type 0) (r : Run A) (f : A → Cmd B)
    → Gives P r
    → ((a : A) (k : Kernel) → P a → Gives Q (f a k))
    → Gives Q (and_then r f)
Gives-and_then P Q (ok a k) f p h = h a k p
Gives-and_then P Q (switched k) f p h = tt
Gives-and_then P Q (halted k) f p h = tt
Gives-and_then P Q fault f p h = tt
Gives-and_then P Q hung f p h = tt

Gives-any : {A : Type 0} (r : Run A) → Gives (λ a. Unit {0}) r
Gives-any (ok a k) = tt
Gives-any (switched k) = tt
Gives-any (halted k) = tt
Gives-any fault = tt
Gives-any hung = tt

-- The bytes that a task of type `t` has from page 3 on, for the sizes that there are: two bits say
-- one, two or three pages of 8 KB. Both bits together are no size.
abbrev pub room : (t : ℕ) → ℕ
room t = if t / 8 % 4 == 2 then 24576 else if t / 8 % 4 == 1 then 16384 else 8192

space_of-room : (t : ℕ) → t / 8 % 4 ≢ 3 → space_of t ≡ room t
unfolding space_of
space_of-room t sized = ground (arith, sized)

-- Outside `n` bytes from `low` on, memory is the same.
abbrev pub IsOutside : (low n : ℕ) → (before after : Memory) → Type 0
IsOutside low n before after = (a : ℕ) → (a < low) ⊎ (low + n ≤ a) → after a ≡ before a

store-IsOutside :
    (low n dest k : ℕ) (b : ℕ → ℕ) (m0 m : Memory)
    → low ≤ dest
    → dest + k ≤ low + n
    → IsOutside low n m0 m
    → IsOutside low n m0 (store dest k b m)
unfolding store
store-IsOutside low n dest k b m0 m le fits h a out = ground (arith, h a out, out)

svc_gettpi-own :
    (fp : Frame) (k : Kernel) (c : ℕ)
    → k.curtcb ≡ some c
    → svc_gettpi fp 0 k ≡ ok (eok, some (k.tct c)) k
unfolding svc_gettpi
svc_gettpi-own fp k c cur =
    let mine : ((k.tct c).uic == (k.tct c).uic) ≡ true = ground arith in
    rw (current-eq k c cur, cur, mine) refl

module _ (call : Callback) (fp : Frame) where
  read_at-IsOutside :
      (low n fd size dest : ℕ) (m0 m : Memory) (k : Kernel)
      → low ≤ dest
      → dest + size ≤ low + n
      → IsOutside low n m0 m
      → Gives (λ r. IsOutside low n m0 r.1) (read_at call fp fd size dest m k)
  read_at-IsOutside low n fd size dest m0 m k le fits h =
      Gives-and_then (λ a. Unit {0}) _ (lib_read call fp fd size (λ i. m (dest + i)) k) _
        (Gives-any (lib_read call fp fd size (λ i. m (dest + i)) k))
        (λ a k1 u. store-IsOutside low n dest size a.1 m0 m le fits h)

  -- The end after a read that fell short.
  errno-IsOutside :
      (low n size : ℕ) (entry : Option ℕ) (m0 m : Memory) (k : Kernel)
      → IsOutside low n m0 m
      → Gives
          (λ (r : Loaded). IsOutside low n m0 r.memory)
          ((do rc ← get_errno; pure (record { rc = rc; size = size; entry = entry; memory = m })) k)
  errno-IsOutside low n size entry m0 m k h =
      Gives-and_then (λ a. Unit {0}) _ (get_errno k) _ (Gives-any (get_errno k)) (λ a k1 u. h)

  load_segments-IsOutside :
      (n fd : ℕ) (h : ExecHeader) (m : Memory) (k : Kernel)
      → h.a_text + h.a_data + h.a_bss ≤ n
      → Gives (λ (r : Loaded). IsOutside task_base n m r.memory) (load_segments call fp fd h m k)
  unfolding load_segments
  load_segments-IsOutside n fd h m k fits =
      let size = image_size h in
      Gives-and_then (λ r. IsOutside task_base n m r.1) _
        (read_at call fp fd h.a_text task_base m k) _
        (read_at-IsOutside task_base n fd h.a_text task_base m m k (omega arith)
          (omega (arith, fits)) (λ a o. refl))
        λ (got, m1) k1 p1. elim (Bool-cases (ltb got h.a_text)) [
          | inl short ↦ rw short (errno-IsOutside task_base n size (some h.a_entry) m m1 k1 p1)
          | inr full ↦ rw full (
              Gives-and_then (λ r. IsOutside task_base n m r.1) _
                (read_at call fp fd h.a_data (task_base + h.a_text) m1 k1) _
                (read_at-IsOutside task_base n fd h.a_data (task_base + h.a_text) m m1 k1
                  (omega arith) (omega (arith, fits)) p1)
                λ (got2, m2) k2 p2. elim (Bool-cases (ltb got2 h.a_data)) [
                  | inl short ↦
                      rw short (errno-IsOutside task_base n size (some h.a_entry) m m2 k2 p2)
                  | inr all ↦ rw all (
                      store-IsOutside task_base n (task_base + h.a_text + h.a_data) h.a_bss (λ i. 0)
                        m m2 (omega arith) (omega (arith, fits)) p2)
                ])
        ]

  -- If the sizes of text, data and the cleared area do not add up to more than a word, and the two
  -- size bits of the task's type are not both set, `load` changes no memory outside the one, two
  -- or three pages of 8 KB that these bits stand for, from page 3 on: for every header, whatever
  -- the device delivers.
  pub load_image-IsOutside :
      (fd c : ℕ) (h : ExecHeader) (m : Memory) (k : Kernel)
      → k.curtcb ≡ some c
      → h.a_text + h.a_data + h.a_bss < 2 ^ 16
      → (k.tct c).task_type / 8 % 4 ≢ 3
      → Gives
          (λ (r : Loaded). IsOutside task_base (room (k.tct c).task_type) m r.memory)
          (load_image call fp fd h m k)
  unfolding load_image
  load_image-IsOutside fd c h m k cur lt sized = elim (Bool-cases (has_magic h)) [
    | inr unknown ↦ rw unknown (λ a o. refl)
    | inl known ↦ elim (Bool-cases (ltb (space_of (k.tct c).task_type) (image_size h))) [
      | inl large ↦
          rw (known, svc_gettpi-own fp k c cur, large)
            (Gives-and_then (λ a. Unit {0}) _ (set_errno enomem k) _
              (Gives-any (set_errno enomem k)) (λ a k1 u b o. refl))
      | inr small ↦
          rw (known, svc_gettpi-own fp k c cur, small)
            (load_segments-IsOutside (room (k.tct c).task_type) fd h m k
              (ground (arith, small, lt, space_of-room (k.tct c).task_type sized)))
    ]
  ]
