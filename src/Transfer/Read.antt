-- ===== src/Transfer/Read.antt =====
-- READ against what it is for: the bytes that the driver supplies, up to the end of its input.
use muxx.Prelude.{
  ℕ, zero, suc, ◌+◌, ◌%◌, ◌^◌, ◌≡◌, ◌<◌, ◌≤◌, refl, ap, ◌∙◌, true, false, not, Option, none, some,
  List, ◌∷◌, ◌==◌, if◌then◌else◌, update, arith, inl, inr, ◌⊎◌, Bool-cases, Option-cases, length,
}
use muxx.Prelude.Int.{ℤ, pos, is_neg}
use muxx.Config.{drv_read}
use muxx.Errors.{eok, eeof}
use muxx.Types.{DrvDesc, Iopkt}
use muxx.Kernel.{Kernel, ok}
use muxx.Sched.{Frame}
use muxx.Driver.Exec.{Callback, drv_exec}
use muxx.Transfer.{byte_iopkt, read_from, read_open, svc_read}

-- The answer to the call number `j`: a byte, or the end.
abbrev pub supply : Option ℕ → Iopkt → ℤ × Iopkt
supply none p = (eeof, p)
supply (some x) p = (pos 1, record p { ioarea = x })

abbrev pub Supplies : Callback → (address : ℕ) → (ℕ → Option ℕ) → Type 0
Supplies call address source =
    (h : List (ℕ × Iopkt)) (p : Iopkt) → call h address p ≡ supply (source (length h)) p

-- How many of `left` bytes there are from call number `j` on.
abbrev pub available : (source : ℕ → Option ℕ) (left j : ℕ) → ℕ
available source zero j = 0
available source (suc left) j =
    let rest = available source left (suc j) in elim (source j) [ none ↦ 0 | some x ↦ suc rest ]

-- The bytes from call number `j` on are in the buffer from `i` on, and the last result tells
-- whether the input has ended.
pub record Received (source : ℕ → Option ℕ) (left i j : ℕ) (buffer : ℕ → ℕ) (rc : ℤ)
    (buffer' : ℕ → ℕ) : Type 0 where
  pub ended : is_neg rc ≡ not (available source left j == left)
  pub at_end : is_neg rc ≡ true → rc ≡ eeof
  pub bytes : (m : ℕ) → m < available source left j → source (j + m) ≡ some (buffer' (i + m))
  pub others : (m : ℕ) → (m < i) ⊎ (i + available source left j ≤ m) → buffer' m ≡ buffer m

exec-eq :
    (call : Callback) (source : ℕ → Option ℕ) (d : ℕ) (b : DrvDesc) (p : Iopkt) (k : Kernel)
    → (k.drvcbt d).desc ≡ some b
    → Supplies call (b.callbacks p.function) source
    → drv_exec call d p k
      ≡ ok
          (supply (source (length k.calls)) p)
          (record k { calls = (b.callbacks p.function, p) ∷ k.calls })
unfolding drv_exec
exec-eq call source d b p k e supplies = rw (e, supplies k.calls p, drv_exec) refl

read_from-ended :
    (call : Callback) (d left i : ℕ) (buffer : ℕ → ℕ) (p : Iopkt) (n : ℕ) (k : Kernel)
    → read_from call d left i buffer p eeof n k ≡ ok (eeof, n, buffer) k
unfolding read_from
read_from-ended call d zero i buffer p n k = refl
read_from-ended call d (suc left) i buffer p n k = refl

module _ (source : ℕ → Option ℕ) (left i j x : ℕ) (buffer buffer' : ℕ → ℕ) (rc : ℤ)
    (byte : source j ≡ some x)
    (r : Received source left (suc i) (suc j) (update buffer i x) rc buffer') where
  first_byte : buffer' i ≡ x
  first_byte = ground (arith, r.others i (inl (omega arith)))

  bytes-more :
      (m : ℕ) → m < suc (available source left (suc j)) → source (j + m) ≡ some (buffer' (i + m))
  bytes-more zero lt =
      let j0 : j + 0 ≡ j = omega arith in
      let i0 : i + 0 ≡ i = omega arith in rw (j0, i0, first_byte) byte
  bytes-more (suc m) lt =
      let j1 : j + suc m ≡ suc j + m = omega arith in
      let i1 : i + suc m ≡ suc i + m = omega arith in rw (j1, i1) (r.bytes m (omega (arith, lt)))

  Received-more : Received source (suc left) i j buffer rc buffer'
  Received-more = record {
    ended = ground (arith, byte, r.ended);
    at_end = r.at_end;
    bytes = λ m lt. bytes-more m (ground (arith, lt, byte));
    others = λ m h.
        let far : (m < suc i) ⊎ (suc i + available source left (suc j) ≤ m) =
          ground (arith, h, byte) in
        let ne : (i == m) ≡ false = ground (arith, h, byte) in ground (arith, r.others m far, ne);
  }

-- The loop, with `r` the last result and `n` bytes counted.
read_from-Received :
    (call : Callback) (source : ℕ → Option ℕ) (d : ℕ) (b : DrvDesc) (left i : ℕ) (buffer : ℕ → ℕ)
    (p : Iopkt) (r n : ℕ) (k : Kernel)
    → (k.drvcbt d).desc ≡ some b
    → Supplies call (b.callbacks p.function) source
    → n + left < 65536
    → (rc : ℤ) × (buffer' : ℕ → ℕ) × (calls : List (ℕ × Iopkt)) × (read_from call d left i buffer p
          (pos r)
          n
          k
        ≡ ok (rc, n + available source left (length k.calls), buffer') (record k { calls = calls }))
      × Received source left i (length k.calls) buffer rc buffer'
unfolding read_from
read_from-Received call source d b zero i buffer p r n k e supplies lt =
    let same_count : n + 0 ≡ n = omega arith in
    (
      pos r,
      buffer,
      k.calls,
      rw same_count refl,
      record {
        ended = refl;
        at_end = λ neg. absurd (ground (arith, neg));
        bytes = λ m lt'. absurd (omega (arith, lt'));
        others = λ m h. refl;
      },
    )
read_from-Received call source d b (suc left) i buffer p r n k e supplies lt =
    let step = exec-eq call source d b p k e supplies in
    let k1 : Kernel = record k { calls = (b.callbacks p.function, p) ∷ k.calls } in
    elim (Option-cases (source (length k.calls))) [
      | inl over ↦
          let same_count : (n + 0) % 2 ^ 16 ≡ n + 0 = omega (arith, lt) in
          let none_left : available source (suc left) (length k.calls) ≡ 0 = ground (arith, over) in
          (
            eeof,
            buffer,
            k1.calls,
            rw (none_left, step, over, same_count)
                (read_from-ended call d left (suc i) buffer p (n + 0) k1),
            record {
              ended = ground (arith, over);
              at_end = λ neg. refl;
              bytes = λ m lt'. absurd (ground (arith, lt', over));
              others = λ m h. refl;
            },
          )
      | inr (x, byte) ↦
          let one : (n + 1) % 2 ^ 16 ≡ n + 1 = omega (arith, lt) in
          let total : (n + 1) + available source left (suc (length k.calls))
              ≡ n + available source (suc left) (length k.calls) =
            ground (arith, byte) in
          let first : read_from call d (suc left) i buffer p (pos r) n k
              ≡ read_from call d left (suc i) (update buffer i x) (record p { ioarea = x }) (pos 1)
                  (n + 1) k1 =
            rw (step, byte, one) refl in
          let (rc, buffer', calls, run, got) =
            read_from-Received call source d b left (suc i) (update buffer i x)
              (record p { ioarea = x }) 1 (n + 1) k1 e supplies (omega (arith, lt)) in
          (
            rc,
            buffer',
            calls,
            first ∙ run ∙ ap (λ m. ok (rc, m, buffer') (record k { calls = calls })) total,
            Received-more source left i (length k.calls) x buffer buffer' rc byte got,
          )
    ]

opened-read :
    (call : Callback) (channel size : ℕ) (buffer : ℕ → ℕ) (k : Kernel) (d : ℕ) (b : DrvDesc)
    → (k.iott channel).open_flag ≡ true
    → (k.iott channel).driver ≡ some d
    → (k.drvcbt d).desc ≡ some b
    → b.buffered ≡ false
    → read_open call channel size buffer k
      ≡ read_from call d size 0 buffer (byte_iopkt drv_read (k.iott channel)) (pos 0) 0 k
unfolding read_open
opened-read call channel size buffer k d b is_open drv desc plain =
    ground (arith, is_open, drv, desc, plain)

-- The end of READ, after the loop.
svc_read-from :
    (call : Callback) (fp : Frame) (channel size : ℕ) (buffer buffer' : ℕ → ℕ) (rc : ℤ) (n c : ℕ)
    (k k' : Kernel)
    → read_open call channel size buffer k ≡ ok (rc, n, buffer') k'
    → k'.curtcb ≡ some c
    → is_neg rc ≡ not (n == size)
    → (is_neg rc ≡ true → rc ≡ eeof)
    → svc_read call fp channel size buffer k
      ≡ ok
          (n, buffer')
          (record k' {
            t_errno = update k'.t_errno c (if n == size then eok else eeof);
            iott =
                update k'.iott channel
                  (record (k'.iott channel) { ioerror = false; eof = not (n == size) });
          })
unfolding svc_read
svc_read-from call fp channel size buffer buffer' rc n c k k' run cur ended at_end =
    elim (Bool-cases (n == size)) [
      | inl whole ↦
          let good : is_neg rc ≡ false = ground (arith, ended, whole) in
          rw (run, cur, good, whole) refl
      | inr short ↦
          let bad : is_neg rc ≡ true = ground (arith, ended, short) in
          rw (run, at_end bad, cur, short) refl
    ]

-- On an open channel without buffer, whose driver answers the call number `j` with the byte
-- `source j`, or with EEOF where there is none, READ stores the bytes from the next call number on
-- into the buffer, up to the first call that has none or the size, and returns how many they are;
-- the other bytes of the buffer are as before. `errno` and the channel's end-of-file flag tell
-- whether the input ended before the size, the error flag is cleared, and all else but the list of
-- calls is as before.
pub svc_read-Received :
    (call : Callback) (source : ℕ → Option ℕ) (fp : Frame) (channel size : ℕ) (buffer : ℕ → ℕ)
    (k : Kernel) (c d : ℕ) (b : DrvDesc)
    → k.curtcb ≡ some c
    → (k.iott channel).open_flag ≡ true
    → (k.iott channel).driver ≡ some d
    → (k.drvcbt d).desc ≡ some b
    → b.buffered ≡ false
    → Supplies call (b.callbacks drv_read) source
    → size < 65536
    → (rc : ℤ) × (buffer' : ℕ → ℕ) × (calls : List (ℕ × Iopkt)) × (let n =
          available source size (length k.calls) in
        svc_read call fp channel size buffer k
        ≡ ok
            (n, buffer')
            (record k {
              calls = calls;
              t_errno = update k.t_errno c (if n == size then eok else eeof);
              iott =
                  update k.iott channel
                    (record (k.iott channel) { ioerror = false; eof = not (n == size) });
            }))
      × Received source size 0 (length k.calls) buffer rc buffer'
svc_read-Received call source fp channel size buffer k c d b cur is_open drv desc plain supplies
      lt =
    let (rc, buffer', calls, run, got) =
      read_from-Received call source d b size 0 buffer (byte_iopkt drv_read (k.iott channel)) 0 0 k
        desc supplies (omega (arith, lt)) in
    let count : 0 + available source size (length k.calls)
        ≡ available source size (length k.calls) =
      omega arith in
    let opened =
      opened-read call channel size buffer k d b is_open drv desc plain
      ∙ run
      ∙ ap (λ m. ok (rc, m, buffer') (record k { calls = calls })) count in
    (
      rc,
      buffer',
      calls,
      svc_read-from call fp channel size buffer buffer' rc (available source size (length k.calls))
          c k (record k { calls = calls }) opened cur got.ended got.at_end,
      got,
    )
