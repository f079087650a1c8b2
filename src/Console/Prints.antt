-- ===== src/Console/Prints.antt =====
-- What `kprintf` sends and returns while the device answers in time.
use muxx.Prelude.{
  ℕ, ◌+◌, ◌%◌, ◌^◌, ◌≡◌, refl, sym, ◌∙◌, ap, true, false, List, [], ◌∷◌, ◌++◌, ◌==◌, append-nil,
  append_assoc, map, arith, if◌then◌else◌, inl, inr, Bool-cases,
}
use muxx.Console.{
  Kind, char, string, octal, long_octal, decimal, long_decimal, hex, unknown, kind_of, Console,
  Args, Print, Printed, done, Turn, goes_on, returns, kconputc, kputstr, kputstrz, put_all,
  directive, plain, kprintf_from, kprintf, itods, counted, literal,
}
use muxx.Console.Expand.{shown, plain_shown, counts, expand}

-- The device is ready whenever it is waited for.
abbrev pub Answers : Console → Type 0
Answers s = (i : ℕ) → s.answers i ≡ true

abbrev pub low_bytes : List ℕ → List ℕ
low_bytes = map (λ b. b % 2 ^ 8)

-- A call that sends `bytes` and returns 0.
pub record Sends (s : Console) (bytes : List ℕ) (r : ℕ × Console) : Type 0 where
  pub code : r.0 ≡ 0
  pub out : r.1.out ≡ s.out ++ low_bytes bytes
  pub still : r.1.answers ≡ s.answers

pub kconputc-Sends : (c : ℕ) (s : Console) → Answers s → Sends s (c ∷ []) (kconputc c s)
unfolding kconputc
kconputc-Sends c s a = record {
  code = rw (a s.waits, a (s.waits + 1)) refl;
  out = rw (a s.waits) refl;
  still = rw (a s.waits) refl;
}

kputstr-Sends : (b : ℕ) (bs : List ℕ) (s : Console) → Answers s → Sends s (b ∷ bs) (kputstr b bs s)
unfolding kputstr
kputstr-Sends b [] s a = kconputc-Sends b s a
kputstr-Sends b (c ∷ bs) s a =
    let first = kconputc-Sends b s a in
    let rest = kputstr-Sends c bs (kconputc b s).1 (λ i. rw first.still (a i)) in
    record {
      code = rest.code;
      out = rest.out ∙ ap (λ o. o ++ low_bytes (c ∷ bs)) first.out ∙ append_assoc s.out _ _;
      still = rest.still ∙ first.still;
    }

put_all-Sends : (bs : List ℕ) (s : Console) → Answers s → Sends s bs (put_all bs s)
unfolding put_all
put_all-Sends [] s a = record { code = refl; out = sym (append-nil s.out); still = refl }
put_all-Sends (b ∷ bs) s a = kputstr-Sends b bs s a

kputstrz-Sends : (bs : List ℕ) (s : Console) → Answers s → Sends s bs (kputstrz bs s)
unfolding kputstrz
kputstrz-Sends [] s a = record { code = refl; out = sym (append-nil s.out); still = refl }
kputstrz-Sends (b ∷ bs) s a =
    let first = kconputc-Sends b s a in
    let rest = kputstrz-Sends bs (kconputc b s).1 (λ i. rw first.still (a i)) in
    record {
      code = rest.code;
      out = rest.out ∙ ap (λ o. o ++ low_bytes bs) first.out ∙ append_assoc s.out _ _;
      still = rest.still ∙ first.still;
    }

-- One turn of the loop, which sends `bytes`, uses `words` and counts `n`.
record Steps (p : Print) (bytes : List ℕ) (words n : ℕ) (t : Turn) : Type 0 where
  pub q : Print
  pub is : t ≡ goes_on q
  pub rc : q.rc ≡ 0
  pub next : q.next ≡ p.next + words
  pub numc : q.numc ≡ p.numc + n
  pub out : q.console.out ≡ p.console.out ++ low_bytes bytes
  pub still : q.console.answers ≡ p.console.answers

counted-Steps :
    (words : ℕ) (p : Print) (bytes : List ℕ) (r : ℕ × Console)
    → Sends p.console bytes r
    → Steps p bytes words 0 (counted words p r)
counted-Steps words p bytes r h = record {
  q = record { next = p.next + words; numc = p.numc + r.0; rc = r.0; console = r.1 };
  is = refl;
  rc = h.code;
  next = refl;
  numc = omega (arith, h.code);
  out = h.out;
  still = h.still;
}

literal-Steps :
    (n : ℕ) (p : Print) (bytes : List ℕ) (r : ℕ × Console)
    → Sends p.console bytes r
    → Steps p bytes 0 n (literal n p r)
literal-Steps n p bytes r h = record {
  q = record p { numc = p.numc + n; rc = r.0; console = r.1 };
  is = let test : (r.0 == 0) ≡ true = ground (arith, h.code) in rw test refl;
  rc = h.code;
  next = omega arith;
  numc = refl;
  out = h.out;
  still = h.still;
}

plain-Steps :
    (c : ℕ) (p : Print)
    → Answers p.console
    → Steps p (plain_shown c).0 0 (plain_shown c).1 (plain c p)
unfolding plain
plain-Steps c p a = elim (Bool-cases (c == b'\n')) [
  | inl newline ↦ rw newline (literal-Steps 2 p _ _ (kputstr-Sends b'\r' (b'\n' ∷ []) p.console a))
  | inr other ↦ rw other (literal-Steps 1 p _ _ (kconputc-Sends c p.console a))
]

directive-Steps :
    (a : Args) (kind : Kind) (p : Print)
    → Answers p.console
    → p.rc ≡ 0
    → Steps p (shown a kind p.next).0 (shown a kind p.next).1 (counts kind) (directive a kind p)
unfolding directive shown counts
directive-Steps a char p on rc =
    let h = kconputc-Sends (a.words p.next) p.console on in
    let test : ((kconputc (a.words p.next) p.console).0 == 0) ≡ true = ground (arith, h.code) in
    record {
      q = _;
      is = refl;
      rc = h.code;
      next = refl;
      numc = rw test refl;
      out = h.out;
      still = h.still;
    }
directive-Steps a string p on rc = counted-Steps 1 p _ _ (kputstrz-Sends _ p.console on)
directive-Steps a octal p on rc = counted-Steps 1 p _ _ (put_all-Sends _ p.console on)
directive-Steps a long_octal p on rc = counted-Steps 2 p _ _ (put_all-Sends _ p.console on)
directive-Steps a decimal p on rc =
    let h = put_all-Sends (itods (a.words p.next)) p.console on in
    counted-Steps 1 p _ (p.rc, _) (record { code = rc; out = h.out; still = h.still })
directive-Steps a long_decimal p on rc = counted-Steps 2 p _ _ (put_all-Sends _ p.console on)
directive-Steps a hex p on rc = counted-Steps 1 p _ _ (put_all-Sends _ p.console on)
directive-Steps a unknown p on rc = literal-Steps 1 p _ _ (kconputc-Sends b'%' p.console on)

-- No percent sign is the last byte.
abbrev pub IsFormat : List ℕ → Type 0
IsFormat [] = Unit
IsFormat (c ∷ []) = (c == b'%') ≡ false
IsFormat (c ∷ d ∷ fmt) = if c == b'%' then IsFormat fmt else IsFormat (d ∷ fmt)

-- What a call of `kprintf` that ends has sent and returns.
record Ends (p : Print) (bytes : List ℕ) (n : ℕ) (r : Printed) : Type 0 where
  pub left : Console
  pub is : r ≡ done (p.numc + n) left
  pub out : left.out ≡ p.console.out ++ low_bytes bytes

map-append : {A B : Type 0} (f : A → B) (xs ys : List A) → map f (xs ++ ys) ≡ map f xs ++ map f ys
map-append f [] ys = refl
map-append f (x ∷ xs) ys = ap (λ l. f x ∷ l) (map-append f xs ys)

Steps-Ends :
    (p : Print) (bytes rest : List ℕ) (words n m : ℕ) (t : Turn) (next : Print → Printed)
    → (s : Steps p bytes words n t) → Ends s.q rest m (next s.q)
    → Ends p (bytes ++ rest) (n + m) (elim t [ goes_on q ↦ next q | returns rc c ↦ done rc c ])
Steps-Ends p bytes rest words n m t next s e = record {
  left = e.left;
  is = rw s.is (e.is ∙ ap (λ i. done i e.left) (omega (arith, s.numc)));
  out =
      e.out
      ∙ ap (λ o. o ++ low_bytes rest) s.out
      ∙ append_assoc p.console.out _ _
      ∙ ap (λ o. p.console.out ++ o) (sym (map-append _ bytes rest));
}

kprintf_from-Ends :
    (a : Args) (fmt : List ℕ) (p : Print)
    → IsFormat fmt
    → Answers p.console
    → p.rc ≡ 0
    → Ends p (expand a fmt p.next).0 (expand a fmt p.next).1 (kprintf_from a fmt p)
unfolding kprintf_from expand
kprintf_from-Ends a [] p f on rc = record {
  left = p.console;
  is = ap (λ i. done i p.console) (omega arith);
  out = sym (append-nil p.console.out);
}
kprintf_from-Ends a (c ∷ []) p f on rc =
    let s = plain-Steps c p on in
    record {
      left = s.q.console;
      is = rw (f, s.is) (ap (λ i. done i s.q.console) s.numc);
      out = s.out;
    }
kprintf_from-Ends a (c ∷ d ∷ fmt) p f on rc = elim (Bool-cases (c == b'%')) [
  | inl percent ↦
      let s = directive-Steps a (kind_of d) p on rc in
      let e = kprintf_from-Ends a fmt s.q (rw percent at f) (λ i. rw s.still (on i)) s.rc in
      rw (percent, ← s.next) (Steps-Ends p _ _ _ _ _ _ (λ q. kprintf_from a fmt q) s e)
  | inr other ↦
      let s = plain-Steps c p on in
      let e = kprintf_from-Ends a (d ∷ fmt) s.q (rw other at f) (λ i. rw s.still (on i)) s.rc in
      let stays : s.q.next ≡ p.next = s.next ∙ omega arith in
      rw other (Steps-Ends p _ _ _ _ _ _ (λ q. kprintf_from a (d ∷ fmt) q) s (rw stays at e))
]

-- For a format that does not end in a percent sign, and a device that is always ready, `kprintf`
-- sends the text with each directive replaced by its argument, and returns the number of plain
-- bytes, of `%c` and of unknown directives, a newline counting for two and the other directives
-- for none.
pub kprintf-expands :
    (a : Args) (fmt : List ℕ) (s : Console)
    → IsFormat fmt
    → Answers s
    → (left : Console) × (kprintf a fmt s ≡ done (expand a fmt 0).1 left)
      × (left.out ≡ s.out ++ low_bytes (expand a fmt 0).0)
unfolding kprintf
kprintf-expands a fmt s f on =
    let e =
      kprintf_from-Ends a fmt (record { next = 0; numc = 0; rc = 0; console = s }) f on refl in
    (e.left, e.is ∙ ap (λ n. done n e.left) (omega arith), e.out)
