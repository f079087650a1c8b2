-- ===== src/Queue/Chain.antt =====
-- The list of tasks that a queue of kernel/muxx_taskqueues.c stands for.
use muxx.Prelude.{
  ℕ, ◌≡◌, refl, Bool, true, false, ◌||◌, none, some, List, [], ◌∷◌, ◌++◌, arith, ◌==◌, length, ◌∙◌,
}
use muxx.Types.{Ptr, Tct, TQueue}

abbrev pub has : ℕ → List ℕ → Bool
has a [] = false
has a (x ∷ xs) = (a == x) || has a xs

infix 40 ◌∈◌ ◌∉◌
abbrev pub ◌∈◌ : ℕ → List ℕ → Type 0
a ∈ xs = has a xs ≡ true

abbrev pub ◌∉◌ : ℕ → List ℕ → Type 0
a ∉ xs = has a xs ≡ false

abbrev pub IsDistinct : List ℕ → Type 0
IsDistinct [] = Unit
IsDistinct (x ∷ xs) = (x ∉ xs) × IsDistinct xs

-- From `p` the links lead forwards through `xs`, each task's back link naming the one before it,
-- `prev` for the first; `last` is the last task.
abbrev pub Linked : Tct → (prev last : Ptr) → (p : Ptr) → List ℕ → Type 0
Linked t prev last p [] = (p ≡ none) × (last ≡ prev)
Linked t prev last p (x ∷ xs) =
    (p ≡ some x) × ((t x).prev_in_queue ≡ prev) × Linked t (some x) last (t x).next_in_queue xs

pub record IsQueue (t : Tct) (q : TQueue) (xs : List ℕ) : Type 0 where
  pub linked : Linked t none q.tail q.head xs
  pub count : q.count ≡ length xs
  pub distinct : IsDistinct xs

-- `u` differs from `t` at most in the queue links of the tasks in `xs`.
abbrev pub LinksOnly : List ℕ → Tct → Tct → Type 0
LinksOnly xs t u = (y : ℕ) → ((u y).task ≡ (t y).task) × (y ∉ xs → u y ≡ t y)

pub has-append : (a : ℕ) (xs ys : List ℕ) → has a (xs ++ ys) ≡ (has a xs || has a ys)
has-append a [] ys = refl
has-append a (x ∷ xs) ys = ground (arith, has-append a xs ys)

-- A chain survives any change that spares its own tasks.
pub frame :
    (t u : Tct) (prev last p : Ptr) (xs : List ℕ)
    → ((y : ℕ) → y ∈ xs → u y ≡ t y)
    → Linked t prev last p xs
    → Linked u prev last p xs
frame t u prev last p [] same l = l
frame t u prev last p (x ∷ xs) same l =
    let here : u x ≡ t x = same x (ground arith) in
    (
      l.0,
      rw here l.1,
      rw here (frame t u (some x) last (t x).next_in_queue xs (λ y i. same y (ground arith)) l.2),
    )

pub IsQueue-frame :
    (t u : Tct) (q : TQueue) (xs : List ℕ)
    → ((y : ℕ) → y ∈ xs → u y ≡ t y)
    → IsQueue t q xs
    → IsQueue u q xs
IsQueue-frame t u q xs same is = record {
  linked = frame t u none q.tail q.head xs same is.linked;
  count = is.count;
  distinct = is.distinct;
}

-- A chain depends on the links alone.
pub Linked-links :
    (t u : Tct) (prev last p : Ptr) (xs : List ℕ)
    → ((y : ℕ)
        → ((u y).next_in_queue ≡ (t y).next_in_queue) × ((u y).prev_in_queue ≡ (t y).prev_in_queue))
    → Linked t prev last p xs
    → Linked u prev last p xs
Linked-links t u prev last p [] same l = l
Linked-links t u prev last p (x ∷ xs) same l = (
  l.0,
  (same x).1 ∙ l.1,
  rw (same x).0 (Linked-links t u (some x) last (t x).next_in_queue xs same l.2),
)

pub IsQueue-links :
    (t u : Tct) (q : TQueue) (xs : List ℕ)
    → ((y : ℕ)
        → ((u y).next_in_queue ≡ (t y).next_in_queue) × ((u y).prev_in_queue ≡ (t y).prev_in_queue))
    → IsQueue t q xs
    → IsQueue u q xs
IsQueue-links t u q xs same is = record {
  linked = Linked-links t u none q.tail q.head xs same is.linked;
  count = is.count;
  distinct = is.distinct;
}

-- The last task of a chain that is not empty is one of its tasks.
pub last-mem :
    (t : Tct) (prev p : Ptr) (l x : ℕ) (xs : List ℕ)
    → Linked t prev (some l) p (x ∷ xs)
    → l ∈ x ∷ xs
last-mem t prev p l x [] h = ground arith
last-mem t prev p l x (y ∷ ys) h =
    ground (arith, last-mem t (some x) (t x).next_in_queue l y ys h.2)

pub IsDistinct-snoc : (x : ℕ) (xs : List ℕ) → x ∉ xs → IsDistinct xs → IsDistinct (xs ++ x ∷ [])
IsDistinct-snoc x [] out d = ground arith
IsDistinct-snoc x (y ∷ ys) out d = ground (arith, has-append y ys (x ∷ []), IsDistinct-snoc x ys)
