-- ===== src/Pool/Queue.antt =====
-- The linked tasks are a queue: a task goes in at its end and comes out at its front.
use operation_systems.Base.{
  ℕ, ◌≡◌, ◌≢◌, refl, sym, ◌∙◌, true, false, List, [], ◌∷◌, ◌++◌, Option, none, some, arith, ◌==◌,
  if◌then◌else◌,
}
use operation_systems.Base.Store.{
  update, contains, distinct, not-contains-cons, distinct-cons, ne_of_contains, update_ne,
}
use operation_systems.Pool.{Task, Pool, accepted, enqueue, takes, worker_turn, is_none}

-- The addresses and the jobs of the tasks, from the head on.
abbrev pub addresses : List (ℕ × ℕ) → List ℕ
addresses [] = []
addresses ((a, j) ∷ q) = a ∷ addresses q

abbrev pub jobs : List (ℕ × ℕ) → List ℕ
jobs [] = []
jobs ((a, j) ∷ q) = j ∷ jobs q

abbrev pub first : List (ℕ × ℕ) → Option ℕ
first [] = none
first ((a, j) ∷ q) = some a

abbrev pub last : List (ℕ × ℕ) → Option ℕ
last [] = none
last ((a, j) ∷ []) = some a
last (x ∷ y ∷ q) = last (y ∷ q)

-- Each task stands in the heap, and links to the one behind it.
abbrev pub Linked : (ℕ → Option Task) → List (ℕ × ℕ) → Type 0
Linked tasks [] = Unit {0}
Linked tasks ((a, j) ∷ q) = (tasks a ≡ some (record { job = j; next = first q })) × Linked tasks q

-- The pool holds the queue `q`.
pub record Holds (p : Pool) (q : List (ℕ × ℕ)) : Type 0 where
  pub linked : Linked p.tasks q
  pub at_head : p.head ≡ first q
  pub at_tail : p.tail ≡ last q
  pub apart : distinct (addresses q) ≡ true

pub Linked-update :
    (tasks : ℕ → Option Task) (q : List (ℕ × ℕ)) (a : ℕ) (o : Option Task)
    → contains a (addresses q) ≡ false
    → Linked tasks q
    → Linked (update tasks a o) q
Linked-update tasks [] a o h l = tt
Linked-update tasks ((b, j) ∷ q) a o h l =
    (ground arith, Linked-update tasks q a o (ground arith) l.1)

contains-append :
    (a : ℕ) (q : List (ℕ × ℕ)) (b j : ℕ)
    → contains a (addresses (q ++ ((b, j) ∷ [])))
      ≡ (if contains a (addresses q) then true else b == a)
contains-append a [] b j = ground arith
contains-append a ((c, k) ∷ q) b j = ground (arith, contains-append a q b j)

distinct-append :
    (q : List (ℕ × ℕ)) (b j : ℕ)
    → contains b (addresses q) ≡ false
    → distinct (addresses q) ≡ true
    → distinct (addresses (q ++ ((b, j) ∷ []))) ≡ true
distinct-append [] b j h d = refl
distinct-append ((c, k) ∷ q) b j h d =
    ground (arith, distinct-append q b j, contains-append c q b j)

last-append : (q : List (ℕ × ℕ)) (b j : ℕ) → last (q ++ ((b, j) ∷ [])) ≡ some b
last-append [] b j = refl
last-append (x ∷ []) b j = refl
last-append (x ∷ y ∷ q) b j = last-append (y ∷ q) b j

first-append : (x : ℕ × ℕ) (q r : List (ℕ × ℕ)) → first ((x ∷ q) ++ r) ≡ first (x ∷ q)
first-append (a, j) q r = refl

-- The last task of a queue that is not empty.
last-task :
    (tasks : ℕ → Option Task) (x : ℕ × ℕ) (q : List (ℕ × ℕ))
    → Linked tasks (x ∷ q)
    → (t k : ℕ) × (last (x ∷ q) ≡ some t)
      × (tasks t ≡ some (record { job = k; next = none }))
      × (contains t (addresses (x ∷ q)) ≡ true)
last-task tasks (a, j) [] l = (a, j, refl, l.0, ground arith)
last-task tasks (a, j) (y ∷ q) l =
    let (t, k, e, at, inside) = last-task tasks y q l.1 in (t, k, e, at, ground arith)

last-mem : (q : List (ℕ × ℕ)) (t : ℕ) → last q ≡ some t → contains t (addresses q) ≡ true
last-mem [] t e = cc
last-mem ((a, j) ∷ []) t e = ground arith
last-mem ((a, j) ∷ (b, i) ∷ q) t e = ground (arith, last-mem ((b, i) ∷ q) t e)

-- The heap behind `enqueue`.
abbrev pub grown : (ℕ → Option Task) → ℕ → ℕ → ℕ → ℕ → ℕ → Option Task
grown tasks addr job t k =
    update (update tasks addr (some (record { job = job; next = none }))) t
      (some (record { job = k; next = some addr }))

Linked-grown :
    (tasks : ℕ → Option Task) (addr job t k : ℕ) (q : List (ℕ × ℕ))
    → contains addr (addresses q) ≡ false
    → distinct (addresses q) ≡ true
    → last q ≡ some t
    → tasks t ≡ some (record { job = k; next = none })
    → Linked tasks q
    → Linked (grown tasks addr job t k) (q ++ ((addr, job) ∷ []))
Linked-grown tasks addr job t k [] new d e at l = absurd (ground arith)
Linked-grown tasks addr job t k ((a, j) ∷ []) new d e at l = (ground arith, (ground arith, tt))
Linked-grown tasks addr job t k ((a, j) ∷ (b, i) ∷ q) new d e at l =
    let (a≢addr, new') = not-contains-cons a addr (addresses ((b, i) ∷ q)) new in
    let (once, d') = distinct-cons a (addresses ((b, i) ∷ q)) d in
    let a≢t = ne_of_contains a t (addresses ((b, i) ∷ q)) once (last-mem ((b, i) ∷ q) t e) in
    (
      update_ne (update tasks addr (some (record { job = job; next = none }))) t
            (some (record { job = k; next = some addr })) a (λ h. a≢t (sym h))
          ∙ update_ne tasks addr (some (record { job = job; next = none })) a (λ h. a≢addr (sym h))
          ∙ l.0,
      Linked-grown tasks addr job t k ((b, i) ∷ q) new' d' e at l.1,
    )

-- A task that is accepted goes to the end of the queue.
pub enqueue-Holds :
    (p : Pool) (q : List (ℕ × ℕ)) (addr job : ℕ)
    → Holds p q
    → contains addr (addresses q) ≡ false
    → (r : Pool) × (enqueue p addr job ≡ accepted r)
      × Holds r (q ++ ((addr, job) ∷ []))
      × ((b : ℕ) → p.tasks b ≢ none → r.tasks b ≢ none)
      × ((b : ℕ) → p.tasks b ≡ none → b ≢ addr → r.tasks b ≡ none)
unfolding enqueue
enqueue-Holds p [] addr job h new = (
  record p {
    head = some addr;
    tail = some addr;
    tasks = update p.tasks addr (some (record { job = job; next = none }));
  },
  ground (arith, h.at_tail),
  record { linked = (ground arith, tt); at_head = refl; at_tail = refl; apart = refl },
  λ b live. ground arith,
  λ b dead other. ground (arith, dead, other),
)
enqueue-Holds p (x ∷ q) addr job h new =
    let (t, k, e, at, inside) = last-task p.tasks x q h.linked in
    (
      record p { tail = some addr; tasks = grown p.tasks addr job t k },
      ground (arith, h.at_tail, e, at),
      record {
        linked = Linked-grown p.tasks addr job t k (x ∷ q) new h.apart e at h.linked;
        at_head = h.at_head ∙ sym (first-append x q ((addr, job) ∷ []));
        at_tail = sym (last-append (x ∷ q) addr job);
        apart = distinct-append (x ∷ q) addr job new h.apart;
      },
      λ b live. ground arith,
      λ b dead other. ground (arith, dead, other, at),
    )

-- The head of the queue comes out of it; the rest stays as it is.
pub takes-Holds :
    (p : Pool) (a j : ℕ) (q : List (ℕ × ℕ))
    → Holds p ((a, j) ∷ q)
    → (r : Pool) × (worker_turn p ≡ takes a j r)
      × Holds r q
      × (r.stop ≡ p.stop)
      × (r.tasks ≡ p.tasks)
unfolding worker_turn
takes-Holds p a j q h = (
  record p { head = first q; tail = if is_none (first q) then none else p.tail },
  ground (arith, h.at_head, h.linked),
  record {
    linked = h.linked.1;
    at_head = refl;
    at_tail = rest q h;
    apart = ground (arith, h.apart);
  },
  refl,
  refl,
)
  where
    rest :
        (q : List (ℕ × ℕ))
        → Holds p ((a, j) ∷ q)
        → (if is_none (first q) then none else p.tail) ≡ last q
    rest [] g = refl
    rest ((b, i) ∷ r) g = g.at_tail
