-- ===== src/Api/Priority.antt =====
-- internal/api/queue.go: PriorityQueue, an implementation of container/heap's interface over a
-- slice. An index out of range panics in Go, and so does Pop on an empty queue: `none`.
use castle_ops_client.Prelude.{
  ℕ, String, ◌≡◌, refl, Bool, true, false, not, Option, none, some, List, [], ◌∷◌, ◌++◌, arith, ltb,
  get_elem?, set, if◌then◌else◌,
}
use castle_ops_client.Prelude.Int.{ℤ, eqb_ℤ, ltb_ℤ}
use castle_ops_client.Cache.Types.{Time}

pub record QueuedRequest : Type 0 where
  pub id : ℕ
  pub method : String
  pub path : String
  pub body : String
  pub priority : ℤ
  pub created_at : Time
  pub attempts : ℤ
  pub last_attempt : Time
  pub max_retries : ℤ

abbrev pub PriorityQueue : Type 0
PriorityQueue = List QueuedRequest

-- The test of Less on two entries: the higher priority first, then the older request.
unfoldable pub comes_before : QueuedRequest → QueuedRequest → Bool
comes_before a b =
    if not (eqb_ℤ a.priority b.priority)
    then ltb_ℤ b.priority a.priority
    else ltb a.created_at b.created_at

unfoldable pub less : PriorityQueue → ℕ → ℕ → Option Bool
unfolding comes_before
less pq i j = elim (get_elem? pq i) [
  | none ↦ none
  | some a ↦ elim (get_elem? pq j) [ none ↦ none | some b ↦ some (comes_before a b) ]
]

unfoldable pub swap : PriorityQueue → ℕ → ℕ → Option PriorityQueue
swap pq i j = elim (get_elem? pq i) [
  | none ↦ none
  | some a ↦ elim (get_elem? pq j) [ none ↦ none | some b ↦ some (set (set pq i b) j a) ]
]

unfoldable pub push : QueuedRequest → PriorityQueue → PriorityQueue
push x pq = pq ++ x ∷ []

-- The last entry, and those before it.
unfoldable pub pop : PriorityQueue → Option (QueuedRequest × PriorityQueue)
pop [] = none
pop (x ∷ xs) = elim (pop xs) [ none ↦ some (x, []) | some (y, ys) ↦ some (y, x ∷ ys) ]

before_trans :
    (a b c : QueuedRequest)
    → comes_before a b ≡ true
    → comes_before b c ≡ true
    → comes_before a c ≡ true
unfolding comes_before
before_trans a b c p q = ground arith

not_before_trans :
    (a b c : QueuedRequest)
    → comes_before a b ≡ false
    → comes_before b c ≡ false
    → comes_before a c ≡ false
unfolding comes_before
not_before_trans a b c p q = ground arith

-- Less is a strict weak order, as container/heap requires: no entry comes before itself, and both
-- "comes before" and "does not come before" are transitive.
pub comes_before_order :
    (a b c : QueuedRequest)
    → (comes_before a a ≡ false)
      × (comes_before a b ≡ true → comes_before b c ≡ true → comes_before a c ≡ true)
      × (comes_before a b ≡ false → comes_before b c ≡ false → comes_before a c ≡ false)
unfolding comes_before
comes_before_order a b c = (ground arith, before_trans a b c, not_before_trans a b c)

-- Pop gives back what was pushed last, and the queue as it was.
pub pop-push : (x : QueuedRequest) (pq : PriorityQueue) → pop (push x pq) ≡ some (x, pq)
unfolding pop push
pop-push x [] = refl
pop-push x (y ∷ pq) = rw (pop-push x pq, pop)
