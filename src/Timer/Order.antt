-- ===== src/Timer/Order.antt =====
-- The heap order of code/timer/timer_heap.cpp on the first `n` nodes, and the order with one node
-- out of place.
use torch_server.Base.{
  ℕ, zero, suc, ◌+◌, ◌-◌, ◌*◌, ◌/◌, ◌^◌, ◌≤◌, ◌<◌, ◌≡◌, ◌≢◌, refl, List, length, arith, ◌⊎◌,
}
use torch_server.Timer.{TimerHeap, Timer, parent}
use torch_server.Timer.Nodes.{at, swapped, at-swapped}

abbrev pub key : List Timer → ℕ → ℕ
key a c = (at a c).expires

-- The parent of a node other than the root.
abbrev pub up : ℕ → ℕ
up c = (c - 1) / 2

pub parent-eq-up : (c : ℕ) → 0 < c → c < 2 ^ 63 → parent c ≡ up c
parent-eq-up c h k = omega arith

-- At the root `(i - 1) / 2` wraps to an index beyond any array.
pub parent_root : parent 0 ≡ 2 ^ 63 - 1
parent_root = refl

abbrev pub IsHeap : ℕ → List Timer → Type 0
IsHeap n a = (c : ℕ) → 0 < c → c < n → key a (up c) ≤ key a c

-- Round node `i`: its children are not before its parent.
abbrev pub IsBridged : ℕ → List Timer → ℕ → Type 0
IsBridged n a i = (c : ℕ) → 0 < c → c < n → up c ≡ i → 0 < i → key a (up i) ≤ key a c

-- In order but for node `i`, which may be too early for its place.
pub record IsHeapBelow (n : ℕ) (a : List Timer) (i : ℕ) : Type 0 where
  pub edges : (c : ℕ) → 0 < c → c < n → c ≢ i → key a (up c) ≤ key a c
  pub bridged : IsBridged n a i

-- In order but for node `i`, which may be too late for its place.
pub record IsHeapAbove (n : ℕ) (a : List Timer) (i : ℕ) : Type 0 where
  pub edges : (c : ℕ) → 0 < c → c < n → up c ≢ i → key a (up c) ≤ key a c
  pub bridged : IsBridged n a i

-- In order but for node `i`, which may be either.
pub record IsHeapAround (n : ℕ) (a : List Timer) (i : ℕ) : Type 0 where
  pub edges : (c : ℕ) → 0 < c → c < n → c ≢ i → up c ≢ i → key a (up c) ≤ key a c
  pub bridged : IsBridged n a i

-- `m` is an earliest child of `i`.
pub record IsEarliestChild (n : ℕ) (a : List Timer) (i m : ℕ) : Type 0 where
  pub inside : m < n
  pub child : (m ≡ i * 2 + 1) ⊎ (m ≡ i * 2 + 2)
  pub earliest : (c : ℕ) → 0 < c → c < n → up c ≡ i → key a m ≤ key a c

root_earliest_below :
    (fuel n : ℕ) (a : List Timer) (i : ℕ) → IsHeap n a → i < fuel → i < n → key a 0 ≤ key a i
root_earliest_below zero n a i h f p = absurd (omega arith)
root_earliest_below (suc fuel) n a i h f p =
    ground (arith, h i, root_earliest_below fuel n a (up i) h)

pub root_earliest : (n : ℕ) (a : List Timer) (i : ℕ) → IsHeap n a → i < n → key a 0 ≤ key a i
root_earliest n a i h p = root_earliest_below (suc i) n a i h (omega arith) p

module _ (n i j : ℕ) (h : TimerHeap) (hi : i < length h.heap) (hj : j < length h.heap) where
  abbrev moved : List Timer
  moved = (swapped i j h).heap

  -- Up: `j` is the parent of `i`.
  pub swapped-IsHeapBelow :
      IsHeapBelow n h.heap i
      → i < n
      → 0 < i
      → j ≡ up i
      → key h.heap i ≤ key h.heap j
      → IsHeapBelow n moved j
  swapped-IsHeapBelow v hin pos e below =
      let get = at-swapped i j h hi hj in
      record {
        edges = λ c p q r. ground (arith, get c, get (up c), v.edges c, v.bridged c);
        bridged = λ c p q r s. ground (arith, get c, get (up j), v.edges c, v.edges j);
      }

  -- Down: `j` is the earliest child of `i`.
  pub swapped-IsHeapAbove :
      IsHeapAround n h.heap i
      → IsEarliestChild n h.heap i j
      → key h.heap j ≤ key h.heap i
      → IsHeapAbove n moved j
  swapped-IsHeapAbove v s below =
      let get = at-swapped i j h hi hj in
      record {
        edges = λ c p q r. ground (arith, get c, get (up c), v.edges c, v.bridged j, s.earliest c);
        bridged = λ c p q r t. ground (arith, get c, get (up j), v.edges c);
      }

pub IsHeapAbove-IsHeapAround : {n i : ℕ} {a : List Timer} → IsHeapAbove n a i → IsHeapAround n a i
IsHeapAbove-IsHeapAround v = record { edges = λ c p q r s. v.edges c p q s; bridged = v.bridged }
