-- ===== src/Queue/Heap.antt =====
-- internal/queue/ready_heap.go, delayed_heap.go, expiry_heap.go: msgHeap and its three comparators,
-- with the Push, Pop and Remove of the standard library's container/heap that drive it. A message
-- is a number, its address in the store.
pub mod Swaps
pub mod Order
pub mod Sift
pub mod Contract
pub mod Push
pub mod Pop
pub mod Remove
use queuemaxxing.Base.{
  ◌||◌, ◌&&◌, ℕ, zero, suc, ◌+◌, ◌-◌, ◌*◌, ◌/◌, Bool, not, Option, none, some, List, [], ◌∷◌, ◌++◌,
  ℤ, pos, negsuc, ltb_ℤ, length, take, get_or, set, ltb, leb, ◌==◌, if◌then◌else◌,
}
use queuemaxxing.Queue.Clock.{before}
use queuemaxxing.Queue.Message.{Message, Ordering, fifo, lifo}

abbrev pub Store : Type 0
Store = ℕ → Message

abbrev pub Less : Type 0
Less = Message → Message → Bool

unfoldable pub ready_less : Ordering → Less
ready_less ordering a b =
    if ltb_ℤ a.priority b.priority || ltb_ℤ b.priority a.priority
    then ltb_ℤ b.priority a.priority
    else elim ordering [ fifo ↦ ltb a.seq b.seq | lifo ↦ ltb b.seq a.seq ]

unfoldable pub delayed_less : Less
delayed_less a b = before a.available_at b.available_at

unfoldable pub expiry_less : Less
expiry_less a b = before a.deadline b.deadline

-- One heap's items, and the store that holds the messages.
pub record Heap : Type 0 where
  pub store : Store
  pub items : List ℕ

unfoldable pub update : Store → ℕ → Message → Store
update store p m = λ q. if p == q then m else store q

unfoldable pub set_index : Store → ℕ → ℤ → Store
unfolding update
set_index store p i = update store p (record (store p) { index = i })

-- h.items[i]; 0 where Go would panic, which only an index outside the heap can cause
abbrev pub item : List ℕ → ℕ → ℕ
item items i = get_or items i 0

-- msgHeap.Less
abbrev pub less_at : Less → Heap → ℕ → ℕ → Bool
less_at less h i j = less (h.store (item h.items i)) (h.store (item h.items j))

-- msgHeap.Swap
unfoldable pub swap : Heap → ℕ → ℕ → Heap
unfolding set_index
swap h i j =
    let items = set (set h.items i (item h.items j)) j (item h.items i) in
    record {
      store = set_index (set_index h.store (item items i) (pos i)) (item items j) (pos j);
      items = items;
    }

-- msgHeap.Push
unfoldable pub push_item : Heap → ℕ → Heap
unfolding set_index
push_item h p = record {
  store = set_index h.store p (pos (length h.items));
  items = h.items ++ (p ∷ []);
}

-- msgHeap.Pop
unfoldable pub pop_item : Heap → ℕ × Heap
unfolding set_index
pop_item h =
    let last = length h.items - 1 in
    let p = item h.items last in
    (p, record { store = set_index h.store p (negsuc 0); items = take last h.items })

-- msgHeap.peek
abbrev pub peek : List ℕ → Option ℕ
peek [] = none
peek (p ∷ _) = some p

-- the sift loops of container/heap; a round moves the item one level
unfoldable pub up : ℕ → Less → Heap → ℕ → Heap
up zero less h j = h
up (suc fuel) less h j =
    let i = (j - 1) / 2 in
    let rest = up fuel less (swap h i j) i in if i == j || not (less_at less h j i) then h else rest

-- the child that `down` compares with
abbrev pub smaller_child : Less → Heap → ℕ → ℕ → ℕ
smaller_child less h i n =
    let left = 2 * i + 1 in
    let right = left + 1 in if ltb right n && less_at less h right left then right else left

unfoldable pub down : ℕ → Less → Heap → ℕ → ℕ → Heap
down zero less h i n = h
down (suc fuel) less h i n =
    let j = smaller_child less h i n in
    let rest = down fuel less (swap h i j) j n in
    if leb n (2 * i + 1) || not (less_at less h j i) then h else rest

-- whether `down` moves the item: its first round swaps
abbrev pub moves_down : Less → Heap → ℕ → ℕ → Bool
moves_down less h i n = not (leb n (2 * i + 1)) && less_at less h (smaller_child less h i n) i

-- heap.Push
unfoldable pub heap_push : Less → Heap → ℕ → Heap
unfolding push_item up swap
heap_push less h p =
    let grown = push_item h p in up (length grown.items) less grown (length grown.items - 1)

-- heap.Pop
unfoldable pub heap_pop : Less → Heap → ℕ × Heap
unfolding pop_item down swap
heap_pop less h =
    let n = length h.items - 1 in pop_item (down (length h.items) less (swap h 0 n) 0 n)

-- heap.Remove
unfoldable pub heap_remove : Less → Heap → ℕ → ℕ × Heap
unfolding pop_item down up swap
heap_remove less h i =
    let n = length h.items - 1 in
    let swapped = swap h i n in
    let sunk = down (length h.items) less swapped i n in
    let risen = up (length h.items) less swapped i in
    if n == i then pop_item h else pop_item (if moves_down less swapped i n then sunk else risen)
