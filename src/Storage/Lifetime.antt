-- ===== src/Storage/Lifetime.antt =====
-- What `storage_init` builds, and what `storage_destroy` leaves.
use native.Mathlib.Nat.{mod-lt}
use operation_systems.Base.{
  ℕ, zero, suc, ◌+◌, ◌-◌, ◌%◌, ◌≤◌, ◌<◌, ◌≡◌, refl, sym, ap, ◌∙◌, Bool, true, false, ◌&&◌, List, [],
  ◌∷◌, Option, none, some, arith, length, leb,
}
use operation_systems.Base.Store.{
  update, contains, distinct, update_ne, ne_of_contains, distinct-cons, not-contains-cons,
}
use operation_systems.Storage.{
  Node, Storage, set_next, letters, random_string, add_nodes, storage_init, free_nodes,
  storage_destroy,
}
use operation_systems.Storage.Links.{addresses, head_of, Linked, Holds, Linked-of_agree}

-- The nodes from `i` on.
abbrev pub nodes_of : (ℕ → ℕ) → (ℕ → List ℕ) → ℕ → ℕ → List (ℕ × List ℕ)
nodes_of addr word i zero = []
nodes_of addr word i (suc n) = (addr (i + 1), word i) ∷ nodes_of addr word (i + 1) n

module _ (addr : ℕ → ℕ) (word : ℕ → List ℕ) (fresh : (i j : ℕ) → addr i ≡ addr j → i ≡ j) where
  not-contains-nodes_of :
      (i j n : ℕ) → j ≤ i → contains (addr j) (addresses (nodes_of addr word i n)) ≡ false
  not-contains-nodes_of i j zero h = refl
  not-contains-nodes_of i j (suc n) h =
      ground (arith, fresh (i + 1) j, not-contains-nodes_of (i + 1) j n)

  distinct-nodes_of : (i n : ℕ) → distinct (addr i ∷ addresses (nodes_of addr word i n)) ≡ true
  distinct-nodes_of i zero = refl
  distinct-nodes_of i (suc n) =
      ground (arith, not-contains-nodes_of i i (suc n), distinct-nodes_of (i + 1) n)

  -- The node that is made behind node `i`.
  abbrev linked_on : ℕ → (ℕ → Option Node) → ℕ → Option Node
  linked_on i nd =
      set_next (update nd (addr (i + 1)) (some (record { value = word i; next = none }))) (addr i)
        (some (addr (i + 1)))

  linked_on-new :
      (i : ℕ) (nd : ℕ → Option Node)
      → linked_on i nd (addr (i + 1)) ≡ some (record { value = word i; next = none })
  linked_on-new i nd = ground (arith, fresh i (i + 1))

  linked_on-last :
      (i : ℕ) (nd : ℕ → Option Node) (v : List ℕ)
      → nd (addr i) ≡ some (record { value = v; next = none })
      → linked_on i nd (addr i) ≡ some (record { value = v; next = some (addr (i + 1)) })
  linked_on-last i nd v l = ground (arith, l, fresh i (i + 1), fresh (i + 1) i)

  linked_on-before :
      (i j : ℕ) (nd : ℕ → Option Node) → j < i → linked_on i nd (addr j) ≡ nd (addr j)
  linked_on-before i j nd h = ground (arith, fresh i j, fresh (i + 1) j)

  add_nodes-Linked :
      (n i : ℕ) (v : List ℕ) (nd : ℕ → Option Node)
      → nd (addr i) ≡ some (record { value = v; next = none })
      → Linked (add_nodes addr word n i (addr i) nd) ((addr i, v) ∷ nodes_of addr word i n)
        × ((j : ℕ) → j < i → add_nodes addr word n i (addr i) nd (addr j) ≡ nd (addr j))
  unfolding add_nodes
  add_nodes-Linked zero i v nd l = ((l, tt), λ j h. refl)
  add_nodes-Linked (suc n) i v nd l =
      let (linked, kept) =
        add_nodes-Linked n (i + 1) (word i) (linked_on i nd) (linked_on-new i nd) in
      (
        (kept i (omega arith) ∙ linked_on-last i nd v l, linked),
        λ j h. kept j (omega arith) ∙ linked_on-before i j nd h,
      )

  -- If no address is returned twice, `storage_init` of a positive number returns a storage whose nodes
  -- are linked in the order in which they were made: the first, which holds no string, and as many
  -- others as were asked for.
  pub storage_init-Holds :
      (n : ℕ)
      → 0 < n
      → (s : Storage) × (storage_init addr word n ≡ some s)
        × (s.count ≡ n)
        × Holds s ((addr 0, []) ∷ nodes_of addr word 0 n)
        × (length (nodes_of addr word 0 n) ≡ n)
  unfolding storage_init
  storage_init-Holds n h =
      let head = update (λ _. none) (addr 0) (some (record { value = []; next = none })) in
      let (linked, _) = add_nodes-Linked n 0 [] head (ground arith) in
      (
        record { first = addr 0; count = n; nodes = add_nodes addr word n 0 (addr 0) head },
        made,
        refl,
        record { at_first = refl; linked = linked; apart = distinct-nodes_of 0 n },
        length-nodes_of 0 n,
      )
    where
      made :
          storage_init addr word n
          ≡ some (record {
            first = addr 0;
            count = n;
            nodes =
                add_nodes addr word n 0
                  (addr 0)
                  (update (λ _. none) (addr 0) (some (record { value = []; next = none })));
          })
      made = ground (arith, h)

      length-nodes_of : (i m : ℕ) → length (nodes_of addr word i m) ≡ m
      length-nodes_of i zero = refl
      length-nodes_of i (suc m) = ground (arith, length-nodes_of (i + 1) m)

-- All bytes are lower case letters.
abbrev pub lower : List ℕ → Bool
lower [] = true
lower (c ∷ cs) = leb 97 c && leb c 122 && lower cs

letters_lem :
    (n : ℕ) (rand : ℕ → ℕ) (i : ℕ)
    → (length (letters n rand i) ≡ n) × (lower (letters n rand i) ≡ true)
letters_lem zero rand i = (refl, refl)
letters_lem (suc n) rand i =
    let (len, low) = letters_lem n rand (i + 1) in (ground (arith, len), ground (arith, low))

-- In a buffer of two bytes or more, `random_string` writes at least one character and leaves room for
-- the NUL behind the last, whatever `rand` returns; all characters are lower case letters.
pub random_string_lem :
    (size : ℕ) (rand : ℕ → ℕ)
    → 2 ≤ size
    → (1 ≤ length (random_string size rand))
      × (length (random_string size rand) + 1 ≤ size)
      × (lower (random_string size rand) ≡ true)
unfolding random_string
random_string_lem size rand h =
    let (len, low) = letters_lem (1 + rand 0 % (size - 1)) rand 1 in
    (ground (arith, len), ground (arith, len, mod-lt (rand 0) {m = size - 1} (omega arith)), low)

freed_cases :
    (nd nd' : ℕ → Option Node) (a : ℕ) (q : List ℕ) (j : ℕ)
    → ((k : ℕ) → contains k q ≡ true → nd' k ≡ none)
    → ((k : ℕ) → contains k q ≡ false → nd' k ≡ update nd a none k)
    → contains j (a ∷ q) ≡ true
    → nd' j ≡ none
freed_cases nd nd' a q j gone kept h = ground (arith, gone j, kept j, h)

free_nodes_lem :
    (fuel : ℕ) (nd : ℕ → Option Node) (q : List (ℕ × List ℕ))
    → Linked nd q
    → distinct (addresses q) ≡ true
    → length q ≤ fuel
    → (nd' : ℕ → Option Node) × (free_nodes fuel (head_of q) nd ≡ some nd')
      × ((j : ℕ) → contains j (addresses q) ≡ true → nd' j ≡ none)
      × ((j : ℕ) → contains j (addresses q) ≡ false → nd' j ≡ nd j)
unfolding free_nodes
free_nodes_lem fuel nd [] l d b = (nd, refl, λ j h. ground arith, λ j h. refl)
free_nodes_lem zero nd ((a, v) ∷ q) l d b = ground arith
free_nodes_lem (suc fuel) nd ((a, v) ∷ q) (la, l) d b =
    let (new, rest) = distinct-cons a (addresses q) d in
    let still =
      Linked-of_agree nd (update nd a none) q
        (λ j h. update_ne nd a none j (ne_of_contains a j (addresses q) new h)) l in
    let (nd', eq, gone, kept) = free_nodes_lem fuel (update nd a none) q still rest (omega arith) in
    (
      nd',
      ground (arith, la, eq),
      λ j h. freed_cases nd nd' a (addresses q) j gone kept h,
      λ j h.
          let (other, out) = not-contains-cons a j (addresses q) h in
          kept j out ∙ update_ne nd a none j other,
    )

-- On a storage whose nodes are linked, with fuel for each node, `storage_destroy` ends, and reads and
-- frees each node once: none of its nodes is live behind it, and all else on the heap is as before.
pub storage_destroy_lem :
    (fuel : ℕ) (s : Storage) (q : List (ℕ × List ℕ))
    → Holds s q
    → length q ≤ fuel
    → (nd : ℕ → Option Node) × (storage_destroy fuel s ≡ some nd)
      × ((j : ℕ) → contains j (addresses q) ≡ true → nd j ≡ none)
      × ((j : ℕ) → contains j (addresses q) ≡ false → nd j ≡ s.nodes j)
unfolding storage_destroy
storage_destroy_lem fuel s q holds b =
    let (nd, eq, gone, kept) = free_nodes_lem fuel s.nodes q holds.linked holds.apart b in
    (nd, ap (λ (a : Option ℕ). free_nodes fuel a s.nodes) (sym holds.at_first) ∙ eq, gone, kept)
