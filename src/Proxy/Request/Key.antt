-- ===== src/Proxy/Request/Key.antt =====
-- The key of a response: which requests share one.
use operation_systems.Base.{
  ℕ, zero, suc, ◌+◌, ◌-◌, ◌<◌, ◌≡◌, refl, sym, ap, ◌∙◌, subst, true, List, [], ◌∷◌, ◌++◌, arith,
  length, take, take-le, length-append,
}
use operation_systems.Proxy.Request.{Request, key_size, make_key}
use operation_systems.Proxy.Request.Text.{all}
use operation_systems.Proxy.Request.Clean.{IsClean, not_space}

not-all-space : (xs ys : List ℕ) → all not_space (xs ++ (b' ' ∷ ys)) ≡ true → ⊥
not-all-space [] ys h = ground arith
not-all-space (x ∷ xs) ys h = not-all-space xs ys (ground arith)

-- The last space of a key stands between its host and its URI.
split_last :
    (xs ys u v : List ℕ)
    → all not_space u ≡ true
    → all not_space v ≡ true
    → xs ++ (b' ' ∷ u) ≡ ys ++ (b' ' ∷ v)
    → (xs ≡ ys) × (u ≡ v)
split_last [] [] u v hu hv e = (refl, ground arith)
split_last [] (y ∷ ys) u v hu hv e =
    let inside : u ≡ ys ++ (b' ' ∷ v) = ground arith in
    absurd (not-all-space ys v (subst (λ (w : List ℕ). all not_space w ≡ true) inside hu))
split_last (x ∷ xs) [] u v hu hv e =
    let inside : v ≡ xs ++ (b' ' ∷ u) = ground arith in
    absurd (not-all-space xs u (subst (λ (w : List ℕ). all not_space w ≡ true) inside hv))
split_last (x ∷ xs) (y ∷ ys) u v hu hv e =
    let (rest, same) = split_last xs ys u v hu hv (ground arith) in (ground (arith, rest), same)

-- The host, the space and the URI fit the array of the key with a NUL behind them.
abbrev pub FitsKey : Request → Type 0
FitsKey r = length r.host + 1 + length r.uri < key_size

key_whole : (r : Request) → FitsKey r → make_key r ≡ r.host ++ (b' ' ∷ r.uri)
unfolding make_key
key_whole r h =
    take-le (key_size - 1) (r.host ++ (b' ' ∷ r.uri))
      (omega (arith, length-append r.host (b' ' ∷ r.uri)))

-- Accepted requests whose keys are not cut share a key only if they ask for one URI of one host.
pub make_key_injective :
    (q r : Request)
    → IsClean q
    → IsClean r
    → FitsKey q
    → FitsKey r
    → make_key q ≡ make_key r
    → (q.host ≡ r.host) × (q.uri ≡ r.uri)
make_key_injective q r cq cr fq fr e =
    split_last q.host r.host q.uri r.uri cq.uri cr.uri (sym (key_whole q fq) ∙ e ∙ key_whole r fr)

take-append_right :
    (n m : ℕ) (xs u v : List ℕ)
    → n ≡ length xs + m
    → take m u ≡ take m v
    → take n (xs ++ u) ≡ take n (xs ++ v)
take-append_right n m [] u v e h =
    let same : m ≡ n = omega arith in subst (λ (k : ℕ). take k u ≡ take k v) same h
take-append_right zero m (x ∷ xs) u v e h = refl
take-append_right (suc n) m (x ∷ xs) u v e h =
    ap (◌∷◌ x) (take-append_right n m xs u v (omega arith) h)

-- Two requests to one host share a key if their URIs agree in the bytes that the key has room for,
-- however they go on: the second is answered with the response to the first.
pub make_key_collides :
    (host u v : List ℕ) (room : ℕ)
    → length host + 1 + room ≡ key_size - 1
    → take room u ≡ take room v
    → make_key (record { host = host; uri = u }) ≡ make_key (record { host = host; uri = v })
unfolding make_key
make_key_collides host u v room e h =
    take-append_right (key_size - 1) (suc room) host (b' ' ∷ u) (b' ' ∷ v) (omega arith)
      (ap (◌∷◌ b' ') h)
