-- ===== src/Proxy/Request/Text.antt =====
-- Strings in a buffer: what a NUL that is written there does to them.
use operation_systems.Base.{
  ℕ, zero, suc, ◌+◌, ◌≤◌, ◌≡◌, refl, sym, subst, Bool, true, ◌&&◌, List, [], ◌∷◌, arith, take, drop,
}
use operation_systems.Proxy.Search.{span}
use operation_systems.Proxy.Request.{cstring, strlen, nonzero, put_nul}

-- Every byte passes the test.
abbrev pub all : (ℕ → Bool) → List ℕ → Bool
all test [] = true
all test (x ∷ xs) = test x && all test xs

pub all-take :
    (test : ℕ → Bool) (n : ℕ) (xs : List ℕ) → all test xs ≡ true → all test (take n xs) ≡ true
all-take test zero xs h = refl
all-take test (suc n) [] h = refl
all-take test (suc n) (x ∷ xs) h = ground (arith, all-take test n xs)

pub all-span : (test : ℕ → Bool) (xs : List ℕ) → all test (take (span test xs) xs) ≡ true
all-span test [] = refl
all-span test (x ∷ xs) = ground (arith, all-span test xs)

-- A string that a NUL cuts short loses bytes at its end only.
pub all-cstring-put_nul :
    (test : ℕ → Bool) (xs : List ℕ) (i : ℕ)
    → all test (cstring xs) ≡ true
    → all test (cstring (put_nul xs i)) ≡ true
all-cstring-put_nul test [] zero h = refl
all-cstring-put_nul test [] (suc i) h = refl
all-cstring-put_nul test (x ∷ xs) zero h = refl
all-cstring-put_nul test (x ∷ xs) (suc i) h = ground (arith, all-cstring-put_nul test xs i)

pub all-drop-put_nul :
    (test : ℕ → Bool) (m : ℕ) (xs : List ℕ) (i : ℕ)
    → all test (cstring (drop m xs)) ≡ true
    → all test (cstring (drop m (put_nul xs i))) ≡ true
all-drop-put_nul test zero xs i h = all-cstring-put_nul test xs i h
all-drop-put_nul test (suc zero) [] zero h = refl
all-drop-put_nul test (suc (suc m)) [] zero h = refl
all-drop-put_nul test (suc m) [] (suc i) h = refl
all-drop-put_nul test (suc m) (x ∷ xs) zero h = h
all-drop-put_nul test (suc m) (x ∷ xs) (suc i) h = all-drop-put_nul test m xs i h

-- A string ended where a loop stopped that passes over the bytes of a test.
cstring-put_nul-span :
    (test : ℕ → Bool) (xs : List ℕ) → all test (cstring (put_nul xs (span test xs))) ≡ true
cstring-put_nul-span test [] = refl
cstring-put_nul-span test (x ∷ xs) = ground (arith, cstring-put_nul-span test xs)

pub all-ended :
    (test : ℕ → Bool) (m i : ℕ) (xs : List ℕ)
    → i ≡ m + span test (drop m xs)
    → all test (cstring (drop m (put_nul xs i))) ≡ true
all-ended test zero i xs e =
    let h : i ≡ span test xs = omega arith in
    subst (λ (j : ℕ). all test (cstring (put_nul xs j)) ≡ true) (sym h)
      (cstring-put_nul-span test xs)
all-ended test (suc m) zero xs e = absurd (omega arith)
all-ended test (suc m) (suc i) [] e = refl
all-ended test (suc m) (suc i) (x ∷ xs) e = all-ended test m i xs (omega arith)

-- A string that starts further on holds fewer bytes.
pub all-cstring-drop :
    (test : ℕ → Bool) (n : ℕ) (xs : List ℕ)
    → n ≤ strlen xs
    → all test (cstring xs) ≡ true
    → all test (cstring (drop n xs)) ≡ true
all-cstring-drop test zero xs l h = h
all-cstring-drop test (suc n) [] l h = refl
all-cstring-drop test (suc n) (x ∷ xs) l h = ground (arith, all-cstring-drop test n xs)

pub all-take_of_le :
    (test : ℕ → Bool) (n : ℕ) (xs : List ℕ)
    → n ≤ strlen xs
    → all test (cstring xs) ≡ true
    → all test (take n xs) ≡ true
all-take_of_le test zero xs l h = refl
all-take_of_le test (suc n) [] l h = refl
all-take_of_le test (suc n) (x ∷ xs) l h = ground (arith, all-take_of_le test n xs)

pub all-nonzero-cstring : (xs : List ℕ) → all nonzero (cstring xs) ≡ true
all-nonzero-cstring xs = all-span nonzero xs

-- A loop that stops at NUL stops within the string.
pub span-le-strlen :
    (test : ℕ → Bool) (xs : List ℕ)
    → ((x : ℕ) → test x ≡ true → nonzero x ≡ true)
    → span test xs ≤ strlen xs
span-le-strlen test [] h = omega arith
span-le-strlen test (x ∷ xs) h = ground (arith, h x, span-le-strlen test xs h)

pub strlen-drop : (n : ℕ) (xs : List ℕ) → n ≤ strlen xs → strlen xs ≡ n + strlen (drop n xs)
strlen-drop zero xs l = omega arith
strlen-drop (suc n) [] l = absurd (omega arith)
strlen-drop (suc n) (x ∷ xs) l = ground (arith, strlen-drop n xs)

pub all_mono :
    (test weaker : ℕ → Bool) (xs : List ℕ)
    → ((x : ℕ) → test x ≡ true → weaker x ≡ true)
    → all test xs ≡ true
    → all weaker xs ≡ true
all_mono test weaker [] h a = refl
all_mono test weaker (x ∷ xs) h a = ground (arith, h x, all_mono test weaker xs h)
