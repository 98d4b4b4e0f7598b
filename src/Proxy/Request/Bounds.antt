-- ===== src/Proxy/Request/Bounds.antt =====
-- The writes into the buffer: which one may miss it, and when.
use operation_systems.Base.{
  ℕ, zero, suc, ◌+◌, ◌≤◌, ◌<◌, ◌≡◌, ◌≢◌, ◌↔◌, refl, ap, ◌∙◌, subst, inl, inr, Bool, true, false,
  not, ◌&&◌, List, [], ◌∷◌, Option, none, some, arith, ◌==◌, Option-cases, length, drop, get_elem?,
  length-drop,
}
use operation_systems.Base.Bytes.{codes, bytes_eq}
use operation_systems.Proxy.Search.{
  span, span-le, memmem_simple, find_host_header, memmem_simple-First, is_blank, First,
}
use operation_systems.Proxy.Request.{
  Parsed, overflow, buf_size, cstring, strchr, nonzero, put_nul, terminate, in_line, finish_request,
  parse_request, crlf, or_close, guard, Reason, no_crlf, no_space_after_method,
  no_space_before_http, not_get, no_host, ◌>>=◌,
}
use operation_systems.Proxy.Request.Text.{all}

span-eq-length : (test : ℕ → Bool) (xs : List ℕ) → (span test xs ≡ length xs) ↔ (all test xs ≡ true)
span-eq-length test [] = (λ h. refl, λ h. refl)
span-eq-length test (x ∷ xs) = (
  λ h. ground (arith, (span-eq-length test xs).0, span-le test xs),
  λ h. ground (arith, (span-eq-length test xs).1),
)

length-put_nul : (xs : List ℕ) (i : ℕ) → i < length xs → length (put_nul xs i) ≡ length xs
length-put_nul [] i h = elim h [ ]
length-put_nul (x ∷ xs) zero h = refl
length-put_nul (x ∷ xs) (suc i) h = ap suc (length-put_nul xs i (omega arith))

-- The last write, of the NUL behind the value of the `Host:` header, misses the buffer exactly when
-- the buffer is full and the value runs to its end without a CR or a LF.
pub host_write_overflows :
    (buf : List ℕ) (start : ℕ) (uri : Option ℕ)
    → start ≤ length buf
    → length buf ≤ buf_size
    → (finish_request buf start uri ≡ overflow)
      ↔ ((length buf ≡ buf_size) × (all in_line (drop start buf) ≡ true))
unfolding finish_request
host_write_overflows buf start uri inside fits = (
  λ h. (
    ground (arith, bound, length-drop start buf),
    (span-eq-length in_line (drop start buf)).0 (ground (arith, bound, length-drop start buf)),
  ),
  λ (full, runs).
      ground (arith, (span-eq-length in_line (drop start buf)).1 runs, length-drop start buf),
)
  where
    bound : span in_line (drop start buf) ≤ length (drop start buf)
    bound = span-le in_line (drop start buf)

get_elem?-lt : (xs : List ℕ) (i x : ℕ) → get_elem? xs i ≡ some x → i < length xs
get_elem?-lt [] i x h = cc
get_elem?-lt (y ∷ xs) zero x h = omega arith
get_elem?-lt (y ∷ xs) (suc i) x h = omega (arith, get_elem?-lt xs i x h)

strchr-lt : (buf : List ℕ) (start c i : ℕ) → strchr buf start c ≡ some i → i < length buf
strchr-lt buf start c i found =
    elim (Option-cases
      (get_elem? buf (start + span (λ x. not (x == c) && nonzero x) (drop start buf)))) [
        | inl out ↦ absurd (ground arith)
        | inr (x, at) ↦ ground (arith, get_elem?-lt buf _ x at)
      ]

memmem-fits :
    (buf needle : List ℕ) (i : ℕ)
    → 0 < length needle
    → memmem_simple buf needle ≡ some i
    → i + length needle ≤ length buf
memmem-fits buf needle i h found =
    (subst (First buf needle) found (memmem_simple-First buf needle h)).0.0

host-le : (buf : List ℕ) (i : ℕ) → find_host_header buf ≡ some i → i ≤ length buf
unfolding find_host_header
host-le buf i found = elim (Option-cases (memmem_simple buf (codes "Host:"))) [
  | inl missing ↦ absurd (ground arith)
  | inr (k, at) ↦
      let inside = memmem-fits buf (codes "Host:") k (omega arith) at in
      ground (arith, inside, span-le is_blank (drop (k + 5) buf), length-drop (k + 5) buf)
]

-- A step of the chain that writes no byte behind the buffer.
skip_or_close {κ} :
    {A : Type 0} {B : Type κ} (o : Option A) (r : Reason) (f : A → Parsed B)
    → ((a : A) → o ≡ some a → f a ≢ overflow)
    → (or_close o r >>= f) ≢ overflow
skip_or_close none r f h e = cc
skip_or_close (some a) r f h e = h a refl e

skip_guard {κ} :
    {B : Type κ} (b : Bool) (r : Reason) (f : Unit {0} → Parsed B)
    → f tt ≢ overflow
    → (guard b r >>= f) ≢ overflow
skip_guard true r f h e = h e
skip_guard false r f h e = cc

skip_terminate {κ} :
    {B : Type κ} (n : ℕ) (buf : List ℕ) (i : ℕ) (f : List ℕ → Parsed B)
    → n < buf_size
    → length buf ≡ n
    → i < length buf
    → ((b : List ℕ) → length b ≡ n → f b ≢ overflow)
    → (terminate buf i >>= f) ≢ overflow
skip_terminate n buf i f small same inside h e =
    h (put_nul buf i) (length-put_nul buf i inside ∙ same) (ground arith)

-- While the array is not full, every NUL of the request line and of the host is written into it.
pub parse_in_bounds : (buf : List ℕ) → length buf < buf_size → parse_request buf ≢ overflow
unfolding parse_request
parse_in_bounds buf small = skip_or_close (memmem_simple buf crlf) no_crlf _ λ line_end at.
    let inside = memmem-fits buf crlf line_end (omega arith) at in
    skip_terminate (length buf) buf line_end _ small refl (omega arith) λ line same1.
      skip_or_close (strchr line 0 b' ') no_space_after_method _ λ sp1 at1.
        skip_terminate (length buf) line sp1 _ small same1 (strchr-lt line 0 b' ' sp1 at1)
          λ at_method same2.
            skip_or_close (strchr at_method (sp1 + 1) b' ') no_space_before_http _ λ sp2 at2.
              skip_terminate (length buf) at_method sp2 _ small same2
                (strchr-lt at_method (sp1 + 1) b' ' sp2 at2)
                λ at_path same3. skip_guard (bytes_eq (cstring at_path) (codes "GET")) not_get _ (
                  skip_or_close (find_host_header (drop (line_end + 2) at_path)) no_host _
                    λ value at4. last at_path (line_end + 2 + value) _ (omega (arith, same3)) (
                      omega (
                        arith,
                        same3,
                        host-le (drop (line_end + 2) at_path) value at4,
                        length-drop (line_end + 2) at_path,
                      )))
  where
    last :
        (b : List ℕ) (start : ℕ) (uri : Option ℕ)
        → length b < buf_size
        → start ≤ length b
        → finish_request b start uri ≢ overflow
    last b start uri fits inside e =
        absurd (omega (arith, ((host_write_overflows b start uri inside (omega arith)).0 e).0))
