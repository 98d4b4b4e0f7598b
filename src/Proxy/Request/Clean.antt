-- ===== src/Proxy/Request/Clean.antt =====
-- What the strings of a request that was accepted hold, and the one write that may miss the buffer.
use operation_systems.Base.{
  ℕ, ◌+◌, ◌-◌, ◌≤◌, ◌<◌, ◌≡◌, refl, sym, ap, ◌∙◌, subst, inl, inr, Bool, true, not, ◌&&◌, List,
  Option, none, some, arith, ltb, leb, ◌==◌, if◌then◌else◌, Bool-cases, if_true, if_false, length,
  take, drop, length-take, drop-drop,
}
use operation_systems.Base.Bytes.{codes, bytes_eq, bytes_eq→eq}
use operation_systems.Proxy.Search.{span, memmem_simple, find_host_header}
use operation_systems.Proxy.Request.{
  parsed, Request, host_size, cstring, strlen, strchr, nonzero, put_nul, terminate, uri_start,
  uri_text, in_line, not_slash, host_end, host_text, finish_request, parse_request, crlf, or_close,
  guard, Reason, no_crlf, no_space_after_method, no_space_before_http, not_get, no_host,
  >>=-eq-parsed,
}
use operation_systems.Proxy.Request.Text.{
  all, all-ended, all-drop-put_nul, all-cstring-drop, all-take_of_le, span-le-strlen, strlen-drop,
  all_mono,
}

-- A byte of a URI: it is not a space.
abbrev pub not_space : ℕ → Bool
not_space c = not (c == b' ')

-- The URI holds no space, and the host no line break; the host fits its array with its NUL.
pub record IsClean (r : Request) : Type 0 where
  pub uri : all not_space r.uri ≡ true
  pub host : all in_line r.host ≡ true
  pub fits : length r.host < host_size

host_text-clean :
    (buf : List ℕ) (start : ℕ)
    → all in_line (host_text (put_nul buf (host_end buf start)) start) ≡ true
host_text-clean buf start =
    all-take_of_le in_line _ (drop start (put_nul buf (host_end buf start))) (ground arith)
      (all-ended in_line start (host_end buf start) buf refl)

host_text-fits : (buf : List ℕ) (start : ℕ) → length (host_text buf start) < host_size
host_text-fits buf start = ground (
  arith,
  length-take
      (if leb host_size (strlen (drop start buf)) then host_size - 1 else strlen (drop start buf))
      (drop start buf),
)

scheme_length :
    (xs : List ℕ) → bytes_eq (take 7 (cstring xs)) (codes "http://") ≡ true → 7 ≤ strlen xs
scheme_length xs h = omega (
  arith,
  ap length (bytes_eq→eq (take 7 (cstring xs)) (codes "http://") h),
  length-take 7 (cstring xs),
  length-take (strlen xs) xs,
)

-- Behind the scheme and the host of an absolute URI.
rest-clean :
    (buf : List ℕ) (path : ℕ)
    → 7 ≤ strlen (drop path buf)
    → all not_space (cstring (drop path buf)) ≡ true
    → all not_space (cstring (drop (path + 7 + span not_slash (drop (path + 7) buf)) buf)) ≡ true
rest-clean buf path long h =
    subst (λ (xs : List ℕ). all not_space (cstring xs) ≡ true)
      (drop-drop path (7 + span not_slash (drop (path + 7) buf)) _ buf (omega arith))
      (all-cstring-drop not_space (7 + span not_slash (drop (path + 7) buf)) (drop path buf)
        (omega (arith, inside, strlen-drop 7 (drop path buf) long, ap strlen same)) h)
  where
    same : drop 7 (drop path buf) ≡ drop (path + 7) buf
    same = drop-drop path 7 (path + 7) buf refl

    inside : span not_slash (drop (path + 7) buf) ≤ strlen (drop (path + 7) buf)
    inside = span-le-strlen not_slash (drop (path + 7) buf) (λ x t. ground arith)

-- The part of a path that the URI is.
uri_start-clean :
    (buf : List ℕ) (path : ℕ)
    → all not_space (cstring (drop path buf)) ≡ true
    → all not_space (uri_text buf (uri_start buf path)) ≡ true
unfolding uri_start
uri_start-clean buf path h = elim (Bool-cases absolute) [
  | inl yes_scheme ↦ elim (Bool-cases (ltb 0 (strlen (drop p buf)))) [
    | inl more ↦
        passes (some p) (if_true _ _ more ∙ if_true _ _ yes_scheme)
          (rest-clean buf path (scheme_length (drop path buf) yes_scheme) h)
    | inr nothing ↦ passes none (if_false _ _ nothing ∙ if_true _ _ yes_scheme) refl
  ]
  | inr relative ↦ passes (some path) (if_false _ _ relative) h
]
  where
    absolute : Bool
    absolute = bytes_eq (take 7 (cstring (drop path buf))) (codes "http://")

    p : ℕ
    p = path + 7 + span not_slash (drop (path + 7) buf)

    passes :
        (o : Option ℕ)
        → o ≡ uri_start buf path
        → all not_space (uri_text buf o) ≡ true
        → all not_space (uri_text buf (uri_start buf path)) ≡ true
    passes o e = subst (λ (q : Option ℕ). all not_space (uri_text buf q) ≡ true) e

-- The string that a found byte ends.
strchr-clean :
    (buf : List ℕ) (start i : ℕ)
    → strchr buf start b' ' ≡ some i
    → all not_space (cstring (drop start (put_nul buf i))) ≡ true
strchr-clean buf start i found =
    all_mono _ not_space (cstring (drop start (put_nul buf i))) (λ x t. ground arith)
      (all-ended (λ x. not (x == b' ') && nonzero x) start i buf (ground arith))

finish_request-IsClean :
    (buf : List ℕ) (start : ℕ) (uri : Option ℕ) (r : Request)
    → all not_space (uri_text buf uri) ≡ true
    → finish_request buf start uri ≡ parsed r
    → IsClean r
unfolding finish_request
finish_request-IsClean buf start uri r h run =
    let made : r ≡ record {
      host = host_text (put_nul buf (host_end buf start)) start;
      uri = uri_text (put_nul buf (host_end buf start)) uri;
    } =
      ground arith in
    subst IsClean (sym made) (record {
      uri = ended uri h;
      host = host_text-clean buf start;
      fits = host_text-fits (put_nul buf (host_end buf start)) start;
    })
  where
    ended :
        (o : Option ℕ)
        → all not_space (uri_text buf o) ≡ true
        → all not_space (uri_text (put_nul buf (host_end buf start)) o) ≡ true
    ended none q = q
    ended (some i) q = all-drop-put_nul not_space i buf (host_end buf start) q

-- In a request that was accepted, the URI holds no space and the host no line break, and the host
-- fits its array with a NUL behind it.
pub parse_request-IsClean : (buf : List ℕ) (r : Request) → parse_request buf ≡ parsed r → IsClean r
unfolding parse_request
parse_request-IsClean buf r run =
    let (line_end, _, run1) = >>=-eq-parsed (or_close (memmem_simple buf crlf) no_crlf) _ run in
    let (line, _, run2) = >>=-eq-parsed (terminate buf line_end) _ run1 in
    let (sp1, _, run3) =
      >>=-eq-parsed (or_close (strchr line 0 b' ') no_space_after_method) _ run2 in
    let (at_method, _, run4) = >>=-eq-parsed (terminate line sp1) _ run3 in
    let (sp2, found, run5) =
      >>=-eq-parsed (or_close (strchr at_method (sp1 + 1) b' ') no_space_before_http) _ run4 in
    let (at_path, ended, run6) = >>=-eq-parsed (terminate at_method sp2) _ run5 in
    let (_, _, run7) =
      >>=-eq-parsed (guard (bytes_eq (cstring at_path) (codes "GET")) not_get) _ run6 in
    let (value, _, run8) =
      >>=-eq-parsed (or_close (find_host_header (drop (line_end + 2) at_path)) no_host) _ run7 in
    finish_request-IsClean at_path (line_end + 2 + value) (uri_start at_path (sp1 + 1)) r
      (uri_start-clean at_path (sp1 + 1)
        (string at_method at_path sp1 sp2 (or_close-eq _ _ found) ended))
      run8
  where
    or_close-eq :
        {A : Type 0} (o : Option A) (reason : Reason) {a : A}
        → or_close o reason ≡ parsed a
        → o ≡ some a
    or_close-eq none reason e = cc
    or_close-eq (some a) reason e = cc

    string :
        (at_method at_path : List ℕ) (sp1 sp2 : ℕ)
        → strchr at_method (sp1 + 1) b' ' ≡ some sp2
        → terminate at_method sp2 ≡ parsed at_path
        → all not_space (cstring (drop (sp1 + 1) at_path)) ≡ true
    string at_method at_path sp1 sp2 found ended =
        let same : put_nul at_method sp2 ≡ at_path = ground arith in
        subst (λ (b : List ℕ). all not_space (cstring (drop (sp1 + 1) b)) ≡ true) same
          (strchr-clean at_method (sp1 + 1) sp2 found)
