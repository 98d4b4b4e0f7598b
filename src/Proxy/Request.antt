-- ===== src/Proxy/Request.antt =====
-- The first half of `handle_client`: the headers are read, and the request is taken apart.
--
-- The array `buf` is the list of its first `used` bytes; its pointers are indices into it. A `'\0'`
-- that the source writes into it is `put_nul`; a write behind the array is `overflow`.
pub mod Text
pub mod Clean
pub mod Bounds
pub mod Key
use mathlib.Core.Option
use operation_systems.Base.{
  ℕ, zero, suc, ◌+◌, ◌-◌, ◌≡◌, ◌⊎◌, inl, inr, refl, Bool, true, false, not, ◌&&◌, List, [], ◌∷◌,
  ◌++◌, Option, none, some, ltb, leb, ◌==◌, if◌then◌else◌, length, take, drop, get_elem?,
}
use operation_systems.Base.Bytes.{codes, bytes_eq}
use operation_systems.Proxy.Search.{memmem_simple, find_host_header, span}

-- `sizeof(buf)`, `sizeof(host)`, `sizeof(key)`
abbrev pub buf_size : ℕ
buf_size = 8192

abbrev pub host_size : ℕ
host_size = 256

abbrev pub key_size : ℕ
key_size = 512

abbrev pub crlf : List ℕ
crlf = 0x0d ∷ 0x0a ∷ []

abbrev pub header_end : List ℕ
header_end = 0x0d ∷ 0x0a ∷ 0x0d ∷ 0x0a ∷ []

-- The reasons for which the connection is closed before the cache is asked.
pub data Reason : Type 0 where
  recv_failed closed_early headers_too_large : Reason
  no_crlf no_space_after_method no_space_before_http not_get no_host : Reason

pub data Parsed {ℓ} (A : Type ℓ) : Type ℓ where
  parsed : A → Parsed A
  closes : Reason → Parsed A
  waits_for_more : Parsed A
  overflow : Parsed A

infixl 5 ◌>>=◌ ◌>>◌
abbrev pub ◌>>=◌ {ℓ κ} : {A : Type ℓ} {B : Type κ} → Parsed A → (A → Parsed B) → Parsed B
parsed a >>= f = f a
closes r >>= f = closes r
waits_for_more >>= f = waits_for_more
overflow >>= f = overflow

abbrev pub ◌>>◌ {ℓ} : {B : Type ℓ} → Parsed (Unit {0}) → Parsed B → Parsed B
m >> k = m >>= λ _. k

abbrev pub or_close {ℓ} : {A : Type ℓ} → Option A → Reason → Parsed A
or_close none r = closes r
or_close (some a) r = parsed a

abbrev pub guard : Bool → Reason → Parsed (Unit {0})
guard true r = parsed tt
guard false r = closes r

-- What `recv` answers. `arrived` gives at least a byte, and of its bytes those that there is room
-- for; the end of the list is a call that blocks.
pub data Recv : Type 0 where
  arrived : ℕ → List ℕ → Recv
  ended : Recv
  interrupted : Recv
  failed : Recv

-- The loop that reads until the headers are whole.
unfoldable pub receive : List Recv → List ℕ → Parsed (List ℕ)
receive [] buf = waits_for_more
receive (failed ∷ events) buf = closes recv_failed
receive (interrupted ∷ events) buf = receive events buf
receive (ended ∷ events) buf = closes closed_early
receive (arrived b bs ∷ events) buf =
    let now = buf ++ take (buf_size - length buf) (b ∷ bs) in
    let rest = receive events now in
    elim (memmem_simple now header_end) [
      | some _ ↦ parsed now
      | none ↦ if length now == buf_size then closes headers_too_large else rest
    ]

-- The bytes before the first NUL, as `strlen` counts them.
abbrev pub nonzero : ℕ → Bool
nonzero c = not (c == 0)

abbrev pub strlen : List ℕ → ℕ
strlen = span nonzero

abbrev pub cstring : List ℕ → List ℕ
cstring xs = take (strlen xs) xs

-- `strchr(buf + from, c)`, as an index into `buf`.
abbrev pub strchr : List ℕ → ℕ → ℕ → Option ℕ
strchr buf from c =
    let i = from + span (λ x. not (x == c) && nonzero x) (drop from buf) in
    elim (get_elem? buf i) [ none ↦ none | some x ↦ if x == c then some i else none ]

abbrev pub put_nul : List ℕ → ℕ → List ℕ
put_nul [] zero = 0 ∷ []
put_nul [] (suc i) = []
put_nul (x ∷ xs) zero = 0 ∷ xs
put_nul (x ∷ xs) (suc i) = x ∷ put_nul xs i

-- `buf[i] = '\0'`, in the array of `buf_size` bytes.
abbrev pub terminate : List ℕ → ℕ → Parsed (List ℕ)
terminate buf i = if ltb i buf_size then parsed (put_nul buf i) else overflow

abbrev http_scheme : List ℕ
http_scheme = codes "http://"

abbrev pub not_slash : ℕ → Bool
not_slash c = nonzero c && not (c == b'/')

-- Where the URI starts; `none` is the constant "/".
unfoldable pub uri_start : List ℕ → ℕ → Option ℕ
uri_start buf path =
    if bytes_eq (take 7 (cstring (drop path buf))) http_scheme
    then (let p = path + 7 + span not_slash (drop (path + 7) buf) in
        if ltb 0 (strlen (drop p buf)) then some p else none)
    else some path

abbrev pub uri_text : List ℕ → Option ℕ → List ℕ
uri_text buf none = codes "/"
uri_text buf (some i) = cstring (drop i buf)

abbrev pub in_line : ℕ → Bool
in_line c = not (c == 0x0d) && not (c == 0x0a)

-- The end of the value that starts at `start`: a CR, a LF, or the end of what was received.
abbrev pub host_end : List ℕ → ℕ → ℕ
host_end buf start = start + span in_line (drop start buf)

abbrev pub host_text : List ℕ → ℕ → List ℕ
host_text buf start =
    let len = strlen (drop start buf) in
    take (if leb host_size len then host_size - 1 else len) (drop start buf)

pub record Request : Type 0 where
  pub host : List ℕ
  pub uri : List ℕ

-- The value of the `Host:` header is ended by a NUL, and then the strings are read.
unfoldable pub finish_request : List ℕ → ℕ → Option ℕ → Parsed Request
finish_request buf start uri = do
  done ← terminate buf (host_end buf start)
  parsed (record { host = host_text done start; uri = uri_text done uri })

unfoldable pub parse_request : List ℕ → Parsed Request
unfolding finish_request uri_start
parse_request buf = do
  line_end ← or_close (memmem_simple buf crlf) no_crlf
  line ← terminate buf line_end
  sp1 ← or_close (strchr line 0 b' ') no_space_after_method
  at_method ← terminate line sp1
  sp2 ← or_close (strchr at_method (sp1 + 1) b' ') no_space_before_http
  at_path ← terminate at_method sp2
  guard (bytes_eq (cstring at_path) (codes "GET")) not_get
  found ← or_close (find_host_header (drop (line_end + 2) at_path)) no_host
  finish_request at_path (line_end + 2 + found) (uri_start at_path (sp1 + 1))

-- `snprintf(key, sizeof(key), "%s %s", host, uri)`
unfoldable pub make_key : Request → List ℕ
make_key r = take (key_size - 1) (r.host ++ (b' ' ∷ r.uri))

-- Inversion of a chain of steps that succeeds.
pub >>=-eq-parsed {ℓ κ} :
    {A : Type ℓ} {B : Type κ} (m : Parsed A) (f : A → Parsed B) {b : B}
    → (m >>= f) ≡ parsed b
    → (a : A) × (m ≡ parsed a) × (f a ≡ parsed b)
>>=-eq-parsed (parsed a) f h = (a, refl, h)
>>=-eq-parsed (closes r) f h = cc
>>=-eq-parsed waits_for_more f h = cc
>>=-eq-parsed overflow f h = cc

-- A chain goes wrong in its first step, or behind a first step that succeeds.
pub >>=-eq-overflow {ℓ κ} :
    {A : Type ℓ} {B : Type κ} (m : Parsed A) (f : A → Parsed B)
    → (m >>= f) ≡ overflow
    → (m ≡ overflow) ⊎ ((a : A) × (m ≡ parsed a) × (f a ≡ overflow))
>>=-eq-overflow (parsed a) f h = inr (a, refl, h)
>>=-eq-overflow (closes r) f h = cc
>>=-eq-overflow waits_for_more f h = cc
>>=-eq-overflow overflow f h = inl refl
