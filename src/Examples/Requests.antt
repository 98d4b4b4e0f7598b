-- ===== src/Examples/Requests.antt =====
-- Requests, their parts and their keys.
use operation_systems.Base.{
  ℕ, ◌≡◌, ◌≢◌, ◌↔◌, refl, true, List, ◌++◌, none, some, arith, length, drop, replicate,
}
use operation_systems.Base.Bytes.{codes}
use operation_systems.Proxy.Search.{memmem_simple, memmem_simple-First, First, find_host_header}
use operation_systems.Proxy.Request.{
  parsed, closes, overflow, not_get, Request, crlf, header_end, buf_size, parse_request,
  finish_request, make_key,
}
use operation_systems.Proxy.Request.Text.{all}
use operation_systems.Proxy.Request.{in_line}
use operation_systems.Proxy.Request.Clean.{IsClean, parse_request-IsClean}
use operation_systems.Proxy.Request.Bounds.{host_write_overflows, parse_in_bounds}
use operation_systems.Proxy.Request.Key.{make_key_injective}

abbrev get : List ℕ
get = codes "GET http://a.org/x HTTP/1.0" ++ (crlf ++ (codes "Host: a.org" ++ header_end))

abbrev asked : Request
asked = record { host = codes "a.org"; uri = codes "/x" }

get_parsed : parse_request get ≡ parsed asked
unfolding parse_request memmem_simple find_host_header
get_parsed = refl

post_closed : parse_request (codes "POST /x HTTP/1.0" ++ (crlf ++ codes "Host: a")) ≡ closes not_get
unfolding parse_request memmem_simple find_host_header
post_closed = refl

-- A name that ends in `Host:` is taken for the header.
other_header : find_host_header (codes "X-Forwarded-Host: b" ++ (crlf ++ codes "Host: a")) ≡ some 18
unfolding find_host_header memmem_simple
other_header = refl

memmem_simple-First_example :
    First (codes "abcabc") (codes "ca") (memmem_simple (codes "abcabc") (codes "ca"))
memmem_simple-First_example = memmem_simple-First (codes "abcabc") (codes "ca") (omega arith)

parse_request-IsClean_example : IsClean asked
parse_request-IsClean_example = parse_request-IsClean get asked get_parsed

parse_in_bounds_example : parse_request get ≢ overflow
parse_in_bounds_example = parse_in_bounds get (omega arith)

make_key_injective_example : (asked.host ≡ codes "a.org") × (asked.uri ≡ codes "/x")
unfolding make_key
make_key_injective_example =
    make_key_injective asked (record { host = codes "a.org"; uri = codes "/x" })
      parse_request-IsClean_example parse_request-IsClean_example (omega arith) (omega arith) refl

-- A full buffer whose last bytes are the value of a `Host:` header.
abbrev full_buffer : List ℕ
full_buffer = codes "Host:" ++ replicate 8187 b'a'

host_write_overflows_example :
    (finish_request full_buffer 5 none ≡ overflow)
    ↔ ((length full_buffer ≡ buf_size) × (all in_line (drop 5 full_buffer) ≡ true))
host_write_overflows_example = host_write_overflows full_buffer 5 none (omega arith) (omega arith)
