-- ===== src/Net/Url.antt =====
-- `Url` and `parse_url` of src/net/url.hpp and url.cpp.
pub mod Parts
use stok.Base.{
  ℕ, zero, suc, ◌+◌, ◌-◌, ◌^◌, Bool, true, false, ◌&&◌, ◌||◌, not, Option, none, some, List, [],
  ◌∷◌, ◌++◌, ltb, leb, ◌==◌, if◌then◌else◌, length, take, drop,
}
use mathlib.Core.Option
use stok.Util.Ascii.{Bytes, codes, trim, istarts_with, find_byte, parse_unsigned, to_lower_copy}
use stok.Util.Time.Format.{decimal}

pub record Url : Type 0 where
  pub tls : Bool
  pub host : Bytes
  pub port : ℕ
  pub target : Bytes
  pub host_header : Bytes

-- `find_first_of("/?")`
unfoldable pub find_slash : Bytes → Option ℕ
find_slash [] = none
find_slash (c ∷ s) =
    let later = Option.map suc (find_slash s) in
    if (c == b'/') || (c == b'?') then some 0 else later

-- `rfind`
unfoldable pub find_last : ℕ → Bytes → Option ℕ
find_last b [] = none
find_last b (c ∷ s) = last (find_last b s)
  where
    last : Option ℕ → Option ℕ
    last none = if c == b then some 0 else none
    last (some i) = some (suc i)

-- A text up to a place, or all of it.
abbrev pub up_to : Bytes → Option ℕ → Bytes
up_to s none = s
up_to s (some i) = take i s

-- With the slash that a query alone is given.
abbrev pub slashed : Bytes → Bytes
slashed [] = []
slashed (c ∷ s) = if c == b'?' then b'/' ∷ c ∷ s else c ∷ s

abbrev pub target_from : Bytes → Option ℕ → Bytes
target_from s none = b'/' ∷ []
target_from s (some i) = slashed (drop i s)

-- Without a fragment.
unfoldable pub target_of : Bytes → Option ℕ → Bytes
unfolding find_byte
target_of s slash = up_to (target_from s slash) (find_byte b'#' (target_from s slash))

-- The host and the port of an authority; a colon inside brackets is none.
abbrev pub port_from : Bytes → ℕ → Option ℕ → Option (Bytes × ℕ)
port_from host p none = none
port_from host p (some q) = if (q == 0) || ltb 65535 q then none else some (host, q)

abbrev pub host_port : Bytes → ℕ → Option ℕ → Option ℕ → Option (Bytes × ℕ)
host_port authority p none bracket = some (authority, p)
host_port authority p (some colon) none =
    port_from (take colon authority) p (parse_unsigned (2 ^ 32 - 1) (drop (colon + 1) authority))
host_port authority p (some colon) (some bracket) = some (authority, p)

abbrev pub present : Option ℕ → Bool
present none = false
present (some i) = true

abbrev pub finished : Bool → Bytes → Option (Bytes × ℕ) → Option Url
finished tls target none = none
finished tls target (some (host0, port)) =
    let host = to_lower_copy host0 in
    some (record {
      tls = tls;
      host = host;
      port = port;
      target = target;
      host_header =
          if tls && (port == 443) || not tls && (port == 80)
          then host
          else host ++ (b':' ∷ decimal 5 port);
    })

-- Past the scheme.
abbrev pub after_scheme : Bool → ℕ → Bytes → Option Url
after_scheme tls port s =
    let slash = find_slash s in
    let authority = up_to s slash in
    if length authority == 0
    then none
    else if present (find_byte b'@' authority)
    then none
    else finished tls (target_of s slash)
        (host_port authority port (find_last b':' authority) (find_byte b']' authority))

unfoldable pub parse_url : Bytes → Option Url
unfolding trim istarts_with find_slash find_last find_byte target_of parse_unsigned to_lower_copy
    decimal
parse_url s0 =
    let s = trim s0 in
    if istarts_with s (codes "https://")
    then after_scheme true 443 (drop 8 s)
    else if istarts_with s (codes "http://")
    then after_scheme false 80 (drop 7 s)
    else none
